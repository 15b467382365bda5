-- ===== src/Worker/Files/Tests.antt =====
-- internal/runtime/files.go and files_shell.go at concrete paths and texts.
use sandbox_fleet.Base.{◌≡◌, ◌↔◌, refl, [], string_key, nat_key}
use sandbox_fleet.Base.Result.{ok, err}
use sandbox_fleet.Store.Paths.{is_space, trim_space}
use sandbox_fleet.Worker.Files.Paths.{
  default_files_root, escapes_root, empty_path, not_plain, join_rest, path_join, resolve_under_root,
  validate_write_name,
}
use sandbox_fleet.Worker.Files.Resolved.{StaysUnder, resolve_under_root-StaysUnder}
use sandbox_fleet.Worker.Files.RoundTrip.{files_root-IsName}
use sandbox_fleet.Worker.Files.Written.{resolve_under_root-written}

-- A path with detours.
resolved : resolve_under_root default_files_root " /../a//./b/../c " ≡ ok "/app/a/c"
unfolding resolve_under_root string_key nat_key is_space
resolved = refl

refused : resolve_under_root default_files_root "a/../../etc" ≡ err escapes_root
unfolding resolve_under_root string_key nat_key is_space
refused = refl

blank : validate_write_name " " ≡ err empty_path
unfolding validate_write_name string_key nat_key is_space
blank = refl

nested : validate_write_name "a/b" ≡ err not_plain
unfolding validate_write_name string_key nat_key is_space
nested = refl

padded : validate_write_name "a " ≡ ok tt
unfolding validate_write_name string_key nat_key is_space
padded = refl

resolve_under_root-StaysUnder_example :
    StaysUnder "app" [] files_root-IsName
      (resolve_under_root default_files_root " /../a//./b/../c ")
unfolding join_rest
resolve_under_root-StaysUnder_example =
    resolve_under_root-StaysUnder "app" [] files_root-IsName " /../a//./b/../c "

resolve_under_root-written_example :
    (resolve_under_root default_files_root "a " ≡ ok (path_join default_files_root "a "))
    ↔ (trim_space "a " ≡ "a ")
unfolding join_rest
resolve_under_root-written_example =
    resolve_under_root-written "app" [] files_root-IsName "a " padded
