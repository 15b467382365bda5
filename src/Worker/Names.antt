-- ===== src/Worker/Names.antt =====
-- internal/snapshotter/snapshotter.go: names of restored instances, prefixes of their ids, and the first
-- of several values or paths.
use Prim.Native.String.{[], ◌∷◌, ◌++◌}
use sandbox_fleet.Base.{
  ℕ, zero, suc, String, Bool, List, [], ◌∷◌, Option, none, some, if◌then◌else◌, ◌==◌, ◌!=◌,
  string_key, nat_key,
}
use sandbox_fleet.Worker.Types.{Identity}
use sandbox_fleet.Worker.Files.Paths.{path_base}
use sandbox_fleet.Store.Paths.{has_prefix, contains}

-- The first characters of a text: Go cuts at bytes, which are the characters of a uid.
unfoldable pub first_chars : ℕ → String → String
first_chars zero s = ""
first_chars (suc n) [] = ""
first_chars (suc n) (c ∷ s) = c ∷ first_chars n s

-- A text after its first characters.
unfoldable pub after_chars : String → String → String
after_chars s [] = s
after_chars [] (d ∷ t) = ""
after_chars (c ∷ s) (d ∷ t) = after_chars s t

-- RestoredName
unfoldable pub restored_name : Identity → String
unfolding first_chars path_base
restored_name identity =
    let base = if identity.name == "" then "restored" else identity.name in
    path_base base ++ ("-" ++ first_chars 8 identity.uid)

-- StripPrefix
unfoldable pub strip_prefix : String → String → Option String
unfolding after_chars has_prefix
strip_prefix s prefix = if has_prefix s prefix then some (after_chars s prefix) else none

-- firstNonEmpty
unfoldable pub first_non_empty : List String → String
first_non_empty [] = ""
first_non_empty (v ∷ values) = if v != "" then v else first_non_empty values

-- firstExistingPath, where `is_file` says whether os.Stat finds a file that is no directory.
module _ (is_file : String → Bool) where
  unfoldable pub first_path_from : String → List String → String
  unfolding contains
  first_path_from fallback [] = fallback
  first_path_from fallback (v ∷ values) =
      let skipped = first_path_from fallback values in
      let missing = first_path_from v values in
      if v == "" then skipped else if contains v "/" then if is_file v then v else missing else v

  unfoldable pub first_existing_path : List String → String
  unfolding first_path_from
  first_existing_path values = first_path_from "" values
