-- ===== src/Worker/Files/Paths.antt =====
-- internal/runtime/files.go: which path of the sandbox a request for a file names, with the functions
-- of Go's path and strings packages that it calls.
use Prim.Native.Char.{Char}
use Prim.Native.String.{[], ◌∷◌, ◌++◌}
use mathlib.Core.List.{reverse}
use sandbox_fleet.Base.{
  String, Bool, true, false, ◌||◌, List, [], ◌∷◌, if◌then◌else◌, ◌==◌, ◌!=◌, string_key,
}
use sandbox_fleet.Base.Result.{Result, ok, err}
use sandbox_fleet.Store.Paths.{is_slash, trim_space, trim_slash, is_empty, has_prefix, contains}

abbrev pub default_files_root : String
default_files_root = "/app"

-- The errors of the two checks.
pub data PathError : Type 0 where
  empty_path escapes_root not_plain : PathError

-- A character before the first part.
abbrev pub push : Char → List String → List String
push c [] = (c ∷ []) ∷ []
push c (s ∷ parts) = (c ∷ s) ∷ parts

-- strings.Split at a character that passes a test.
unfoldable pub split_at : (Char → Bool) → String → List String
split_at at [] = "" ∷ []
split_at at (c ∷ s) = let parts = split_at at s in if at c then "" ∷ parts else push c parts

unfoldable pub split_slash : String → List String
unfolding split_at is_slash
split_slash s = split_at is_slash s

-- The parts after the first, each after a slash.
unfoldable pub join_rest : List String → String
join_rest [] = ""
join_rest (s ∷ parts) = "/" ++ (s ++ join_rest parts)

-- The parts with slashes between them.
unfoldable pub join_slash : List String → String
unfolding join_rest
join_slash [] = ""
join_slash (s ∷ parts) = s ++ join_rest parts

-- The ".." of a path, with the last part before it at the head.
unfoldable pub go_up : Bool → List String → List String
go_up rooted [] = if rooted then [] else ".." ∷ []
go_up rooted (s ∷ stack) = if s == ".." then ".." ∷ (s ∷ stack) else stack

-- One round of path.Clean, with the parts so far from the last to the first.
unfoldable pub clean_part : Bool → List String → String → List String
unfolding go_up
clean_part rooted stack s =
    if s == ""
    then stack
    else if s == "."
    then stack
    else if s == ".."
    then go_up rooted stack
    else s ∷ stack

unfoldable pub clean_from : Bool → List String → List String → List String
unfolding clean_part
clean_from rooted stack [] = stack
clean_from rooted stack (s ∷ parts) = clean_from rooted (clean_part rooted stack s) parts

abbrev pub is_rooted : String → Bool
is_rooted [] = false
is_rooted (c ∷ s) = is_slash c

abbrev pub or_dot : String → String
or_dot [] = "."
or_dot (c ∷ s) = c ∷ s

-- The text of the parts of a path: one without parts is ".".
unfoldable pub clean_parts : Bool → List String → String
unfolding clean_from join_slash
clean_parts rooted parts =
    let kept = reverse (clean_from rooted [] parts) in
    if rooted then "/" ++ join_slash kept else or_dot (join_slash kept)

-- path.Clean
unfoldable pub clean : String → String
unfolding split_slash clean_parts is_slash
clean path = clean_parts (is_rooted path) (split_slash path)

-- path.Join of two elements.
unfoldable pub path_join : String → String → String
unfolding clean
path_join [] [] = ""
path_join [] (c ∷ s) = clean (c ∷ s)
path_join (c ∷ s) t = clean ((c ∷ s) ++ ("/" ++ t))

-- The path without the slashes at its end.
unfoldable pub trim_slashes : String → String
unfolding is_slash
trim_slashes [] = ""
trim_slashes (c ∷ s) =
    let rest = trim_slashes s in
    if is_slash c then (if is_empty rest then "" else c ∷ rest) else c ∷ rest

abbrev pub last_of : String → List String → String
last_of s [] = s
last_of s (t ∷ parts) = last_of t parts

-- path.Base
unfoldable pub path_base : String → String
unfolding trim_slashes split_slash
path_base [] = "."
path_base (c ∷ s) =
    let path = trim_slashes (c ∷ s) in if is_empty path then "/" else last_of "" (split_slash path)

-- The loop over the parts: whether one of them is "..".
unfoldable pub goes_up : List String → Bool
goes_up [] = false
goes_up (s ∷ parts) = let later = goes_up parts in if s == ".." then true else later

-- ResolveUnderRoot, where the path has been cleaned.
unfoldable pub resolve_normalized : String → String → Result PathError String
unfolding goes_up path_join has_prefix split_slash
resolve_normalized files_root normalized =
    if normalized == ".." || has_prefix normalized "../"
    then err escapes_root
    else if goes_up (split_slash normalized)
    then err escapes_root
    else if normalized == "." || normalized == ""
    then ok files_root
    else ok (path_join files_root normalized)

unfoldable pub resolve_under_root : String → String → Result PathError String
unfolding resolve_normalized trim_space trim_slash clean
resolve_under_root files_root rel =
    let stripped = trim_space rel in
    if stripped == ""
    then err empty_path
    else resolve_normalized files_root (trim_slash (clean stripped))

unfoldable pub validate_write_name : String → Result PathError (Unit {0})
unfolding path_base contains trim_space
validate_write_name name =
    let base = path_base name in
    if trim_space name == ""
    then err empty_path
    else if base == "." || base == ".." || base == "/" || base != name
    then err not_plain
    else if contains name "/" || contains name "\\"
    then err not_plain
    else ok tt
