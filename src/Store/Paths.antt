-- ===== src/Store/Paths.antt =====
-- internal/snapshotstore/store.go: normalizeStoragePath and validateFileName, with the functions of
-- Go's strings package that they call.
use Prim.Native.Char.{Char, code}
use Prim.Native.String.{[], ◌∷◌, ◌++◌}
use sandbox_fleet.Base.{
  ℕ, String, Bool, true, false, ◌||◌, ◌&&◌, ◌==◌, leb, if◌then◌else◌, string_key, nat_key,
}

-- unicode.IsSpace
abbrev pub is_space_code : ℕ → Bool
is_space_code n =
    (leb 9 n && leb n 13)
    || n == 32
    || n == 133
    || n == 160
    || n == 5760
    || (leb 8192 n && leb n 8202)
    || n == 8232
    || n == 8233
    || n == 8239
    || n == 8287
    || n == 12288

unfoldable pub is_space : Char → Bool
is_space c = is_space_code (code c)

-- The code of '/'.
abbrev pub slash_code : ℕ
slash_code = 47

unfoldable pub is_slash : Char → Bool
is_slash c = code c == slash_code

unfoldable pub trim_left : String → String
trim_left [] = ""
trim_left (c ∷ s) = let rest = trim_left s in if is_space c then rest else c ∷ s

abbrev pub is_empty : String → Bool
is_empty [] = true
is_empty (c ∷ s) = false

unfoldable pub trim_right : String → String
trim_right [] = ""
trim_right (c ∷ s) = let rest = trim_right s in if is_space c && is_empty rest then "" else c ∷ rest

-- strings.TrimSpace
unfoldable pub trim_space : String → String
unfolding trim_left trim_right
trim_space s = trim_right (trim_left s)

-- strings.TrimPrefix of "/"
unfoldable pub trim_slash : String → String
trim_slash [] = ""
trim_slash (c ∷ s) = if is_slash c then s else c ∷ s

-- strings.HasSuffix of "/"
unfoldable pub ends_in_slash : String → Bool
ends_in_slash [] = false
ends_in_slash (c ∷ s) = let later = ends_in_slash s in if is_empty s then is_slash c else later

abbrev pub add_slash : String → String
add_slash [] = ""
add_slash (c ∷ s) = if ends_in_slash (c ∷ s) then c ∷ s else (c ∷ s) ++ "/"

unfoldable pub normalize_storage_path : String → String
unfolding trim_space trim_slash ends_in_slash
normalize_storage_path path = add_slash (trim_slash (trim_space path))

-- strings.HasPrefix
unfoldable pub has_prefix : String → String → Bool
has_prefix s [] = true
has_prefix [] (d ∷ t) = false
has_prefix (c ∷ s) (d ∷ t) = let later = has_prefix s t in if code c == code d then later else false

-- strings.Contains
unfoldable pub contains : String → String → Bool
unfolding has_prefix
contains [] part = is_empty part
contains (c ∷ s) part =
    let later = contains s part in if has_prefix (c ∷ s) part then true else later

unfoldable pub is_valid_file_name : String → Bool
unfolding contains
is_valid_file_name name =
    if name == "" || contains name "/" || contains name ".." then false else true
