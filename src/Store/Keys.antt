-- ===== src/Store/Keys.antt =====
-- internal/snapshotstore/store.go: no compressed file has the key of the manifest.
use Prim.Native.Char.{code}
use Prim.Native.String.{[], ◌∷◌, ◌++◌ as join_text}
use Prim.Native.String.append.{cons}
use sandbox_fleet.Base.{ℕ, String, false, ◌≡◌, ◌≢◌, refl, sym, ap, subst, if◌then◌else◌, arith}
use sandbox_fleet.Store.Paths.{is_empty}
use sandbox_fleet.Store.Ops.{manifest_key, file_key, zstd_suffix, manifest_file_name}
use text.Mathlib.TextLemmas.{append_cancel_left}

-- The code of the last character.
unfoldable last_code : String → ℕ
last_code [] = 0
last_code (c ∷ s) = let later = last_code s in if is_empty s then code c else later

filled : (s : String) → is_empty (join_text s zstd_suffix) ≡ false
filled [] = refl
filled (c ∷ s) = subst (λ t. is_empty t ≡ false) (sym (cons c s zstd_suffix)) refl

last_code-zstd : (s : String) → last_code (join_text s zstd_suffix) ≡ 100
unfolding last_code
last_code-zstd [] = refl
last_code-zstd (c ∷ s) =
    let later = last_code-zstd s in
    let full = filled s in
    let here : last_code (c ∷ join_text s zstd_suffix) ≡ 100 = ground arith in
    subst (λ t. last_code t ≡ 100) (sym (cons c s zstd_suffix)) here

last_code-manifest : last_code manifest_file_name ≡ 110
unfolding last_code
last_code-manifest = refl

pub file_key_is_no_manifest : (prefix name : String) → file_key prefix name ≢ manifest_key prefix
file_key_is_no_manifest prefix name e =
    let same : join_text name zstd_suffix ≡ manifest_file_name =
      append_cancel_left prefix (join_text name zstd_suffix) manifest_file_name e in
    let code_of = ap last_code same in
    let zstd = last_code-zstd name in let manifest = last_code-manifest in ground arith
