-- ===== src/Store/Faithful.antt =====
-- internal/snapshotstore/store.go: what a round trip of Upload and Download relies on, and the blobs
-- that an upload packs.
use Prim.Native.String.{◌++◌ as join_text}
use sandbox_fleet.Base.{true, ℕ, String, ◌≡◌, ◌≢◌, refl, ap, ◌∙◌, Option, some, arith, string_key}
use sandbox_fleet.Base.Result.{Result, ok, err}
use sandbox_fleet.Worker.Types.{Failure}
use sandbox_fleet.Store.Paths.{is_valid_file_name}
use sandbox_fleet.Store.Ops.{Manifest, Error, Blobs, Libs, and_then, file_key, zstd_suffix}
use text.Mathlib.TextLemmas.{append_cancel_left, append_cancel_right}

pub file_key_inj : (prefix a b : String) → file_key prefix a ≡ file_key prefix b → a ≡ b
file_key_inj prefix a b e =
    append_cancel_right a b zstd_suffix
      (append_cancel_left prefix (join_text a zstd_suffix) (join_text b zstd_suffix) e)

-- A sequence that succeeds: its first call does, and then the rest.
pub and_then-ok :
    {W S T : Type 0} (r : W × Result Failure S) (f : W → S → W × Result Error T) (t : T)
    → (and_then r f).1 ≡ ok t
    → (s : S) × ((r.1 ≡ ok s) × (and_then r f ≡ f r.0 s))
and_then-ok (w, ok s) f t e = (s, (refl, refl))
and_then-ok (w, err x) f t e = absurd (ground arith)

pub and_then_after :
    {W S T : Type 0} (r : W × Result Failure S) (f : W → S → W × Result Error T) (s : S)
    → r.1 ≡ ok s
    → and_then r f ≡ f r.0 s
and_then_after (w, ok x) f s e = ap (f w) (ground arith)
and_then_after (w, err x) f s e = absurd (ground arith)

-- What both outcomes of a sequence leave as the call did.
pub and_then-kept :
    {W S T X : Type 0} (see : W → X) (r : W × Result Failure S) (f : S → Result Error T)
    → see (and_then r (λ w s. (w, f s))).0 ≡ see r.0
and_then-kept see (w, ok s) f = refl
and_then-kept see (w, err x) f = refl

-- A valid name that can be one of a file in a directory: "." is the directory.
abbrev pub IsFileName : String → Type 0
IsFileName name = (is_valid_file_name name ≡ true) × (◌≢◌ {A = String} name ".")

module _ {W B C : Type 0} (blobs : Blobs W B) (libs : Libs W B) where
  -- What Upload and Download rely on beside the laws of Upload, for a world that holds blobs, `at`, and
  -- local files, `file`, and for what a blob decompresses to, `unpack`: reading changes nothing, a blob
  -- that is held is read, compressing a file makes a blob that decompresses to its content, a blob that
  -- is decompressed to the path of a file name in the target directory is written there and leaves what
  -- other file names have there, the directory can be made, and JSON is read back.
  pub record IsFaithful (at : W → String → Option B) (file : W → String → Option C)
      (unpack : B → Option C) (target : String) : Type 0 where
    pub get_held :
        (w : W) (key : String) (body : B) → at w key ≡ some body → (blobs.get w key).1 ≡ ok body
    pub get_at : (w : W) (key j : String) → at (blobs.get w key).0 j ≡ at w j
    pub get_file : (w : W) (key p : String) → file (blobs.get w key).0 p ≡ file w p
    pub put_file : (w : W) (key p : String) (body : B) → file (blobs.put w key body).0 p ≡ file w p
    pub read_dir_file : (w : W) (dir p : String) → file (libs.read_dir w dir).0 p ≡ file w p
    pub compress_file : (w : W) (path p : String) → file (libs.compress w path).0 p ≡ file w p
    pub packs :
        (w : W) (path : String) (body : B) (size : ℕ)
        → (libs.compress w path).1 ≡ ok (body, size)
        → (c : C) × ((unpack body ≡ some c) × (file w path ≡ some c))
    pub unpacks :
        (w : W) (a : String) (body : B) (c : C)
        → IsFileName a
        → unpack body ≡ some c
        → ((libs.decompress w (libs.join target a) body).1 ≡ ok tt)
          × (file (libs.decompress w (libs.join target a) body).0 (libs.join target a) ≡ some c)
    pub unpacks_there :
        (w : W) (a b : String) (body : B)
        → IsFileName a
        → IsFileName b
        → a ≢ b
        → file (libs.decompress w (libs.join target a) body).0 (libs.join target b)
          ≡ file w (libs.join target b)
    pub unpacks_at :
        (w : W) (path j : String) (body : B) → at (libs.decompress w path body).0 j ≡ at w j
    pub mkdir_ok : (w : W) → (libs.mkdir_all w target).1 ≡ ok tt
    pub mkdir_at : (w : W) (j : String) → at (libs.mkdir_all w target).0 j ≡ at w j
    pub mkdir_file : (w : W) (p : String) → file (libs.mkdir_all w target).0 p ≡ file w p
    pub decodes : (m : Manifest) (raw : B) → libs.encode m ≡ ok raw → libs.decode raw ≡ ok m

module _ {W B C : Type 0} (at : W → String → Option B) (unpack : B → Option C) where
  -- The blob at a key decompresses to what a name is expected to hold.
  pub record IsPacked (w : W) (key : String) (expected : Option C) : Type 0 where
    pub body : B
    pub content : C
    pub held : at w key ≡ some body
    pub unpacked : unpack body ≡ some content
    pub as_expected : expected ≡ some content

  pub IsPacked-kept :
      (w w' : W) (key : String) (expected : Option C)
      → at w' key ≡ at w key
      → IsPacked w key expected
      → IsPacked w' key expected
  IsPacked-kept w w' key expected e h = record {
    body = h.body;
    content = h.content;
    held = e ∙ h.held;
    unpacked = h.unpacked;
    as_expected = h.as_expected;
  }
