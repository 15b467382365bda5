-- ===== src/Store/RoundTripTests.antt =====
-- Blobs and files in memory, and the theorems on Upload and Download at them.
use Prim.Native.String.{◌++◌ as join_text}
use sandbox_fleet.Base.{
  ℕ, String, Bool, true, false, ◌||◌, ◌==◌, if◌then◌else◌, All, ◌≡◌, ◌≢◌, ◌∙◌, refl, sym, ap, subst,
  ◌⊎◌, inl, inr, [], ◌∷◌, Option, none, some, arith, string_key, nat_key, Elem,
}
use sandbox_fleet.Base.Map.{Map, lookup, insert, delete, lookup-insert}
use sandbox_fleet.Base.Result.{Result, ok, err, ◌>>=◌}
use sandbox_fleet.Base.Text.{str_ltb}
use sandbox_fleet.Base.Sort.{sort}
use sandbox_fleet.Worker.Types.{Failure, not_found, no_identity}
use sandbox_fleet.Store.Paths.{
  normalize_storage_path, is_space, is_slash, is_valid_file_name, contains, has_prefix,
}
use sandbox_fleet.Store.Ops.{
  Manifest, Blobs, Libs, regular_names, list_regular_files, upload_zstd_file, upload, download,
}
use sandbox_fleet.Store.Sending.{IsLawful, names_of}
use sandbox_fleet.Store.Publishing.{IsPublished, upload-IsPublished}
use sandbox_fleet.Store.Faithful.{IsFaithful, IsFileName}
use sandbox_fleet.Store.RoundTrip.{IsRestored, download-upload}
use sandbox_fleet.Worker.Files.Paths.{path_join, join_rest}
use sandbox_fleet.Worker.Files.Resolved.{IsName, same-ne}
use sandbox_fleet.Worker.Files.Written.{contains-SlashFree, path_join-name, file_path}
use text.Mathlib.TextEquality.{eq_iff}
use text.Mathlib.TextLemmas.{append_cancel_left, append_cancel_right}

abbrev Blob : Type 0
Blob = Manifest ⊎ ℕ

abbrev World : Type 0
World = Map String Blob × Map String ℕ

abbrev read_back : Option Blob → Result Failure Blob
read_back none = err not_found
read_back (some b) = ok b

abbrev packed : Option ℕ → Result Failure (Blob × ℕ)
packed none = err not_found
packed (some c) = ok (inr c, 1)

abbrev unpack : Blob → Option ℕ
unpack (inl m) = none
unpack (inr c) = some c

abbrev put_unpacked : World → String → Blob → World × Result Failure (Unit {0})
put_unpacked w path (inl m) = (w, err not_found)
put_unpacked w path (inr c) = ((w.0, insert path c w.1), ok tt)

abbrev decode : Blob → Result Failure Manifest
decode (inl m) = ok m
decode (inr c) = err not_found

-- filepath.Join
abbrev in_dir : String → String → String
in_dir = path_join

abbrev blobs : Blobs World Blob
blobs = record {
  put = λ w key body. ((insert key body w.0, w.1), ok tt);
  get = λ w key. (w, read_back (lookup key w.0));
  delete = λ w key. ((delete key w.0, w.1), ok tt);
}

abbrev libs : Libs World Blob
libs = record {
  read_dir = λ w dir. (w, ok (("state", true) ∷ ("memory", true) ∷ []));
  mkdir_all = λ w dir. (w, ok tt);
  compress = λ w path. (w, packed (lookup path w.1));
  decompress = put_unpacked;
  encode = λ m. ok (inl m);
  decode = decode;
  now = λ w. 5;
  join = in_dir;
}

abbrev at : World → String → Option Blob
at w key = lookup key w.0

abbrev file : World → String → Option ℕ
file w path = lookup path w.1

lawful : IsLawful blobs libs at
lawful = record {
  put_same = λ w key body k. ground (arith, lookup-insert key key body w.0);
  put_other = λ w key j body n. ground (arith, lookup-insert j key body w.0);
  read_dir = λ w dir j. refl;
  compress = λ w path j. refl;
}

packed_lem :
    (o : Option ℕ) (body : Blob) (size : ℕ)
    → packed o ≡ ok (body, size)
    → (c : ℕ) × ((unpack body ≡ some c) × (o ≡ some c))
packed_lem none body size k = absurd (ground arith)
packed_lem (some c) (inl m) size k = absurd (ground arith)
packed_lem (some c) (inr d) size k = (c, (ground arith, refl))

put_unpacked-same :
    (w : World) (path : String) (body : Blob) (c : ℕ)
    → unpack body ≡ some c
    → ((put_unpacked w path body).1 ≡ ok tt) × (file (put_unpacked w path body).0 path ≡ some c)
put_unpacked-same w path (inl m) c k = absurd (ground arith)
put_unpacked-same w path (inr d) c k = (refl, ground (arith, lookup-insert path path d w.1))

put_unpacked-other :
    (w : World) (path p : String) (body : Blob)
    → path ≢ p
    → file (put_unpacked w path body).0 p ≡ file w p
put_unpacked-other w path p (inl m) n = refl
put_unpacked-other w path p (inr d) n = ground (arith, lookup-insert p path d w.1)

-- The target directory, and the path of a file name in it.
abbrev target : String
target = "/restore"

restore-IsName : All IsName ("restore" ∷ [])
unfolding is_slash nat_key
restore-IsName = (
  record {
    part = record {
      slash_free = (refl, (refl, (refl, (refl, (refl, (refl, (refl, tt)))))));
      filled = ground (arith, eq_iff "restore" "");
      not_here = ground (arith, eq_iff "restore" ".");
    };
    not_up = ground (arith, eq_iff "restore" "..");
  },
  tt,
)

valid-tests :
    (empty slash up : Bool)
    → (if empty || slash || up then false else true) ≡ true
    → (empty ≡ false) × (slash ≡ false) × (up ≡ false)
valid-tests empty slash up e = ground arith

up-contains : contains ".." ".." ≡ true
unfolding contains has_prefix nat_key
up-contains = refl

IsFileName-IsName : (name : String) → IsFileName name → IsName name
unfolding is_valid_file_name
IsFileName-IsName name (valid, here) =
    let (filled, part, up) =
      valid-tests (name == "") (contains name "/") (contains name "..") valid in
    record {
      part = record {
        slash_free = contains-SlashFree name part;
        filled = same-ne filled;
        not_here = here;
      };
      not_up = λ e.
          let both : contains ".." ".." ≡ false = subst (λ t. contains t ".." ≡ false) e up in
          ground (arith, up-contains);
    }

in_target :
    (name : String)
    → IsFileName name
    → in_dir target name ≡ file_path "restore" [] restore-IsName name
unfolding join_rest
in_target name h = path_join-name "restore" [] restore-IsName name (IsFileName-IsName name h)

in_dir-inj :
    (a b : String) → IsFileName a → IsFileName b → a ≢ b → in_dir target a ≢ in_dir target b
unfolding join_rest
in_dir-inj a b p q n e =
    let same = sym (in_target a p) ∙ e ∙ in_target b q in
    n (
      append_cancel_right a b "" (
        append_cancel_left "/" (join_text a "") (join_text b "") (
          append_cancel_left "restore" (join_text "/" (join_text a ""))
            (join_text "/" (join_text b ""))
            (append_cancel_left "/" (join_text "restore" (join_text "/" (join_text a "")))
              (join_text "restore" (join_text "/" (join_text b ""))) same))))

put_unpacked-blobs :
    (w : World) (path j : String) (body : Blob) → at (put_unpacked w path body).0 j ≡ at w j
put_unpacked-blobs w path j (inl m) = refl
put_unpacked-blobs w path j (inr d) = refl

faithful : IsFaithful blobs libs at file unpack target
faithful = record {
  get_held = λ w key body h. ap read_back h;
  get_at = λ w key j. refl;
  get_file = λ w key p. refl;
  put_file = λ w key p body. refl;
  read_dir_file = λ w dir p. refl;
  compress_file = λ w path p. refl;
  packs = λ w path body size k. packed_lem (lookup path w.1) body size k;
  unpacks = λ w a body c p h. put_unpacked-same w (in_dir target a) body c h;
  unpacks_there = λ w a b body p q n.
      put_unpacked-other w (in_dir target a) (in_dir target b) body (in_dir-inj a b p q n);
  unpacks_at = put_unpacked-blobs;
  mkdir_ok = λ w. refl;
  mkdir_at = λ w j. refl;
  mkdir_file = λ w p. refl;
  decodes = λ m raw e. ap (λ r. r >>= decode) (sym e);
}

abbrev manifest : Manifest
manifest = record {
  runtime_handler = "gvisor";
  format_version = "1";
  snapshot_files = [];
  source_sandbox = no_identity;
  pool_ref = "pool";
  container = record { image = "image"; command = []; args = []; env = [] };
  created_at = 0;
}

-- The directory "run" has the files "memory" and "state".
abbrev taken : World
taken = ([], ("run/memory", 7) ∷ ("run/state", 8) ∷ [])

listed_names : names_of (list_regular_files blobs libs taken "run").1 ≡ "memory" ∷ "state" ∷ []
unfolding list_regular_files regular_names sort string_key str_ltb
listed_names = refl

memory-IsFileName : IsFileName "memory"
unfolding is_valid_file_name contains has_prefix string_key nat_key
memory-IsFileName = (refl, ground (arith, eq_iff "memory" "."))

state-IsFileName : IsFileName "state"
unfolding is_valid_file_name contains has_prefix string_key nat_key
state-IsFileName = (refl, ground (arith, eq_iff "state" "."))

listed_proper : (n : String) → Elem n ("memory" ∷ "state" ∷ []) → IsFileName n
listed_proper n m = elim m [
  | inl e ↦ subst IsFileName (sym e) memory-IsFileName
  | inr l ↦ elim l [ inl e ↦ subst IsFileName (sym e) state-IsFileName | inr z ↦ elim z [ ] ]
]

names_proper :
    (n : String) → Elem n (names_of (list_regular_files blobs libs taken "run").1) → IsFileName n
names_proper n m = listed_proper n (subst (Elem n) listed_names m)

same_twice :
    normalize_storage_path (normalize_storage_path "snapshots/a")
    ≡ normalize_storage_path "snapshots/a"
unfolding normalize_storage_path is_space is_slash nat_key
same_twice = refl

uploaded : (upload blobs libs "snapshots/a" "run" manifest taken).2 ≡ ok tt
unfolding upload list_regular_files regular_names sort string_key nat_key str_ltb upload_zstd_file
    lookup path_join
uploaded = refl

download-upload_example :
    IsRestored blobs libs at file unpack target lawful faithful taken "run"
      (names_of (list_regular_files blobs libs taken "run").1)
      manifest
      (libs.now (list_regular_files blobs libs taken "run").0)
      (download blobs libs "snapshots/a" target
        (upload blobs libs "snapshots/a" "run" manifest taken).0)
download-upload_example =
    download-upload blobs libs at file unpack target lawful faithful "snapshots/a" "run" manifest
      taken same_twice names_proper uploaded

upload-IsPublished_example :
    IsPublished blobs libs at lawful taken
      (upload blobs libs "snapshots/a" "run" manifest taken).0
      (normalize_storage_path "snapshots/a")
      (names_of (list_regular_files blobs libs taken "run").1)
      manifest
      (libs.now (list_regular_files blobs libs taken "run").0)
      (upload blobs libs "snapshots/a" "run" manifest taken).2
upload-IsPublished_example =
    upload-IsPublished blobs libs at lawful "snapshots/a" "run" manifest taken
