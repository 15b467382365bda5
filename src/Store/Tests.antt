-- ===== src/Store/Tests.antt =====
-- A blob storage in memory, and the theorem on Delete at it.
use sandbox_fleet.Base.{
  ℕ, String, true, ◌≡◌, refl, inl, inr, [], ◌∷◌, Option, none, some, arith, string_key, nat_key,
}
use sandbox_fleet.Base.Map.{Map, lookup, insert, delete, lookup-delete}
use sandbox_fleet.Base.Result.{ok, err}
use sandbox_fleet.Worker.Types.{not_found, no_identity}
use sandbox_fleet.Store.Paths.{normalize_storage_path, is_space, is_slash, is_valid_file_name}
use sandbox_fleet.Store.Ops.{Manifest, Blobs, Libs, delete as delete_snapshot}
use sandbox_fleet.Store.Deleting.{IsErasable, IsTarget, delete-gone}

abbrev World : Type 0
World = Map String ℕ

abbrev blobs : Blobs World ℕ
blobs = record {
  put = λ w key body. (insert key body w, ok tt);
  get = λ w key. (w, elim (lookup key w) [ none ↦ err not_found | some b ↦ ok b ]);
  delete = λ w key. (delete key w, ok tt);
}

abbrev manifest : Manifest
manifest = record {
  runtime_handler = "gvisor";
  format_version = "1";
  snapshot_files = "memory" ∷ [];
  source_sandbox = no_identity;
  pool_ref = "pool";
  container = record { image = "image"; command = []; args = []; env = [] };
  created_at = 0;
}

abbrev libs : Libs World ℕ
libs = record {
  read_dir = λ w dir. (w, ok (("memory", true) ∷ ("state", true) ∷ []));
  mkdir_all = λ w dir. (w, ok tt);
  compress = λ w path. (w, ok (7, 3));
  decompress = λ w path body. (w, ok tt);
  encode = λ m. ok 1;
  decode = λ b. ok manifest;
  now = λ w. 5;
  join = λ dir name. name;
}

abbrev at : World → String → Option ℕ
at w key = lookup key w

blobs-IsErasable : IsErasable blobs libs at
blobs-IsErasable = record {
  gone = λ w key k. ground (arith, lookup-delete key key w);
  other = λ w key j n. ground (arith, lookup-delete j key w);
  get = λ w key j. refl;
}

-- Upload writes below "/a/", and Download looks for the manifest below "a/".
two_slashes :
    (normalize_storage_path "//a" ≡ "/a/")
    × (normalize_storage_path (normalize_storage_path "//a") ≡ "a/")
unfolding normalize_storage_path is_space is_slash nat_key
two_slashes = (refl, refl)

abbrev stored : World
stored = ("a/memory.zstd", 7) ∷ ("a/manifest.json", 1) ∷ ("b/manifest.json", 1) ∷ []

no_error : (delete_snapshot blobs libs "a" [] stored).1 ≡ none
unfolding delete_snapshot is_valid_file_name string_key nat_key normalize_storage_path is_space
    is_slash lookup
no_error = refl

-- No file is given, and the manifest lists the file "memory".
memory-IsTarget : IsTarget blobs libs at blobs-IsErasable "a" [] stored "a/memory.zstd"
unfolding normalize_storage_path is_valid_file_name is_space is_slash nat_key string_key lookup
memory-IsTarget =
    inr (inr (refl, (1, (manifest, (refl, refl, ("memory", (inl refl, refl, refl)))))))

delete-gone_example : at (delete_snapshot blobs libs "a" [] stored).0 "a/memory.zstd" ≡ none
delete-gone_example =
    delete-gone blobs libs at blobs-IsErasable "a" [] stored "a/memory.zstd" no_error
      memory-IsTarget

-- A file that is given is deleted too, and the other snapshot stays.
given_file : (delete_snapshot blobs libs "a" ("memory" ∷ []) stored).0 ≡ ("b/manifest.json", 1) ∷ []
unfolding delete_snapshot is_valid_file_name string_key nat_key normalize_storage_path is_space
    is_slash delete
given_file = refl
