-- ===== src/Store/Publishing.antt =====
-- internal/snapshotstore/store.go: the manifest and the files that Upload leaves in the storage.
use sandbox_fleet.Base.{
  ℕ, String, Bool, true, ◌≡◌, ◌≢◌, refl, sym, subst, ◌∙◌, ◌⊎◌, inl, inr, List, [], ◌∷◌, Option,
  some, arith, string_key, Elem,
}
use sandbox_fleet.Base.Map.{is_some}
use sandbox_fleet.Base.Result.{Result, ok, err, Result-cases}
use sandbox_fleet.Worker.Types.{Failure}
use sandbox_fleet.Store.Paths.{normalize_storage_path}
use sandbox_fleet.Store.Ops.{
  Manifest, Error, Blobs, Libs, manifest_key, file_key, upload_files, put_manifest, completed,
  upload_listed, list_regular_files, upload,
}
use sandbox_fleet.Store.Keys.{file_key_is_no_manifest}
use sandbox_fleet.Store.Sending.{
  IsLawful, IsPresent, names_of, upload_files-manifest, upload_files-IsPresent,
}

-- The manifest that is made of a given one and the names of the files: it lists them, has a time, and
-- is for the rest the given one.
pub record IsCompletion (given : Manifest) (names : List String) (now : ℕ) (m : Manifest)
    : Type 0 where
  pub lists : m.snapshot_files ≡ names
  pub time_kept : given.created_at ≢ 0 → m.created_at ≡ given.created_at
  pub time_now : given.created_at ≡ 0 → m.created_at ≡ now
  pub handler_kept : m.runtime_handler ≡ given.runtime_handler
  pub format_kept : m.format_version ≡ given.format_version
  pub source_kept : m.source_sandbox ≡ given.source_sandbox
  pub pool_kept : m.pool_ref ≡ given.pool_ref
  pub container_kept : m.container ≡ given.container

module _ {W B : Type 0} (blobs : Blobs W B) (libs : Libs W B) where
  pub completed-IsCompletion :
      (w : W) (given : Manifest) (names : List String)
      → IsCompletion given names (libs.now w) (completed blobs libs w given names)
  unfolding completed
  completed-IsCompletion w given names = record {
    lists = refl;
    time_kept = λ n. ground arith;
    time_now = λ e. ground arith;
    handler_kept = refl;
    format_kept = refl;
    source_kept = refl;
    pool_kept = refl;
    container_kept = refl;
  }

  module _ (at : W → String → Option B) (lawful : IsLawful blobs libs at) where
    -- Every file of a list that is not empty is there.
    pub record AreStored (w : W) (prefix : String) (names : List String) : Type 0 where
      pub some_name : names ≢ []
      pub present :
          (name : String)
          → Elem name names
          → IsPresent blobs libs at lawful w (file_key prefix name)

    -- What a key holds after an encoding was written to it.
    abbrev pub WrittenAs : Result Failure B → Option B → Type 0
    WrittenAs (ok raw) held = held ≡ some raw
    WrittenAs (err e) held = ⊥

    -- A world that an upload left, with what the encoding of its manifest gave.
    pub record IsPut (before after : W) (prefix : String) (names : List String)
        (encoded : Result Failure B) (r : Result Error (Unit {0})) : Type 0 where
      pub safe :
          (at after (manifest_key prefix) ≡ at before (manifest_key prefix))
          ⊎ AreStored after prefix names
      pub complete :
          r ≡ ok tt
          → AreStored after prefix names × WrittenAs encoded (at after (manifest_key prefix))

    AreStored-put :
        (w : W) (prefix : String) (names : List String) (raw : B)
        → AreStored w prefix names
        → AreStored (blobs.put w (manifest_key prefix) raw).0 prefix names
    AreStored-put w prefix names raw s = record {
      some_name = s.some_name;
      present = λ name h.
          subst (λ o. is_some o ≡ true)
            (sym (
              lawful.put_other w (manifest_key prefix) (file_key prefix name) raw
                (λ e. file_key_is_no_manifest prefix name (sym e))))
            (s.present name h);
    }

    put_manifest-IsPut :
        (before : W) (prefix : String) (names : List String) (manifest : Manifest)
        (r : W × ℕ × Result Error (Unit {0}))
        → at r.0 (manifest_key prefix) ≡ at before (manifest_key prefix)
        → (r.2 ≡ ok tt → AreStored r.0 prefix names)
        → IsPut before
            (put_manifest blobs libs prefix manifest r).0
            prefix
            names
            (libs.encode manifest)
            (put_manifest blobs libs prefix manifest r).2
    unfolding put_manifest
    put_manifest-IsPut before prefix names manifest (w, total, err e) same stored = record {
      safe = inl same;
      complete = λ k. cc;
    }
    put_manifest-IsPut before prefix names manifest (w, total, ok _) same stored =
        elim (Result-cases (libs.encode manifest)) [
          | inr (x, e) ↦ rw (e, put_manifest) (record { safe = inl same; complete = λ k. cc })
          | inl (raw, e) ↦
              let kept = AreStored-put w prefix names raw (stored refl) in
              elim (Result-cases (blobs.put w (manifest_key prefix) raw).1) [
                | inl (u, f) ↦
                    rw (e, f, put_manifest)
                      (record {
                        safe = inr kept;
                        complete = λ k. (kept, lawful.put_same w (manifest_key prefix) raw f);
                      })
                | inr (x, f) ↦
                    rw (e, f, put_manifest) (record { safe = inr kept; complete = λ k. cc })
              ]
        ]

    upload_listed-IsPut :
        (before : W) (prefix dir : String) (manifest : Manifest)
        (l : W × Result Error (List String))
        → at l.0 (manifest_key prefix) ≡ at before (manifest_key prefix)
        → IsPut before
            (upload_listed blobs libs prefix dir manifest l).0
            prefix
            (names_of l.1)
            (libs.encode (completed blobs libs l.0 manifest (names_of l.1)))
            (upload_listed blobs libs prefix dir manifest l).2
    unfolding upload_listed
    upload_listed-IsPut before prefix dir manifest (w, err e) same = record {
      safe = inl same;
      complete = λ k. cc;
    }
    upload_listed-IsPut before prefix dir manifest (w, ok []) same = record {
      safe = inl same;
      complete = λ k. cc;
    }
    upload_listed-IsPut before prefix dir manifest (w, ok (name ∷ names)) same =
        put_manifest-IsPut before prefix (name ∷ names)
          (completed blobs libs w manifest (name ∷ names))
          (upload_files blobs libs prefix dir (name ∷ names) 0 w)
          (upload_files-manifest blobs libs at lawful prefix dir (name ∷ names) 0 w ∙ same)
          (λ k. record {
            some_name = λ e. ground arith;
            present = λ n h.
                upload_files-IsPresent blobs libs at lawful prefix dir (name ∷ names) 0 w n k h;
          })

    list_regular_files-quiet :
        (w : W) (dir j : String) → at (list_regular_files blobs libs w dir).0 j ≡ at w j
    unfolding list_regular_files
    list_regular_files-quiet w dir j = go (libs.read_dir w dir) refl (lawful.read_dir w dir j)
      where
        go :
            (r : W × Result Failure (List (String × Bool)))
            → libs.read_dir w dir ≡ r
            → at (libs.read_dir w dir).0 j ≡ at w j
            → at (list_regular_files blobs libs w dir).0 j ≡ at w j
        go (w', ok entries) e h = rw (e, list_regular_files) (subst (λ x. at x.0 j ≡ at w j) e h)
        go (w', err x) e h = rw (e, list_regular_files) (subst (λ y. at y.0 j ≡ at w j) e h)

    pub upload-IsPut :
        (storage_path dir : String) (manifest : Manifest) (w : W)
        → IsPut w
            (upload blobs libs storage_path dir manifest w).0
            (normalize_storage_path storage_path)
            (names_of (list_regular_files blobs libs w dir).1)
            (libs.encode (
              completed blobs libs
                (list_regular_files blobs libs w dir).0
                manifest
                (names_of (list_regular_files blobs libs w dir).1)))
            (upload blobs libs storage_path dir manifest w).2
    unfolding upload
    upload-IsPut storage_path dir manifest w =
        upload_listed-IsPut w (normalize_storage_path storage_path) dir manifest
          (list_regular_files blobs libs w dir)
          (list_regular_files-quiet w dir (manifest_key (normalize_storage_path storage_path)))

    -- A world that an upload of a manifest left: the manifest at the path is the old one or its files
    -- are there, and after a success the files are there and the encoding of a manifest that lists them,
    -- made of the given one.
    pub record IsPublished (before after : W) (prefix : String) (names : List String)
        (given : Manifest) (now : ℕ) (r : Result Error (Unit {0})) : Type 0 where
      pub safe :
          (at after (manifest_key prefix) ≡ at before (manifest_key prefix))
          ⊎ AreStored after prefix names
      pub complete :
          r ≡ ok tt
          → AreStored after prefix names
            × ((m : Manifest) × (IsCompletion given names now m
                  × WrittenAs (libs.encode m) (at after (manifest_key prefix))))

    -- Upload writes the manifest last: whatever fails, the manifest at the path is what it was before,
    -- or every file that was listed is there; and after a success every listed file is there, and the
    -- manifest is the encoding of one that lists these files, has the time of the given one, or of the
    -- clock where it has none, and is for the rest the given one. The blob storage is lawful.
    pub upload-IsPublished :
        (storage_path dir : String) (manifest : Manifest) (w : W)
        → IsPublished w
            (upload blobs libs storage_path dir manifest w).0
            (normalize_storage_path storage_path)
            (names_of (list_regular_files blobs libs w dir).1)
            manifest
            (libs.now (list_regular_files blobs libs w dir).0)
            (upload blobs libs storage_path dir manifest w).2
    upload-IsPublished storage_path dir manifest w =
        let listed = list_regular_files blobs libs w dir in
        let put = upload-IsPut storage_path dir manifest w in
        record {
          safe = put.safe;
          complete = λ k.
              let (stored, written) = put.complete k in
              (
                stored,
                (
                  completed blobs libs listed.0 manifest (names_of listed.1),
                  (completed-IsCompletion listed.0 manifest (names_of listed.1), written),
                ),
              );
        }
