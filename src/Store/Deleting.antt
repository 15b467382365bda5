-- ===== src/Store/Deleting.antt =====
-- internal/snapshotstore/store.go: what Delete leaves in the storage.
use sandbox_fleet.Base.{
  String, true, ◌≡◌, ◌≢◌, refl, sym, ap, subst, ◌∙◌, ◌⊎◌, inl, inr, List, [], ◌∷◌, Option, none,
  some, Bool-cases, arith, string_key, Elem,
}
use sandbox_fleet.Base.Result.{Result, ok, err, Result-cases}
use sandbox_fleet.Worker.Types.{Failure}
use sandbox_fleet.Store.Paths.{is_valid_file_name, normalize_storage_path}
use sandbox_fleet.Store.Ops.{
  Manifest, Blobs, Libs, manifest_key, file_key, get_manifest, first_error, delete_keys, file_keys,
  files_to_delete, delete,
}

-- The key of a file that `names` lists under a valid name.
abbrev pub IsFileOf : String → List String → String → Type 0
IsFileOf prefix names key =
    (name : String) × (Elem name names
      × (is_valid_file_name name ≡ true)
      × (key ≡ file_key prefix name))

module _ {W B : Type 0} (blobs : Blobs W B) (libs : Libs W B) where
  -- How the calls of Delete change what a blob storage holds: a delete that succeeds takes its key
  -- away, a delete never changes another key, and a get changes nothing. What a delete that fails
  -- leaves at its key is open.
  pub record IsErasable (at : W → String → Option B) : Type 0 where
    pub gone :
        (w : W) (key : String)
        → (blobs.delete w key).1 ≡ ok tt
        → at (blobs.delete w key).0 key ≡ none
    pub other : (w : W) (key j : String) → key ≢ j → at (blobs.delete w key).0 j ≡ at w j
    pub get : (w : W) (key j : String) → at (blobs.get w key).0 j ≡ at w j

  module _ (at : W → String → Option B) (erasable : IsErasable at) where
    file_keys-Elem :
        (prefix : String) (names : List String) (key : String)
        → IsFileOf prefix names key
        → Elem key (file_keys blobs libs prefix names)
    unfolding file_keys
    file_keys-Elem prefix [] key (name, (listed, valid, same)) = elim listed [ ]
    file_keys-Elem prefix (n ∷ names) key (name, (inl e, valid, same)) = ground arith
    file_keys-Elem prefix (n ∷ names) key (name, (inr listed, valid, same)) =
        let later = file_keys-Elem prefix names key (name, (listed, valid, same)) in ground arith

    Elem-file_keys :
        (prefix : String) (names : List String) (key : String)
        → Elem key (file_keys blobs libs prefix names)
        → IsFileOf prefix names key
    unfolding file_keys
    Elem-file_keys prefix [] key h = elim h [ ]
    Elem-file_keys prefix (n ∷ names) key h =
        let later : Elem key (file_keys blobs libs prefix names) → IsFileOf prefix (n ∷ names) key =
          λ g. let f = Elem-file_keys prefix names key g in (f.0, (inr f.1.0, f.1.1, f.1.2)) in
        elim (Bool-cases (is_valid_file_name n)) [
          | inl e ↦
              let split : (key ≡ file_key prefix n) ⊎ Elem key (file_keys blobs libs prefix names) =
                ground arith in
              elim split [ inl same ↦ (n, (inl refl, e, same)) | inr g ↦ later g ]
          | inr e ↦ let g : Elem key (file_keys blobs libs prefix names) = ground arith in later g
        ]

    delete_keys-error :
        (keys : List String) (w : W) (e : Failure)
        → (delete_keys blobs libs keys w (some e)).1 ≡ some e
    unfolding delete_keys
    delete_keys-error [] w e = refl
    delete_keys-error (key ∷ keys) w e = delete_keys-error keys (blobs.delete w key).0 e

    delete_keys-other :
        (keys : List String) (w : W) (first : Option Failure) (j : String)
        → ¬ Elem j keys
        → at (delete_keys blobs libs keys w first).0 j ≡ at w j
    unfolding delete_keys
    delete_keys-other [] w first j n = refl
    delete_keys-other (key ∷ keys) w first j n =
        delete_keys-other keys (blobs.delete w key).0
          (first_error blobs libs first (blobs.delete w key).1) j (λ h. n (inr h))
        ∙ erasable.other w key j (λ e. n (inl (sym e)))

    -- A delete that succeeds keeps what is gone.
    kept_gone :
        (w : W) (key j : String)
        → (blobs.delete w key).1 ≡ ok tt
        → at w j ≡ none
        → at (blobs.delete w key).0 j ≡ none
    kept_gone w key j k h = elim (string_key.same key j) [
      | yes e ↦ ground (arith, erasable.gone w key)
      | no n ↦ erasable.other w key j n ∙ h
    ]

    -- All deletes succeeded if there is no first error.
    first-delete_keys :
        (keys : List String) (w : W) (r : Result Failure (Unit {0}))
        → (delete_keys blobs libs keys w (first_error blobs libs none r)).1 ≡ none
        → r ≡ ok tt
    first-delete_keys keys w (ok _) k = refl
    first-delete_keys keys w (err e) k = let failed = delete_keys-error keys w e in ground arith

    delete_keys-kept_gone :
        (keys : List String) (w : W) (j : String)
        → (delete_keys blobs libs keys w none).1 ≡ none
        → at w j ≡ none
        → at (delete_keys blobs libs keys w none).0 j ≡ none
    unfolding delete_keys
    delete_keys-kept_gone [] w j k h = h
    delete_keys-kept_gone (key ∷ keys) w j k h =
        let e = first-delete_keys keys (blobs.delete w key).0 (blobs.delete w key).1 k in
        let later = delete_keys-kept_gone keys (blobs.delete w key).0 j in
        subst
          (λ f.
            (delete_keys blobs libs keys (blobs.delete w key).0 f).1 ≡ none
            → at (delete_keys blobs libs keys (blobs.delete w key).0 f).0 j ≡ none)
          (ap (first_error blobs libs none) (sym e)) (λ q. later q (kept_gone w key j e h)) k

    delete_keys-gone :
        (keys : List String) (w : W) (j : String)
        → (delete_keys blobs libs keys w none).1 ≡ none
        → Elem j keys
        → at (delete_keys blobs libs keys w none).0 j ≡ none
    unfolding delete_keys
    delete_keys-gone [] w j k h = elim h [ ]
    delete_keys-gone (key ∷ keys) w j k h =
        let e = first-delete_keys keys (blobs.delete w key).0 (blobs.delete w key).1 k in
        let later = delete_keys-gone keys (blobs.delete w key).0 j in
        subst
          (λ f.
            (delete_keys blobs libs keys (blobs.delete w key).0 f).1 ≡ none
            → at (delete_keys blobs libs keys (blobs.delete w key).0 f).0 j ≡ none)
          (ap (first_error blobs libs none) (sym e))
          (λ q. elim h [
            | inl same ↦
                delete_keys-kept_gone keys (blobs.delete w key).0 j q (
                  subst (λ t. at (blobs.delete w key).0 t ≡ none) (sym same)
                    (erasable.gone w key e))
            | inr h ↦ later q h
          ])
          k

    first_error-none :
        (o : Option Failure) (r : Result Failure (Unit {0}))
        → first_error blobs libs o r ≡ none
        → (o ≡ none) × (r ≡ ok tt)
    first_error-none (some e) r k = ground arith
    first_error-none none (ok _) k = (refl, refl)
    first_error-none none (err e) k = ground arith

    get_manifest-quiet :
        (path : String) (w : W) (j : String) → at (get_manifest blobs libs path w).0 j ≡ at w j
    unfolding get_manifest
    get_manifest-quiet path w j =
        let key = manifest_key (normalize_storage_path path) in
        let got = erasable.get w key j in
        elim (Result-cases (blobs.get w key).1) [
          | inl (raw, e) ↦ elim (Result-cases (libs.decode raw)) [
            | inl (m, f) ↦ ground arith
            | inr (x, f) ↦ ground arith
          ]
          | inr (x, e) ↦ ground arith
        ]

    files_to_delete-quiet :
        (prefix : String) (names : List String) (w : W) (j : String)
        → at (files_to_delete blobs libs prefix names w).0 j ≡ at w j
    unfolding files_to_delete
    files_to_delete-quiet prefix (name ∷ names) w j = refl
    files_to_delete-quiet prefix [] w j =
        let same = get_manifest-quiet prefix w j in
        elim (Result-cases (get_manifest blobs libs prefix w).1) [
          | inl (m, e) ↦ ground arith
          | inr (x, e) ↦ ground arith
        ]

    -- The keys of a snapshot for a Delete that is given `names`: its manifest, the files that are given,
    -- and where none are given, the files of the manifest that is read at the path normalized again.
    abbrev pub IsTarget : String → List String → W → String → Type 0
    IsTarget storage_path names w key =
        (key ≡ manifest_key (normalize_storage_path storage_path))
        ⊎ IsFileOf (normalize_storage_path storage_path) names key
        ⊎ ((names ≡ [])
            × ((raw : B) × ((m : Manifest) × (((blobs.get w (
                        manifest_key
                          (normalize_storage_path (normalize_storage_path storage_path)))).1
                      ≡ ok raw)
                    × (libs.decode raw ≡ ok m)
                    × IsFileOf (normalize_storage_path storage_path) m.snapshot_files key))))

    get_manifest-read :
        (path : String) (w : W) (raw : B) (m : Manifest)
        → (blobs.get w (manifest_key (normalize_storage_path path))).1 ≡ ok raw
        → libs.decode raw ≡ ok m
        → (get_manifest blobs libs path w).1 ≡ ok m
    unfolding get_manifest
    get_manifest-read path w raw m e f = ground arith

    files_to_delete-Elem :
        (storage_path : String) (names : List String) (w : W) (key : String)
        → IsTarget storage_path names w key
        → let prefix = normalize_storage_path storage_path in
          (key ≡ manifest_key prefix)
          ⊎ IsFileOf prefix (files_to_delete blobs libs prefix names w).1 key
    unfolding files_to_delete
    files_to_delete-Elem storage_path names w key (inl e) = inl e
    files_to_delete-Elem storage_path [] w key (inr (inl (name, (listed, valid, same)))) =
        elim listed [ ]
    files_to_delete-Elem storage_path (n ∷ names) w key (inr (inl f)) = inr f
    files_to_delete-Elem storage_path (n ∷ names) w key (inr (inr (e, rest))) =
        absurd (ground arith)
    files_to_delete-Elem storage_path [] w key (inr (inr (e, (raw, (m, (got, decoded, f)))))) =
        let prefix = normalize_storage_path storage_path in
        let read = get_manifest-read prefix w raw m got decoded in
        inr (rw (read, files_to_delete) f)

    -- Delete, when it returns no error, leaves neither the manifest nor a file with a valid name that it
    -- was given, or that the manifest lists, at the path normalized again, where none was given. The
    -- blob storage is erasable.
    pub delete-gone :
        (storage_path : String) (names : List String) (w : W) (key : String)
        → (delete blobs libs storage_path names w).1 ≡ none
        → IsTarget storage_path names w key
        → at (delete blobs libs storage_path names w).0 key ≡ none
    unfolding delete
    delete-gone storage_path names w key k target =
        let prefix = normalize_storage_path storage_path in
        let chosen = files_to_delete blobs libs prefix names w in
        let keys = file_keys blobs libs prefix chosen.1 in
        let d = delete_keys blobs libs keys chosen.0 none in
        let last = manifest_key prefix in
        let both = first_error-none d.1 (blobs.delete d.0 last).1 k in
        elim (files_to_delete-Elem storage_path names w key target) [
          | inl e ↦
              subst (λ t. at (blobs.delete d.0 last).0 t ≡ none) (sym e)
                (erasable.gone d.0 last both.1)
          | inr f ↦
              kept_gone d.0 last key both.1
                (delete_keys-gone keys chosen.0 key both.0 (file_keys-Elem prefix chosen.1 key f))
        ]
