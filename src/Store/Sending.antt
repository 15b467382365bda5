-- ===== src/Store/Sending.antt =====
-- internal/snapshotstore/store.go: the files that Upload sends, which leave the manifest alone.
use sandbox_fleet.Base.{
  ℕ, ◌+◌, String, true, ◌≡◌, ◌≢◌, refl, sym, ap, subst, ◌∙◌, ◌⊎◌, inl, inr, List, [], ◌∷◌, Option,
  some, arith, string_key, Elem,
}
use sandbox_fleet.Base.Map.{is_some}
use sandbox_fleet.Base.Result.{Result, ok, err, Result-cases}
use sandbox_fleet.Worker.Types.{Failure}
use sandbox_fleet.Store.Ops.{
  Error, Blobs, Libs, and_then, manifest_key, file_key, put_compressed, upload_zstd_file,
  upload_files,
}
use sandbox_fleet.Store.Keys.{file_key_is_no_manifest}

-- The names that a listing found.
abbrev pub names_of : Result Error (List String) → List String
names_of (ok names) = names
names_of (err e) = []

module _ {W B : Type 0} (blobs : Blobs W B) (libs : Libs W B) where
  -- How the calls of Upload change what a blob storage holds, `at`: a put that succeeds writes its key,
  -- a put never changes another key, and the local calls change nothing. What a put that fails leaves
  -- at its key is open.
  pub record IsLawful (at : W → String → Option B) : Type 0 where
    pub put_same :
        (w : W) (key : String) (body : B)
        → (blobs.put w key body).1 ≡ ok tt
        → at (blobs.put w key body).0 key ≡ some body
    pub put_other :
        (w : W) (key j : String) (body : B) → key ≢ j → at (blobs.put w key body).0 j ≡ at w j
    pub read_dir : (w : W) (dir j : String) → at (libs.read_dir w dir).0 j ≡ at w j
    pub compress : (w : W) (path j : String) → at (libs.compress w path).0 j ≡ at w j

  module _ (at : W → String → Option B) (lawful : IsLawful at) where
    abbrev pub IsPresent : W → String → Type 0
    IsPresent w key = is_some (at w key) ≡ true

    put_kept :
        (w : W) (key j : String) (body : B)
        → (blobs.put w key body).1 ≡ ok tt
        → (key ≡ j) ⊎ IsPresent w j
        → IsPresent (blobs.put w key body).0 j
    put_kept w key j body k h = elim (string_key.same key j) [
      | yes e ↦ ground (arith, lawful.put_same w key body)
      | no n ↦ ground (arith, lawful.put_other w key j body n)
    ]

    put_compressed-other :
        (key j : String) (r : W × Result Failure (B × ℕ))
        → key ≢ j
        → at (put_compressed blobs libs key r).0 j ≡ at r.0 j
    unfolding put_compressed
    put_compressed-other key j (w, err e) n = refl
    put_compressed-other key j (w, ok (body, size)) n =
        go (blobs.put w key body) refl (lawful.put_other w key j body n)
      where
        go :
            (r : W × Result Failure (Unit {0}))
            → blobs.put w key body ≡ r
            → at (blobs.put w key body).0 j ≡ at w j
            → at (and_then {T = ℕ} (blobs.put w key body) (λ w' _. (w', ok size))).0 j ≡ at w j
        go (w', ok _) e h = rw e (subst (λ x. at x.0 j ≡ at w j) e h)
        go (w', err x) e h = rw e (subst (λ y. at y.0 j ≡ at w j) e h)

    put_compressed-kept :
        (key j : String) (size : ℕ) (r : W × Result Failure (B × ℕ))
        → (put_compressed blobs libs key r).1 ≡ ok size
        → (key ≡ j) ⊎ IsPresent r.0 j
        → IsPresent (put_compressed blobs libs key r).0 j
    unfolding put_compressed
    put_compressed-kept key j size (w, err e) k h = cc
    put_compressed-kept key j size (w, ok (body, n)) k h = go (blobs.put w key body) refl k
      where
        go :
            (r : W × Result Failure (Unit {0}))
            → blobs.put w key body ≡ r
            → (and_then (blobs.put w key body) (λ w' _. (w', ok n))).1 ≡ ok size
            → IsPresent (and_then {T = ℕ} (blobs.put w key body) (λ w' _. (w', ok n))).0 j
        go (w', ok _) e l =
            rw e (subst (λ x. IsPresent x.0 j) e (put_kept w key j body (ap (λ x. x.1) e) h))
        go (w', err x) e l = absurd (ground arith)

    upload_zstd_file-other :
        (w : W) (key path j : String)
        → key ≢ j
        → at (upload_zstd_file blobs libs w key path).0 j ≡ at w j
    unfolding upload_zstd_file
    upload_zstd_file-other w key path j n =
        put_compressed-other key j (libs.compress w path) n ∙ lawful.compress w path j

    upload_zstd_file-kept :
        (w : W) (key path j : String) (size : ℕ)
        → (upload_zstd_file blobs libs w key path).1 ≡ ok size
        → (key ≡ j) ⊎ IsPresent w j
        → IsPresent (upload_zstd_file blobs libs w key path).0 j
    unfolding upload_zstd_file
    upload_zstd_file-kept w key path j size k h =
        put_compressed-kept key j size (libs.compress w path) k (elim h [
          | inl e ↦ inl e
          | inr p ↦ inr (subst (λ o. is_some o ≡ true) (sym (lawful.compress w path j)) p)
        ])

    -- The files do not touch the manifest.
    pub upload_files-manifest :
        (prefix dir : String) (names : List String) (total : ℕ) (w : W)
        → at (upload_files blobs libs prefix dir names total w).0 (manifest_key prefix)
          ≡ at w (manifest_key prefix)
    unfolding upload_files
    upload_files-manifest prefix dir [] total w = refl
    upload_files-manifest prefix dir (name ∷ names) total w =
        let path = libs.join dir name in
        let sent = upload_zstd_file blobs libs w (file_key prefix name) path in
        let here =
          upload_zstd_file-other w (file_key prefix name) path (manifest_key prefix)
            (file_key_is_no_manifest prefix name) in
        let later = λ (size : ℕ). upload_files-manifest prefix dir names (total + size) sent.0 in
        elim (Result-cases sent.1) [
          | inl (size, e) ↦ rw (e, upload_files) (later size ∙ here)
          | inr (x, e) ↦ rw (e, upload_files) here
        ]

    -- After all files, each is there, and what was there before.
    upload_files-kept :
        (prefix dir : String) (names : List String) (total : ℕ) (w : W) (j : String)
        → (upload_files blobs libs prefix dir names total w).2 ≡ ok tt
        → IsPresent w j
        → IsPresent (upload_files blobs libs prefix dir names total w).0 j
    unfolding upload_files
    upload_files-kept prefix dir [] total w j k p = p
    upload_files-kept prefix dir (name ∷ names) total w j k p =
        let path = libs.join dir name in
        let sent = upload_zstd_file blobs libs w (file_key prefix name) path in
        let later = λ (size : ℕ). upload_files-kept prefix dir names (total + size) sent.0 j in
        elim (Result-cases sent.1) [
          | inl (size, e) ↦
              let kept = upload_zstd_file-kept w (file_key prefix name) path j size e (inr p) in
              let k' : (upload_files blobs libs prefix dir names (total + size) sent.0).2 ≡ ok tt =
                rw (e, upload_files) at k in
              rw (e, upload_files) (later size k' kept)
          | inr (x, e) ↦ absurd (ground arith)
        ]

    pub upload_files-IsPresent :
        (prefix dir : String) (names : List String) (total : ℕ) (w : W) (name : String)
        → (upload_files blobs libs prefix dir names total w).2 ≡ ok tt
        → Elem name names
        → IsPresent (upload_files blobs libs prefix dir names total w).0 (file_key prefix name)
    unfolding upload_files
    upload_files-IsPresent prefix dir [] total w name k h = elim h [ ]
    upload_files-IsPresent prefix dir (n ∷ names) total w name k h =
        let path = libs.join dir n in
        let sent = upload_zstd_file blobs libs w (file_key prefix n) path in
        let later =
          λ (size : ℕ). upload_files-IsPresent prefix dir names (total + size) sent.0 name in
        elim (Result-cases sent.1) [
          | inl (size, e) ↦
              let k' : (upload_files blobs libs prefix dir names (total + size) sent.0).2 ≡ ok tt =
                rw (e, upload_files) at k in
              rw (e, upload_files)
                (elim h [
                  | inl q ↦
                      upload_files-kept prefix dir names (total + size) sent.0
                        (file_key prefix name) k'
                        (upload_zstd_file-kept w (file_key prefix n) path (file_key prefix name)
                          size e (inl (ap (file_key prefix) (sym q))))
                  | inr m ↦ later size k' m
                ])
          | inr (x, e) ↦ absurd (ground arith)
        ]
