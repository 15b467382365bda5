-- ===== src/Store/Packing.antt =====
-- internal/snapshotstore/store.go: Upload packs each file that it lists.
use sandbox_fleet.Base.{
  ℕ, ◌+◌, String, ◌≡◌, refl, sym, ap, ◌∙◌, ◌⊎◌, inl, inr, List, [], ◌∷◌, Option, arith, string_key,
  Elem,
}
use sandbox_fleet.Base.Text.{str_ltb}
use sandbox_fleet.Base.Sort.{sort}
use sandbox_fleet.Base.Result.{Result, ok, err, Result-cases}
use sandbox_fleet.Worker.Types.{Failure}
use sandbox_fleet.Store.Paths.{normalize_storage_path}
use sandbox_fleet.Store.Ops.{
  Manifest, Error, Blobs, Libs, manifest_key, file_key, put_compressed, upload_zstd_file,
  upload_files, put_manifest, completed, upload_listed, list_regular_files, regular_names, upload,
}
use sandbox_fleet.Store.Keys.{file_key_is_no_manifest}
use sandbox_fleet.Store.Sending.{IsLawful, names_of}
use sandbox_fleet.Store.Faithful.{
  IsFaithful, IsPacked, IsPacked-kept, file_key_inj, and_then-ok, and_then-kept,
}

module _ {W B C : Type 0} (blobs : Blobs W B) (libs : Libs W B) where
  module _ (at : W → String → Option B) (file : W → String → Option C) (unpack : B → Option C)
      (target : String) (lawful : IsLawful blobs libs at)
      (faithful : IsFaithful blobs libs at file unpack target) where
    put_compressed-ok :
        (key : String) (r : W × Result Failure (B × ℕ)) (size : ℕ)
        → (put_compressed blobs libs key r).1 ≡ ok size
        → (b : B × ℕ) × ((r.1 ≡ ok b)
            × (((blobs.put r.0 key b.0).1 ≡ ok tt)
                × ((put_compressed blobs libs key r).0 ≡ (blobs.put r.0 key b.0).0)))
    unfolding put_compressed
    put_compressed-ok key (w, err e) size k = absurd (ground arith)
    put_compressed-ok key (w, ok (body, n)) size k =
        let (s, (e, f)) = and_then-ok {T = ℕ} (blobs.put w key body) (λ w' _. (w', ok n)) size k in
        ((body, n), (refl, (e, ap (λ x. x.0) f)))

    upload_zstd_file-file :
        (w : W) (key path p : String) (size : ℕ)
        → (upload_zstd_file blobs libs w key path).1 ≡ ok size
        → file (upload_zstd_file blobs libs w key path).0 p ≡ file w p
    unfolding upload_zstd_file
    upload_zstd_file-file w key path p size k =
        let (b, (_, (_, same))) = put_compressed-ok key (libs.compress w path) size k in
        ap (λ x. file x p) same
        ∙ faithful.put_file (libs.compress w path).0 key p b.0
        ∙ faithful.compress_file w path p

    -- A file that is sent is packed, and so are the files of other names that were.
    upload_zstd_file-IsPacked :
        (w : W) (prefix dir name j : String) (size : ℕ) (expected : String → Option C)
        → ((n : String) → file w (libs.join dir n) ≡ expected n)
        → (upload_zstd_file blobs libs w (file_key prefix name) (libs.join dir name)).1 ≡ ok size
        → (j ≡ name) ⊎ IsPacked at unpack w (file_key prefix j) (expected j)
        → IsPacked at unpack
            (upload_zstd_file blobs libs w (file_key prefix name) (libs.join dir name)).0
            (file_key prefix j)
            (expected j)
    unfolding upload_zstd_file
    upload_zstd_file-IsPacked w prefix dir name j size expected frame k h =
        let path = libs.join dir name in
        let r = libs.compress w path in
        let key = file_key prefix name in
        let (b, (packed, (sent, same))) = put_compressed-ok key r size k in
        elim (string_key.same j name) [
          | yes e ↦
              let (c, (unpacked, there)) = faithful.packs w path b.0 b.1 packed in
              record {
                body = b.0;
                content = c;
                held =
                    ap (λ x. at x (file_key prefix j)) same
                    ∙ ap (λ x. at (blobs.put r.0 key b.0).0 (file_key prefix x)) e
                    ∙ lawful.put_same r.0 key b.0 sent;
                unpacked = unpacked;
                as_expected = sym (frame j) ∙ ap (λ x. file w (libs.join dir x)) e ∙ there;
              }
          | no n ↦
              IsPacked-kept at unpack w (put_compressed blobs libs key r).0 (file_key prefix j)
                (expected j)
                (ap (λ x. at x (file_key prefix j)) same
                  ∙ lawful.put_other r.0 key (file_key prefix j) b.0
                      (λ q. n (sym (file_key_inj prefix name j q)))
                  ∙ lawful.compress w path (file_key prefix j))
                (elim h [ inl e ↦ absurd (n e) | inr p ↦ p ])
        ]

    upload_files-IsPacked :
        (prefix dir : String) (names : List String) (total : ℕ) (w : W) (j : String)
        (expected : String → Option C)
        → ((n : String) → file w (libs.join dir n) ≡ expected n)
        → (upload_files blobs libs prefix dir names total w).2 ≡ ok tt
        → Elem j names ⊎ IsPacked at unpack w (file_key prefix j) (expected j)
        → IsPacked at unpack
            (upload_files blobs libs prefix dir names total w).0
            (file_key prefix j)
            (expected j)
    unfolding upload_files
    upload_files-IsPacked prefix dir [] total w j expected frame k h = elim h [
      | inl m ↦ elim m [ ]
      | inr p ↦ p
    ]
    upload_files-IsPacked prefix dir (name ∷ names) total w j expected frame k h =
        let path = libs.join dir name in
        let sent = upload_zstd_file blobs libs w (file_key prefix name) path in
        elim (Result-cases sent.1) [
          | inl (size, e) ↦
              let k' : (upload_files blobs libs prefix dir names (total + size) sent.0).2 ≡ ok tt =
                rw (e, upload_files) at k in
              let frame' = λ (n : String).
                upload_zstd_file-file w (file_key prefix name) path (libs.join dir n) size e
                ∙ frame n in
              let here = upload_zstd_file-IsPacked w prefix dir name j size expected frame e in
              rw (e, upload_files)
                (upload_files-IsPacked prefix dir names (total + size) sent.0 j expected frame' k'
                  (elim h [
                    | inl m ↦ elim m [ inl q ↦ inr (here (inl q)) | inr later ↦ inl later ]
                    | inr p ↦ inr (here (inr p))
                  ]))
          | inr (x, e) ↦ absurd (ground arith)
        ]

    -- The manifest is written beside the files.
    put_manifest-IsPacked :
        (prefix name : String) (manifest : Manifest) (expected : Option C)
        (r : W × ℕ × Result Error (Unit {0}))
        → (put_manifest blobs libs prefix manifest r).2 ≡ ok tt
        → (r.2 ≡ ok tt → IsPacked at unpack r.0 (file_key prefix name) expected)
        → IsPacked at unpack
            (put_manifest blobs libs prefix manifest r).0
            (file_key prefix name)
            expected
    unfolding put_manifest
    put_manifest-IsPacked prefix name manifest expected (w, total, err e) k h =
        absurd (ground arith)
    put_manifest-IsPacked prefix name manifest expected (w, total, ok _) k h =
        elim (Result-cases (libs.encode manifest)) [
          | inr (x, e) ↦ absurd (ground (arith, rw (e, put_manifest) at k))
          | inl (raw, e) ↦
              let kept =
                IsPacked-kept at unpack w (blobs.put w (manifest_key prefix) raw).0
                  (file_key prefix name) expected
                  (lawful.put_other w (manifest_key prefix) (file_key prefix name) raw
                    (λ q. file_key_is_no_manifest prefix name (sym q)))
                  (h refl) in
              elim (Result-cases (blobs.put w (manifest_key prefix) raw).1) [
                | inl (u, f) ↦ rw (e, f, put_manifest) kept
                | inr (x, f) ↦ rw (e, f, put_manifest) kept
              ]
        ]

    upload_listed-IsPacked :
        (prefix dir name : String) (manifest : Manifest) (expected : String → Option C)
        (l : W × Result Error (List String))
        → ((n : String) → file l.0 (libs.join dir n) ≡ expected n)
        → (upload_listed blobs libs prefix dir manifest l).2 ≡ ok tt
        → Elem name (names_of l.1)
        → IsPacked at unpack
            (upload_listed blobs libs prefix dir manifest l).0
            (file_key prefix name)
            (expected name)
    unfolding upload_listed
    upload_listed-IsPacked prefix dir name manifest expected (w, err e) frame k h = elim h [ ]
    upload_listed-IsPacked prefix dir name manifest expected (w, ok []) frame k h = elim h [ ]
    upload_listed-IsPacked prefix dir name manifest expected (w, ok (n ∷ names)) frame k h =
        put_manifest-IsPacked prefix name (completed blobs libs w manifest (n ∷ names))
          (expected name) (upload_files blobs libs prefix dir (n ∷ names) 0 w) k
          (λ u. upload_files-IsPacked prefix dir (n ∷ names) 0 w name expected frame u (inl h))

    list_regular_files-file :
        (w : W) (dir p : String) → file (list_regular_files blobs libs w dir).0 p ≡ file w p
    unfolding list_regular_files
    list_regular_files-file w dir p =
        and_then-kept (λ x. file x p) (libs.read_dir w dir)
          (λ entries. ok (sort str_ltb (regular_names entries)))
        ∙ faithful.read_dir_file w dir p

    pub upload-IsPacked :
        (storage_path dir name : String) (manifest : Manifest) (w : W)
        → (upload blobs libs storage_path dir manifest w).2 ≡ ok tt
        → Elem name (names_of (list_regular_files blobs libs w dir).1)
        → IsPacked at unpack
            (upload blobs libs storage_path dir manifest w).0
            (file_key (normalize_storage_path storage_path) name)
            (file w (libs.join dir name))
    unfolding upload
    upload-IsPacked storage_path dir name manifest w =
        upload_listed-IsPacked (normalize_storage_path storage_path) dir name manifest
          (λ n. file w (libs.join dir n)) (list_regular_files blobs libs w dir)
          (λ n. list_regular_files-file w dir (libs.join dir n))
