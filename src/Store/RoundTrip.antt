-- ===== src/Store/RoundTrip.antt =====
-- internal/snapshotstore/store.go: Download finds what Upload stored.
use sandbox_fleet.Base.{
  ℕ, String, ◌≡◌, ◌≢◌, refl, sym, ap, subst, ◌∙◌, ◌⊎◌, inl, inr, List, [], ◌∷◌, Option, some,
  string_key, Elem,
}
use sandbox_fleet.Base.Result.{Result, ok, err}
use sandbox_fleet.Worker.Types.{Failure}
use sandbox_fleet.Store.Paths.{normalize_storage_path}
use sandbox_fleet.Store.Ops.{
  Manifest, Error, failed, Blobs, Libs, and_then, manifest_key, file_key, completed,
  list_regular_files, upload, download_zstd_file, download_files, download_listed, get_manifest,
  download,
}
use sandbox_fleet.Store.Sending.{IsLawful, names_of}
use sandbox_fleet.Store.Publishing.{IsCompletion, WrittenAs, completed-IsCompletion, upload-IsPut}
use sandbox_fleet.Store.Faithful.{IsFaithful, IsFileName, IsPacked, IsPacked-kept, and_then_after}
use sandbox_fleet.Store.Packing.{upload-IsPacked}

module _ {W B C : Type 0} (blobs : Blobs W B) (libs : Libs W B) where
  module _ (at : W → String → Option B) (file : W → String → Option C) (unpack : B → Option C)
      (target : String) (lawful : IsLawful blobs libs at)
      (faithful : IsFaithful blobs libs at file unpack target) where
    -- What a call of downloadZstdFile for a file name leaves: the file has the content, and the files of
    -- other names and the blobs are as they were.
    pub record IsReceived (w : W) (name : String) (expected : Option C)
        (r : W × Result Error (Unit {0})) : Type 0 where
      pub succeeds : r.1 ≡ ok tt
      pub written : file r.0 (libs.join target name) ≡ expected
      pub there :
          (j : String)
          → IsFileName j
          → name ≢ j
          → file r.0 (libs.join target j) ≡ file w (libs.join target j)
      pub blobs_kept : (j : String) → at r.0 j ≡ at w j

    download_zstd_file-IsReceived :
        (w : W) (key name : String) (expected : Option C)
        → IsFileName name
        → IsPacked at unpack w key expected
        → IsReceived w name expected (download_zstd_file blobs libs w key (libs.join target name))
    unfolding download_zstd_file
    download_zstd_file-IsReceived w key name expected proper h =
        let got = blobs.get w key in
        let path = libs.join target name in
        let put = libs.decompress got.0 path h.body in
        let (ends, there) = faithful.unpacks got.0 name h.body h.content proper h.unpacked in
        let first =
          and_then_after {T = Unit {0}} got
            (λ w' body. and_then (libs.decompress w' path body) (λ w'' _. (w'', ok tt))) h.body
            (faithful.get_held w key h.body h.held) in
        let last = and_then_after {T = Unit {0}} put (λ w'' _. (w'', ok tt)) tt ends in
        let result : (put.0, ok tt) ≡ download_zstd_file blobs libs w key path =
          sym (first ∙ last) in
        subst (IsReceived w name expected) result (record {
          succeeds = refl;
          written = there ∙ sym h.as_expected;
          there = λ j q n.
              faithful.unpacks_there got.0 name j h.body proper q n
              ∙ faithful.get_file w key (libs.join target j);
          blobs_kept = λ j. faithful.unpacks_at got.0 path j h.body ∙ faithful.get_at w key j;
        })

    -- Every file of a list comes to its path in the target directory.
    pub record AreReceived (w : W) (names : List String) (expected : String → Option C)
        (r : W × Result Error (Unit {0})) : Type 0 where
      pub succeeds : r.1 ≡ ok tt
      pub written :
          (j : String)
          → IsFileName j
          → Elem j names ⊎ (file w (libs.join target j) ≡ expected j)
          → file r.0 (libs.join target j) ≡ expected j

    download_files-AreReceived :
        (prefix : String) (names : List String) (w : W) (expected : String → Option C)
        → ((n : String) → Elem n names → IsFileName n)
        → ((n : String) → Elem n names → IsPacked at unpack w (file_key prefix n) (expected n))
        → AreReceived w names expected (download_files blobs libs prefix target names w)
    unfolding download_files
    download_files-AreReceived prefix [] w expected proper packed = record {
      succeeds = refl;
      written = λ j p h. elim h [ inl m ↦ elim m [ ] | inr e ↦ e ];
    }
    download_files-AreReceived prefix (name ∷ names) w expected proper packed =
        let path = libs.join target name in
        let received = download_zstd_file blobs libs w (file_key prefix name) path in
        let here =
          download_zstd_file-IsReceived w (file_key prefix name) name (expected name)
            (proper name (inl refl)) (packed name (inl refl)) in
        let later =
          download_files-AreReceived prefix names received.0 expected (λ n m. proper n (inr m))
            (λ n m.
              IsPacked-kept at unpack w received.0 (file_key prefix n) (expected n)
                (here.blobs_kept (file_key prefix n)) (packed n (inr m))) in
        let valid = (proper name (inl refl)).0 in
        let result : download_files blobs libs prefix target names received.0
            ≡ download_files blobs libs prefix target (name ∷ names) w =
          sym (rw (valid, here.succeeds, download_files) refl) in
        subst (AreReceived w (name ∷ names) expected) result (record {
          succeeds = later.succeeds;
          written = λ j p h. later.written j p (elim (string_key.same j name) [
            | yes e ↦ inr (
                subst (λ x. file received.0 (libs.join target x) ≡ expected x) (sym e) here.written)
            | no n ↦ elim h [
              | inl m ↦ elim m [ inl e ↦ absurd (n e) | inr l ↦ inl l ]
              | inr e ↦ inr (here.there j p (λ q. n (sym q)) ∙ e)
            ]
          ]);
        })

    download_listed-ok :
        (prefix dir : String) (names : List String) (v w : W) (manifest : Manifest)
        → names ≢ []
        → (download_files blobs libs prefix dir names w).1 ≡ ok tt
        → download_listed blobs libs prefix dir (w, ok (completed blobs libs v manifest names)) ≡ (
          (download_files blobs libs prefix dir names w).0,
          ok (completed blobs libs v manifest names),
        )
    unfolding download_listed completed
    download_listed-ok prefix dir [] v w manifest filled k = absurd (filled refl)
    download_listed-ok prefix dir (name ∷ names) v w manifest filled k =
        rw (k, download_listed) refl

    get_manifest-ok :
        (prefix : String) (w : W) (manifest : Manifest) (raw : B)
        → normalize_storage_path prefix ≡ prefix
        → at w (manifest_key prefix) ≡ some raw
        → libs.decode raw ≡ ok manifest
        → get_manifest blobs libs prefix w ≡ ((blobs.get w (manifest_key prefix)).0, ok manifest)
    unfolding get_manifest
    get_manifest-ok prefix w manifest raw same held decoded =
        let read : W → B → W × Result Error Manifest =
          λ w' body. elim (libs.decode body) [ ok m ↦ (w', ok m) | err e ↦ (w', err (failed e)) ] in
        subst
          (λ (k : String).
            and_then (blobs.get w (manifest_key k)) read
            ≡ ((blobs.get w (manifest_key prefix)).0, ok manifest))
          (sym same)
          (and_then_after (blobs.get w (manifest_key prefix)) read raw
              (faithful.get_held w (manifest_key prefix) raw held)
            ∙ rw decoded refl)

    written_raw :
        (encoded : Result Failure B) (held : Option B)
        → WrittenAs blobs libs at lawful encoded held
        → (raw : B) × ((encoded ≡ ok raw) × (held ≡ some raw))
    written_raw (ok raw) held h = (raw, (refl, h))
    written_raw (err e) held h = elim h [ ]

    -- What a download from a snapshot's path gives: a manifest that lists the files and is made of the
    -- given one, and each of the files with the content that it had in the directory it was taken from.
    pub record IsRestored (before : W) (dir : String) (names : List String) (given : Manifest)
        (now : ℕ) (r : W × Result Error Manifest) : Type 0 where
      pub returned : (m : Manifest) × (IsCompletion given names now m × (r.1 ≡ ok m))
      pub written :
          (name : String)
          → Elem name names
          → file r.0 (libs.join target name) ≡ file before (libs.join dir name)

    download_stored :
        (storage_path dir : String) (names : List String) (manifest : Manifest) (before v w : W)
        (raw : B)
        → normalize_storage_path (normalize_storage_path storage_path)
          ≡ normalize_storage_path storage_path
        → ((n : String) → Elem n names → IsFileName n)
        → names ≢ []
        → libs.encode (completed blobs libs v manifest names) ≡ ok raw
        → at w (manifest_key (normalize_storage_path storage_path)) ≡ some raw
        → ((n : String)
            → Elem n names
            → IsPacked at unpack w
                (file_key (normalize_storage_path storage_path) n)
                (file before (libs.join dir n)))
        → IsRestored before dir names manifest
            (libs.now v)
            (download blobs libs storage_path target w)
    unfolding download
    download_stored storage_path dir names manifest before v w raw same proper filled encoded held
          packed =
        let prefix = normalize_storage_path storage_path in
        let m = completed blobs libs v manifest names in
        let made = (libs.mkdir_all w target).0 in
        let got = (blobs.get made (manifest_key prefix)).0 in
        let first =
          and_then_after {T = Manifest} (libs.mkdir_all w target)
            (λ w' _. download_listed blobs libs prefix target (get_manifest blobs libs prefix w'))
            tt (faithful.mkdir_ok w) in
        let second = ap (download_listed blobs libs prefix target) (
          get_manifest-ok prefix made m raw same (faithful.mkdir_at w (manifest_key prefix) ∙ held)
            (faithful.decodes m raw encoded)) in
        let received =
          download_files-AreReceived prefix names got (λ n. file before (libs.join dir n)) proper
            (λ n h.
              IsPacked-kept at unpack w got (file_key prefix n) (file before (libs.join dir n))
                (faithful.get_at made (manifest_key prefix) (file_key prefix n)
                  ∙ faithful.mkdir_at w (file_key prefix n))
                (packed n h)) in
        let third =
          download_listed-ok prefix target names v got manifest filled received.succeeds in
        subst (IsRestored before dir names manifest (libs.now v)) (sym (first ∙ second ∙ third))
          (record {
            returned = (m, (completed-IsCompletion blobs libs v manifest names, refl));
            written = λ n h. received.written n (proper n h) (inl h);
          })

    -- What a successful Upload stored, Download of the same path gives back: a manifest that lists the
    -- files, has the time of the given one, or of the clock where it has none, and is for the rest the
    -- given one; and in the target directory each listed file with the content that it had in the
    -- directory it was taken from. The path is normalized alike twice, the listed names are valid and
    -- none is ".", and the calls of Download to the libraries do not fail.
    pub download-upload :
        (storage_path dir : String) (manifest : Manifest) (w : W)
        → normalize_storage_path (normalize_storage_path storage_path)
          ≡ normalize_storage_path storage_path
        → ((n : String) → Elem n (names_of (list_regular_files blobs libs w dir).1) → IsFileName n)
        → (upload blobs libs storage_path dir manifest w).2 ≡ ok tt
        → IsRestored w dir
            (names_of (list_regular_files blobs libs w dir).1)
            manifest
            (libs.now (list_regular_files blobs libs w dir).0)
            (download blobs libs storage_path target
              (upload blobs libs storage_path dir manifest w).0)
    download-upload storage_path dir manifest w same proper k =
        let listed = list_regular_files blobs libs w dir in
        let done = (upload-IsPut blobs libs at lawful storage_path dir manifest w).complete k in
        let (raw, (encoded, held)) =
          written_raw (libs.encode (completed blobs libs listed.0 manifest (names_of listed.1)))
            (at (upload blobs libs storage_path dir manifest w).0
              (manifest_key (normalize_storage_path storage_path)))
            done.1 in
        download_stored storage_path dir (names_of listed.1) manifest w listed.0
          (upload blobs libs storage_path dir manifest w).0 raw same proper done.0.some_name encoded
          held
          (λ n m.
            upload-IsPacked blobs libs at file unpack target lawful faithful storage_path dir n
              manifest w k m)
