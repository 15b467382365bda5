-- ===== src/Store/Ops.antt =====
-- internal/snapshotstore/store.go and zstd.go: SnapshotStorage on a blob storage. `W` is the world of
-- blobs and local files, `B` the type of a blob.
use Prim.Native.String.{◌++◌ as join_text}
use sandbox_fleet.Base.{
  ℕ, ◌+◌, String, Bool, true, false, ◌&&◌, List, [], ◌∷◌, Option, none, some, if◌then◌else◌, ◌==◌,
  ◌!=◌, string_key, nat_key,
}
use sandbox_fleet.Base.Text.{str_ltb}
use sandbox_fleet.Base.Sort.{sort}
use sandbox_fleet.Base.Result.{Result, ok, err}
use sandbox_fleet.Worker.Types.{Identity, ContainerSpec, Failure}
use sandbox_fleet.Store.Paths.{normalize_storage_path, is_valid_file_name}

abbrev pub manifest_file_name : String
manifest_file_name = "manifest.json"

abbrev pub zstd_suffix : String
zstd_suffix = ".zstd"

-- The time 0 is the zero time.
pub record Manifest : Type 0 where
  pub runtime_handler : String
  pub format_version : String
  pub snapshot_files : List String
  pub source_sandbox : Identity
  pub pool_ref : String
  pub container : ContainerSpec
  pub created_at : ℕ

pub data Error : Type 0 where
  no_files lists_no_files : Error
  invalid_file_name : String → Error
  failed : Failure → Error

-- The interface BlobStorage.
pub record Blobs (W B : Type 0) : Type 0 where
  pub put : W → String → B → W × Result Failure (Unit {0})
  pub get : W → String → W × Result Failure B
  pub delete : W → String → W × Result Failure (Unit {0})

-- The libraries: a directory's entries with whether they are regular files, the file at a path
-- compressed with its size, a blob decompressed to a path, JSON, the clock and path/filepath.
pub record Libs (W B : Type 0) : Type 0 where
  pub read_dir : W → String → W × Result Failure (List (String × Bool))
  pub mkdir_all : W → String → W × Result Failure (Unit {0})
  pub compress : W → String → W × Result Failure (B × ℕ)
  pub decompress : W → String → B → W × Result Failure (Unit {0})
  pub encode : Manifest → Result Failure B
  pub decode : B → Result Failure Manifest
  pub now : W → ℕ
  pub join : String → String → String

-- A call, and the rest of the function unless it failed.
abbrev pub and_then :
    {W S T : Type 0} → W × Result Failure S → (W → S → W × Result Error T) → W × Result Error T
and_then (w, ok s) f = f w s
and_then (w, err e) f = (w, err (failed e))

abbrev pub manifest_key : String → String
manifest_key prefix = join_text prefix manifest_file_name

abbrev pub file_key : String → String → String
file_key prefix name = join_text prefix (join_text name zstd_suffix)

unfoldable pub regular_names : List (String × Bool) → List String
regular_names [] = []
regular_names ((name, regular) ∷ entries) =
    let rest = regular_names entries in
    if regular && name != manifest_file_name then name ∷ rest else rest

module _ {W B : Type 0} (blobs : Blobs W B) (libs : Libs W B) where
  unfoldable pub list_regular_files : W → String → W × Result Error (List String)
  unfolding regular_names
  list_regular_files w dir =
      and_then (libs.read_dir w dir) (λ w' entries. (w', ok (sort str_ltb (regular_names entries))))

  unfoldable pub put_compressed : String → W × Result Failure (B × ℕ) → W × Result Error ℕ
  put_compressed key (w, err e) = (w, err (failed e))
  put_compressed key (w, ok (body, size)) = and_then (blobs.put w key body) (λ w' _. (w', ok size))

  unfoldable pub upload_zstd_file : W → String → String → W × Result Error ℕ
  unfolding put_compressed
  upload_zstd_file w key path = put_compressed key (libs.compress w path)

  unfoldable pub download_zstd_file : W → String → String → W × Result Error (Unit {0})
  download_zstd_file w key path =
      and_then (blobs.get w key)
        (λ w' body. and_then (libs.decompress w' path body) (λ w'' _. (w'', ok tt)))

  -- The loop of Upload, with the size so far.
  unfoldable pub upload_files :
      String → String → List String → ℕ → W → W × ℕ × Result Error (Unit {0})
  upload_files prefix dir [] total w = (w, total, ok tt)
  upload_files prefix dir (name ∷ names) total w =
      let sent = upload_zstd_file w (file_key prefix name) (libs.join dir name) in
      elim sent.1 [
        | ok size ↦ upload_files prefix dir names (total + size) sent.0
        | err e ↦ (sent.0, total, err e)
      ]

  -- The end of Upload: the manifest, once every file is there.
  unfoldable pub put_manifest :
      String → Manifest → W × ℕ × Result Error (Unit {0}) → W × ℕ × Result Error (Unit {0})
  put_manifest prefix manifest (w, total, err e) = (w, total, err e)
  put_manifest prefix manifest (w, total, ok _) = elim (libs.encode manifest) [
    | err e ↦ (w, total, err (failed e))
    | ok raw ↦
        let sent = blobs.put w (manifest_key prefix) raw in
        elim sent.1 [ ok _ ↦ (sent.0, total, ok tt) | err e ↦ (sent.0, total, err (failed e)) ]
  ]

  -- The manifest that Upload writes.
  unfoldable pub completed : W → Manifest → List String → Manifest
  completed w manifest files = record manifest {
    snapshot_files = files;
    created_at = if manifest.created_at == 0 then libs.now w else manifest.created_at;
  }

  unfoldable pub upload_listed :
      String → String → Manifest → W × Result Error (List String) → W × ℕ × Result Error (Unit {0})
  unfolding upload_files put_manifest completed
  upload_listed prefix dir manifest (w, err e) = (w, 0, err e)
  upload_listed prefix dir manifest (w, ok []) = (w, 0, err no_files)
  upload_listed prefix dir manifest (w, ok (name ∷ names)) =
      put_manifest prefix (completed w manifest (name ∷ names))
        (upload_files prefix dir (name ∷ names) 0 w)

  unfoldable pub upload : String → String → Manifest → W → W × ℕ × Result Error (Unit {0})
  unfolding upload_listed list_regular_files normalize_storage_path
  upload storage_path dir manifest w =
      upload_listed (normalize_storage_path storage_path) dir manifest (list_regular_files w dir)

  unfoldable pub get_manifest : String → W → W × Result Error Manifest
  unfolding normalize_storage_path
  get_manifest storage_path w =
      and_then (blobs.get w (manifest_key (normalize_storage_path storage_path)))
        (λ w' raw. elim (libs.decode raw) [ ok m ↦ (w', ok m) | err e ↦ (w', err (failed e)) ])

  -- The loop of Download.
  unfoldable pub download_files : String → String → List String → W → W × Result Error (Unit {0})
  unfolding download_zstd_file
  download_files prefix dir [] w = (w, ok tt)
  download_files prefix dir (name ∷ names) w =
      let received = download_zstd_file w (file_key prefix name) (libs.join dir name) in
      elim (is_valid_file_name name) [
        | false ↦ (w, err (invalid_file_name name))
        | true ↦ elim received.1 [
          | ok _ ↦ download_files prefix dir names received.0
          | err e ↦ (received.0, err e)
        ]
      ]

  unfoldable pub download_listed :
      String → String → W × Result Error Manifest → W × Result Error Manifest
  unfolding download_files
  download_listed prefix dir (w, err e) = (w, err e)
  download_listed prefix dir (w, ok manifest) = elim manifest.snapshot_files [
    | [] ↦ (w, err lists_no_files)
    | name ∷ names ↦
        let received = download_files prefix dir (name ∷ names) w in
        elim received.1 [ ok _ ↦ (received.0, ok manifest) | err e ↦ (received.0, err e) ]
  ]

  -- GetManifest is given the normalized path and normalizes it again.
  unfoldable pub download : String → String → W → W × Result Error Manifest
  unfolding download_listed get_manifest normalize_storage_path
  download storage_path dir w =
      let prefix = normalize_storage_path storage_path in
      and_then (libs.mkdir_all w dir) (λ w' _. download_listed prefix dir (get_manifest prefix w'))

  -- The first error of two.
  abbrev pub first_error : Option Failure → Result Failure (Unit {0}) → Option Failure
  first_error (some e) r = some e
  first_error none (ok _) = none
  first_error none (err e) = some e

  unfoldable pub delete_keys : List String → W → Option Failure → W × Option Failure
  delete_keys [] w first = (w, first)
  delete_keys (key ∷ keys) w first =
      let (w', r) = blobs.delete w key in delete_keys keys w' (first_error first r)

  unfoldable pub file_keys : String → List String → List String
  file_keys prefix [] = []
  file_keys prefix (name ∷ names) =
      let rest = file_keys prefix names in
      if is_valid_file_name name then file_key prefix name ∷ rest else rest

  -- The files to delete: those given, or else those of the manifest, if it can be read.
  unfoldable pub files_to_delete : String → List String → W → W × List String
  unfolding get_manifest
  files_to_delete prefix (name ∷ names) w = (w, name ∷ names)
  files_to_delete prefix [] w =
      let (w', r) = get_manifest prefix w in
      elim r [ ok manifest ↦ (w', manifest.snapshot_files) | err e ↦ (w', []) ]

  unfoldable pub delete : String → List String → W → W × Option Failure
  unfolding delete_keys file_keys files_to_delete normalize_storage_path
  delete storage_path snapshot_files w =
      let prefix = normalize_storage_path storage_path in
      let (w', files) = files_to_delete prefix snapshot_files w in
      let (w'', first) = delete_keys (file_keys prefix files) w' none in
      delete_keys (manifest_key prefix ∷ []) w'' first
