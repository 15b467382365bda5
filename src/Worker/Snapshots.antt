-- ===== src/Worker/Snapshots.antt =====
-- internal/worker/snapshot.go: snapshots of running sandboxes, and sandboxes restored from them.
use sandbox_fleet.Base.{
  ℕ, String, Bool, false, ◌||◌, List, [], none, some, if◌then◌else◌, ◌==◌, ◌!=◌, string_key,
}
use sandbox_fleet.Base.Int.{ℤ, int_key}
use sandbox_fleet.Base.Result.{Result, ok, err}
use sandbox_fleet.Slot.{running, failed, state_key}
use sandbox_fleet.Worker.Types.{
  Identity, ContainerSpec, RuntimeId, Failure, Error, invalid_request, Snapshotter, Env,
  is_restored_id,
}
use sandbox_fleet.Worker.Slots.{ManagedSlot, clear_restore_dir}
use sandbox_fleet.Store.Ops.{
  Error as StoreError, Manifest, Blobs, Libs, upload, get_manifest, delete,
}

pub record ObjectStorageConfig : Type 0 where
  pub endpoint : String
  pub bucket : String
  pub region : String
  pub access_key_id : String
  pub secret_access_key : String
  pub use_path_style : Bool

pub record CreateSnapshotRequest : Type 0 where
  pub slot_id : ℤ
  pub identity : Identity
  pub storage_path : String
  pub storage : ObjectStorageConfig
  pub runtime : String
  pub pool : String
  pub container : ContainerSpec

-- The digest is never set.
pub record CreateSnapshotResult : Type 0 where
  pub storage_path : String
  pub snapshot_files : List String
  pub size_bytes : ℕ
  pub format_version : String
  pub runtime : String

pub record RestoreRequest : Type 0 where
  pub slot_id : ℤ
  pub identity : Identity
  pub storage_path : String
  pub storage : ObjectStorageConfig
  pub runtime : String

pub record DeleteObjectsRequest : Type 0 where
  pub storage_path : String
  pub snapshot_files : List String
  pub storage : ObjectStorageConfig

-- The errors of the worker and of the store, those of other calls, and ErrSnapshotLoad.
pub data SnapshotError : Type 0 where
  worker : Error → SnapshotError
  store : StoreError → SnapshotError
  call : Failure → SnapshotError
  load_failed : Failure → SnapshotError

-- What the calls use beside the environment of the slots: the S3 client, os.MkdirTemp, the optional
-- PrimaryContainerID of the runtime ("" where it has none), and the libraries of the store.
pub record SnapshotEnv (W A B : Type 0) : Type 0 where
  pub env : Env W A
  pub libs : Libs W B
  pub open_storage : ObjectStorageConfig → Result Failure (Blobs W B)
  pub mkdir_temp : W → W × Result Failure String
  pub primary_container_id : W → RuntimeId → W × Result Failure String

abbrev pub SnapshotCall : Type 0 → Type 0 → Type 0 → Type 0
SnapshotCall W A T = W × ManagedSlot A × Result SnapshotError T

-- NewS3 gets the path style also where an endpoint is given.
unfoldable pub s3_config : ObjectStorageConfig → ObjectStorageConfig
s3_config cfg = record cfg { use_path_style = cfg.use_path_style || cfg.endpoint != "" }

abbrev pub or_default : String → String → String
or_default handler local = if handler == "" then local else handler

module _ {W A B : Type 0} (se : SnapshotEnv W A B) where
  unfoldable pub open_snapshot_storage : ObjectStorageConfig → Result Failure (Blobs W B)
  unfolding s3_config
  open_snapshot_storage cfg = se.open_storage (s3_config cfg)

  -- A snapshotter that leaves nothing running: the slot drops its runtime and fails.
  unfoldable pub tear_down : Snapshotter W → RuntimeId → W → ManagedSlot A → W × ManagedSlot A
  unfolding clear_restore_dir
  tear_down snap id w c =
      if snap.tears_down_on_save
      then (let (w1, _) = snap.delete_restored w id in
          let (w2, c2) =
            clear_restore_dir se.env w1 (record c { runtime_ref = none; restored = false }) in
          (w2, record c2 { state = failed }))
      else (w, c)

  -- The result of `store.GetManifest` after the upload.
  unfoldable pub described :
      CreateSnapshotRequest
      → String
      → Snapshotter W
      → ℕ
      → ManagedSlot A
      → W × Result StoreError Manifest
      → SnapshotCall W A CreateSnapshotResult
  described req handler snap size c (w, err e) = (w, c, err (store e))
  described req handler snap size c (w, ok uploaded) = (
    w,
    c,
    ok (record {
      storage_path = req.storage_path;
      snapshot_files = uploaded.snapshot_files;
      size_bytes = size;
      format_version = snap.format_version;
      runtime = handler;
    }),
  )

  -- The result of `store.Upload`: after a failure the objects are deleted.
  unfoldable pub uploaded :
      CreateSnapshotRequest
      → String
      → Snapshotter W
      → Blobs W B
      → ManagedSlot A
      → W × ℕ × Result StoreError (Unit {0})
      → SnapshotCall W A CreateSnapshotResult
  unfolding described
  uploaded req handler snap blobs c (w, size, err e) =
      ((delete blobs se.libs req.storage_path [] w).0, c, err (store e))
  uploaded req handler snap blobs c (w, size, ok _) =
      described req handler snap size c (get_manifest blobs se.libs req.storage_path w)

  unfoldable pub upload_snapshot :
      CreateSnapshotRequest
      → String
      → Snapshotter W
      → String
      → W
      → ManagedSlot A
      → SnapshotCall W A CreateSnapshotResult
  unfolding uploaded open_snapshot_storage
  upload_snapshot req handler snap dir w c = elim (open_snapshot_storage req.storage) [
    | err e ↦ (w, c, err (call e))
    | ok blobs ↦
        let manifest : Manifest = record {
          runtime_handler = handler;
          format_version = snap.format_version;
          snapshot_files = [];
          source_sandbox = req.identity;
          pool_ref = req.pool;
          container = req.container;
          created_at = se.libs.now w;
        } in
        uploaded req handler snap blobs c (upload blobs se.libs req.storage_path dir manifest w)
  ]

  -- The result of `SaveSnapshot`.
  unfoldable pub saved :
      CreateSnapshotRequest
      → String
      → Snapshotter W
      → RuntimeId
      → String
      → ManagedSlot A
      → W × Result Failure (Unit {0})
      → SnapshotCall W A CreateSnapshotResult
  unfolding tear_down upload_snapshot
  saved req handler snap id dir c (w, err e) = (w, c, err (call e))
  saved req handler snap id dir c (w, ok _) =
      let (w', c') = tear_down snap id w c in upload_snapshot req handler snap dir w' c'

  -- The container id of a sandbox that was started cold.
  unfoldable pub container_id : W → RuntimeId → W × Result Failure String
  container_id w id = if is_restored_id id then (w, ok "") else se.primary_container_id w id

  unfoldable pub identified :
      CreateSnapshotRequest
      → String
      → Snapshotter W
      → RuntimeId
      → String
      → ManagedSlot A
      → W × Result Failure String
      → SnapshotCall W A CreateSnapshotResult
  unfolding saved
  identified req handler snap id dir c (w, err e) = (w, c, err (call e))
  identified req handler snap id dir c (w, ok container) = saved req handler snap id dir c (
      snap.save_snapshot w (record {
        id = id;
        dest_dir = dir;
        container_id = container;
        app_container_name = req.identity.name;
        app_image = req.container.image;
      }))

  -- `defer os.RemoveAll(workDir)`
  unfoldable pub remove_after : {T : Type 0} → String → SnapshotCall W A T → SnapshotCall W A T
  remove_after dir (w, c, r) = (se.env.remove_all w dir, c, r)

  unfoldable pub in_work_dir :
      CreateSnapshotRequest
      → String
      → Snapshotter W
      → RuntimeId
      → ManagedSlot A
      → W × Result Failure String
      → SnapshotCall W A CreateSnapshotResult
  unfolding identified remove_after container_id
  in_work_dir req handler snap id c (w, err e) = (w, c, err (call e))
  in_work_dir req handler snap id c (w, ok dir) =
      remove_after dir (identified req handler snap id dir c (container_id w id))

  -- The locked part of CreateSnapshot.
  unfoldable pub snapshot_slot :
      CreateSnapshotRequest
      → String
      → Snapshotter W
      → W
      → ManagedSlot A
      → SnapshotCall W A CreateSnapshotResult
  unfolding in_work_dir
  snapshot_slot req handler snap w c = elim c.runtime_ref [
    | none ↦ (w, c, err (worker invalid_request))
    | some id ↦
        if c.state != running || c.sandbox.uid != req.identity.uid
        then (w, c, err (worker invalid_request))
        else in_work_dir req handler snap id c (se.mkdir_temp w)
  ]
