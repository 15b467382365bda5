-- ===== src/Controller/Snapshot.antt =====
-- internal/controller/snapshot_controller.go: SnapshotReconciler. A method is an action on the world.
-- The snapshot that a method gets by a pointer and changes is an argument.
use Prim.Native.String.{◌++◌ as join_text}
use sandbox_fleet.Base.{
  String, Bool, List, [], ◌∷◌, Option, none, some, true, if◌then◌else◌, ◌==◌, ◌!=◌, string_key,
}
use sandbox_fleet.Base.Result.{Result, ok, err}
use sandbox_fleet.Base.Action.{Action, pure, fail, attempt, ignore, wrap, ◌>>=◌, ◌>>◌}
use sandbox_fleet.Worker.Types.{ContainerSpec}
use sandbox_fleet.Worker.Snapshots.{
  ObjectStorageConfig, CreateSnapshotRequest, CreateSnapshotResult, DeleteObjectsRequest,
}
use sandbox_fleet.Controller.Objects.{
  Error, missing, context, Message, text, error_text, ConditionStatus, condition_true,
  condition_false, Sandbox, running, Assignment, Snapshot, snapshot_pending, snapshot_ready,
  snapshot_failed, Pool, sandbox_phase_key,
}
use sandbox_fleet.Controller.Clients.{
  Clients, snapshot_storage_config, pool_runtime, resolve_worker_endpoint,
}
use sandbox_fleet.Controller.Sandbox.{Requeue, no_requeue, sandbox_identity}

abbrev pub snapshot_retry_interval : Requeue
snapshot_retry_interval = 2

abbrev pub snapshot_finalizer : String
snapshot_finalizer = "sandboxfleet.io/snapshot-cleanup"

-- The first sandbox of the list that is made from the snapshot.
unfoldable pub reference_to : String → List Sandbox → Option Sandbox
reference_to name [] = none
reference_to name (s ∷ ss) = if s.spec.from_snapshot == name then some s else reference_to name ss

-- The container of the request, empty where the parent has none.
abbrev pub container_or_empty : Option ContainerSpec → ContainerSpec
container_or_empty none = record { image = ""; command = []; args = []; env = [] }
container_or_empty (some container) = container

-- The path of the status, or the path made of the names of the parent and the snapshot.
unfoldable pub storage_path_for : Sandbox → Snapshot → String
storage_path_for parent snap =
    if snap.status.storage_path == ""
    then join_text "snapshots/"
        (join_text parent.meta.name (join_text "/" (join_text snap.meta.name "/")))
    else snap.status.storage_path

module _ {W A : Type 0} (clients : Clients W A) where
  unfoldable pub set_snapshot_condition : ConditionStatus → String → Message → Snapshot → Snapshot
  set_snapshot_condition status reason message snap = record snap {
    status = record snap.status {
      conditions = clients.kube.set_condition snap.status.conditions (record {
        kind = "Ready";
        status = status;
        observed_generation = snap.meta.generation;
        reason = reason;
        message = message;
      });
    };
  }

  -- The snapshot where its parent is not running.
  unfoldable pub waiting_snapshot : Snapshot → Snapshot
  unfolding set_snapshot_condition
  waiting_snapshot snap =
      let snap' =
        set_snapshot_condition condition_false "ParentNotReady"
          (text "source Sandbox is not Running" []) snap in
      record snap' { status = record snap'.status { phase = snapshot_pending } }

  -- syncStatus, then the result.
  unfoldable pub finish_snapshot : Snapshot → Requeue → Action W Error Requeue
  unfolding wrap ◌>>=◌
  finish_snapshot snap after = do
    wrap (context "update SandboxSnapshot status") (
        clients.kube.update_snapshot_status (record snap {
          status = record snap.status { observed_generation = snap.meta.generation };
        }))
    pure after

  -- The method fail.
  unfoldable pub fail_snapshot : String → Message → Snapshot → Action W Error Requeue
  unfolding set_snapshot_condition finish_snapshot
  fail_snapshot reason message snap =
      finish_snapshot
        (set_snapshot_condition condition_false reason message (record snap {
          status = record snap.status { phase = snapshot_failed; message = message };
        }))
        no_requeue

  -- The snapshot with the answer of its worker.
  unfoldable pub ready_snapshot : Assignment → CreateSnapshotResult → Snapshot → Snapshot
  unfolding set_snapshot_condition
  ready_snapshot a result snap =
      set_snapshot_condition condition_true "Ready" (text "snapshot uploaded to object storage" [])
        (record snap {
          status = record snap.status {
            phase = snapshot_ready;
            storage_path = result.storage_path;
            snapshot_files = result.snapshot_files;
            runtime = result.runtime;
            format_version = result.format_version;
            size_bytes = result.size_bytes;
            source_worker = a.worker;
            message = text "" [];
          };
        })

  -- The end of syncCreate, with the answer of CreateSnapshot.
  unfoldable pub created :
      Snapshot
      → Assignment
      → String
      → DeleteObjectsRequest
      → Result Error CreateSnapshotResult
      → Action W Error Requeue
  unfolding ready_snapshot finish_snapshot fail_snapshot ignore ◌>>=◌
  created snap a endpoint wipe (err e) = do
    ignore (clients.workers.delete_snapshot_objects endpoint wipe)
    fail_snapshot "CreateFailed" (error_text e) snap
  created snap a endpoint wipe (ok result) =
      finish_snapshot (ready_snapshot a result snap) no_requeue

  unfoldable pub create_request :
      Snapshot → Sandbox → Assignment → Pool A → ObjectStorageConfig → CreateSnapshotRequest
  unfolding storage_path_for pool_runtime
  create_request snap parent a pool storage = record {
    slot_id = a.slot_id;
    identity = sandbox_identity parent;
    storage_path = storage_path_for parent snap;
    storage = storage;
    runtime = pool_runtime pool;
    pool = snap.spec.pool;
    container = container_or_empty parent.spec.container;
  }

  unfoldable pub wipe_request : Snapshot → Sandbox → ObjectStorageConfig → DeleteObjectsRequest
  unfolding storage_path_for
  wipe_request snap parent storage = record {
    storage_path = storage_path_for parent snap;
    snapshot_files = [];
    storage = storage;
  }

  -- What syncCreate does once it looked for the worker of the parent.
  unfoldable pub create_on :
      Snapshot
      → Sandbox
      → Assignment
      → Pool A
      → ObjectStorageConfig
      → Result Error String
      → Action W Error Requeue
  unfolding create_request wipe_request set_snapshot_condition finish_snapshot created attempt ◌>>=◌
  create_on snap parent a pool storage (err e) =
      finish_snapshot
        (set_snapshot_condition condition_false "WorkerUnavailable" (error_text e) snap)
        snapshot_retry_interval
  create_on snap parent a pool storage (ok endpoint) = do
    answer ←
        attempt
          (clients.workers.create_snapshot endpoint (create_request snap parent a pool storage))
    created snap a endpoint (wipe_request snap parent storage) answer

  -- Where the storage of the pool is known, or not.
  unfoldable pub create_in :
      Snapshot
      → Sandbox
      → Assignment
      → Pool A
      → Result Error ObjectStorageConfig
      → Action W Error Requeue
  unfolding resolve_worker_endpoint fail_snapshot create_on attempt ◌>>=◌
  create_in snap parent a pool (err e) = fail_snapshot "StorageConfig" (error_text e) snap
  create_in snap parent a pool (ok storage) = do
    endpoint ← attempt (resolve_worker_endpoint clients snap.meta.namespace a.worker)
    create_on snap parent a pool storage endpoint

  -- Where the parent has an assignment and, as the Boolean says, is running.
  unfoldable pub create_from :
      Snapshot → Sandbox → Bool → Option Assignment → Action W Error Requeue
  unfolding snapshot_storage_config waiting_snapshot finish_snapshot fail_snapshot create_in attempt
      wrap ◌>>=◌
  create_from snap parent true (some a) =
      if parent.spec.pool_ref != snap.spec.pool
      then fail_snapshot "PoolMismatch"
          (text "parent poolRef %q != snapshot pool %q"
            (parent.spec.pool_ref ∷ snap.spec.pool ∷ []))
          snap
      else (do
        pool ←
            wrap (context "get SandboxPool")
              (clients.kube.get_pool snap.meta.namespace snap.spec.pool)
        storage ← attempt (snapshot_storage_config clients.kube pool)
        create_in snap parent a pool storage)
  create_from snap parent _ _ = finish_snapshot (waiting_snapshot snap) snapshot_retry_interval

  -- What syncCreate does once it looked for the parent.
  unfoldable pub create_with : Snapshot → Result Error Sandbox → Action W Error Requeue
  unfolding fail_snapshot create_from
  create_with snap (err missing) = fail_snapshot "ParentNotFound" (error_text missing) snap
  create_with snap (err e) = fail e
  create_with snap (ok parent) =
      create_from snap parent (parent.status.phase == running) parent.status.assignment

  unfoldable pub sync_create : Snapshot → Action W Error Requeue
  unfolding create_with attempt ◌>>=◌
  sync_create snap = do
    parent ← attempt (clients.kube.get_sandbox snap.meta.namespace snap.spec.source_sandbox)
    create_with snap parent
