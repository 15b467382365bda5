-- ===== src/Controller/Clients.antt =====
-- internal/controller/worker_dependencies.go: the clients that the controllers call, and the helpers of
-- snapshot_helpers.go that two controllers share. `W` is the world of the API server and the workers.
use Prim.Native.String.{◌++◌ as join_text}
use sandbox_fleet.Base.{
  String, Bool, false, List, [], ◌∷◌, Option, none, some, ◌||◌, if◌then◌else◌, ◌==◌, ◌!=◌,
  string_key,
}
use sandbox_fleet.Base.Map.{Map, lookup}
use sandbox_fleet.Base.Result.{Result, ok, err}
use sandbox_fleet.Base.Action.{Action, fail, lift, wrap, ◌>>=◌}
use sandbox_fleet.Slot.{Info}
use sandbox_fleet.Slot.Config.{Config}
use sandbox_fleet.Worker.Types.{SlotRef, StartRequest}
use sandbox_fleet.Worker.Snapshots.{
  ObjectStorageConfig, CreateSnapshotRequest, CreateSnapshotResult, RestoreRequest,
  DeleteObjectsRequest,
}
use sandbox_fleet.Controller.Objects.{
  Error, invalid, context, Condition, condition_true, Sandbox, Snapshot, Pool, Pod, Secret,
  S3Storage, StorageSpec, condition_status_key,
}

-- The client of controller-runtime with its helpers for finalizers, and those of apimachinery for
-- conditions. An update answers with the object as the server has it then. `list_pods` selects by
-- labels.
pub record Kube (W A : Type 0) : Type 0 where
  pub contains_finalizer : List String → String → Bool
  pub add_finalizer : List String → String → List String
  pub remove_finalizer : List String → String → List String
  pub set_condition : List Condition → Condition → List Condition
  pub find_condition : List Condition → String → Option Condition
  pub get_sandbox : String → String → Action W Error Sandbox
  pub get_snapshot : String → String → Action W Error Snapshot
  pub get_pool : String → String → Action W Error (Pool A)
  pub get_pod : String → String → Action W Error (Pod A)
  pub get_secret : String → String → Action W Error Secret
  pub list_sandboxes : String → Action W Error (List Sandbox)
  pub list_pods : String → Map String String → Action W Error (List (Pod A))
  pub update_sandbox : Sandbox → Action W Error Sandbox
  pub update_sandbox_status : Sandbox → Action W Error Sandbox
  pub update_snapshot : Snapshot → Action W Error Snapshot
  pub update_snapshot_status : Snapshot → Action W Error Snapshot
  pub update_pool_status : Pool A → Action W Error (Pool A)

-- The interface WorkerClient: each call takes the endpoint of the worker.
pub record WorkerClient (W A : Type 0) : Type 0 where
  pub health : String → Action W Error (Unit {0})
  pub list_slots : String → Action W Error (List Info)
  pub apply_topology : String → List (Config A) → Action W Error (Unit {0})
  pub reserve_slot : String → SlotRef → Action W Error (Unit {0})
  pub start_sandbox : String → StartRequest → Action W Error (Unit {0})
  pub stop_sandbox : String → SlotRef → Action W Error (Unit {0})
  pub release_slot : String → SlotRef → Action W Error (Unit {0})
  pub create_snapshot : String → CreateSnapshotRequest → Action W Error CreateSnapshotResult
  pub restore_from_snapshot : String → RestoreRequest → Action W Error (Unit {0})
  pub delete_snapshot_objects : String → DeleteObjectsRequest → Action W Error (Unit {0})

-- `endpoint` is the interface WorkerEndpointResolver.
pub record Clients (W A : Type 0) : Type 0 where
  pub kube : Kube W A
  pub workers : WorkerClient W A
  pub endpoint : Pod A → Result Error String

abbrev pub label_managed : String
label_managed = "sandboxfleet.io/managed"

abbrev pub label_pool : String
label_pool = "sandboxfleet.io/pool"

abbrev pub label_template : String
label_template = "sandboxfleet.io/template"

-- An entry of the data of a secret, empty where it is missing.
unfoldable pub secret_entry : Secret → String → String
secret_entry secret key = elim (lookup key secret.entries) [ none ↦ "" | some text ↦ text ]

-- The credentials of the storage, from the secret.
unfoldable pub storage_config_of : S3Storage → Secret → Result Error ObjectStorageConfig
unfolding secret_entry
storage_config_of s3 secret =
    let access_key = secret_entry secret "accessKeyID" in
    let secret_key = secret_entry secret "secretAccessKey" in
    if access_key == "" || secret_key == ""
    then err (
        invalid "secret %q must contain %s and %s"
          (s3.credentials_secret ∷ "accessKeyID" ∷ "secretAccessKey" ∷ []))
    else ok (record {
      endpoint = s3.endpoint;
      bucket = s3.bucket;
      region = s3.region;
      access_key_id = access_key;
      secret_access_key = secret_key;
      use_path_style = s3.endpoint != "";
    })

module _ {A : Type 0} where
  -- PodIPResolver.Endpoint, with the text that net.JoinHostPort makes of an IP and the port.
  unfoldable pub pod_ip_endpoint : (String → String) → Pod A → Result Error String
  pod_ip_endpoint join_host_port pod =
      if pod.ip == ""
      then err (invalid "worker pod %q has no IP" (pod.name ∷ []))
      else ok (join_text "http://" (join_host_port pod.ip))

  unfoldable pub pool_runtime : Pool A → String
  pool_runtime pool = elim pool.spec.runtime.cri [ none ↦ "" | some cri ↦ cri.runtime_handler ]

-- The pointer `pool.Spec.SnapshotStorage.S3`, if the first pointer is one.
abbrev pub s3_of : Option StorageSpec → Option S3Storage
s3_of none = none
s3_of (some storage) = storage.s3

module _ {W A : Type 0} (kube : Kube W A) where
  unfoldable pub is_condition_true : List Condition → String → Bool
  is_condition_true conditions kind = elim (kube.find_condition conditions kind) [
    | none ↦ false
    | some condition ↦ condition.status == condition_true
  ]

  unfoldable pub s3_config_of : Pool A → S3Storage → Action W Error ObjectStorageConfig
  unfolding storage_config_of ◌>>=◌
  s3_config_of pool s3 =
      if s3.bucket == "" || s3.credentials_secret == ""
      then fail (
          invalid "SandboxPool %q snapshotStorage.s3 needs bucket and credentialsSecretRef"
            (pool.meta.name ∷ []))
      else do
        secret ←
            wrap (context "get snapshot credentials secret")
              (kube.get_secret pool.meta.namespace s3.credentials_secret)
        lift (storage_config_of s3 secret)

  unfoldable pub s3_config : Pool A → Option S3Storage → Action W Error ObjectStorageConfig
  unfolding s3_config_of fail
  s3_config pool none =
      fail (invalid "SandboxPool %q has no snapshotStorage.s3" (pool.meta.name ∷ []))
  s3_config pool (some s3) = s3_config_of pool s3

  -- snapshotStorageConfig
  unfoldable pub snapshot_storage_config : Pool A → Action W Error ObjectStorageConfig
  unfolding s3_config
  snapshot_storage_config pool = s3_config pool (s3_of pool.spec.snapshot_storage)

module _ {W A : Type 0} (clients : Clients W A) where
  -- The method resolveWorkerEndpoint, which two reconcilers have.
  unfoldable pub resolve_worker_endpoint : String → String → Action W Error String
  unfolding ◌>>=◌
  resolve_worker_endpoint namespace name = do
    pod ← wrap (context "get Worker Pod") (clients.kube.get_pod namespace name)
    lift (clients.endpoint pod)
