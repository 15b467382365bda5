-- ===== src/Controller/Objects.antt =====
-- api/v1alpha1: the objects of the API server, as far as the controllers read and write them, and the
-- errors and texts of the controllers. `A` is the type of a resource's amount.
use sandbox_fleet.Base.{ℕ, String, Bool, List, Option, Key, String-discrete}
use sandbox_fleet.Base.Int.{ℤ, ℤ-discrete}
use sandbox_fleet.Base.Map.{Map}
use sandbox_fleet.Slot.Config.{ResourceRequirements}
use sandbox_fleet.Scheduler.Types.{Error as SchedulerError}
use sandbox_fleet.Worker.Types.{ContainerSpec}
use native.Mathlib.Decide.{ℕ_discrete}

-- `missing` and `refused` are the errors of the API server: IsNotFound, and any other. `http` is the
-- error of the worker's client with the status, the code and the message, `transport` any other of
-- its errors. `invalid` is a fmt.Errorf of a format and its arguments, `context` one with %w.
-- `runtime_panic` is a nil pointer.
pub data Error : Type 0 where
  missing : Error
  refused : String → Error
  http : ℕ → String → String → Error
  transport : String → Error
  scheduling : SchedulerError → Error
  invalid : String → List String → Error
  context : String → Error → Error
  runtime_panic : Error

-- The message of a condition: a format and its arguments, or the text of an error.
pub data Message : Type 0 where
  text : String → List String → Message
  error_text : Error → Message

pub data ConditionStatus : Type 0 where
  condition_true condition_false condition_unknown : ConditionStatus

-- metav1.Condition; the library sets the time of the last transition.
pub record Condition : Type 0 where
  pub kind : String
  pub status : ConditionStatus
  pub observed_generation : ℕ
  pub reason : String
  pub message : Message

-- metav1.ObjectMeta. `deleting` is whether the deletion timestamp is set.
pub record ObjectMeta : Type 0 where
  pub namespace : String
  pub name : String
  pub uid : String
  pub generation : ℕ
  pub resource_version : String
  pub finalizers : List String
  pub deleting : Bool

-- The empty phase is `unset`.
pub data SandboxPhase : Type 0 where
  unset pending starting running stopping failed : SandboxPhase

pub record SandboxSpec : Type 0 where
  pub pool_ref : String
  pub slot_profile : String
  pub container : Option ContainerSpec
  pub from_snapshot : String

pub record Assignment : Type 0 where
  pub worker : String
  pub slot_id : ℤ
  pub slot_profile : String

pub record SandboxStatus : Type 0 where
  pub observed_generation : ℕ
  pub phase : SandboxPhase
  pub assignment : Option Assignment
  pub conditions : List Condition

pub record Sandbox : Type 0 where
  pub meta : ObjectMeta
  pub spec : SandboxSpec
  pub status : SandboxStatus

pub data SnapshotPhase : Type 0 where
  snapshot_unset snapshot_pending snapshot_ready snapshot_failed : SnapshotPhase

pub record SnapshotSpec : Type 0 where
  pub source_sandbox : String
  pub pool : String

pub record SnapshotStatus : Type 0 where
  pub observed_generation : ℕ
  pub phase : SnapshotPhase
  pub storage_path : String
  pub snapshot_files : List String
  pub runtime : String
  pub format_version : String
  pub size_bytes : ℕ
  pub source_worker : String
  pub message : Message
  pub conditions : List Condition

pub record Snapshot : Type 0 where
  pub meta : ObjectMeta
  pub spec : SnapshotSpec
  pub status : SnapshotStatus

pub record CriRuntimeConfig : Type 0 where
  pub runtime_handler : String
  pub snapshotter : String
  pub host_devices : List String

pub record RuntimeConfig : Type 0 where
  pub backend : String
  pub cri : Option CriRuntimeConfig

pub record S3Storage : Type 0 where
  pub endpoint : String
  pub bucket : String
  pub region : String
  pub credentials_secret : String

-- `s3` is a pointer of SnapshotStorageSpec.
pub record StorageSpec : Type 0 where
  pub s3 : Option S3Storage

pub record SlotProfile (A : Type 0) : Type 0 where
  pub name : String
  pub resources : ResourceRequirements A

pub record SlotGroup : Type 0 where
  pub profile : String
  pub count : ℕ

pub record WorkerTemplate : Type 0 where
  pub name : String
  pub replicas : ℕ
  pub slots : List SlotGroup

pub record PoolSpec (A : Type 0) : Type 0 where
  pub runtime : RuntimeConfig
  pub snapshot_storage : Option StorageSpec
  pub slot_profiles : List (SlotProfile A)
  pub worker_templates : List WorkerTemplate

pub record AppliedSlot : Type 0 where
  pub id : ℤ
  pub profile : String

pub record TemplateStatus : Type 0 where
  pub name : String
  pub replicas : ℕ
  pub ready_replicas : ℕ
  pub applied_slots : List AppliedSlot

pub record ProfileStatus : Type 0 where
  pub name : String
  pub total : ℕ
  pub used : ℕ
  pub available : ℕ

pub record PoolStatus : Type 0 where
  pub observed_generation : ℕ
  pub current_workers : ℕ
  pub ready_workers : ℕ
  pub used_slots : ℕ
  pub available_slots : ℕ
  pub templates : List TemplateStatus
  pub profiles : List ProfileStatus
  pub conditions : List Condition

pub record Pool (A : Type 0) : Type 0 where
  pub meta : ObjectMeta
  pub spec : PoolSpec A
  pub status : PoolStatus

-- corev1.Pod: labels, IP, conditions and the resources of the containers.
pub record Pod (A : Type 0) : Type 0 where
  pub name : String
  pub labels : Map String String
  pub ip : String
  pub conditions : List (String × ConditionStatus)
  pub containers : List (ResourceRequirements A)

-- corev1.Secret: the data.
pub record Secret : Type 0 where
  pub entries : Map String String

SchedulerError-discrete : Discrete SchedulerError
unfolding String-discrete
SchedulerError-discrete = hlevel String-discrete

unfoldable pub SandboxStatus-discrete : Discrete SandboxStatus
unfolding String-discrete ℤ-discrete ℕ_discrete SchedulerError-discrete
SandboxStatus-discrete = hlevel (String-discrete, ℤ-discrete, ℕ_discrete, SchedulerError-discrete)

-- reflect.DeepEqual on statuses.
instance unfoldable pub sandbox_status_key : Key SandboxStatus
unfolding SandboxStatus-discrete
sandbox_status_key = record { same = SandboxStatus-discrete }

unfoldable pub PoolStatus-discrete : Discrete PoolStatus
unfolding String-discrete ℤ-discrete ℕ_discrete SchedulerError-discrete
PoolStatus-discrete = hlevel (String-discrete, ℤ-discrete, ℕ_discrete, SchedulerError-discrete)

instance unfoldable pub pool_status_key : Key PoolStatus
unfolding PoolStatus-discrete
pool_status_key = record { same = PoolStatus-discrete }

instance unfoldable pub sandbox_phase_key : Key SandboxPhase
sandbox_phase_key = record { same = hlevel }

instance unfoldable pub snapshot_phase_key : Key SnapshotPhase
snapshot_phase_key = record { same = hlevel }

instance unfoldable pub condition_status_key : Key ConditionStatus
condition_status_key = record { same = hlevel }
