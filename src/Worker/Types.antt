-- ===== src/Worker/Types.antt =====
-- internal/workerapi/types.go and internal/runtime/runtime.go: requests and errors of the worker, and
-- the interfaces that it calls. `W` is the world that those calls read and change: containers, virtual
-- machines, files. `A` is the type of a resource's amount.
use sandbox_fleet.Base.{ℕ, String, Bool, List, Option, none, some, ◌||◌, string_key}
use sandbox_fleet.Base.Int.{ℤ}
use sandbox_fleet.Base.Map.{Map, lookup}
use sandbox_fleet.Base.Result.{Result, ok, err}
use sandbox_fleet.Slot.{State, starting, running, stopping, failed}
use sandbox_fleet.Slot.Config.{ResourceRequirements}
use text.Mathlib.Text.{starts_with}

pub record Identity : Type 0 where
  pub namespace : String
  pub name : String
  pub uid : String

abbrev pub no_identity : Identity
no_identity = record { namespace = ""; name = ""; uid = "" }

pub record SlotRef : Type 0 where
  pub slot_id : ℤ
  pub identity : Identity

-- corev1.EnvVar: whether a variable has a `valueFrom` is all the code reads of it.
pub record EnvVar : Type 0 where
  pub name : String
  pub value : String
  pub has_value_from : Bool

pub record ContainerSpec : Type 0 where
  pub image : String
  pub command : List String
  pub args : List String
  pub env : List EnvVar

pub record StartRequest : Type 0 where
  pub slot_id : ℤ
  pub identity : Identity
  pub container : ContainerSpec

pub record SandboxInfo : Type 0 where
  pub identity : Identity
  pub slot_id : ℤ
  pub state : State

pub record ExecSandboxRequest : Type 0 where
  pub slot_id : ℤ
  pub identity : Identity
  pub command : List String
  pub timeout_seconds : ℤ

pub record EnvironmentVariable : Type 0 where
  pub name : String
  pub value : String

pub record ContainerConfig : Type 0 where
  pub image : String
  pub command : List String
  pub args : List String
  pub env : List EnvironmentVariable

pub record CreateRequest (A : Type 0) : Type 0 where
  pub identity : Identity
  pub slot_id : ℤ
  pub resources : ResourceRequirements A
  pub container : ContainerConfig

-- runtime.ID
pub record RuntimeId : Type 0 where
  pub value : String

pub data RuntimeState : Type 0 where
  state_created state_running state_stopped state_unknown : RuntimeState

-- What List returns of an object. The exit code and the message of the status are not read.
pub record RuntimeInfo : Type 0 where
  pub id : RuntimeId
  pub identity : Identity
  pub slot_id : ℤ
  pub status : RuntimeState

-- The timeout is in seconds; 0 means the runtime's default.
pub record ExecRequest : Type 0 where
  pub command : List String
  pub timeout : ℕ

pub record ExecResult : Type 0 where
  pub exit_code : ℤ
  pub stdout : String
  pub stderr : String

-- An error of a call to a runtime, a snapshotter or a store: `not_found` wraps ErrNotFound.
pub data Failure : Type 0 where
  not_found : Failure
  failure : String → Failure

-- The sentinels of workerapi, then the errors that wrap none of them.
pub data Error : Type 0 where
  invalid_request slot_not_found sandbox_not_found slot_conflict slot_config_invalid : Error
  wrong_state : ℤ → State → Error
  no_snapshotter : String → Error
  wrapped : Failure → Error
  clean_failed : Failure → Failure → Error
  unknown_slot multiple_objects : String → ℤ → Error

-- The interface Runtime, but for the operations on files (FileRuntime of Worker/Files/Calls).
pub record Runtime (W A : Type 0) : Type 0 where
  pub create : W → CreateRequest A → W × Result Failure RuntimeId
  pub start : W → RuntimeId → W × Result Failure (Unit {0})
  pub stop : W → RuntimeId → W × Result Failure (Unit {0})
  pub delete : W → RuntimeId → W × Result Failure (Unit {0})
  pub status : W → RuntimeId → W × Result Failure RuntimeState
  pub listing : W → W × Result Failure (List RuntimeInfo)
  pub exec : W → RuntimeId → ExecRequest → W × Result Failure ExecResult

pub record SaveRequest : Type 0 where
  pub id : RuntimeId
  pub dest_dir : String
  pub container_id : String
  pub app_container_name : String
  pub app_image : String

pub record LoadRequest : Type 0 where
  pub source_dir : String
  pub identity : Identity
  pub slot_id : ℤ
  pub app_image : String

-- The interface Snapshotter, with the answer of SaveTeardown, false where it is not implemented.
pub record Snapshotter (W : Type 0) : Type 0 where
  pub format_version : String
  pub tears_down_on_save : Bool
  pub save_snapshot : W → SaveRequest → W × Result Failure (Unit {0})
  pub load_snapshot : W → LoadRequest → W × Result Failure RuntimeId
  pub delete_restored : W → RuntimeId → W × Result Failure (Unit {0})
  pub exec_restored : W → RuntimeId → ExecRequest → W × Result Failure ExecResult

-- What a SlotManager holds beside its slots: the runtime, the registry of snapshotters (which may be
-- nil), the runtime handler of a CRI configuration, and from the libraries the equality of resources
-- and os.RemoveAll, whose error is ignored.
pub record Env (W A : Type 0) : Type 0 where
  pub runtime : Runtime W A
  pub snapshotters : Option (Map String (Snapshotter W))
  pub cri_handler : Option String
  pub same_resources : ResourceRequirements A → ResourceRequirements A → Bool
  pub remove_all : W → String → W

-- snapshotter.IsRestoredID
unfoldable pub is_restored_id : RuntimeId → Bool
is_restored_id id = starts_with id.value "runsc:" || starts_with id.value "kata:"

-- runtimeSlotState
unfoldable pub runtime_slot_state : RuntimeState → State
runtime_slot_state state_created = starting
runtime_slot_state state_running = running
runtime_slot_state state_stopped = stopping
runtime_slot_state state_unknown = failed

module _ {W A : Type 0} (env : Env W A) where
  unfoldable pub runtime_handler : String
  runtime_handler = elim env.cri_handler [ none ↦ "" | some handler ↦ handler ]

  -- Registry.For
  unfoldable pub snapshotter_for : String → Result Error (Snapshotter W)
  snapshotter_for handler = elim env.snapshotters [
    | none ↦ err (no_snapshotter handler)
    | some by_handler ↦ elim (lookup handler by_handler) [
      | none ↦ err (no_snapshotter handler)
      | some s ↦ ok s
    ]
  ]
