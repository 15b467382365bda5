-- ===== src/Controller/Keeping.antt =====
-- internal/controller/sandbox_controller.go: what the calls of a reconcile leave as it is. A property of
-- the world that the single calls keep is kept by the methods made of them.
use sandbox_fleet.Base.{String, Option, none, some}
use sandbox_fleet.Base.Result.{Result, ok, err}
use sandbox_fleet.Base.Action.{Action}
use sandbox_fleet.Base.Action.Keeps.{Keeps, keeps_rules, Keeps-fail}
use sandbox_fleet.Scheduler.Types.{Error as SchedulerError, Strategy}
use sandbox_fleet.Scheduler.Ops.{Scheduler}
use sandbox_fleet.Worker.Types.{SlotRef, StartRequest, ContainerSpec}
use sandbox_fleet.Worker.Snapshots.{RestoreRequest}
use sandbox_fleet.Controller.Objects.{Error, Sandbox, Pool, S3Storage, sandbox_status_key}
use sandbox_fleet.Controller.Clients.{
  Clients, snapshot_storage_config, s3_config, resolve_worker_endpoint,
}
use sandbox_fleet.Controller.Sandbox.{
  State, Requeue, on_world, on_scheduler, get_current, update_status, sync_current, sync_status,
  finish, handle_worker_error, start_from_snapshot, start_container, start_cold, started,
  reserved_slot,
}

-- The calls of the reconciler but the update of the object and the calls that reserve and release.
pub record IsUntouched {W A : Type 0} (clients : Clients W A) (P : W → Type 0) : Type 0 where
  pub get_sandbox : (namespace name : String) → Keeps P (clients.kube.get_sandbox namespace name)
  pub get_pool : (namespace name : String) → Keeps P (clients.kube.get_pool namespace name)
  pub get_pod : (namespace name : String) → Keeps P (clients.kube.get_pod namespace name)
  pub get_snapshot : (namespace name : String) → Keeps P (clients.kube.get_snapshot namespace name)
  pub get_secret : (namespace name : String) → Keeps P (clients.kube.get_secret namespace name)
  pub update_status : (s : Sandbox) → Keeps P (clients.kube.update_sandbox_status s)
  pub start_sandbox :
      (endpoint : String) (req : StartRequest)
      → Keeps P (clients.workers.start_sandbox endpoint req)
  pub stop_sandbox :
      (endpoint : String) (ref : SlotRef) → Keeps P (clients.workers.stop_sandbox endpoint ref)
  pub restore :
      (endpoint : String) (req : RestoreRequest)
      → Keeps P (clients.workers.restore_from_snapshot endpoint req)

abbrev pub OfWorld : {W : Type 0} → (W → Type 0) → State W → Type 0
OfWorld P st = P st.world

module _ {W T : Type 0} {P : W → Type 0} where
  pub Keeps-on_world : (m : Action W Error T) → Keeps P m → Keeps (OfWorld P) (on_world m)
  unfolding on_world
  Keeps-on_world m k = record { at = λ st h. k.at st.world h }

module _ {W T : Type 0} (P : W → Type 0) where
  pub Keeps-on_scheduler :
      (m : Action Scheduler SchedulerError T) → Keeps (OfWorld P) (on_scheduler m)
  unfolding on_scheduler
  Keeps-on_scheduler m = record { at = λ st h. h }

pub ruleset step_rules = (keeps_rules, Keeps-on_world, Keeps-on_scheduler)

module _ {W A : Type 0} (clients : Clients W A) (strategy : Strategy) (P : W → Type 0)
    (u : IsUntouched clients P) where
  pub resolve_worker_endpoint-Keeps :
      (namespace name : String) → Keeps P (resolve_worker_endpoint clients namespace name)
  unfolding resolve_worker_endpoint
  resolve_worker_endpoint-Keeps namespace name = search (keeps_rules, u.get_pod)

  s3_config-Keeps :
      (pool : Pool A) (s3 : Option S3Storage) → Keeps P (s3_config clients.kube pool s3)
  unfolding s3_config
  s3_config-Keeps pool none = search keeps_rules
  s3_config-Keeps pool (some s3) = search (keeps_rules, u.get_secret)

  pub snapshot_storage_config-Keeps :
      (pool : Pool A) → Keeps P (snapshot_storage_config clients.kube pool)
  unfolding snapshot_storage_config
  snapshot_storage_config-Keeps pool = s3_config-Keeps pool _

  pub sync_status-Keeps : (s : Sandbox) → Keeps (OfWorld P) (sync_status clients strategy s)
  unfolding sync_status get_current sync_current update_status
  sync_status-Keeps s = search (step_rules, u.get_sandbox, u.update_status) depth 12

  pub finish-Keeps :
      (s : Sandbox) (after : Requeue) → Keeps (OfWorld P) (finish clients strategy s after)
  unfolding finish
  finish-Keeps s after = search (step_rules, sync_status-Keeps)

  pub handle_worker_error-Keeps :
      (reason : String) (e : Error) (s : Sandbox)
      → Keeps (OfWorld P) (handle_worker_error clients strategy reason e s)
  unfolding handle_worker_error
  handle_worker_error-Keeps reason e s = search (step_rules, finish-Keeps)

  pub start_from_snapshot-Keeps :
      (s : Sandbox) (endpoint : String) (ref : SlotRef)
      → Keeps P (start_from_snapshot clients strategy s endpoint ref)
  unfolding start_from_snapshot
  start_from_snapshot-Keeps s endpoint ref =
      search (keeps_rules, u.get_snapshot, u.get_pool, snapshot_storage_config-Keeps, u.restore)
        depth 12

  pub started-Keeps :
      (s : Sandbox) (reason : String) (r : Result Error (Unit {0}))
      → Keeps (OfWorld P) (started clients strategy s reason r)
  unfolding started
  started-Keeps s reason (err e) = handle_worker_error-Keeps reason e s
  started-Keeps s reason (ok _) = search finish-Keeps

  start_container-Keeps :
      (s : Sandbox) (endpoint : String) (ref : SlotRef) (c : Option ContainerSpec)
      → Keeps (OfWorld P) (start_container clients strategy s endpoint ref c)
  unfolding start_container start_cold
  start_container-Keeps s endpoint ref none = search finish-Keeps
  start_container-Keeps s endpoint ref (some c) =
      search (step_rules, u.start_sandbox, started-Keeps)

  pub reserved_slot-Keeps :
      (s : Sandbox) (endpoint : String) (ref : SlotRef) (r : Result Error (Unit {0}))
      → Keeps (OfWorld P) (reserved_slot clients strategy s endpoint ref r)
  unfolding reserved_slot
  reserved_slot-Keeps s endpoint ref (err e) = search handle_worker_error-Keeps
  reserved_slot-Keeps s endpoint ref (ok _) =
      search (step_rules, start_from_snapshot-Keeps, started-Keeps, start_container-Keeps) depth 12
