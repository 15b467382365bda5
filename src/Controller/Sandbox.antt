-- ===== src/Controller/Sandbox.antt =====
-- internal/controller/sandbox_controller.go and sandbox_restore.go: SandboxReconciler. A method is an
-- action on the world and the scheduler. The object that a method gets by a pointer and changes is an
-- argument, and is returned where the caller goes on with it.
use sandbox_fleet.Base.{
  ℕ, String, Bool, true, false, not, ◌||◌, List, [], ◌∷◌, Option, none, some, if◌then◌else◌, ◌==◌,
  ◌!=◌, string_key, nat_key,
}
use sandbox_fleet.Base.Result.{Result, ok, err}
use sandbox_fleet.Base.Action.{Action, pure, fail, lift, attempt, wrap, map_error, ◌>>=◌, ◌>>◌}
use sandbox_fleet.Scheduler.Types.{
  Error as SchedulerError, no_capacity, Assignment as SchedulerAssignment, AssignRequest, Strategy,
}
use sandbox_fleet.Scheduler.Ops.{Scheduler, assign, restore, release}
use sandbox_fleet.Worker.Types.{Identity, SlotRef, ContainerSpec}
use sandbox_fleet.Controller.Objects.{
  Error, runtime_panic, missing, http, scheduling, invalid, context, Message, text, error_text,
  ConditionStatus, condition_true, condition_false, Sandbox, SandboxStatus, SandboxPhase, pending,
  starting, running, stopping, failed, Assignment, Snapshot, snapshot_ready, Pool, SlotProfile,
  sandbox_status_key, snapshot_phase_key,
}
use sandbox_fleet.Controller.Clients.{
  Clients, is_condition_true, snapshot_storage_config, pool_runtime, resolve_worker_endpoint,
}

pub record State (W : Type 0) : Type 0 where
  pub world : W
  pub scheduler : Scheduler

abbrev pub Step : Type 0 → Type 0 → Type 0
Step W T = Action (State W) Error T

-- ctrl.Result by its RequeueAfter in seconds; 0 asks for none.
abbrev pub Requeue : Type 0
Requeue = ℕ

abbrev pub no_requeue : Requeue
no_requeue = 0

abbrev pub sandbox_retry_interval : Requeue
sandbox_retry_interval = 2

abbrev pub pool_poll_interval : Requeue
pool_poll_interval = 5

abbrev pub sandbox_finalizer : String
sandbox_finalizer = "sandboxfleet.io/runtime-cleanup"

unfoldable pub sandbox_identity : Sandbox → Identity
sandbox_identity s = record { namespace = s.meta.namespace; name = s.meta.name; uid = s.meta.uid }

unfoldable pub assignment_from_sandbox : Sandbox → Assignment → SchedulerAssignment
assignment_from_sandbox s a = record {
  sandbox_uid = s.meta.uid;
  namespace = s.meta.namespace;
  name = s.meta.name;
  worker = record { namespace = s.meta.namespace; pool = s.spec.pool_ref; name = a.worker };
  slot_id = a.slot_id;
  slot_profile = s.spec.slot_profile;
}

unfoldable pub assign_request : Sandbox → AssignRequest
assign_request s = record {
  sandbox_uid = s.meta.uid;
  namespace = s.meta.namespace;
  name = s.meta.name;
  pool = s.spec.pool_ref;
  slot_profile = s.spec.slot_profile;
}

unfoldable pub has_slot_profile : {A : Type 0} → List (SlotProfile A) → String → Bool
has_slot_profile [] name = false
has_slot_profile (p ∷ ps) name = if p.name == name then true else has_slot_profile ps name

-- The Retryable method of the worker client's error. No other error has one.
unfoldable pub is_retryable : ℕ → Bool
is_retryable status = status == 429 || status == 500 || status == 503

-- The test of handleWorkerError.
unfoldable pub is_permanent : Error → Bool
unfolding is_retryable
is_permanent (http status code message) = not (is_retryable status)
is_permanent _ = false

module _ {W T : Type 0} where
  unfoldable pub on_world : Action W Error T → Step W T
  on_world m s = let (w, r) = m s.world in (record s { world = w }, r)

  unfoldable pub on_scheduler : Action Scheduler SchedulerError T → Step W T
  on_scheduler m s =
      let (scheduler, r) = m s.scheduler in
      (record s { scheduler = scheduler }, map_error scheduling r)

module _ {W A : Type 0} (clients : Clients W A) (strategy : Strategy) where
  unfoldable pub set_sandbox_condition :
      String → ConditionStatus → String → Message → Sandbox → Sandbox
  set_sandbox_condition kind status reason message s = record s {
    status = record s.status {
      conditions = clients.kube.set_condition s.status.conditions (record {
        kind = kind;
        status = status;
        observed_generation = s.meta.generation;
        reason = reason;
        message = message;
      });
    };
  }

  abbrev pub set_phase : SandboxPhase → Sandbox → Sandbox
  set_phase phase s = record s { status = record s.status { phase = phase } }

  -- The status that syncStatus writes.
  unfoldable pub desired_status : Sandbox → SandboxStatus
  desired_status s = record s.status { observed_generation = s.meta.generation }

  unfoldable pub update_status : Sandbox → Step W Sandbox
  unfolding wrap on_world
  update_status s =
      on_world (wrap (context "update Sandbox status") (clients.kube.update_sandbox_status s))

  unfoldable pub get_current : Sandbox → Step W Sandbox
  unfolding wrap on_world
  get_current s = on_world (
      wrap (context "get current Sandbox before status update")
        (clients.kube.get_sandbox s.meta.namespace s.meta.name))

  -- The sandbox after syncStatus has the metadata and the status of the object of the server.
  unfoldable pub sync_current : Sandbox → Sandbox → Step W Sandbox
  unfolding desired_status update_status ◌>>=◌
  sync_current s current =
      if current.status == desired_status s
      then pure (record s { meta = current.meta; status = current.status })
      else (do
        updated ← update_status (record current { status = desired_status s })
        pure (record s { meta = updated.meta; status = updated.status }))

  unfoldable pub sync_status : Sandbox → Step W Sandbox
  unfolding get_current sync_current ◌>>=◌
  sync_status s = do current ← get_current s; sync_current s current

  -- The ends of the methods: the status is written, then the result is returned.
  unfoldable pub finish : Sandbox → Requeue → Step W Requeue
  unfolding sync_status
  finish s after = do sync_status s; pure after

  unfoldable pub handle_worker_error : String → Error → Sandbox → Step W Requeue
  unfolding set_sandbox_condition is_permanent finish
  handle_worker_error reason e s =
      let s' = set_sandbox_condition "Ready" condition_false reason (error_text e) s in
      if is_permanent e
      then finish (set_phase failed s') no_requeue
      else finish s' sandbox_retry_interval

  -- The sandbox with its assignment.
  unfoldable pub assigned_sandbox : Sandbox → SchedulerAssignment → Sandbox
  unfolding set_sandbox_condition
  assigned_sandbox s a =
      let given : Assignment = record {
        worker = a.worker.name;
        slot_id = a.slot_id;
        slot_profile = a.slot_profile;
      } in
      let s' = record s {
        status = record s.status { assignment = some given; phase = starting };
      } in
      set_sandbox_condition "Ready" condition_false "Starting" (text "the Sandbox is starting" []) (
        set_sandbox_condition "Scheduled" condition_true "Assigned"
          (text "a Worker and Slot were assigned" []) s')

  -- What syncAssign does with the answer of the scheduler.
  unfoldable pub assigned : Sandbox → Result Error SchedulerAssignment → Step W Requeue
  unfolding set_sandbox_condition finish assigned_sandbox
  assigned s (err (scheduling no_capacity)) =
      finish
        (set_phase pending (
          set_sandbox_condition "Scheduled" condition_false "NoCapacity"
            (text "the SandboxPool has no available Slot" []) s))
        sandbox_retry_interval
  assigned s (err e) = fail (context "assign Sandbox" e)
  assigned s (ok a) = finish (assigned_sandbox s a) no_requeue

  unfoldable pub sync_assign : Sandbox → Pool A → Step W Requeue
  unfolding has_slot_profile assign_request set_sandbox_condition finish assigned on_world
      on_scheduler ◌>>=◌
  sync_assign s pool =
      if not (has_slot_profile pool.spec.slot_profiles s.spec.slot_profile)
      then finish
          (set_phase failed (
            set_sandbox_condition "Scheduled" condition_false "InvalidSlotProfile"
              (text "slotProfile %q is not defined by SandboxPool %q"
                (s.spec.slot_profile ∷ pool.meta.name ∷ []))
              s))
          no_requeue
      else do
        answer ← attempt (on_scheduler (λ t. assign strategy t (assign_request s)))
        assigned s answer

  -- The checks of startFromSnapshot on the snapshot.
  unfoldable pub check_snapshot : Sandbox → Snapshot → Result Error (Unit {0})
  check_snapshot s snap =
      if snap.status.phase != snapshot_ready
      then err (invalid "SandboxSnapshot %q is %q, want Ready" (snap.meta.name ∷ []))
      else if snap.status.storage_path == ""
      then err (invalid "SandboxSnapshot %q has empty storagePath" (snap.meta.name ∷ []))
      else if snap.spec.pool != s.spec.pool_ref
      then err (
          invalid "SandboxSnapshot %q pool %q does not match Sandbox poolRef %q"
            (snap.meta.name ∷ snap.spec.pool ∷ s.spec.pool_ref ∷ []))
      else ok tt

  abbrev pub snapshot_get_error : String → Error → Error
  snapshot_get_error name missing = invalid "fromSnapshot %q not found" (name ∷ [])
  snapshot_get_error name e = context "get SandboxSnapshot" e

  unfoldable pub start_from_snapshot : Sandbox → String → SlotRef → Action W Error (Unit {0})
  unfolding check_snapshot snapshot_storage_config pool_runtime on_world on_scheduler ◌>>=◌
  start_from_snapshot s endpoint ref = do
    snap ←
        wrap (snapshot_get_error s.spec.from_snapshot)
          (clients.kube.get_snapshot s.meta.namespace s.spec.from_snapshot)
    lift (check_snapshot s snap)
    pool ← wrap (context "get SandboxPool") (clients.kube.get_pool s.meta.namespace s.spec.pool_ref)
    storage ← snapshot_storage_config clients.kube pool
    clients.workers.restore_from_snapshot endpoint (record {
      slot_id = ref.slot_id;
      identity = ref.identity;
      storage_path = snap.status.storage_path;
      storage = storage;
      runtime = if snap.status.runtime == "" then pool_runtime pool else snap.status.runtime;
    })

  -- The cold start of a sandbox.
  unfoldable pub start_cold : Sandbox → String → SlotRef → ContainerSpec → Action W Error (Unit {0})
  start_cold s endpoint ref container =
      clients.workers.start_sandbox endpoint
        (record { slot_id = ref.slot_id; identity = ref.identity; container = container })

  unfoldable pub running_sandbox : Sandbox → Sandbox
  unfolding set_sandbox_condition
  running_sandbox s =
      set_sandbox_condition "Ready" condition_true "Running" (text "the Sandbox is running" [])
        (set_phase running s)

  -- The end of syncStart, with the answer of the start and the reason of its error.
  unfoldable pub started : Sandbox → String → Result Error (Unit {0}) → Step W Requeue
  unfolding handle_worker_error running_sandbox finish
  started s reason (err e) = handle_worker_error reason e s
  started s reason (ok _) = finish (running_sandbox s) pool_poll_interval

  -- Where the sandbox is not made from a snapshot.
  unfoldable pub start_container :
      Sandbox → String → SlotRef → Option ContainerSpec → Step W Requeue
  unfolding set_sandbox_condition finish start_cold started on_world ◌>>=◌
  start_container s endpoint ref none =
      finish
        (set_phase failed (
          set_sandbox_condition "Ready" condition_false "InvalidSpec"
            (text "container is required when fromSnapshot is empty" []) s))
        no_requeue
  start_container s endpoint ref (some container) = do
    answer ← attempt (on_world (start_cold s endpoint ref container))
    started s "StartFailed" answer

  -- What syncStart does with the answer of ReserveSlot.
  unfoldable pub reserved_slot :
      Sandbox → String → SlotRef → Result Error (Unit {0}) → Step W Requeue
  unfolding handle_worker_error set_sandbox_condition finish start_from_snapshot start_container
      started on_world ◌>>=◌
  reserved_slot s endpoint ref (err e) = handle_worker_error "ReserveFailed" e s
  reserved_slot s endpoint ref (ok _) =
      if s.spec.from_snapshot != ""
      then (do
        answer ← attempt (on_world (start_from_snapshot s endpoint ref))
        started s "RestoreFailed" answer)
      else start_container s endpoint ref s.spec.container

  unfoldable pub slot_ref : Sandbox → Assignment → SlotRef
  unfolding sandbox_identity
  slot_ref s a = record { slot_id = a.slot_id; identity = sandbox_identity s }

  -- What syncStart does once it knows the worker.
  unfoldable pub on_worker : Sandbox → Assignment → Result Error String → Step W Requeue
  unfolding set_sandbox_condition finish slot_ref reserved_slot on_world on_scheduler ◌>>=◌
  on_worker s a (err e) =
      finish (set_sandbox_condition "Ready" condition_false "WorkerUnavailable" (error_text e) s)
        sandbox_retry_interval
  on_worker s a (ok endpoint) = do
    answer ← attempt (on_world (clients.workers.reserve_slot endpoint (slot_ref s a)))
    reserved_slot s endpoint (slot_ref s a) answer

  unfoldable pub sync_start : Sandbox → Assignment → Step W Requeue
  unfolding assignment_from_sandbox resolve_worker_endpoint on_worker on_world on_scheduler ◌>>=◌
  sync_start s a = do
    wrap (context "restore Sandbox assignment")
        (on_scheduler (λ t. restore t (assignment_from_sandbox s a)))
    endpoint ← attempt (on_world (resolve_worker_endpoint clients s.meta.namespace a.worker))
    on_worker s a endpoint

  unfoldable pub unset_finalizer : Sandbox → Step W Requeue
  unfolding on_world ◌>>=◌
  unset_finalizer s = do
    on_world (
        wrap (context "remove Sandbox finalizer") (
          clients.kube.update_sandbox (record s {
            meta = record s.meta {
              finalizers = clients.kube.remove_finalizer s.meta.finalizers sandbox_finalizer;
            };
          })))
    pure no_requeue

  -- The end of syncDelete.
  unfoldable pub drop_finalizer : Sandbox → Step W Requeue
  unfolding on_scheduler unset_finalizer ◌>>=◌
  drop_finalizer s = do on_scheduler (λ t. (release t s.meta.uid, ok tt)); unset_finalizer s

  -- What syncDelete does once it looked for the worker.
  unfoldable pub clean_worker : Sandbox → Assignment → Result Error String → Step W Requeue
  unfolding slot_ref drop_finalizer on_world on_scheduler ◌>>=◌
  clean_worker s a (err e) = pure sandbox_retry_interval
  clean_worker s a (ok endpoint) = do
    on_world (wrap (context "stop Sandbox") (clients.workers.stop_sandbox endpoint (slot_ref s a)))
    on_world (
        wrap (context "release Sandbox Slot")
          (clients.workers.release_slot endpoint (slot_ref s a)))
    drop_finalizer s

  -- Where the status has an assignment before and, if the server kept it, after it was written.
  unfoldable pub delete_from : Sandbox → Option Assignment → Step W Requeue
  unfolding resolve_worker_endpoint clean_worker on_world ◌>>=◌
  delete_from s none = fail runtime_panic
  delete_from s (some a) = do
    endpoint ← attempt (on_world (resolve_worker_endpoint clients s.meta.namespace a.worker))
    clean_worker s a endpoint

  unfoldable pub delete_placed : Sandbox → Option Assignment → Step W Requeue
  unfolding sync_status delete_from drop_finalizer ◌>>=◌
  delete_placed s none = drop_finalizer s
  delete_placed s (some a) = do
    s' ← sync_status (set_phase stopping s)
    delete_from s' s'.status.assignment

  unfoldable pub sync_delete : Sandbox → Step W Requeue
  unfolding delete_placed pure
  sync_delete s =
      if not (clients.kube.contains_finalizer s.meta.finalizers sandbox_finalizer)
      then pure no_requeue
      else delete_placed s s.status.assignment

  unfoldable pub add_finalizer : Sandbox → Step W Requeue
  unfolding on_world on_scheduler ◌>>=◌
  add_finalizer s = do
    on_world (
        wrap (context "add Sandbox finalizer") (
          clients.kube.update_sandbox (record s {
            meta = record s.meta {
              finalizers = clients.kube.add_finalizer s.meta.finalizers sandbox_finalizer;
            };
          })))
    pure no_requeue

  unfoldable pub sync_placed : Sandbox → Pool A → Option Assignment → Step W Requeue
  unfolding sync_assign sync_start
  sync_placed s pool none = sync_assign s pool
  sync_placed s pool (some a) = sync_start s a

  unfoldable pub sync_scheduled : Sandbox → Pool A → Step W Requeue
  unfolding is_condition_true set_sandbox_condition finish sync_placed
  sync_scheduled s pool =
      if not (is_condition_true clients.kube pool.status.conditions "Ready")
      then finish
          (set_phase pending (
            set_sandbox_condition "Scheduled" condition_false "PoolNotReady"
              (text "the SandboxPool has no ready Worker" []) s))
          sandbox_retry_interval
      else sync_placed s pool s.status.assignment

  -- Reconcile of an object that was found, and is not deleted.
  unfoldable pub reconcile_live : Sandbox → Step W Requeue
  unfolding add_finalizer sync_scheduled on_world ◌>>=◌
  reconcile_live s =
      if not (clients.kube.contains_finalizer s.meta.finalizers sandbox_finalizer)
      then add_finalizer s
      else (do
        pool ← on_world (
            wrap (context "get SandboxPool")
              (clients.kube.get_pool s.meta.namespace s.spec.pool_ref))
        sync_scheduled s pool)

  unfoldable pub reconcile_sandbox : Sandbox → Step W Requeue
  unfolding sync_delete reconcile_live
  reconcile_sandbox s = if s.meta.deleting then sync_delete s else reconcile_live s

  -- client.IgnoreNotFound
  unfoldable pub found : Result Error Sandbox → Step W Requeue
  unfolding reconcile_sandbox
  found (err missing) = pure no_requeue
  found (err e) = fail e
  found (ok s) = reconcile_sandbox s

  unfoldable pub reconcile : String → String → Step W Requeue
  unfolding found on_world on_scheduler ◌>>=◌
  reconcile namespace name = do
    answer ← attempt (on_world (clients.kube.get_sandbox namespace name))
    found answer
