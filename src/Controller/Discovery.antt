-- ===== src/Controller/Discovery.antt =====
-- internal/controller/pool_controller.go: what a reconcile of a pool leaves of the scheduler.
use sandbox_fleet.Base.{
  ℕ, zero, suc, String, Bool, true, false, ◌≡◌, refl, List, [], ◌∷◌, if◌then◌else◌, string_key,
}
use sandbox_fleet.Base.Map.{Map}
use sandbox_fleet.Base.Result.{Result, ok, err}
use sandbox_fleet.Base.Action.{Action}
use sandbox_fleet.Base.Action.Keeps.{Keeps, keeps_rules}
use sandbox_fleet.Slot.{Info}
use sandbox_fleet.Slot.Config.{Quantity}
use sandbox_fleet.Slot.Plan.{Set}
use sandbox_fleet.Scheduler.Types.{Error as SchedulerError, WorkerKey, WorkerState, Assignment}
use sandbox_fleet.Scheduler.Ops.{Scheduler, update_worker, remove_worker}
use sandbox_fleet.Scheduler.Invariant.{Inv, remove_worker-Inv, update_worker-Inv}
use sandbox_fleet.Controller.Objects.{Error, missing, WorkerTemplate, Pool, Pod}
use sandbox_fleet.Controller.Sandbox.{State, on_world, on_scheduler}
use sandbox_fleet.Controller.Pool.{Pending, Tally}
use sandbox_fleet.Controller.Topology.{Workloads}
use sandbox_fleet.Controller.Inventory.{Printer, forget_ordinals, forget_missing, known_workers}
use sandbox_fleet.Controller.Refreshing.{
  report_worker, observe_pod, observe_pods, sync_pool_status, reconcile_pool, pool_found,
  reconcile_pool_named,
}

-- The scheduler has its invariant and the assignments.
pub record Serves (assignments : Map String Assignment) (s : Scheduler) : Type 0 where
  pub inv : Inv s
  pub same : s.assignments ≡ assignments

abbrev pub OfScheduler : {W : Type 0} → (Scheduler → Type 0) → State W → Type 0
OfScheduler P st = P st.scheduler

Keeps-world :
    {W T : Type 0} (P : Scheduler → Type 0) (m : Action W Error T)
    → Keeps (OfScheduler P) (on_world m)
unfolding on_world
Keeps-world P m = record { at = λ st h. h }

Keeps-scheduler :
    {W T : Type 0} (P : Scheduler → Type 0) (m : Action Scheduler SchedulerError T)
    → Keeps P m
    → Keeps (OfScheduler {W = W} P) (on_scheduler m)
unfolding on_scheduler
Keeps-scheduler P m k = record { at = λ st h. k.at st.scheduler h }

module _ (assignments : Map String Assignment) where
  remove_worker-Serves :
      (s : Scheduler) (key : WorkerKey)
      → Serves assignments s
      → Serves assignments (remove_worker s key)
  remove_worker-Serves s key h = record {
    inv = remove_worker-Inv s key h.inv;
    same = unfold remove_worker in h.same;
  }

  update_worker-Serves :
      (s : Scheduler) (state : WorkerState)
      → Serves assignments s
      → Serves assignments (update_worker s state)
  update_worker-Serves s state h = record {
    inv = update_worker-Inv s state h.inv;
    same = unfold update_worker in h.same;
  }

  forget_one-Serves :
      (b : Bool) (s : Scheduler) (key : WorkerKey)
      → Serves assignments s
      → Serves assignments (if b then s else remove_worker s key)
  forget_one-Serves true s key h = h
  forget_one-Serves false s key h = remove_worker-Serves s key h

  module _ {A : Type 0} (pool : Pool A) where
    forget_ordinals-Serves :
        (template : String) (seen : Set String) (rounds ordinal : ℕ) (s : Scheduler)
        → Serves assignments s
        → Serves assignments (forget_ordinals pool template seen rounds ordinal s)
    unfolding forget_ordinals
    forget_ordinals-Serves template seen zero ordinal s h = h
    forget_ordinals-Serves template seen (suc rounds) ordinal s h =
        forget_ordinals-Serves template seen rounds (suc ordinal) _ (forget_one-Serves _ s _ h)

    forget_missing-Serves :
        (t : Tally) (templates : List WorkerTemplate) (s : Scheduler)
        → Serves assignments s
        → Serves assignments (forget_missing pool t templates s)
    unfolding forget_missing
    forget_missing-Serves t [] s h = h
    forget_missing-Serves t (template ∷ rest) s h =
        forget_missing-Serves t rest _
          (forget_ordinals-Serves template.name t.seen (known_workers template t) 0 s h)

    Keeps-forget :
        (t : Tally) (templates : List WorkerTemplate)
        → Keeps {E = SchedulerError}
            (Serves assignments)
            (λ s. (forget_missing pool t templates s, ok (tt {0})))
    Keeps-forget t templates = record { at = λ s h. forget_missing-Serves t templates s h }

  Keeps-remove :
      (key : WorkerKey)
      → Keeps {E = SchedulerError} (Serves assignments) (λ s. (remove_worker s key, ok (tt {0})))
  Keeps-remove key = record { at = λ s h. remove_worker-Serves s key h }

  Keeps-update :
      (state : WorkerState)
      → Keeps {E = SchedulerError} (Serves assignments) (λ s. (update_worker s state, ok (tt {0})))
  Keeps-update state = record { at = λ s h. update_worker-Serves s state h }

  ruleset serves_rules =
      (keeps_rules, Keeps-world, Keeps-scheduler, Keeps-remove, Keeps-update, Keeps-forget)

  module _ (q : Quantity) {W T : Type 0} (workloads : Workloads W q.Amount T)
      (printer : Printer) where
    abbrev Kept : State W → Type 0
    Kept = OfScheduler (Serves assignments)

    report_worker-Keeps :
        (key : WorkerKey) (pod : Pod q.Amount) (t : Tally) (r : Result Error (List Info))
        → Keeps Kept (report_worker q workloads printer key pod t r)
    unfolding report_worker
    report_worker-Keeps key pod t (err e) = search serves_rules depth 12
    report_worker-Keeps key pod t (ok slots) = search serves_rules depth 12

    observe_pod-Keeps :
        (pool : Pool q.Amount) (pod : Pod q.Amount) (t : Tally)
        → Keeps Kept (observe_pod q workloads printer pool pod t)
    unfolding observe_pod
    observe_pod-Keeps pool pod t = search (serves_rules, report_worker-Keeps) depth 12

    observe_pods-Keeps :
        (pool : Pool q.Amount) (pods : List (Pod q.Amount)) (t : Tally)
        → Keeps Kept (observe_pods q workloads printer pool pods t)
    unfolding observe_pods
    observe_pods-Keeps pool [] t = search serves_rules
    observe_pods-Keeps pool (pod ∷ pods) t =
        search (serves_rules, observe_pod-Keeps pool pod t, observe_pods-Keeps pool pods)

    sync_pool_status-Keeps :
        (pool : Pool q.Amount) (pending : List Pending)
        → Keeps Kept (sync_pool_status q workloads printer pool pending)
    unfolding sync_pool_status
    sync_pool_status-Keeps pool pending = search (serves_rules, observe_pods-Keeps pool) depth 12

    reconcile_pool-Keeps :
        (pool : Pool q.Amount) → Keeps Kept (reconcile_pool q workloads printer pool)
    unfolding reconcile_pool
    reconcile_pool-Keeps pool = search (serves_rules, sync_pool_status-Keeps) depth 12

    pool_found-Keeps :
        (r : Result Error (Pool q.Amount)) → Keeps Kept (pool_found q workloads printer r)
    unfolding pool_found
    pool_found-Keeps (err missing) = search keeps_rules
    pool_found-Keeps (err e) = search keeps_rules
    pool_found-Keeps (ok pool) = reconcile_pool-Keeps pool

    reconcile_pool_named-Keeps :
        (namespace name : String)
        → Keeps Kept (reconcile_pool_named q workloads printer namespace name)
    unfolding reconcile_pool_named
    reconcile_pool_named-Keeps namespace name = search (serves_rules, pool_found-Keeps) depth 12

module _ (q : Quantity) {W T : Type 0} (workloads : Workloads W q.Amount T)
    (printer : Printer) where
  -- A reconcile of a pool, whatever the calls answer, keeps the invariant of the scheduler and leaves
  -- every assignment as it was.
  pub reconcile_pool_named-Inv :
      (namespace name : String) (st : State W)
      → Inv st.scheduler
      → Inv (reconcile_pool_named q workloads printer namespace name st).0.scheduler
        × ((reconcile_pool_named q workloads printer namespace name st).0.scheduler.assignments
            ≡ st.scheduler.assignments)
  reconcile_pool_named-Inv namespace name st h =
      let k =
        (reconcile_pool_named-Keeps st.scheduler.assignments q workloads printer namespace name).at
          st (record { inv = h; same = refl }) in
      (k.inv, k.same)
