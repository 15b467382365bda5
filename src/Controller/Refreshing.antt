-- ===== src/Controller/Refreshing.antt =====
-- internal/controller/pool_controller.go: syncTemplate, syncStatus, syncService and Reconcile of
-- PoolReconciler, as actions on the world and the scheduler.
use sandbox_fleet.Base.{
  String, Bool, true, not, List, [], ◌∷◌, ◌++◌, if◌then◌else◌, ◌==◌, ltb, string_key, nat_key,
  length,
}
use sandbox_fleet.Base.Result.{Result, ok, err}
use sandbox_fleet.Base.Action.{Action, pure, fail, lift, attempt, wrap, ◌>>=◌, ◌>>◌}
use sandbox_fleet.Slot.{Info}
use sandbox_fleet.Slot.Config.{
  Quantity, Config, ResourceRequirements, count_new_slots, keep_existing_slots, sum_resources,
}
use sandbox_fleet.Slot.Plan.{ProfileResources, TopologyPlan, plan_topology}
use sandbox_fleet.Scheduler.Types.{WorkerKey}
use sandbox_fleet.Scheduler.Ops.{update_worker, remove_worker}
use sandbox_fleet.Controller.Objects.{
  Error, missing, context, WorkerTemplate, PoolStatus, Pool, Pod, pool_status_key,
}
use sandbox_fleet.Controller.Sandbox.{
  Step, Requeue, no_requeue, pool_poll_interval, on_world, on_scheduler,
}
use sandbox_fleet.Controller.Pool.{
  Pending, no_headroom, busy_workers, worker_service_name, pool_labels, worker_labels, pod_ready,
  profile_resources_from, applied_configs, slot_counts_from_template, worker_key_of, Tally,
  slot_map_from,
}
use sandbox_fleet.Controller.Topology.{
  Service, Workloads, occupied_slots, all_fit, sync_topology, sync_workers,
}
use sandbox_fleet.Controller.Inventory.{
  Printer, blocked_reasons, empty_stats, see_pod, count_worker, forget_missing, desired_pool_status,
}

module _ (q : Quantity) {W T : Type 0} (workloads : Workloads W q.Amount T)
    (printer : Printer) where
  -- The service of the workers of a pool; a port that is not set is 8090.
  unfoldable pub worker_service : Pool q.Amount → Service
  unfolding worker_service_name pool_labels
  worker_service pool = record {
    namespace = pool.meta.namespace;
    name = worker_service_name pool.meta.name;
    selector = pool_labels pool.meta.name;
    port = if workloads.worker_port == 0 then 8090 else workloads.worker_port;
  }

  -- Where the service was found or not.
  unfoldable pub create_missing_service : Service → Result Error Service → Action W Error (Unit {0})
  unfolding ◌>>=◌
  create_missing_service desired (err missing) = do
    wrap (context "create Worker Service") (workloads.create_service desired)
    pure tt
  create_missing_service desired (err e) = fail (context "get Worker Service" e)
  create_missing_service desired (ok service) = pure tt

  unfoldable pub sync_service : Pool q.Amount → Action W Error (Unit {0})
  unfolding worker_service create_missing_service ◌>>=◌
  sync_service pool = do
    desired ←
        wrap (context "set Worker Service owner")
          (lift (workloads.own_service pool (worker_service pool)))
    current ← attempt (workloads.get_service desired.namespace desired.name)
    create_missing_service desired current

  unfoldable pub workers_can_fit :
      Pool q.Amount → String → ResourceRequirements q.Amount → Action W Error Bool
  unfolding all_fit ◌>>=◌
  workers_can_fit pool template need = do
    pods ← wrap (context "list Worker Pods") (
        workloads.clients.kube.list_pods pool.meta.namespace
          (worker_labels pool.meta.name template))
    pure (all_fit q pods need)

  -- The slots that are pushed, and why some have to wait: new slots need headroom on the workers.
  unfoldable pub next_topology :
      Pool q.Amount
      → String
      → List (Config q.Amount)
      → TopologyPlan q.Amount
      → Action W Error (List (Config q.Amount) × List Pending)
  unfolding count_new_slots keep_existing_slots sum_resources workers_can_fit blocked_reasons ◌>>=◌
  next_topology pool template current plan =
      if ltb 0 (count_new_slots current plan.slots)
      then (do
        fits ← workers_can_fit pool template (sum_resources q plan.slots)
        pure (
            if fits then (plan.slots, blocked_reasons template plan) else (
              keep_existing_slots current plan.slots,
              blocked_reasons template plan ++ no_headroom template ∷ [],
            )))
      else pure (plan.slots, blocked_reasons template plan)

  abbrev pub busy_reasons : String → Bool → List Pending
  busy_reasons template busy = if busy then busy_workers template ∷ [] else []

  -- syncTemplate, once the slots to push are known.
  unfoldable pub apply_next :
      Pool q.Amount
      → WorkerTemplate
      → List (Config q.Amount)
      → List Pending
      → Action W Error (Pool q.Amount × List Pending)
  unfolding sync_topology sync_workers ◌>>=◌
  apply_next pool template next pending = do
    pushed ← sync_topology workloads pool template.name next
    busy ← sync_workers workloads pushed.0 template next
    pure (pushed.0, (pending ++ pushed.1) ++ busy_reasons template.name busy)

  -- syncTemplate, with the resources of the profiles. The pool is returned with its new status.
  unfoldable pub sync_template_with :
      Pool q.Amount
      → WorkerTemplate
      → ProfileResources q.Amount
      → Action W Error (Pool q.Amount × List Pending)
  unfolding applied_configs slot_counts_from_template occupied_slots plan_topology next_topology
      apply_next ◌>>=◌
  sync_template_with pool template profiles = do
    wanted ← lift (slot_counts_from_template template profiles)
    occupied ← occupied_slots workloads pool template.name
    next ← next_topology pool template.name (applied_configs pool template.name profiles) (
        plan_topology (applied_configs pool template.name profiles) wanted.0 profiles occupied
          wanted.1)
    apply_next pool template next.0 next.1

  unfoldable pub sync_template :
      Pool q.Amount → WorkerTemplate → Action W Error (Pool q.Amount × List Pending)
  unfolding profile_resources_from sync_template_with
  sync_template pool template =
      sync_template_with pool template (profile_resources_from [] pool.spec.slot_profiles)

  -- The loop of Reconcile over the templates.
  unfoldable pub sync_templates :
      List WorkerTemplate
      → Pool q.Amount
      → List Pending
      → Action W Error (Pool q.Amount × List Pending)
  unfolding sync_template ◌>>=◌
  sync_templates [] pool pending = pure (pool, pending)
  sync_templates (template ∷ rest) pool pending = do
    synced ← sync_template pool template
    sync_templates rest synced.0 (pending ++ synced.1)

  abbrev drop_worker : WorkerKey → Step W (Unit {0})
  drop_worker key = on_scheduler (λ s. (remove_worker s key, ok tt))

  -- What a ready worker answers when it is asked for its health, then its slots.
  unfoldable pub healthy_slots : Result Error String → Action W Error (List Info)
  unfolding ◌>>=◌
  healthy_slots (err e) = fail e
  healthy_slots (ok endpoint) = do
    workloads.clients.workers.health endpoint
    workloads.clients.workers.list_slots endpoint

  -- Where a worker answered with its slots or not.
  unfoldable pub report_worker :
      WorkerKey → Pod q.Amount → Tally → Result Error (List Info) → Step W Tally
  unfolding slot_map_from count_worker on_scheduler ◌>>=◌
  report_worker key pod t (err e) = do drop_worker key; pure t
  report_worker key pod t (ok slots) = do
    now ← on_world (λ w. (w, ok (workloads.now w)))
    on_scheduler (λ s. (
      update_worker s (record {
        key = key;
        healthy = true;
        last_observed = now;
        slots = slot_map_from [] slots;
      }),
      ok tt,
    ))
    pure (count_worker pod slots t)

  -- The body of the loop of syncStatus over the pods.
  unfoldable pub observe_pod : Pool q.Amount → Pod q.Amount → Tally → Step W Tally
  unfolding see_pod pod_ready healthy_slots report_worker on_world ◌>>=◌
  observe_pod pool pod t =
      if not (pod_ready pod)
      then (do drop_worker (worker_key_of pool pod.name); pure (see_pod pod t))
      else (do
        answer ← attempt (on_world (healthy_slots (workloads.clients.endpoint pod)))
        report_worker (worker_key_of pool pod.name) pod (see_pod pod t) answer)

  unfoldable pub observe_pods : Pool q.Amount → List (Pod q.Amount) → Tally → Step W Tally
  unfolding observe_pod ◌>>=◌
  observe_pods pool [] t = pure t
  observe_pods pool (pod ∷ pods) t = do t' ← observe_pod pool pod t; observe_pods pool pods t'

  abbrev pub first_tally : Pool q.Amount → Tally
  first_tally pool = record {
    ready_workers = 0;
    used_slots = 0;
    available_slots = 0;
    profiles = empty_stats [] pool.spec.slot_profiles;
    ready = [];
    total = [];
    seen = [];
  }

  -- A list of the status that is nil and one that is empty are the same here.
  unfoldable pub write_pool_status : Pool q.Amount → PoolStatus → Action W Error (Unit {0})
  unfolding ◌>>=◌
  write_pool_status pool status = if pool.status == status then pure tt else (do
    wrap (context "update SandboxPool status")
        (workloads.clients.kube.update_pool_status (record pool { status = status }))
    pure tt)

  unfoldable pub sync_pool_status : Pool q.Amount → List Pending → Step W (Unit {0})
  unfolding observe_pods empty_stats forget_missing desired_pool_status write_pool_status on_world
      on_scheduler ◌>>=◌
  sync_pool_status pool pending = do
    pods ← on_world (
        wrap (context "list Worker Pods")
          (workloads.clients.kube.list_pods pool.meta.namespace (pool_labels pool.meta.name)))
    t ← observe_pods pool pods (first_tally pool)
    on_scheduler (λ s. (forget_missing pool t pool.spec.worker_templates s, ok tt))
    on_world (
        write_pool_status pool
          (desired_pool_status workloads.clients.kube printer pool (length pods) t pending))

  unfoldable pub reconcile_pool : Pool q.Amount → Step W Requeue
  unfolding sync_service sync_templates sync_pool_status on_world ◌>>=◌
  reconcile_pool pool = do
    on_world (sync_service pool)
    synced ← on_world (sync_templates pool.spec.worker_templates pool [])
    sync_pool_status synced.0 synced.1
    pure pool_poll_interval

  -- client.IgnoreNotFound
  unfoldable pub pool_found : Result Error (Pool q.Amount) → Step W Requeue
  unfolding reconcile_pool
  pool_found (err missing) = pure no_requeue
  pool_found (err e) = fail e
  pool_found (ok pool) = reconcile_pool pool

  unfoldable pub reconcile_pool_named : String → String → Step W Requeue
  unfolding pool_found on_world ◌>>=◌
  reconcile_pool_named namespace name = do
    answer ← attempt (on_world (workloads.clients.kube.get_pool namespace name))
    pool_found answer
