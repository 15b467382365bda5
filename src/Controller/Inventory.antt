-- ===== src/Controller/Inventory.antt =====
-- internal/controller/pool_controller.go: what syncStatus of PoolReconciler computes of the inventory of
-- the workers: the counts, the conditions and the workers that the scheduler is to forget.
use sandbox_fleet.Base.{
  ℕ, zero, suc, String, Bool, ◌&&◌, List, [], ◌∷◌, Option, none, some, if◌then◌else◌, ◌==◌, ltb,
  string_key, nat_key, length,
}
use sandbox_fleet.Base.Map.{Map, lookup, insert, is_some}
use sandbox_fleet.Base.Sort.{sort}
use sandbox_fleet.Base.Text.{str_ltb, decimal}
use sandbox_fleet.Slot.{Info}
use sandbox_fleet.Slot.Plan.{Set, TopologyPlan, or_zero, or_empty}
use sandbox_fleet.Scheduler.Ops.{Scheduler, remove_worker}
use sandbox_fleet.Controller.Objects.{
  Message, text, Condition, SlotProfile, WorkerTemplate, AppliedSlot, TemplateStatus, ProfileStatus,
  PoolStatus, Pool, Pod, pool_status_key,
}
use sandbox_fleet.Controller.Clients.{Kube, label_template}
use sandbox_fleet.Controller.Pool.{
  Pending, plan_blocked, worker_name, condition_status, desired_worker_count, worker_key_of, Tally,
  no_profile, count_up, count_slots,
}

-- How pending topology changes are written: `strings.Join(pending, "; ")`.
pub record Printer : Type 0 where
  pub join : List Pending → String

unfoldable pub blocked_reasons : {A : Type 0} → String → TopologyPlan A → List Pending
blocked_reasons template plan = if plan.blocked then plan_blocked template plan.reason ∷ [] else []

-- The profiles of the pool with zero counts.
unfoldable pub empty_stats :
    {A : Type 0} → Map String ProfileStatus → List (SlotProfile A) → Map String ProfileStatus
empty_stats m [] = m
empty_stats m (p ∷ ps) = empty_stats (insert p.name (no_profile p.name) m) ps

unfoldable pub profile_names : {A : Type 0} → List (SlotProfile A) → List String
profile_names [] = []
profile_names (p ∷ ps) = p.name ∷ profile_names ps

-- The numbers of a profile, where they are known or not.
abbrev pub stats_or_none : String → Option ProfileStatus → ProfileStatus
stats_or_none name none = no_profile name
stats_or_none name (some p) = p

-- The numbers of the profiles of the pool, in the order of the names.
unfoldable pub profile_stats : Map String ProfileStatus → List String → List ProfileStatus
profile_stats m [] = []
profile_stats m (name ∷ names) = stats_or_none name (lookup name m) ∷ profile_stats m names

-- `appliedByTemplate`
unfoldable pub applied_by_template :
    Map String (List AppliedSlot) → List TemplateStatus → Map String (List AppliedSlot)
applied_by_template m [] = m
applied_by_template m (t ∷ ts) =
    applied_by_template (if length t.applied_slots == 0 then m else insert t.name t.applied_slots m)
      ts

unfoldable pub template_stats :
    Map String (List AppliedSlot) → Tally → List WorkerTemplate → List TemplateStatus
template_stats applied t [] = []
template_stats applied t (template ∷ rest) =
    record {
      name = template.name;
      replicas = or_zero (lookup template.name t.total);
      ready_replicas = or_zero (lookup template.name t.ready);
      applied_slots = or_empty (lookup template.name applied);
    }
    ∷ template_stats applied t rest

-- The value of a label, empty where it is missing.
unfoldable pub label_of : {A : Type 0} → Pod A → String → String
label_of pod key = elim (lookup key pod.labels) [ none ↦ "" | some value ↦ value ]

-- The start of the loop over the pods: a pod is seen and counted for its template.
unfoldable pub see_pod : {A : Type 0} → Pod A → Tally → Tally
unfolding count_up label_of
see_pod pod t = record t {
  seen = insert pod.name tt t.seen;
  total = count_up (label_of pod label_template) t.total;
}

-- A worker with its slots is counted.
unfoldable pub count_worker : {A : Type 0} → Pod A → List Info → Tally → Tally
unfolding count_slots count_up label_of
count_worker pod slots t =
    let t' = count_slots t slots in
    record t' {
      ready_workers = suc t'.ready_workers;
      ready = count_up (label_of pod label_template) t'.ready;
    }

-- The number of workers of a template that are known: its pods or its replicas.
unfoldable pub known_workers : WorkerTemplate → Tally → ℕ
known_workers template t =
    let total = or_zero (lookup template.name t.total) in
    if ltb total template.replicas then template.replicas else total

module _ {A : Type 0} where
  -- The loop over the ordinals of a template: a worker that was not seen leaves the scheduler.
  unfoldable pub forget_ordinals : Pool A → String → Set String → ℕ → ℕ → Scheduler → Scheduler
  unfolding worker_name
  forget_ordinals pool template seen zero ordinal s = s
  forget_ordinals pool template seen (suc rounds) ordinal s =
      let name = worker_name pool.meta.name template ordinal in
      forget_ordinals pool template seen rounds (suc ordinal)
        (if is_some (lookup name seen) then s else remove_worker s (worker_key_of pool name))

  unfoldable pub forget_missing : Pool A → Tally → List WorkerTemplate → Scheduler → Scheduler
  unfolding forget_ordinals known_workers
  forget_missing pool t [] s = s
  forget_missing pool t (template ∷ rest) s =
      forget_missing pool t rest
        (forget_ordinals pool template.name t.seen (known_workers template t) 0 s)

module _ {W A : Type 0} (kube : Kube W A) (printer : Printer) where
  abbrev pool_condition :
      Pool A → String → Bool → String → Message → List Condition → List Condition
  pool_condition pool kind value reason message conditions = kube.set_condition conditions (record {
    kind = kind;
    status = condition_status value;
    observed_generation = pool.meta.generation;
    reason = reason;
    message = message;
  })

  -- setPoolConditions
  unfoldable pub pool_conditions : Pool A → ℕ → List Pending → List Condition → List Condition
  unfolding condition_status desired_worker_count
  pool_conditions pool ready pending conditions =
      let want = desired_worker_count pool.spec.worker_templates in
      let all_ready = ready == want && ltb 0 want in
      let any_ready = ltb 0 want && ltb 0 ready in
      let updating = ltb 0 (length pending) in
      pool_condition pool "Updating" updating
        (if updating then "TopologyPending" else "TopologySettled")
        (text
          (if updating
            then printer.join pending
            else "pool topology matches the desired replicas and slot counts")
          [])
        (pool_condition pool "Ready" any_ready
          (if any_ready then "WorkerAvailable" else "NoReadyWorkers")
          (text "%d Workers can accept Sandbox operations" (decimal ready ∷ []))
          (pool_condition pool "WorkersReady" all_ready
            (if all_ready then "WorkersReady" else "WorkersNotReady")
            (text "%d of %d Workers are ready" (decimal ready ∷ decimal want ∷ [])) conditions))

  -- The status that syncStatus writes.
  unfoldable pub desired_pool_status : Pool A → ℕ → Tally → List Pending → PoolStatus
  unfolding applied_by_template template_stats profile_stats profile_names pool_conditions
  desired_pool_status pool workers t pending = record {
    observed_generation = pool.meta.generation;
    current_workers = workers;
    ready_workers = t.ready_workers;
    used_slots = t.used_slots;
    available_slots = t.available_slots;
    templates =
        template_stats (applied_by_template [] pool.status.templates) t pool.spec.worker_templates;
    profiles = profile_stats t.profiles (sort str_ltb (profile_names pool.spec.slot_profiles));
    conditions = pool_conditions pool t.ready_workers pending pool.status.conditions;
  }
