-- ===== src/Controller/Pool.antt =====
-- internal/controller/pool_controller.go: the parts of PoolReconciler that only compute, and the names
-- of worker_dependencies.go. Counts of workers and slots are int32 in the source; they are no larger
-- than the lists that are counted.
use Prim.Native.String.{◌++◌ as join_text}
use sandbox_fleet.Base.{
  ℕ, suc, ◌+◌, String, Bool, true, false, not, List, [], ◌∷◌, ◌++◌, Option, none, some,
  if◌then◌else◌, ◌==◌, ◌!=◌, string_key, bool_key, nat_key,
}
use sandbox_fleet.Base.Int.{ℤ, int_key}
use sandbox_fleet.Base.Map.{Map, lookup, insert, is_some}
use sandbox_fleet.Base.Text.{decimal}
use sandbox_fleet.Base.Result.{Result, ok, err}
use sandbox_fleet.Slot.{State, Info, free, state_key}
use sandbox_fleet.Slot.Config.{Config}
use sandbox_fleet.Slot.Plan.{
  ProfileCounts, ProfileResources, Set, Reason, or_zero, or_zero_resources,
}
use sandbox_fleet.Scheduler.Types.{WorkerKey}
use sandbox_fleet.Controller.Objects.{
  Error, invalid, ConditionStatus, condition_true, condition_false, SlotProfile, SlotGroup,
  WorkerTemplate, AppliedSlot, TemplateStatus, ProfileStatus, Pool, Pod, condition_status_key,
}
use sandbox_fleet.Controller.Clients.{label_managed, label_pool, label_template}

unfoldable pub worker_service_name : String → String
worker_service_name pool = join_text pool "-worker"

unfoldable pub worker_set_name : String → String → String
worker_set_name pool template = join_text pool (join_text "-" (join_text template "-worker"))

-- The name of the worker with an ordinal.
unfoldable pub worker_name : String → String → ℕ → String
unfolding worker_set_name decimal
worker_name pool template ordinal =
    join_text (worker_set_name pool template) (join_text "-" (decimal ordinal))

unfoldable pub pool_labels : String → Map String String
pool_labels pool = (label_managed, "true") ∷ (label_pool, pool) ∷ []

unfoldable pub worker_labels : String → String → Map String String
worker_labels pool template =
    (label_managed, "true") ∷ (label_pool, pool) ∷ (label_template, template) ∷ []

-- Why the topology of a pool is not settled.
pub data Pending : Type 0 where
  plan_blocked : String → List Reason → Pending
  no_headroom : String → Pending
  push_failed : String → List String → Pending
  busy_workers : String → Pending

unfoldable pub condition_status : Bool → ConditionStatus
condition_status true = condition_true
condition_status false = condition_false

-- The loop of podReady.
unfoldable pub ready_in : List (String × ConditionStatus) → Bool
ready_in [] = false
ready_in ((kind, status) ∷ rest) =
    if kind == "Ready" then status == condition_true else ready_in rest

unfoldable pub desired_worker_count : List WorkerTemplate → ℕ
desired_worker_count [] = 0
desired_worker_count (t ∷ ts) = t.replicas + desired_worker_count ts

-- The resources of the profiles by their names.
unfoldable pub profile_resources_from :
    {A : Type 0} → ProfileResources A → List (SlotProfile A) → ProfileResources A
profile_resources_from m [] = m
profile_resources_from m (p ∷ ps) = profile_resources_from (insert p.name p.resources m) ps

-- The second loop of setAppliedSlots, and what it appends at the end.
unfoldable pub set_applied_in :
    String → List AppliedSlot → List TemplateStatus → List TemplateStatus
set_applied_in name applied [] =
    record { name = name; replicas = 0; ready_replicas = 0; applied_slots = applied } ∷ []
set_applied_in name applied (t ∷ ts) =
    let rest = set_applied_in name applied ts in
    if t.name == name then record t { applied_slots = applied } ∷ ts else t ∷ rest

module _ {A : Type 0} where
  unfoldable pub pod_ready : Pod A → Bool
  unfolding ready_in
  pod_ready pod = ready_in pod.conditions

  -- The slots of a template's status, with the resources of their profiles.
  unfoldable pub configs_of : ProfileResources A → List AppliedSlot → List (Config A)
  configs_of profiles [] = []
  configs_of profiles (a ∷ rest) =
      record {
        id = a.id;
        profile = a.profile;
        resources = or_zero_resources (lookup a.profile profiles);
      }
      ∷ configs_of profiles rest

  -- The loop of appliedConfigs.
  unfoldable pub applied_in : String → ProfileResources A → List TemplateStatus → List (Config A)
  unfolding configs_of
  applied_in name profiles [] = []
  applied_in name profiles (t ∷ ts) =
      if t.name != name then applied_in name profiles ts else configs_of profiles t.applied_slots

  unfoldable pub applied_configs : Pool A → String → ProfileResources A → List (Config A)
  unfolding applied_in
  applied_configs pool name profiles = applied_in name profiles pool.status.templates

  unfoldable pub applied_slots_of : List (Config A) → List AppliedSlot
  applied_slots_of [] = []
  applied_slots_of (c ∷ cs) = record { id = c.id; profile = c.profile } ∷ applied_slots_of cs

  unfoldable pub set_applied_slots : Pool A → String → List (Config A) → Pool A
  unfolding set_applied_in applied_slots_of
  set_applied_slots pool name configs = record pool {
    status = record pool.status {
      templates = set_applied_in name (applied_slots_of configs) pool.status.templates;
    };
  }

  -- The loop of slotCountsFromTemplate.
  unfoldable pub counts_from :
      String
      → ProfileResources A
      → ProfileCounts
      → List String
      → List SlotGroup
      → Result Error (ProfileCounts × List String)
  counts_from template profiles counts order [] = ok (counts, order)
  counts_from template profiles counts order (g ∷ gs) =
      let rest =
        counts_from template profiles (insert g.profile g.count counts) (order ++ g.profile ∷ [])
          gs in
      if not (is_some (lookup g.profile profiles))
      then err (invalid "template %q references unknown profile %q" (template ∷ g.profile ∷ []))
      else if is_some (lookup g.profile counts)
      then err (invalid "template %q repeats profile %q" (template ∷ g.profile ∷ []))
      else rest

  unfoldable pub slot_counts_from_template :
      WorkerTemplate → ProfileResources A → Result Error (ProfileCounts × List String)
  unfolding counts_from
  slot_counts_from_template template profiles =
      counts_from template.name profiles [] [] template.slots

  abbrev pub worker_key_of : Pool A → String → WorkerKey
  worker_key_of pool name = record {
    namespace = pool.meta.namespace;
    pool = pool.meta.name;
    name = name;
  }

-- What the loop of syncStatus over the pods counts.
pub record Tally : Type 0 where
  pub ready_workers : ℕ
  pub used_slots : ℕ
  pub available_slots : ℕ
  pub profiles : Map String ProfileStatus
  pub ready : Map String ℕ
  pub total : Map String ℕ
  pub seen : Set String

abbrev pub no_profile : String → ProfileStatus
no_profile name = record { name = name; total = 0; used = 0; available = 0 }

-- `counts[name]++`
unfoldable pub count_up : String → Map String ℕ → Map String ℕ
count_up name counts = insert name (suc (or_zero (lookup name counts))) counts

unfoldable pub count_state : State → ProfileStatus → ProfileStatus
count_state state p =
    if state == free
    then record p { available = suc p.available; total = suc p.total }
    else record p { used = suc p.used; total = suc p.total }

-- The numbers of the profile of a slot with that slot, where they are known or not. A slot without a
-- profile is counted in none.
unfoldable pub count_found :
    Info → Map String ProfileStatus → Option ProfileStatus → Map String ProfileStatus
unfolding count_state
count_found info m none =
    if info.profile != ""
    then insert info.profile (count_state info.state (no_profile info.profile)) m
    else m
count_found info m (some p) = insert info.profile (count_state info.state p) m

unfoldable pub count_profile : Info → Map String ProfileStatus → Map String ProfileStatus
unfolding count_found
count_profile info m = count_found info m (lookup info.profile m)

-- The body of the loop over the slots of a worker, but the map of the slots.
unfoldable pub count_slot : Tally → Info → Tally
unfolding count_profile
count_slot t info = record t {
  profiles = count_profile info t.profiles;
  used_slots = if info.state == free then t.used_slots else suc t.used_slots;
  available_slots = if info.state == free then suc t.available_slots else t.available_slots;
}

unfoldable pub count_slots : Tally → List Info → Tally
unfolding count_slot
count_slots t [] = t
count_slots t (info ∷ rest) = count_slots (count_slot t info) rest

-- `slotMap`
unfoldable pub slot_map_from : Map ℤ Info → List Info → Map ℤ Info
slot_map_from m [] = m
slot_map_from m (info ∷ rest) = slot_map_from (insert info.id info m) rest
