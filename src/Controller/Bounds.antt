-- ===== src/Controller/Bounds.antt =====
-- internal/controller/pool_controller.go: the numbers in the status that syncStatus writes.
use sandbox_fleet.Base.{
  ℕ, ◌+◌, ◌≤◌, String, ◌≡◌, refl, sym, subst, inl, inr, List, [], ◌∷◌, Option, some, none,
  string_key, Elem, length, arith,
}
use sandbox_fleet.Base.Map.{Map, lookup}
use sandbox_fleet.Base.Action.Ends.{Ends, Ends-weaken}
use sandbox_fleet.Slot.{state_key}
use sandbox_fleet.Slot.Config.{Quantity}
use sandbox_fleet.Controller.Objects.{
  SlotProfile, WorkerTemplate, AppliedSlot, TemplateStatus, ProfileStatus, PoolStatus, Pool, Pod,
}
use sandbox_fleet.Controller.Sandbox.{State as Both}
use sandbox_fleet.Controller.Pool.{Pending, Tally, no_profile}
use sandbox_fleet.Controller.Topology.{Workloads}
use sandbox_fleet.Controller.Inventory.{
  Printer, empty_stats, stats_or_none, profile_stats, template_stats, desired_pool_status,
}
use sandbox_fleet.Controller.Refreshing.{first_tally, observe_pods}
use sandbox_fleet.Controller.Counting.{
  IsCount, IsCounted, IsTally, insert-IsCounted, observe_pods-Ends,
}

-- What the numbers of a status promise.
pub record IsBounded (status : PoolStatus) : Type 0 where
  pub profiles :
      (p : ProfileStatus)
      → Elem p status.profiles
      → IsCount status.used_slots status.available_slots p
  pub templates :
      (t : TemplateStatus)
      → Elem t status.templates
      → (t.ready_replicas ≤ t.replicas) × (t.replicas ≤ status.current_workers)
  pub workers : status.ready_workers ≤ status.current_workers

no_profile-IsCount : (used available : ℕ) (name : String) → IsCount used available (no_profile name)
no_profile-IsCount used available name = (refl, omega arith, omega arith)

empty_stats-IsCounted :
    {A : Type 0} (profiles : List (SlotProfile A)) (m : Map String ProfileStatus)
    → IsCounted 0 0 m
    → IsCounted 0 0 (empty_stats m profiles)
unfolding empty_stats
empty_stats-IsCounted [] m h = h
empty_stats-IsCounted (p ∷ ps) m h =
    empty_stats-IsCounted ps _
      (insert-IsCounted 0 0 p.name (no_profile p.name) m (no_profile-IsCount 0 0 p.name) h)

profile_stats-IsCount :
    (used available : ℕ) (m : Map String ProfileStatus) (names : List String) (p : ProfileStatus)
    → IsCounted used available m
    → Elem p (profile_stats m names)
    → IsCount used available p
unfolding profile_stats
profile_stats-IsCount used available m [] p h e = elim e [ ]
profile_stats-IsCount used available m (name ∷ names) p h (inl e) =
    subst (λ x. IsCount used available x) (sym e) (found (lookup name m) refl)
  where
    found :
        (o : Option ProfileStatus)
        → lookup name m ≡ o
        → IsCount used available (stats_or_none name o)
    found none r = no_profile-IsCount used available name
    found (some x) r = h name x r
profile_stats-IsCount used available m (name ∷ names) p h (inr e) =
    profile_stats-IsCount used available m names p h e

template_stats-Elem :
    (applied : Map String (List AppliedSlot)) (t : Tally) (templates : List WorkerTemplate) (n : ℕ)
    (status : TemplateStatus)
    → IsTally n t
    → Elem status (template_stats applied t templates)
    → (status.ready_replicas ≤ status.replicas) × (status.replicas ≤ n)
unfolding template_stats
template_stats-Elem applied t [] n status h e = elim e [ ]
template_stats-Elem applied t (template ∷ rest) n status h (inl e) =
    subst (λ (x : TemplateStatus). (x.ready_replicas ≤ x.replicas) × (x.replicas ≤ n)) (sym e)
      (h.ready template.name, h.total template.name)
template_stats-Elem applied t (template ∷ rest) n status h (inr e) =
    template_stats-Elem applied t rest n status h e

module _ (q : Quantity) {W T : Type 0} (workloads : Workloads W q.Amount T) (printer : Printer)
    (pool : Pool q.Amount) (pending : List Pending) where
  first_tally-IsTally : IsTally 0 (first_tally q workloads printer pool)
  unfolding lookup
  first_tally-IsTally = record {
    counted = empty_stats-IsCounted pool.spec.slot_profiles [] (λ k p e. (cc, cc, cc));
    workers = omega arith;
    ready = λ k. omega arith;
    total = λ k. omega arith;
  }

  desired_pool_status-IsBounded :
      (n : ℕ) (t : Tally)
      → IsTally n t
      → IsBounded (desired_pool_status workloads.clients.kube printer pool n t pending)
  unfolding desired_pool_status
  desired_pool_status-IsBounded n t h = record {
    profiles =
        λ p e. profile_stats-IsCount t.used_slots t.available_slots t.profiles _ p h.counted e;
    templates = λ s e. template_stats-Elem _ t _ n s h e;
    workers = h.workers;
  }

  -- The loop of syncStatus over the pods, whatever the workers answer, comes to its end, and the status
  -- that is made of its counts fits together: a profile's total is the sum of its used and its
  -- available slots, which are no more than those of the pool, a template has no more ready workers
  -- than workers, and no more workers than the pool.
  pub observe_pods-IsBounded :
      (pods : List (Pod q.Amount)) (st : Both W)
      → Ends
          (observe_pods q workloads printer pool pods (first_tally q workloads printer pool) st)
          (λ _ t.
            IsBounded
              (desired_pool_status workloads.clients.kube printer pool (length pods) t pending))
  observe_pods-IsBounded pods st =
      Ends-weaken (λ _ t. IsTally (0 + length pods) t) _ _
        (observe_pods-Ends q workloads printer pool pods 0 _ st first_tally-IsTally)
        (λ st' t h.
          desired_pool_status-IsBounded (length pods) t (subst (λ k. IsTally k t) (omega arith) h))
