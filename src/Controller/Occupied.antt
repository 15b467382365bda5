-- ===== src/Controller/Occupied.antt =====
-- internal/controller/pool_controller.go: the slots in use stay in the topology that syncTemplate pushes.
use sandbox_fleet.Base.{
  String, Bool, true, false, ◌≡◌, inl, inr, List, [], ◌∷◌, ◌++◌, if◌then◌else◌, ltb, Elem, arith,
}
use sandbox_fleet.Base.Int.{ℤ, int_key}
use sandbox_fleet.Base.Map.{Map, lookup}
use sandbox_fleet.Base.Result.{Result, ok, err}
use sandbox_fleet.Base.Action.{Action, pure, bind-rule, ◌>>=◌}
use sandbox_fleet.Slot.Config.{
  Quantity, Config, has_id, keep_existing_slots, count_new_slots, sum_resources,
}
use sandbox_fleet.Slot.Config.Kept.{keep_existing_slots_lem}
use sandbox_fleet.Slot.Plan.{ProfileCounts, ProfileResources, TopologyPlan, is_busy, plan_topology}
use sandbox_fleet.Slot.Plan.Topology.{plan_topology-busy}
use sandbox_fleet.Controller.Objects.{Error, Pool}
use sandbox_fleet.Controller.Pool.{Pending, no_headroom}
use sandbox_fleet.Controller.Topology.{Workloads}
use sandbox_fleet.Controller.Inventory.{Printer, blocked_reasons}
use sandbox_fleet.Controller.Refreshing.{workers_can_fit, next_topology}

has_id-Elem : {A : Type 0} (c : Config A) (cs : List (Config A)) → Elem c cs → has_id c.id cs ≡ true
unfolding has_id int_key
has_id-Elem c [] e = elim e [ ]
has_id-Elem c (d ∷ ds) (inl e) = ground arith
has_id-Elem c (d ∷ ds) (inr e) = ground (arith, has_id-Elem c ds e)

-- The slot is one of those to push, where the call returns some.
abbrev pub KeepsSlot :
    {A : Type 0} → Config A → Result Error (List (Config A) × List Pending) → Type 0
KeepsSlot c (ok (next, pending)) = Elem c next
KeepsSlot c (err e) = Unit

module _ (q : Quantity) {W T : Type 0} (workloads : Workloads W q.Amount T) (printer : Printer)
    (pool : Pool q.Amount) (template : String) where
  -- Where the workers have headroom or not.
  next-KeepsSlot :
      (c : Config q.Amount) (current next : List (Config q.Amount)) (fits : Bool)
      (some_pending more : List Pending)
      → Elem c current
      → Elem c next
      → KeepsSlot c
          (ok (if fits then (next, some_pending) else (keep_existing_slots current next, more)))
  next-KeepsSlot c current next true some_pending more e n = n
  next-KeepsSlot c current next false some_pending more e n =
      ((keep_existing_slots_lem current next).0 c).1 (n, has_id-Elem c current e)

  -- A slot of the applied topology that is marked as busy is among the slots that syncTemplate pushes, as
  -- it is, whatever the desired counts are and whether or not the workers have headroom.
  pub next_topology-busy :
      (current : List (Config q.Amount)) (counts : ProfileCounts)
      (profiles : ProfileResources q.Amount) (busy : Map ℤ Bool) (order : List String)
      (c : Config q.Amount) (w : W)
      → Elem c current
      → is_busy (lookup c.id busy) ≡ true
      → KeepsSlot c
          (next_topology q workloads printer pool template current
            (plan_topology current counts profiles busy order)
            w).1
  unfolding next_topology pure
  next_topology-busy current counts profiles busy order c w e b =
      go (ltb 0 (count_new_slots current plan.slots))
    where
      plan : TopologyPlan q.Amount
      plan = plan_topology current counts profiles busy order

      planned : Elem c plan.slots
      planned = plan_topology-busy current counts profiles busy order c e b

      chosen : Bool → Action W Error (List (Config q.Amount) × List Pending)
      chosen fits = pure (
          if fits then (plan.slots, blocked_reasons template plan) else (
            keep_existing_slots current plan.slots,
            blocked_reasons template plan ++ no_headroom template ∷ [],
          ))

      fit : Action W Error Bool
      fit = workers_can_fit q workloads printer pool template (sum_resources q plan.slots)

      go :
          (some_new : Bool)
          → KeepsSlot c
              ((if some_new
                  then fit >>= chosen
                  else pure (plan.slots, blocked_reasons template plan))
                w).1
      go true =
          bind-rule (λ x. KeepsSlot c x.1) fit chosen w
            (λ v fits r. next-KeepsSlot c current plan.slots fits _ _ e planned) (λ v x r. tt)
      go false = planned
