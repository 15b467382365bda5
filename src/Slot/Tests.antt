-- ===== src/Slot/Tests.antt =====
-- Plans for small workers, and each theorem at one.
use sandbox_fleet.Base.{
  ℕ, ◌+◌, ◌≤◌, arith, String, Bool, false, true, ltb, ◌≡◌, refl, subst, some, List, [], ◌∷◌, ◌==◌,
  string_key, nat_key, keep_if,
}
use sandbox_fleet.Base.Int.{ℤ, pos, int_key, ◌≤ℤ◌}
use sandbox_fleet.Base.Map.{Map, lookup, insert, delete, keys}
use sandbox_fleet.Base.Text.{str_ltb}
use sandbox_fleet.Base.Sort.{sort, IsSorted}
use sandbox_fleet.Base.Count.{count}
use sandbox_fleet.Slot.Config.{Quantity, ResourceRequirements, Config, clone_resources}
use sandbox_fleet.Slot.Plan.{
  Set, ProfileCounts, ProfileResources, or_zero, is_busy, below_id, plan_topology, highest_id,
  group_by_profile, ordered_profiles,
}
use sandbox_fleet.Slot.Plan.Ids.{IsBound, IsFresh}
use sandbox_fleet.Slot.Plan.Ends.{free_id_loop, free_id_loop-ends}
use sandbox_fleet.Slot.Plan.Sums.{sum}
use sandbox_fleet.Slot.Plan.Dropping.{at_id}
use sandbox_fleet.Slot.Plan.Adding.{of_profile}
use sandbox_fleet.Slot.Plan.Topology.{
  IsCovered, IsPlannable, plan_topology-distinct, plan_topology-counts,
}

abbrev no_resources : ResourceRequirements ℕ
no_resources = record { requests = []; limits = [] }

abbrev config : ℕ → String → Config ℕ
config n profile = record { id = pos n; profile = profile; resources = no_resources }

abbrev current : List (Config ℕ)
current = config 0 "small" ∷ config 1 "small" ∷ config 2 "large" ∷ []

abbrev counts : ProfileCounts
counts = ("small", 1) ∷ ("large", 2) ∷ []

abbrev profiles : ProfileResources ℕ
profiles = ("small", no_resources) ∷ ("large", no_resources) ∷ []

abbrev order : List String
order = "small" ∷ "large" ∷ []

-- The id of the small slot that goes is given to the large slot that comes.
rebalanced :
    (plan_topology current counts profiles [] order).slots
    ≡ config 0 "small" ∷ config 1 "large" ∷ config 2 "large" ∷ []
unfolding plan_topology lookup insert delete keys sort int_key string_key str_ltb clone_resources
    keep_if
rebalanced = refl

rebalanced_free : (plan_topology current counts profiles [] order).blocked ≡ false
unfolding plan_topology lookup insert delete keys sort int_key string_key str_ltb clone_resources
    keep_if
rebalanced_free = refl

current-IsPlannable : IsPlannable current counts profiles [] order
unfolding plan_topology lookup insert delete keys sort int_key string_key str_ltb count highest_id
    sum ordered_profiles group_by_profile keep_if
current-IsPlannable = record {
  distinct = λ j. ground arith;
  room = omega arith;
  covered = λ n h. h;
}

plan_topology-distinct_example :
    IsSorted below_id (plan_topology current counts profiles [] order).slots
    × ((j : ℤ) → count (at_id j) (plan_topology current counts profiles [] order).slots ≤ 1)
plan_topology-distinct_example =
    plan_topology-distinct current counts profiles [] order current-IsPlannable

counts-IsCovered : IsCovered counts order
counts-IsCovered = current-IsPlannable.covered

plan_topology-counts_example :
    count (of_profile "large") (plan_topology current counts profiles [] order).slots
    ≡ or_zero (lookup "large" counts)
plan_topology-counts_example =
    plan_topology-counts current counts profiles [] order "large" counts-IsCovered rebalanced_free

abbrev busy : Map ℤ Bool
busy = (pos 1, true) ∷ []

busy_one : is_busy (lookup (config 1 "small").id busy) ≡ true
unfolding lookup int_key
busy_one = refl

abbrev units : Quantity
units = record { Amount = ℕ; zero = 0; add = λ a b. a + b; less = ltb; is_zero = λ a. a == 0 }

abbrev small : ResourceRequirements ℕ
small = record { requests = ("cpu", 2) ∷ []; limits = ("cpu", 4) ∷ [] }

abbrev two_small : List (Config ℕ)
two_small =
    record { id = pos 0; profile = "small"; resources = small }
    ∷ record { id = pos 1; profile = "small"; resources = small }
    ∷ []

-- The ids 0 and 2.
abbrev two_ids : Set ℤ
two_ids = (pos 0, tt) ∷ (pos 2, tt) ∷ []

two_ids-IsBound : IsBound two_ids (pos 2)
unfolding lookup
two_ids-IsBound id h = elim (int_key.same (pos 0) id) [
  | yes e ↦ subst (λ i. i ≤ℤ pos 2) e (omega arith)
  | no n ↦ elim (int_key.same (pos 2) id) [
    | yes e ↦ subst (λ i. i ≤ℤ pos 2) e (omega arith)
    | no m ↦ absurd (ground (arith, h))
  ]
]

free_id_loop-ends_example :
    (r : ℤ × ℤ) × ((free_id_loop two_ids (pos 2) 4 (pos 0) ≡ some r) × IsFresh two_ids (pos 2) r)
free_id_loop-ends_example =
    free_id_loop-ends two_ids (pos 2) 4 two_ids-IsBound (omega arith) (omega arith) (omega arith)

least_id : free_id_loop two_ids (pos 2) 4 (pos 0) ≡ some (pos 1, pos 2)
unfolding free_id_loop lookup int_key
least_id = refl
