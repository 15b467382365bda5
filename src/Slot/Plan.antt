-- ===== src/Slot/Plan.antt =====
-- internal/slot/config.go: PlanTopology, which fits the slots of a template to the desired counts.
-- Counts are the int32 values 1 to 256 that the API admits. A reason is kept as data in place of its
-- text.
pub mod Ids
pub mod Ends
pub mod Names
pub mod Sums
pub mod Dropping
pub mod Adding
pub mod Step
pub mod Loop
pub mod Topology
pub mod Groups
use sandbox_fleet.Base.{
  ℕ, zero, suc, ◌-◌, String, Bool, false, true, not, List, [], ◌∷◌, ◌++◌, Option, none, some,
  if◌then◌else◌, string_key, ltb, ◌&&◌, length, take, drop, keep_if,
}
use sandbox_fleet.Base.Int.{ℤ, pos, negsuc, int_key, ltb_ℤ, incr32}
use sandbox_fleet.Base.Map.{Map, keys, lookup, insert, delete, is_some}
use sandbox_fleet.Base.Text.{str_ltb}
use sandbox_fleet.Base.Sort.{sort}
use sandbox_fleet.Slot.Config.{Config, ResourceRequirements, clone_resources}

abbrev pub ProfileCounts : Type 0
ProfileCounts = Map String ℕ

abbrev pub ProfileResources : Type 0 → Type 0
ProfileResources A = Map String (ResourceRequirements A)

-- map[K]struct{}
abbrev pub Set : Type 0 → Type 0
Set K = Map K (Unit {0})

pub data Reason : Type 0 where
  unknown_profile : String → Reason
  busy_slot : ℤ → String → Reason

pub record TopologyPlan (A : Type 0) : Type 0 where
  pub slots : List (Config A)
  pub blocked : Bool
  pub reason : List Reason

-- The variables of the loop over the profiles.
pub record Progress (A : Type 0) : Type 0 where
  pub used : Set ℤ
  pub max_id : ℤ
  pub next : List (Config A)
  pub reasons : List Reason

abbrev pub or_empty {ℓ} : {A : Type ℓ} → Option (List A) → List A
or_empty none = []
or_empty (some xs) = xs

abbrev pub or_zero : Option ℕ → ℕ
or_zero none = 0
or_zero (some n) = n

-- busy[id]: a missing id reads false.
abbrev pub is_busy : Option Bool → Bool
is_busy none = false
is_busy (some b) = b

module _ {A : Type 0} where
  abbrev pub below_id : Config A → Config A → Bool
  below_id a b = ltb_ℤ a.id b.id

  -- The first loop of groupByProfile.
  unfoldable pub group_from :
      Map String (List (Config A)) → List (Config A) → Map String (List (Config A))
  group_from groups [] = groups
  group_from groups (c ∷ cs) =
      group_from (insert c.profile (or_empty (lookup c.profile groups) ++ c ∷ []) groups) cs

  unfoldable pub sort_groups : Map String (List (Config A)) → Map String (List (Config A))
  sort_groups [] = []
  sort_groups ((profile, configs) ∷ rest) = (profile, sort below_id configs) ∷ sort_groups rest

  unfoldable pub group_by_profile : List (Config A) → Map String (List (Config A))
  unfolding group_from sort_groups
  group_by_profile current = sort_groups (group_from [] current)

-- The first loop of orderedProfiles: the order without repetitions, and the set of its names.
unfoldable pub dedup_from : Set String → List String → List String × Set String
dedup_from seen [] = ([], seen)
dedup_from seen (p ∷ ps) =
    let later = dedup_from (insert p tt seen) ps in
    let skipped = dedup_from seen ps in
    if is_some (lookup p seen) then skipped else (p ∷ later.0, later.1)

unfoldable pub ordered_profiles {ℓ} :
    {B : Type ℓ} → List String → ProfileCounts → Map String B → List String
unfolding dedup_from
ordered_profiles order counts by_profile =
    let (names, seen) = dedup_from [] order in
    let unseen = keep_if (λ profile. not (is_some (lookup profile seen))) in
    names ++ sort str_ltb (unseen (keys counts) ++ unseen (keys by_profile))

-- The loop of nextFreeID, with the number of rounds left.
unfoldable pub first_hole : Set ℤ → ℕ → ℕ → Option ℕ
first_hole used zero id = none
first_hole used (suc rounds) id =
    let rest = first_hole used rounds (suc id) in
    if is_some (lookup (pos id) used) then rest else some id

-- `for id := 0; id <= maxID; id++`
abbrev pub rounds_to : ℤ → ℕ
rounds_to (pos n) = suc n
rounds_to (negsuc n) = 0

-- The id and the new maxID.
unfoldable pub next_free_id : Set ℤ → ℤ → ℤ × ℤ
unfolding first_hole
next_free_id used max_id = elim (first_hole used (rounds_to max_id) 0) [
  | some id ↦ (pos id, max_id)
  | none ↦ (incr32 max_id, incr32 max_id)
]

module _ {A : Type 0} where
  -- The loop that drops the slots beyond the desired count: `keep` and the busy ones stay.
  unfoldable pub drop_extra :
      Map ℤ Bool
      → String
      → List (Config A)
      → List (Config A)
      → Progress A
      → List (Config A) × Progress A
  drop_extra busy profile keep [] p = (keep, p)
  drop_extra busy profile keep (c ∷ cs) p = elim (is_busy (lookup c.id busy)) [
    | true ↦
        drop_extra busy profile (keep ++ c ∷ []) cs
          (record p { reasons = p.reasons ++ busy_slot c.id profile ∷ [] })
    | false ↦ drop_extra busy profile keep cs (record p { used = delete c.id p.used })
  ]

  -- The loop that adds the missing slots.
  unfoldable pub add_missing : ℕ → String → ResourceRequirements A → Progress A → Progress A
  unfolding next_free_id
  add_missing zero profile resources p = p
  add_missing (suc missing) profile resources p =
      let (id, max_id) = next_free_id p.used p.max_id in
      let c : Config A = record {
        id = id;
        profile = profile;
        resources = clone_resources resources;
      } in
      add_missing missing profile resources
        (record p { used = insert id tt p.used; max_id = max_id; next = p.next ++ c ∷ [] })

  unfoldable pub append_next : Progress A → List (Config A) → Progress A
  append_next p configs = record p { next = p.next ++ configs }

  abbrev pub zero_resources : ResourceRequirements A
  zero_resources = record { requests = []; limits = [] }

  -- A missing profile reads as the zero value.
  abbrev pub or_zero_resources : Option (ResourceRequirements A) → ResourceRequirements A
  or_zero_resources none = zero_resources
  or_zero_resources (some r) = r

  -- The body of the loop for a profile with its desired count, its slots and its resources.
  unfoldable pub plan_profile :
      Map ℤ Bool
      → String
      → ℕ
      → List (Config A)
      → Option (ResourceRequirements A)
      → Progress A
      → Progress A
  unfolding drop_extra add_missing append_next
  plan_profile busy profile desired existing resources p =
      if not (is_some resources) && ltb 0 desired
      then append_next (record p { reasons = p.reasons ++ unknown_profile profile ∷ [] }) existing
      else if ltb desired (length existing)
      then (let (keep, p') =
            drop_extra busy profile (take desired existing) (drop desired existing) p in
          append_next p' (sort below_id keep))
      else add_missing (desired - length existing) profile (or_zero_resources resources)
          (append_next p existing)

  unfoldable pub plan_all :
      ProfileCounts
      → ProfileResources A
      → Map ℤ Bool
      → Map String (List (Config A))
      → List String
      → Progress A
      → Progress A
  unfolding plan_profile
  plan_all counts profiles busy groups [] p = p
  plan_all counts profiles busy groups (profile ∷ names) p =
      plan_all counts profiles busy groups names (
        plan_profile busy profile (or_zero (lookup profile counts))
          (or_empty (lookup profile groups)) (lookup profile profiles) p)

  unfoldable pub used_ids : Set ℤ → List (Config A) → Set ℤ
  used_ids used [] = used
  used_ids used (c ∷ cs) = used_ids (insert c.id tt used) cs

  unfoldable pub highest_id : ℤ → List (Config A) → ℤ
  highest_id max_id [] = max_id
  highest_id max_id (c ∷ cs) = highest_id (if ltb_ℤ max_id c.id then c.id else max_id) cs

  unfoldable pub plan_topology :
      List (Config A)
      → ProfileCounts
      → ProfileResources A
      → Map ℤ Bool
      → List String
      → TopologyPlan A
  unfolding plan_all group_by_profile used_ids highest_id ordered_profiles
  plan_topology current counts profiles busy profile_order =
      let groups = group_by_profile current in
      let p =
        plan_all counts profiles busy groups (ordered_profiles profile_order counts groups)
          (record {
            used = used_ids [] current;
            max_id = highest_id (negsuc 0) current;
            next = [];
            reasons = [];
          }) in
      record {
        slots = sort below_id p.next;
        blocked = ltb 0 (length p.reasons);
        reason = p.reasons;
      }
