-- ===== src/Slot/Plan/Topology.antt =====
-- internal/slot/config.go: what PlanTopology promises.
use sandbox_fleet.Base.{
  ◌+◌, ◌≤◌, String, Bool, true, false, ◌≡◌, refl, sym, subst, ◌∙◌, ◌⊎◌, inl, inr, List, [], none,
  ◌==◌, if◌then◌else◌, Option-cases, arith, string_key, length, Elem,
}
use sandbox_fleet.Base.Int.{ℤ, negsuc, int_key, pos_part, max_int32}
use sandbox_fleet.Base.Map.{Map, lookup, keys}
use sandbox_fleet.Base.Sort.{sort, IsSorted, IsOrder, sort-IsSorted, sort-Elem}
use sandbox_fleet.Base.Count.{count, count-sort, Elem-count}
use sandbox_fleet.Slot.Config.{Config}
use sandbox_fleet.Slot.Plan.{
  ProfileCounts, ProfileResources, Progress, is_busy, or_zero, below_id, group_by_profile,
  ordered_profiles, plan_all, used_ids, highest_id, plan_topology,
}
use sandbox_fleet.Slot.Plan.Groups.{
  slots_of, in_profile, group_by_profile-count, group_by_profile-Elem, Elem-group_by_profile,
  group_by_profile-IsMap, group_by_profile-known,
}
use sandbox_fleet.Slot.Plan.Names.{named, ordered_profiles-once, ordered_profiles-Elem}
use sandbox_fleet.Slot.Plan.Sums.{sum, sum-cong, sum-absent, sum-once, sum-profiles}
use sandbox_fleet.Slot.Plan.Dropping.{at_id}
use sandbox_fleet.Slot.Plan.Adding.{IsClean, of_profile}
use sandbox_fleet.Slot.Plan.Loop.{
  plan_all-OnceAt, plan_all-counts, plan_all-Elem, used_ids-IsBound, highest_id-low, used_ids-count,
}

-- The order names every profile that has a count.
abbrev pub IsCovered : ProfileCounts → List String → Type 0
IsCovered counts order = (n : String) → Elem n (keys counts) → Elem n order

below_id-IsOrder : {A : Type 0} → IsOrder (below_id {A = A})
below_id-IsOrder = record { asym = λ a b p. ground arith; negtrans = λ a b c p q. ground arith }

module _ {A : Type 0} (current : List (Config A)) (counts : ProfileCounts)
    (profiles : ProfileResources A) (busy : Map ℤ Bool) (order : List String) where
  abbrev names : List String
  names = ordered_profiles order counts (group_by_profile current)

  abbrev first : Progress A
  first = record {
    used = used_ids [] current;
    max_id = highest_id (negsuc 0) current;
    next = [];
    reasons = [];
  }

  abbrev last : Progress A
  last = plan_all counts profiles busy (group_by_profile current) names first

  abbrev plan_slots : List (Config A)
  plan_slots = (plan_topology current counts profiles busy order).slots

  plan_slots-last : plan_slots ≡ sort below_id last.next
  unfolding plan_topology
  plan_slots-last = refl

  -- The ids of the slots are different, those that the plan can give are int32 values, and the order
  -- names every profile that has a count.
  pub record IsPlannable : Type 0 where
    pub distinct : (j : ℤ) → count (at_id j) current ≤ 1
    pub room :
        pos_part (highest_id (negsuc 0) current)
          + sum
              (λ n. or_zero (lookup n counts))
              (ordered_profiles order counts (group_by_profile current))
        ≤ max_int32
    pub covered : IsCovered counts order

  -- The plan is in the order of the ids, and no id stands twice, where the ids of the current slots
  -- are different, the largest id with all desired counts is an int32, and the order names every
  -- profile that has a count.
  pub plan_topology-distinct :
      IsPlannable
      → IsSorted below_id (plan_topology current counts profiles busy order).slots
        × ((j : ℤ) → count (at_id j) (plan_topology current counts profiles busy order).slots ≤ 1)
  plan_topology-distinct ready = (
    subst (IsSorted below_id) (sym plan_slots-last)
        (sort-IsSorted below_id below_id-IsOrder last.next),
    λ j.
        let once = λ (n : String).
          ordered_profiles-once order counts (group_by_profile current) n ready.covered
            (group_by_profile-IsMap current) in
        let all =
          sum-cong (λ n. count (at_id j) (slots_of (group_by_profile current) n))
            (λ n. count (in_profile n (at_id j)) current) names
            (λ n. group_by_profile-count (at_id j) n current) in
        let few = sum-profiles (at_id j) names once current in
        let clean : IsClean first = record {
          bound =
              used_ids-IsBound [] (negsuc 0) current
                (λ i h. absurd (unfold lookup in ground arith));
          low = highest_id-low (negsuc 0) current;
        } in
        let result =
          plan_all-OnceAt counts profiles busy (group_by_profile current) names first j clean
            ready.room
            (
              unfold count in ground (arith, ready.distinct j),
              λ h. used_ids-count [] current j (inr (unfold count in ground arith)),
            ) in
        let sorted = count-sort (at_id j) below_id last.next in
        subst (λ cs. count (at_id j) cs ≤ 1) (sym plan_slots-last) (omega (arith, result, sorted)),
  )

  named_if_counted : (n : String) → (lookup n counts ≡ none) ⊎ (1 ≤ count (named n) names)
  named_if_counted n = elim (Option-cases (lookup n counts)) [
    | inl e ↦ inl e
    | inr (k, e) ↦ inr (
        Elem-count (named n) n names
          (ordered_profiles-Elem order counts (group_by_profile current) n (inl (ground arith)))
          (ground arith))
  ]

  -- A plan that is not blocked has the desired number of slots of every profile, none where no count
  -- is given, provided that the order names every profile that has a count.
  pub plan_topology-counts :
      (n : String)
      → IsCovered counts order
      → (plan_topology current counts profiles busy order).blocked ≡ false
      → count (of_profile n) (plan_topology current counts profiles busy order).slots
        ≡ or_zero (lookup n counts)
  plan_topology-counts n covered free =
      let same = λ (m : String) (c : Config A) (h : Elem c (slots_of (group_by_profile current) m)).
        (Elem-group_by_profile c m current h).1 in
      let (_, result) =
        plan_all-counts counts profiles busy (group_by_profile current) names first n same in
      let quiet : length last.reasons ≡ 0 = unfold plan_topology in ground arith in
      let once =
        ordered_profiles-once order counts (group_by_profile current) n covered
          (group_by_profile-IsMap current) in
      let sorted = count-sort (of_profile n) below_id last.next in
      let desired = λ (m : String). or_zero (lookup m counts) in
      let total : count (of_profile n) last.next
          ≡ sum (λ m. if m == n then desired m else 0) names =
        unfold count in ground arith in
      let whole : sum (λ m. if m == n then desired m else 0) names ≡ desired n =
        ground (arith, sum-absent desired n names, sum-once desired n names, named_if_counted n) in
      subst (λ cs. count (of_profile n) cs ≡ desired n) (sym plan_slots-last)
        (sorted ∙ total ∙ whole)

  -- A busy slot is in every plan, as it is.
  pub plan_topology-busy :
      (c : Config A)
      → Elem c current
      → is_busy (lookup c.id busy) ≡ true
      → Elem c (plan_topology current counts profiles busy order).slots
  plan_topology-busy c h b =
      let known =
        ordered_profiles-Elem order counts (group_by_profile current) c.profile
          (inr (group_by_profile-known c current h)) in
      subst (Elem c) (sym plan_slots-last) (
        sort-Elem below_id c last.next (
          plan_all-Elem counts profiles busy (group_by_profile current) names first c
            (inr (known, group_by_profile-Elem c current h, b))))
