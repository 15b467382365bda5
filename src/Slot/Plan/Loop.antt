-- ===== src/Slot/Plan/Loop.antt =====
-- internal/slot/config.go: PlanTopology's loop over the profiles.
use sandbox_fleet.Base.{
  ℕ, suc, ◌+◌, ◌≤◌, String, Bool, true, ◌≡◌, subst, ◌⊎◌, inl, inr, List, [], ◌∷◌, ◌==◌,
  if◌then◌else◌, arith, string_key, length, Elem,
}
use sandbox_fleet.Base.Int.{ℤ, int_key, ltb_ℤ, ◌≤ℤ◌, pos_part, max_int32}
use sandbox_fleet.Base.Map.{Map, is_some, lookup, insert, lookup-insert}
use sandbox_fleet.Base.Count.{count}
use sandbox_fleet.Slot.Config.{Config}
use sandbox_fleet.Slot.Plan.{
  ProfileCounts, ProfileResources, Progress, Set, is_busy, or_zero, plan_profile, plan_all,
  used_ids, highest_id,
}
use sandbox_fleet.Slot.Plan.Ids.{IsBound}
use sandbox_fleet.Slot.Plan.Groups.{Groups, slots_of}
use sandbox_fleet.Slot.Plan.Sums.{sum}
use sandbox_fleet.Slot.Plan.Dropping.{at_id}
use sandbox_fleet.Slot.Plan.Adding.{IsClean, of_profile}
use sandbox_fleet.Slot.Plan.Step.{OnceAt, after-OnceAt, after-IsClean, after-counts, after-Elem}

module _ {A : Type 0} (counts : ProfileCounts) (profiles : ProfileResources A) (busy : Map ℤ Bool)
    (groups : Groups A) where
  -- The desired count of a profile.
  abbrev pub desired_of : String → ℕ
  desired_of n = or_zero (lookup n counts)

  abbrev round : String → Progress A → Progress A
  round n p = plan_profile busy n (desired_of n) (slots_of groups n) (lookup n profiles) p

  pub plan_all-OnceAt :
      (names : List String) (p : Progress A) (j : ℤ)
      → IsClean p
      → pos_part p.max_id + sum desired_of names ≤ max_int32
      → OnceAt j (sum (λ n. count (at_id j) (slots_of groups n)) names) p
      → OnceAt j 0 (plan_all counts profiles busy groups names p)
  unfolding plan_all sum
  plan_all-OnceAt [] p j clean room once = once
  plan_all-OnceAt (n ∷ ns) p j clean room once =
      let others = sum (λ m. count (at_id j) (slots_of groups m)) ns in
      let (clean', grows) =
        after-IsClean busy n (desired_of n) (slots_of groups n) (lookup n profiles) p clean
          (omega (arith, room)) in
      plan_all-OnceAt ns (round n p) j clean' (omega (arith, room, grows)) (
        after-OnceAt busy n (desired_of n) (slots_of groups n) (lookup n profiles) p j others clean
          (omega (arith, room)) once)

  -- Whether the loop gives no reason, its profiles have the desired slots.
  pub plan_all-counts :
      (names : List String) (p : Progress A) (n : String)
      → ((m : String) (c : Config A) → Elem c (slots_of groups m) → c.profile ≡ m)
      → (length p.reasons ≤ length (plan_all counts profiles busy groups names p).reasons)
        × ((suc (length p.reasons) ≤ length (plan_all counts profiles busy groups names p).reasons)
            ⊎ (count (of_profile n) (plan_all counts profiles busy groups names p).next
                ≡ count (of_profile n) p.next
                  + sum (λ m. if m == n then desired_of m else 0) names))
  unfolding plan_all sum
  plan_all-counts [] p n same = (omega arith, inr (omega arith))
  plan_all-counts (m ∷ ms) p n same =
      let here =
        after-counts busy m (desired_of m) (slots_of groups m) (lookup m profiles) p n (same m) in
      let rest = plan_all-counts ms (round m p) n same in ground (arith, here, rest)

  pub plan_all-Elem :
      (names : List String) (p : Progress A) (c : Config A)
      → Elem c p.next
        ⊎ (Elem c.profile names
            × Elem c (slots_of groups c.profile)
            × (is_busy (lookup c.id busy) ≡ true))
      → Elem c (plan_all counts profiles busy groups names p).next
  unfolding plan_all
  plan_all-Elem [] p c (inl h) = h
  plan_all-Elem [] p c (inr h) = elim h.0 [ ]
  plan_all-Elem (n ∷ ns) p c (inl h) =
      plan_all-Elem ns (round n p) c
        (inl (after-Elem busy n (desired_of n) (slots_of groups n) (lookup n profiles) p c (inl h)))
  plan_all-Elem (n ∷ ns) p c (inr (inl e, m, b)) = plan_all-Elem ns (round n p) c (
      inl (
        after-Elem busy n (desired_of n) (slots_of groups n) (lookup n profiles) p c
          (inr (subst (λ x. Elem c (slots_of groups x)) e m, b))))
  plan_all-Elem (n ∷ ns) p c (inr (inr e, m, b)) = plan_all-Elem ns (round n p) c (inr (e, m, b))

module _ {A : Type 0} where
  pub used_ids-IsBound :
      (used : Set ℤ) (max_id : ℤ) (cs : List (Config A))
      → IsBound used max_id
      → IsBound (used_ids used cs) (highest_id max_id cs)
  unfolding used_ids highest_id
  used_ids-IsBound used max_id [] bound = bound
  used_ids-IsBound used max_id (c ∷ cs) bound =
      used_ids-IsBound (insert c.id tt used) (if ltb_ℤ max_id c.id then c.id else max_id) cs
        (λ j h. ground (arith, bound j, lookup-insert j c.id tt used))

  pub highest_id-low : (max_id : ℤ) (cs : List (Config A)) → max_id ≤ℤ highest_id max_id cs
  unfolding highest_id
  highest_id-low max_id [] = omega arith
  highest_id-low max_id (c ∷ cs) =
      ground (arith, highest_id-low (if ltb_ℤ max_id c.id then c.id else max_id) cs)

  pub used_ids-count :
      (used : Set ℤ) (cs : List (Config A)) (j : ℤ)
      → (is_some (lookup j used) ≡ true) ⊎ (1 ≤ count (at_id j) cs)
      → is_some (lookup j (used_ids used cs)) ≡ true
  unfolding used_ids count
  used_ids-count used [] j h = ground arith
  used_ids-count used (c ∷ cs) j h =
      ground (arith, used_ids-count (insert c.id tt used) cs j, lookup-insert j c.id tt used)
