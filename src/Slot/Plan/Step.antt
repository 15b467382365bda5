-- ===== src/Slot/Plan/Step.antt =====
-- internal/slot/config.go: one round of PlanTopology's loop over the profiles.
use sandbox_fleet.Base.{
  ℕ, suc, ◌+◌, ◌-◌, ◌≤◌, ◌<◌, String, Bool, true, false, not, ◌&&◌, ◌≡◌, subst, ◌⊎◌, inl, inr, List,
  [], ◌∷◌, ◌++◌, Option, ◌==◌, ltb, if◌then◌else◌, Bool-cases, arith, string_key, length, take,
  drop, length-take, length-append, Elem, Elem-append_left, Elem-append_right, Elem-take,
  Elem-take_or_drop,
}
use sandbox_fleet.Base.Int.{ℤ, pos, int_key, pos_part, max_int32}
use sandbox_fleet.Base.Map.{Map, is_some, lookup}
use sandbox_fleet.Base.Sort.{sort, sort-Elem}
use sandbox_fleet.Base.Count.{count, count-append, count-sort, count_split, count-all, count-none}
use sandbox_fleet.Slot.Config.{Config, ResourceRequirements}
use sandbox_fleet.Slot.Plan.{
  Progress, is_busy, unknown_profile, below_id, or_zero_resources, drop_extra, add_missing,
  plan_profile,
}
use sandbox_fleet.Slot.Plan.Dropping.{
  at_id, drop_extra-frame, drop_extra-count, drop_extra-UsedAs, drop_extra-Elem, drop_extra-reasons,
}
use sandbox_fleet.Slot.Plan.Adding.{
  IsClean, of_profile, add_missing-lem, add_missing-counts, add_missing-Elem,
}

module _ {A : Type 0} where
  -- An id with `others` slots still to come: it stands once at most, and is in use if it stands.
  abbrev pub OnceAt : ℤ → ℕ → Progress A → Type 0
  OnceAt j others p =
      (count (at_id j) p.next + others ≤ 1)
      × (1 ≤ count (at_id j) p.next + others → is_some (lookup j p.used) ≡ true)

  module _ (busy : Map ℤ Bool) (profile : String) (desired : ℕ) (existing : List (Config A))
      (resources : Option (ResourceRequirements A)) (p : Progress A) where
    abbrev pub after : Progress A
    after = plan_profile busy profile desired existing resources p

    abbrev unknown : Progress A
    unknown = record p {
      reasons = p.reasons ++ unknown_profile profile ∷ [];
      next = p.next ++ existing;
    }

    abbrev dropped : List (Config A) × Progress A
    dropped = drop_extra busy profile (take desired existing) (drop desired existing) p

    abbrev shrunk : Progress A
    shrunk = record dropped.1 { next = dropped.1.next ++ sort below_id dropped.0 }

    abbrev grown : Progress A
    grown =
        add_missing (desired - length existing) profile (or_zero_resources resources)
          (record p { next = p.next ++ existing })

    -- The three ways of a round.
    after-cases {ℓ} :
        (P : Progress A → Type ℓ)
        → (is_some resources ≡ false → 0 < desired → P unknown)
        → (desired < length existing → P shrunk)
        → (length existing ≤ desired → P grown)
        → P after
    unfolding plan_profile
    after-cases P u s g = elim (Bool-cases (not (is_some resources) && ltb 0 desired)) [
      | inl e ↦
          let same : unknown ≡ after = ground arith in
          subst P same (u (ground arith) (ground arith))
      | inr e ↦ elim (Bool-cases (ltb desired (length existing))) [
        | inl f ↦ let same : shrunk ≡ after = ground arith in subst P same (s (ground arith))
        | inr f ↦ let same : grown ≡ after = ground arith in subst P same (g (ground arith))
      ]
    ]

    -- A round keeps the ids apart.
    pub after-OnceAt :
        (j : ℤ) (others : ℕ)
        → IsClean p
        → pos_part p.max_id + desired ≤ max_int32
        → OnceAt j (count (at_id j) existing + others) p
        → OnceAt j others after
    after-OnceAt j others clean room once =
        after-cases (OnceAt j others)
          (λ e f. ground (arith, count-append (at_id j) p.next existing))
          (λ f. ground (
            arith,
            drop_extra-frame busy profile (take desired existing) (drop desired existing) p,
            drop_extra-count busy profile (at_id j) (take desired existing) (drop desired existing)
                p,
            drop_extra-UsedAs busy profile j (take desired existing) (drop desired existing) p,
            count_split (at_id j) desired existing,
            count-sort (at_id j) below_id dropped.0,
            count-append (at_id j) dropped.1.next (sort below_id dropped.0),
          ))
          (λ f.
            let start : Progress A = record p { next = p.next ++ existing } in
            let clean' : IsClean start = record { bound = clean.bound; low = clean.low } in
            let (_, _, added) =
              add_missing-lem profile (or_zero_resources resources) (desired - length existing)
                start j clean' (omega (arith, room)) in
            ground (arith, count-append (at_id j) p.next existing, added))

    pub after-IsClean :
        IsClean p
        → pos_part p.max_id + desired ≤ max_int32
        → IsClean after × (pos_part after.max_id ≤ pos_part p.max_id + desired)
    after-IsClean clean room =
        after-cases (λ q. IsClean q × (pos_part q.max_id ≤ pos_part p.max_id + desired))
          (λ e f. (record { bound = clean.bound; low = clean.low }, omega arith))
          (λ f.
            let (_, same) =
              drop_extra-frame busy profile (take desired existing) (drop desired existing) p in
            (
              record {
                bound = λ j h. ground (
                  arith,
                  drop_extra-UsedAs busy profile j (take desired existing) (drop desired existing)
                      p,
                  clean.bound j,
                );
                low = ground (arith, clean.low);
              },
              ground arith,
            ))
          (λ f.
            let start : Progress A = record p { next = p.next ++ existing } in
            let clean' : IsClean start = record { bound = clean.bound; low = clean.low } in
            let (a, b, _) =
              add_missing-lem profile (or_zero_resources resources) (desired - length existing)
                start (pos 0) clean' (omega (arith, room)) in
            (a, omega (arith, b)))

    -- Slots of one profile.
    abbrev pub AreOf : List (Config A) → Type 0
    AreOf cs = (c : Config A) → Elem c cs → c.profile ≡ profile

    count-AreOf :
        (n : String) (cs : List (Config A))
        → AreOf cs
        → count (of_profile n) cs ≡ (if profile == n then length cs else 0)
    count-AreOf n cs same = elim (Bool-cases (profile == n)) [
      | inl e ↦
          let all = count-all (of_profile n) cs (λ c m. ground (arith, same c m)) in ground arith
      | inr e ↦
          let all = count-none (of_profile n) cs (λ c m. ground (arith, same c m)) in ground arith
    ]

    -- A round that gives no reason leaves the profile with the desired slots, and adds no others.
    pub after-counts :
        (n : String)
        → AreOf existing
        → (length p.reasons ≤ length after.reasons)
          × ((suc (length p.reasons) ≤ length after.reasons)
              ⊎ (count (of_profile n) after.next
                  ≡ count (of_profile n) p.next + (if profile == n then desired else 0)))
    after-counts n same =
        after-cases
          (λ q.
            (length p.reasons ≤ length q.reasons)
            × ((suc (length p.reasons) ≤ length q.reasons)
                ⊎ (count (of_profile n) q.next
                    ≡ count (of_profile n) p.next + (if profile == n then desired else 0))))
          (λ e f.
            let more = length-append p.reasons (unknown_profile profile ∷ []) in
            (omega (arith, more), inl (omega (arith, more))))
          (λ f.
            let kept =
              count-AreOf n (take desired existing)
                (λ c m. same c (Elem-take c desired existing m)) in
            ground (
              arith,
              drop_extra-frame busy profile (take desired existing) (drop desired existing) p,
              drop_extra-reasons busy profile (take desired existing) (drop desired existing) p,
              length-take desired existing,
              count-sort (of_profile n) below_id dropped.0,
              count-append (of_profile n) dropped.1.next (sort below_id dropped.0),
            ))
          (λ f.
            let start : Progress A = record p { next = p.next ++ existing } in
            let (a, b) =
              add_missing-counts profile (or_zero_resources resources) (desired - length existing)
                start n in
            let all = count-AreOf n existing same in
            ground (arith, count-append (of_profile n) p.next existing))

    -- A busy slot stays, and the slots of the rounds before.
    pub after-Elem :
        (c : Config A)
        → Elem c p.next ⊎ (Elem c existing × (is_busy (lookup c.id busy) ≡ true))
        → Elem c after.next
    after-Elem c h =
        after-cases (λ q. Elem c q.next)
          (λ e f.
            ground (arith, Elem-append_left c p.next existing, Elem-append_right c p.next existing))
          (λ f. ground (
            arith,
            drop_extra-frame busy profile (take desired existing) (drop desired existing) p,
            drop_extra-Elem busy profile c (take desired existing) (drop desired existing) p,
            Elem-take_or_drop c desired existing,
            sort-Elem below_id c dropped.0,
            Elem-append_left c dropped.1.next (sort below_id dropped.0),
            Elem-append_right c dropped.1.next (sort below_id dropped.0),
          ))
          (λ f.
            add_missing-Elem profile (or_zero_resources resources) (desired - length existing)
              (record p { next = p.next ++ existing }) c
              (ground
                (arith, Elem-append_left c p.next existing, Elem-append_right c p.next existing)))
