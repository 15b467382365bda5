-- ===== src/Slot/Plan/Adding.antt =====
-- internal/slot/config.go: the loop of PlanTopology that adds the missing slots.
use sandbox_fleet.Base.{
  ℕ, zero, suc, ◌+◌, ◌≤◌, ◌<◌, String, Bool, true, ◌≡◌, refl, sym, subst, ◌∙◌, ◌⊎◌, inl, [], ◌∷◌,
  ◌++◌, none, ◌==◌, if◌then◌else◌, arith, string_key, Elem, Elem-append_left,
}
use sandbox_fleet.Base.Int.{ℤ, negsuc, int_key, ◌≤ℤ◌, pos_part, max_int32}
use sandbox_fleet.Base.Map.{is_some, lookup, insert, lookup-insert}
use sandbox_fleet.Base.Count.{count, count_one, count-append}
use sandbox_fleet.Slot.Config.{Config, ResourceRequirements, clone_resources}
use sandbox_fleet.Slot.Plan.{Progress, next_free_id, add_missing}
use sandbox_fleet.Slot.Plan.Ids.{IsBound, next_free_id-IsFresh}
use sandbox_fleet.Slot.Plan.Dropping.{at_id}

module _ {A : Type 0} where
  -- The largest id bounds the ids in use and is at least -1.
  pub record IsClean (p : Progress A) : Type 0 where
    pub bound : IsBound p.used p.max_id
    pub low : negsuc 0 ≤ℤ p.max_id

  abbrev pub of_profile : String → Config A → Bool
  of_profile n c = c.profile == n

  module _ (profile : String) (resources : ResourceRequirements A) where
    -- One round of the loop.
    unfoldable pub add_one : Progress A → Progress A
    add_one p =
        let (id, max_id) = next_free_id p.used p.max_id in
        record p {
          used = insert id tt p.used;
          max_id = max_id;
          next =
              p.next
              ++ (record { id = id; profile = profile; resources = clone_resources resources })
                ∷ [];
        }

    add_missing-suc :
        (missing : ℕ) (p : Progress A)
        → add_missing (suc missing) profile resources p
          ≡ add_missing missing profile resources (add_one p)
    unfolding add_missing add_one
    add_missing-suc missing p = refl

    add_one-IsClean :
        (p : Progress A)
        → IsClean p
        → pos_part p.max_id < max_int32
        → IsClean (add_one p) × (pos_part (add_one p).max_id ≤ suc (pos_part p.max_id))
    unfolding add_one
    add_one-IsClean p clean room =
        let f = next_free_id-IsFresh p.used p.max_id clean.bound clean.low room in
        let r = next_free_id p.used p.max_id in
        (
          record {
            bound = λ j h. elim (int_key.same r.0 j) [
              | yes e ↦ ground (arith, f.below)
              | no n ↦ ground (arith, clean.bound j, lookup-insert j r.0 tt p.used, f.grows)
            ];
            low = ground (arith, f.grows, clean.low);
          },
          f.slowly,
        )

    -- An id before and after: nothing changed, or it was free and one slot was added.
    abbrev pub AddedAs : ℤ → Progress A → Progress A → Type 0
    AddedAs j p q =
        ((lookup j q.used ≡ lookup j p.used) × (count (at_id j) q.next ≡ count (at_id j) p.next))
        ⊎ ((lookup j p.used ≡ none)
            × (is_some (lookup j q.used) ≡ true)
            × (count (at_id j) q.next ≡ suc (count (at_id j) p.next)))

    add_one-AddedAs :
        (j : ℤ) (p : Progress A)
        → IsClean p
        → pos_part p.max_id < max_int32
        → AddedAs j p (add_one p)
    unfolding add_one
    add_one-AddedAs j p clean room =
        let f = next_free_id-IsFresh p.used p.max_id clean.bound clean.low room in
        let r = next_free_id p.used p.max_id in
        let c : Config A = record {
          id = r.0;
          profile = profile;
          resources = clone_resources resources;
        } in
        ground (
          arith,
          f.unused,
          lookup-insert j r.0 tt p.used,
          count-append (at_id j) p.next (c ∷ []),
          count_one (at_id j) c,
        )

    pub add_missing-lem :
        (missing : ℕ) (p : Progress A) (j : ℤ)
        → IsClean p
        → pos_part p.max_id + missing ≤ max_int32
        → IsClean (add_missing missing profile resources p)
          × (pos_part (add_missing missing profile resources p).max_id
              ≤ pos_part p.max_id + missing)
          × AddedAs j p (add_missing missing profile resources p)
    add_missing-lem zero p j clean room =
        unfold add_missing in (clean, omega arith, inl (refl, refl))
    add_missing-lem (suc missing) p j clean room =
        let (clean', slowly) = add_one-IsClean p clean (omega (arith, room)) in
        let first = add_one-AddedAs j p clean (omega (arith, room)) in
        let (a, b, c) =
          add_missing-lem missing (add_one p) j clean' (omega (arith, room, slowly)) in
        subst
          (λ q. IsClean q × (pos_part q.max_id ≤ pos_part p.max_id + suc missing) × AddedAs j p q)
          (sym (add_missing-suc missing p)) (a, omega (arith, b, slowly), ground (arith, first, c))

    -- The reasons and the slots that there are stay; the profile gets what is missing.
    pub add_missing-counts :
        (missing : ℕ) (p : Progress A) (n : String)
        → ((add_missing missing profile resources p).reasons ≡ p.reasons)
          × (count (of_profile n) (add_missing missing profile resources p).next
              ≡ count (of_profile n) p.next + (if profile == n then missing else 0))
    add_missing-counts zero p n = unfold add_missing in (refl, ground arith)
    add_missing-counts (suc missing) p n =
        let (a, b) = add_missing-counts missing (add_one p) n in
        let r = next_free_id p.used p.max_id in
        let c : Config A = record {
          id = r.0;
          profile = profile;
          resources = clone_resources resources;
        } in
        let one = count-append (of_profile n) p.next (c ∷ []) in
        let single = count_one (of_profile n) c in
        let grown : count (of_profile n) (add_one p).next
            ≡ count (of_profile n) p.next + (if profile == n then 1 else 0) =
          unfold add_one in ground arith in
        let same : (add_one p).reasons ≡ p.reasons = unfold add_one in refl in
        subst
          (λ q.
            (q.reasons ≡ p.reasons)
            × (count (of_profile n) q.next
                ≡ count (of_profile n) p.next + (if profile == n then suc missing else 0)))
          (sym (add_missing-suc missing p)) (a ∙ same, ground arith)

    pub add_missing-Elem :
        (missing : ℕ) (p : Progress A) (c : Config A)
        → Elem c p.next
        → Elem c (add_missing missing profile resources p).next
    add_missing-Elem zero p c h = unfold add_missing in h
    add_missing-Elem (suc missing) p c h =
        subst (λ q. Elem c q.next) (sym (add_missing-suc missing p))
          (add_missing-Elem missing (add_one p) c (
            unfold add_one in
            Elem-append_left c p.next
              (record {
                id = (next_free_id p.used p.max_id).0;
                profile = profile;
                resources = clone_resources resources;
              }
                ∷ [])
              h))
