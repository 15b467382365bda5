-- ===== src/Slot/Plan/Groups.antt =====
-- internal/slot/config.go: groupByProfile splits the slots by profile.
use sandbox_fleet.Base.{
  ◌+◌, String, Bool, true, false, ◌≡◌, refl, sym, subst, ◌⊎◌, inl, inr, List, [], ◌∷◌, ◌++◌, Option,
  none, some, ◌==◌, if◌then◌else◌, arith, string_key, Elem, Elem-append, Elem-append_left,
  Elem-append_right,
}
use sandbox_fleet.Base.Map.{Map, is_some, lookup, insert, lookup-insert, IsMap, insert-IsMap}
use sandbox_fleet.Base.Sort.{sort, Elem-sort, sort-Elem}
use sandbox_fleet.Base.Count.{count, count-append, count-sort}
use sandbox_fleet.Slot.Config.{Config}
use sandbox_fleet.Slot.Plan.{or_empty, below_id, group_from, sort_groups, group_by_profile}

abbrev pub Groups : Type 0 → Type 0
Groups A = Map String (List (Config A))

module _ {A : Type 0} where
  abbrev pub slots_of : Groups A → String → List (Config A)
  slots_of groups profile = or_empty (lookup profile groups)

  -- The test of the slots of a profile.
  abbrev pub in_profile : String → (Config A → Bool) → Config A → Bool
  in_profile profile p c = if c.profile == profile then p c else false

  group_from-count :
      (p : Config A → Bool) (profile : String) (groups : Groups A) (cs : List (Config A))
      → count p (slots_of (group_from groups cs) profile)
        ≡ count p (slots_of groups profile) + count (in_profile profile p) cs
  unfolding group_from count
  group_from-count p profile groups [] = omega arith
  group_from-count p profile groups (c ∷ cs) =
      let grown = or_empty (lookup c.profile groups) ++ c ∷ [] in
      ground (
        arith,
        group_from-count p profile (insert c.profile grown groups) cs,
        lookup-insert profile c.profile grown groups,
        count-append p (slots_of groups c.profile) (c ∷ []),
      )

  lookup-sort_groups :
      (profile : String) (groups : Groups A)
      → slots_of (sort_groups groups) profile ≡ sort below_id (slots_of groups profile)
  unfolding sort_groups lookup
  lookup-sort_groups profile [] = unfold sort in refl
  lookup-sort_groups profile ((q, cs) ∷ groups) = ground (arith, lookup-sort_groups profile groups)

  -- The slots of a profile are those of the list that have it.
  pub group_by_profile-count :
      (p : Config A → Bool) (profile : String) (current : List (Config A))
      → count p (slots_of (group_by_profile current) profile) ≡ count (in_profile profile p) current
  group_by_profile-count p profile current =
      let sorted = lookup-sort_groups profile (group_from [] current) in
      let same = count-sort p below_id (slots_of (group_from [] current) profile) in
      let all = group_from-count p profile [] current in
      let none_at : slots_of [] profile ≡ [] = unfold lookup in refl in
      let zero_at : count p [] ≡ 0 = unfold count in refl in unfold group_by_profile in ground arith

  group_from-Elem :
      (c : Config A) (groups : Groups A) (cs : List (Config A))
      → Elem c cs ⊎ Elem c (slots_of groups c.profile)
      → Elem c (slots_of (group_from groups cs) c.profile)
  unfolding group_from
  group_from-Elem c groups [] (inl h) = elim h [ ]
  group_from-Elem c groups [] (inr h) = h
  group_from-Elem c groups (d ∷ cs) h =
      let old = slots_of groups d.profile in
      ground (
        arith,
        group_from-Elem c (insert d.profile (old ++ d ∷ []) groups) cs,
        lookup-insert c.profile d.profile (old ++ d ∷ []) groups,
        Elem-append_left c old (d ∷ []),
        Elem-append_right c old (d ∷ []),
      )

  Elem-group_from :
      (c : Config A) (profile : String) (groups : Groups A) (cs : List (Config A))
      → Elem c (slots_of (group_from groups cs) profile)
      → Elem c (slots_of groups profile) ⊎ (Elem c cs × (c.profile ≡ profile))
  unfolding group_from
  Elem-group_from c profile groups [] h = inl h
  Elem-group_from c profile groups (d ∷ cs) h =
      let old = slots_of groups d.profile in
      ground (
        arith,
        Elem-group_from c profile (insert d.profile (old ++ d ∷ []) groups) cs,
        lookup-insert profile d.profile (old ++ d ∷ []) groups,
        Elem-append c old (d ∷ []),
      )

  pub group_by_profile-Elem :
      (c : Config A) (current : List (Config A))
      → Elem c current
      → Elem c (slots_of (group_by_profile current) c.profile)
  unfolding group_by_profile
  group_by_profile-Elem c current h =
      subst (Elem c) (sym (lookup-sort_groups c.profile (group_from [] current))) (
        sort-Elem below_id c (slots_of (group_from [] current) c.profile)
          (group_from-Elem c [] current (inl h)))

  pub Elem-group_by_profile :
      (c : Config A) (profile : String) (current : List (Config A))
      → Elem c (slots_of (group_by_profile current) profile)
      → Elem c current × (c.profile ≡ profile)
  unfolding group_by_profile
  Elem-group_by_profile c profile current h =
      let m : Elem c (slots_of (group_from [] current) profile) =
        Elem-sort below_id c (slots_of (group_from [] current) profile)
          (subst (Elem c) (lookup-sort_groups profile (group_from [] current)) h) in
      elim (Elem-group_from c profile [] current m) [
        | inl n ↦ absurd (unfold lookup in elim n [ ])
        | inr n ↦ n
      ]

  group_from-IsMap :
      (groups : Groups A) (cs : List (Config A)) → IsMap groups → IsMap (group_from groups cs)
  unfolding group_from
  group_from-IsMap groups [] u = u
  group_from-IsMap groups (c ∷ cs) u =
      let grown = slots_of groups c.profile ++ c ∷ [] in
      group_from-IsMap (insert c.profile grown groups) cs (insert-IsMap c.profile grown groups u)

  sort_groups-none :
      (profile : String) (groups : Groups A)
      → lookup profile groups ≡ none
      → lookup profile (sort_groups groups) ≡ none
  unfolding sort_groups lookup
  sort_groups-none profile [] e = refl
  sort_groups-none profile ((q, cs) ∷ groups) e = ground (arith, sort_groups-none profile groups)

  sort_groups-IsMap : (groups : Groups A) → IsMap groups → IsMap (sort_groups groups)
  unfolding sort_groups
  sort_groups-IsMap [] u = tt
  sort_groups-IsMap ((q, cs) ∷ groups) u =
      (sort_groups-none q groups u.0, sort_groups-IsMap groups u.1)

  pub group_by_profile-IsMap : (current : List (Config A)) → IsMap (group_by_profile current)
  unfolding group_by_profile
  group_by_profile-IsMap current =
      sort_groups-IsMap (group_from [] current) (group_from-IsMap [] current tt)

  -- A profile of a slot is a key.
  pub group_by_profile-known :
      (c : Config A) (current : List (Config A))
      → Elem c current
      → is_some (lookup c.profile (group_by_profile current)) ≡ true
  group_by_profile-known c current h = go (lookup c.profile (group_by_profile current)) refl
    where
      go :
          (o : Option (List (Config A)))
          → lookup c.profile (group_by_profile current) ≡ o
          → is_some o ≡ true
      go none e =
          let m = group_by_profile-Elem c current h in
          let n : Elem c [] = subst (λ o. Elem c (or_empty o)) e m in elim n [ ]
      go (some cs) e = refl
