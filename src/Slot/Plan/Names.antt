-- ===== src/Slot/Plan/Names.antt =====
-- internal/slot/config.go: orderedProfiles names each profile once, where the order names every profile
-- that has a count.
use sandbox_fleet.Base.{
  ◌≤◌, String, Bool, true, false, not, ◌≡◌, refl, sym, ap, subst, ◌⊎◌, inl, inr, List, [], ◌∷◌,
  ◌++◌, none, ◌==◌, if◌then◌else◌, Option-cases, Bool-cases, arith, string_key, keep_if, Elem,
  Elem-append_left, Elem-append_right, Elem-keep_if, Elem-keep_if_of,
}
use sandbox_fleet.Base.Map.{Map, is_some, lookup, insert, keys, lookup-insert, IsMap, keys-lookup}
use sandbox_fleet.Base.Text.{str_ltb}
use sandbox_fleet.Base.Sort.{sort, sort-Elem}
use sandbox_fleet.Base.Count.{count, count-append, count-sort, count-none, count-keep_if}
use sandbox_fleet.Slot.Plan.{Set, ProfileCounts, dedup_from, ordered_profiles}

abbrev pub named : String → String → Bool
named n m = m == n

dedup_from-count :
    (n : String) (seen : Set String) (order : List String)
    → count (named n) (dedup_from seen order).0 ≤ (if is_some (lookup n seen) then 0 else 1)
unfolding dedup_from count
dedup_from-count n seen [] = ground arith
dedup_from-count n seen (p ∷ ps) = ground (
  arith,
  dedup_from-count n (insert p tt seen) ps,
  dedup_from-count n seen ps,
  lookup-insert n p tt seen,
)

dedup_from-seen :
    (n : String) (seen : Set String) (order : List String)
    → is_some (lookup n seen) ≡ true ⊎ Elem n order
    → is_some (lookup n (dedup_from seen order).1) ≡ true
unfolding dedup_from
dedup_from-seen n seen [] h = ground arith
dedup_from-seen n seen (p ∷ ps) h = ground (
  arith,
  dedup_from-seen n (insert p tt seen) ps,
  dedup_from-seen n seen ps,
  lookup-insert n p tt seen,
)

seen-dedup_from :
    (n : String) (seen : Set String) (order : List String)
    → is_some (lookup n (dedup_from seen order).1) ≡ true
    → is_some (lookup n seen) ≡ true ⊎ Elem n (dedup_from seen order).0
unfolding dedup_from
seen-dedup_from n seen [] h = inl h
seen-dedup_from n seen (p ∷ ps) h = ground (
  arith,
  seen-dedup_from n (insert p tt seen) ps,
  seen-dedup_from n seen ps,
  lookup-insert n p tt seen,
)

dedup_from-unseen :
    (n : String) (seen : Set String) (order : List String)
    → is_some (lookup n (dedup_from seen order).1) ≡ false
    → count (named n) (dedup_from seen order).0 ≡ 0
unfolding dedup_from count
dedup_from-unseen n seen [] h = refl
dedup_from-unseen n seen (p ∷ ps) h = ground (
  arith,
  dedup_from-unseen n (insert p tt seen) ps,
  dedup_from-unseen n seen ps,
  dedup_from-seen n (insert p tt seen) ps,
  lookup-insert n p tt seen,
)

keys-count :
    {B : Type 0} (n : String) (m : Map String B)
    → IsMap m
    → count (named n) (keys m) ≤ (if is_some (lookup n m) then 1 else 0)
unfolding count keys lookup
keys-count n [] u = omega arith
keys-count n ((k, b) ∷ m) u = ground (arith, keys-count n m u.1)

module _ {B : Type 0} (order : List String) (counts : ProfileCounts) (groups : Map String B) where
  abbrev seen_names : Set String
  seen_names = (dedup_from [] order).1

  abbrev unseen : List String → List String
  unseen = keep_if (λ profile. not (is_some (lookup profile seen_names)))

  unseen-covered :
      (names : List String) → ((n : String) → Elem n names → Elem n order) → unseen names ≡ []
  unfolding keep_if
  unseen-covered [] covered = refl
  unseen-covered (p ∷ ps) covered =
      let seen = dedup_from-seen p [] order (inr (covered p (inl refl))) in
      let rest = unseen-covered ps (λ n h. covered n (inr h)) in ground arith

  -- No profile is named twice, where the order names every profile that has a count.
  pub ordered_profiles-once :
      (n : String)
      → ((m : String) → Elem m (keys counts) → Elem m order)
      → IsMap groups
      → count (named n) (ordered_profiles order counts groups) ≤ 1
  unfolding ordered_profiles
  ordered_profiles-once n covered u =
      let names = (dedup_from [] order).0 in
      let xs = unseen (keys counts) ++ unseen (keys groups) in
      let whole = count-append (named n) names (sort str_ltb xs) in
      let sorted = count-sort (named n) str_ltb xs in
      let rest : xs ≡ unseen (keys groups) =
        ap (λ ys. ys ++ unseen (keys groups)) (unseen-covered (keys counts) covered) in
      let few : count (named n) xs ≤ count (named n) (keys groups) =
        subst (λ ys. count (named n) ys ≤ count (named n) (keys groups)) (sym rest)
          (count-keep_if (named n) (λ profile. not (is_some (lookup profile seen_names)))
            (keys groups)) in
      elim (Bool-cases (is_some (lookup n seen_names))) [
        | inl e ↦
            let nothing : count (named n) (unseen (keys groups)) ≡ 0 =
              count-none (named n) (unseen (keys groups)) (λ a m.
                let out =
                  Elem-keep_if (λ profile. not (is_some (lookup profile seen_names))) a
                    (keys groups) m in
                ground arith) in
            let once = dedup_from-count n [] order in
            let nowhere : Set String = [] in
            let empty : lookup n nowhere ≡ none = unfold lookup in refl in ground arith
        | inr e ↦
            let nothing = dedup_from-unseen n [] order e in ground (arith, keys-count n groups u)
      ]

  pub ordered_profiles-Elem :
      (n : String)
      → (is_some (lookup n counts) ≡ true) ⊎ (is_some (lookup n groups) ≡ true)
      → Elem n (ordered_profiles order counts groups)
  unfolding ordered_profiles
  ordered_profiles-Elem n h =
      let names = (dedup_from [] order).0 in
      let xs = unseen (keys counts) ++ unseen (keys groups) in
      elim (Bool-cases (is_some (lookup n seen_names))) [
        | inl e ↦ elim (seen-dedup_from n [] order e) [
          | inl f ↦ absurd (unfold lookup in ground arith)
          | inr m ↦ Elem-append_left n names (sort str_ltb xs) m
        ]
        | inr e ↦ Elem-append_right n names (sort str_ltb xs) (
            sort-Elem str_ltb n xs (elim h [
              | inl f ↦
                  Elem-append_left n (unseen (keys counts)) (unseen (keys groups))
                    (kept (keys counts) e (some-keys counts f))
              | inr f ↦
                  Elem-append_right n (unseen (keys counts)) (unseen (keys groups))
                    (kept (keys groups) e (some-keys groups f))
            ]))
      ]
    where
      kept :
          (names : List String)
          → is_some (lookup n seen_names) ≡ false
          → Elem n names
          → Elem n (unseen names)
      kept names e m =
          Elem-keep_if_of (λ profile. not (is_some (lookup profile seen_names))) n names m
            (ground arith)

      some-keys : {C : Type 0} (m : Map String C) → is_some (lookup n m) ≡ true → Elem n (keys m)
      some-keys m f = elim (Option-cases (lookup n m)) [
        | inl e ↦ absurd (ground arith)
        | inr (v, e) ↦ keys-lookup n v m e
      ]
