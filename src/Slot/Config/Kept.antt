-- ===== src/Slot/Config/Kept.antt =====
-- internal/slot/config.go: KeepExistingSlots and CountNewSlots split a proposed list of slots.
use sandbox_fleet.Base.{
  ◌+◌, true, ◌≡◌, ◌↔◌, refl, inl, inr, List, [], ◌∷◌, Bool-cases, arith, length, Elem,
}
use sandbox_fleet.Base.Int.{int_key}
use sandbox_fleet.Slot.Config.{Config, has_id, keep_existing_slots, count_new_slots}

module _ {A : Type 0} (current : List (Config A)) where
  Elem-keep_existing_slots :
      (c : Config A) (proposed : List (Config A))
      → Elem c (keep_existing_slots current proposed)
      → Elem c proposed × (has_id c.id current ≡ true)
  unfolding keep_existing_slots
  Elem-keep_existing_slots c [] h = elim h [ ]
  Elem-keep_existing_slots c (d ∷ ds) h = elim (Bool-cases (has_id d.id current)) [
    | inl e ↦ ground (arith, Elem-keep_existing_slots c ds)
    | inr e ↦ ground (arith, Elem-keep_existing_slots c ds)
  ]

  keep_existing_slots-Elem :
      (c : Config A) (proposed : List (Config A))
      → Elem c proposed
      → has_id c.id current ≡ true
      → Elem c (keep_existing_slots current proposed)
  unfolding keep_existing_slots
  keep_existing_slots-Elem c [] h e = h
  keep_existing_slots-Elem c (d ∷ ds) h e = elim (Bool-cases (has_id d.id current)) [
    | inl f ↦ ground (arith, keep_existing_slots-Elem c ds)
    | inr f ↦ ground (arith, keep_existing_slots-Elem c ds)
  ]

  kept_and_new :
      (proposed : List (Config A))
      → length (keep_existing_slots current proposed) + count_new_slots current proposed
        ≡ length proposed
  unfolding keep_existing_slots count_new_slots
  kept_and_new [] = omega arith
  kept_and_new (d ∷ ds) = elim (Bool-cases (has_id d.id current)) [
    | inl f ↦ ground (arith, kept_and_new ds)
    | inr f ↦ ground (arith, kept_and_new ds)
  ]

  kept_is_not_new :
      (proposed : List (Config A))
      → count_new_slots current (keep_existing_slots current proposed) ≡ 0
  unfolding keep_existing_slots count_new_slots
  kept_is_not_new [] = refl
  kept_is_not_new (d ∷ ds) = elim (Bool-cases (has_id d.id current)) [
    | inl f ↦ ground (arith, kept_is_not_new ds)
    | inr f ↦ ground (arith, kept_is_not_new ds)
  ]

  -- KeepExistingSlots keeps exactly the proposed slots whose id is a current one; CountNewSlots counts
  -- the others, and none of those that are kept.
  pub keep_existing_slots_lem :
      (proposed : List (Config A))
      → ((c : Config A)
          → Elem c (keep_existing_slots current proposed)
            ↔ (Elem c proposed × (has_id c.id current ≡ true)))
        × (length (keep_existing_slots current proposed) + count_new_slots current proposed
            ≡ length proposed)
        × (count_new_slots current (keep_existing_slots current proposed) ≡ 0)
  keep_existing_slots_lem proposed = (
    λ c. (
      λ h. Elem-keep_existing_slots c proposed h,
      λ h. keep_existing_slots-Elem c proposed h.0 h.1,
    ),
    kept_and_new proposed,
    kept_is_not_new proposed,
  )
