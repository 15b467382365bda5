-- ===== src/Worker/Listing.antt =====
-- internal/worker/manager.go: ListSlots reports every slot, in the order of the ids.
use sandbox_fleet.Base.{
  ◌≡◌, ◌≢◌, refl, sym, subst, inl, inr, List, [], ◌∷◌, map, Option, none, some, Option-cases, arith,
  Elem,
}
use sandbox_fleet.Base.Int.{ℤ, int_key, ltb_ℤ}
use sandbox_fleet.Base.Map.{keys, lookup, Elem-keys, keys-lookup}
use sandbox_fleet.Base.Sort.{sort, IsSorted, IsOrder, sort-IsSorted, sort-Elem, Elem-sort}
use sandbox_fleet.Slot.{Info}
use sandbox_fleet.Worker.Slots.{ManagedSlot}
use sandbox_fleet.Worker.Manager.{Manager, list_from, list_slots}

ltb_ℤ-IsOrder : IsOrder ltb_ℤ
ltb_ℤ-IsOrder = record { asym = λ a b p. ground arith; negtrans = λ a b c p q. ground arith }

module _ {A : Type 0} where
  -- What ListSlots says of a slot.
  abbrev pub info_at : ℤ → ManagedSlot A → Info
  info_at id c = record {
    id = id;
    profile = c.profile;
    state = c.state;
    sandbox_uid = c.sandbox.uid;
  }

  abbrev pub IsInfoOf : Info → Option (ManagedSlot A) → Type 0
  IsInfoOf i none = ⊥
  IsInfoOf i (some c) = i ≡ info_at i.id c

  -- Every id of the list has a slot.
  abbrev AreKnown : Manager A → List ℤ → Type 0
  AreKnown m ids = (id : ℤ) → Elem id ids → lookup id m.slots ≢ none

  list_from-ids :
      (m : Manager A) (ids : List ℤ) → AreKnown m ids → map (λ i. i.id) (list_from m ids) ≡ ids
  unfolding list_from
  list_from-ids m [] known = refl
  list_from-ids m (id ∷ ids) known = elim (Option-cases (lookup id m.slots)) [
    | inl e ↦ absurd (known id (inl refl) e)
    | inr (c, e) ↦ ground (arith, list_from-ids m ids (λ j h. known j (inr h)))
  ]

  Elem-list_from :
      (m : Manager A) (i : Info) (ids : List ℤ)
      → Elem i (list_from m ids)
      → IsInfoOf i (lookup i.id m.slots)
  unfolding list_from
  Elem-list_from m i [] h = elim h [ ]
  Elem-list_from m i (id ∷ ids) h = elim (Option-cases (lookup id m.slots)) [
    | inl e ↦ ground (arith, Elem-list_from m i ids)
    | inr (c, e) ↦ ground (arith, Elem-list_from m i ids)
  ]

  list_from-Elem :
      (m : Manager A) (id : ℤ) (c : ManagedSlot A) (ids : List ℤ)
      → lookup id m.slots ≡ some c
      → Elem id ids
      → Elem (info_at id c) (list_from m ids)
  unfolding list_from
  list_from-Elem m id c [] e h = elim h [ ]
  list_from-Elem m id c (j ∷ ids) e h = elim (Option-cases (lookup j m.slots)) [
    | inl f ↦ ground (arith, list_from-Elem m id c ids e)
    | inr (d, f) ↦ ground (arith, list_from-Elem m id c ids e)
  ]

  -- ListSlots reports each slot of the manager as it is and nothing else, and the ids are in order.
  list_slots_lem :
      (m : Manager A)
      → ((i : Info) → Elem i (list_slots m) → IsInfoOf i (lookup i.id m.slots))
        × ((id : ℤ) (c : ManagedSlot A)
            → lookup id m.slots ≡ some c
            → Elem (info_at id c) (list_slots m))
        × IsSorted ltb_ℤ (map (λ i. i.id) (list_slots m))
  unfolding list_slots
  list_slots_lem m =
      let ids = sort ltb_ℤ (keys m.slots) in
      let known : AreKnown m ids =
        λ id h e. let (c, f) = Elem-keys id m.slots (Elem-sort ltb_ℤ id (keys m.slots) h) in cc in
      (
        λ i h. Elem-list_from m i ids h,
        λ id c e.
            list_from-Elem m id c ids e
              (sort-Elem ltb_ℤ id (keys m.slots) (keys-lookup id c m.slots e)),
        subst (IsSorted ltb_ℤ) (sym (list_from-ids m ids known))
            (sort-IsSorted ltb_ℤ ltb_ℤ-IsOrder (keys m.slots)),
      )
