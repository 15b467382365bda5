-- ===== src/Slot/Plan/Dropping.antt =====
-- internal/slot/config.go: the loop of PlanTopology that drops the slots beyond a desired count.
use sandbox_fleet.Base.{
  suc, ◌+◌, ◌≤◌, String, Bool, true, ◌≡◌, refl, ◌⊎◌, inl, inr, List, [], ◌∷◌, ◌++◌, none, ◌==◌,
  Bool-cases, arith, length, length-append, Elem, Elem-append_left, Elem-append_right,
}
use sandbox_fleet.Base.Int.{ℤ, int_key}
use sandbox_fleet.Base.Map.{Map, lookup, delete, lookup-delete}
use sandbox_fleet.Base.Count.{count, count-append}
use sandbox_fleet.Slot.Config.{Config}
use sandbox_fleet.Slot.Plan.{Progress, busy_slot, is_busy, drop_extra}

module _ {A : Type 0} where
  abbrev pub at_id : ℤ → Config A → Bool
  at_id id c = c.id == id

  module _ (busy : Map ℤ Bool) (profile : String) where
    pub drop_extra-frame :
        (keep cs : List (Config A)) (p : Progress A)
        → ((drop_extra busy profile keep cs p).1.next ≡ p.next)
          × ((drop_extra busy profile keep cs p).1.max_id ≡ p.max_id)
    unfolding drop_extra
    drop_extra-frame keep [] p = (refl, refl)
    drop_extra-frame keep (c ∷ cs) p = elim (Bool-cases (is_busy (lookup c.id busy))) [
      | inl e ↦ ground (
        arith,
        drop_extra-frame (keep ++ c ∷ []) cs
            (record p { reasons = p.reasons ++ busy_slot c.id profile ∷ [] }),
      )
      | inr e ↦ ground (arith, drop_extra-frame keep cs (record p { used = delete c.id p.used }))
    ]

    -- Nothing but the slots is kept.
    pub drop_extra-count :
        (t : Config A → Bool) (keep cs : List (Config A)) (p : Progress A)
        → count t (drop_extra busy profile keep cs p).0 ≤ count t keep + count t cs
    unfolding drop_extra count
    drop_extra-count t keep [] p = omega arith
    drop_extra-count t keep (c ∷ cs) p = elim (Bool-cases (is_busy (lookup c.id busy))) [
      | inl e ↦ ground (
        arith,
        drop_extra-count t (keep ++ c ∷ []) cs
            (record p { reasons = p.reasons ++ busy_slot c.id profile ∷ [] }),
        count-append t keep (c ∷ []),
      )
      | inr e ↦ ground (arith, drop_extra-count t keep cs (record p { used = delete c.id p.used }))
    ]

    -- An id is in use as before, or it is free and a slot of it was dropped.
    abbrev pub UsedAs : ℤ → List (Config A) → List (Config A) → Progress A → Type 0
    UsedAs j keep cs p =
        (lookup j (drop_extra busy profile keep cs p).1.used ≡ lookup j p.used)
        ⊎ ((lookup j (drop_extra busy profile keep cs p).1.used ≡ none)
            × (suc (count (at_id j) (drop_extra busy profile keep cs p).0)
                ≤ count (at_id j) keep + count (at_id j) cs))

    pub drop_extra-UsedAs :
        (j : ℤ) (keep cs : List (Config A)) (p : Progress A) → UsedAs j keep cs p
    unfolding drop_extra count
    drop_extra-UsedAs j keep [] p = inl refl
    drop_extra-UsedAs j keep (c ∷ cs) p = elim (Bool-cases (is_busy (lookup c.id busy))) [
      | inl e ↦ ground (
        arith,
        drop_extra-UsedAs j (keep ++ c ∷ []) cs
            (record p { reasons = p.reasons ++ busy_slot c.id profile ∷ [] }),
        count-append (at_id j) keep (c ∷ []),
      )
      | inr e ↦ ground (
        arith,
        drop_extra-UsedAs j keep cs (record p { used = delete c.id p.used }),
        drop_extra-count (at_id j) keep cs (record p { used = delete c.id p.used }),
        lookup-delete j c.id p.used,
      )
    ]

    -- A slot that is kept already or busy is kept.
    pub drop_extra-Elem :
        (c : Config A) (keep cs : List (Config A)) (p : Progress A)
        → Elem c keep ⊎ (Elem c cs × (is_busy (lookup c.id busy) ≡ true))
        → Elem c (drop_extra busy profile keep cs p).0
    unfolding drop_extra
    drop_extra-Elem c keep [] p (inl h) = h
    drop_extra-Elem c keep [] p (inr h) = elim h.0 [ ]
    drop_extra-Elem c keep (d ∷ cs) p h = elim (Bool-cases (is_busy (lookup d.id busy))) [
      | inl e ↦ ground (
        arith,
        drop_extra-Elem c (keep ++ d ∷ []) cs
            (record p { reasons = p.reasons ++ busy_slot d.id profile ∷ [] }),
        Elem-append_left c keep (d ∷ []),
        Elem-append_right c keep (d ∷ []),
      )
      | inr e ↦ ground (arith, drop_extra-Elem c keep cs (record p { used = delete d.id p.used }))
    ]

    -- Without a busy slot nothing is added to what is kept; with one there is a reason.
    pub drop_extra-reasons :
        (keep cs : List (Config A)) (p : Progress A)
        → (length p.reasons ≤ length (drop_extra busy profile keep cs p).1.reasons)
          × (((drop_extra busy profile keep cs p).0 ≡ keep)
              ⊎ (suc (length p.reasons) ≤ length (drop_extra busy profile keep cs p).1.reasons))
    unfolding drop_extra
    drop_extra-reasons keep [] p = (omega arith, inl refl)
    drop_extra-reasons keep (c ∷ cs) p = elim (Bool-cases (is_busy (lookup c.id busy))) [
      | inl e ↦ ground (
        arith,
        drop_extra-reasons (keep ++ c ∷ []) cs
            (record p { reasons = p.reasons ++ busy_slot c.id profile ∷ [] }),
        length-append p.reasons (busy_slot c.id profile ∷ []),
      )
      | inr e ↦ ground (arith, drop_extra-reasons keep cs (record p { used = delete c.id p.used }))
    ]
