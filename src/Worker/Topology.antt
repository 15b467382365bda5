-- ===== src/Worker/Topology.antt =====
-- internal/worker/manager.go: the map of the desired slots and the map of the next ones in ApplySlots.
use sandbox_fleet.Base.{
  true, ◌≡◌, refl, inl, inr, List, [], ◌∷◌, Option, none, some, if◌then◌else◌, ◌==◌, Option-cases,
  arith, string_key,
}
use sandbox_fleet.Base.Int.{ℤ, int_key}
use sandbox_fleet.Base.Map.{Map, lookup, insert, is_some, lookup-insert, IsMap, insert-IsMap}
use sandbox_fleet.Slot.{state_key}
use sandbox_fleet.Slot.Config.{Config}
use sandbox_fleet.Worker.Slots.{ManagedSlot}
use sandbox_fleet.Worker.Manager.{new_slot, desired_slots, next_slots}

module _ {A : Type 0} where
  -- The first configuration with an id.
  unfoldable pub find_config : ℤ → List (Config A) → Option (Config A)
  find_config id [] = none
  find_config id (c ∷ cs) = if c.id == id then some c else find_config id cs

  pub find_config-id :
      (id : ℤ) (cs : List (Config A)) (c : Config A) → find_config id cs ≡ some c → c.id ≡ id
  unfolding find_config
  find_config-id id [] c e = cc
  find_config-id id (d ∷ cs) c e = ground (arith, find_config-id id cs c)

  -- No two configurations have one id.
  abbrev pub IsDistinct : List (Config A) → Type 0
  IsDistinct [] = Unit
  IsDistinct (c ∷ cs) = (find_config c.id cs ≡ none) × IsDistinct cs

  desired_slots-kept :
      (desired : Map ℤ (Config A)) (cs : List (Config A)) (result : Map ℤ (Config A)) (j : ℤ)
      (c : Config A)
      → desired_slots desired cs ≡ some result
      → lookup j desired ≡ some c
      → lookup j result ≡ some c
  unfolding desired_slots
  desired_slots-kept desired [] result j c e f = ground arith
  desired_slots-kept desired (d ∷ cs) result j c e f = ground (
    arith,
    desired_slots-kept (insert d.id d desired) cs result j c,
    lookup-insert j d.id d desired,
  )

  desired_slots-found :
      (desired : Map ℤ (Config A)) (cs : List (Config A)) (result : Map ℤ (Config A)) (j : ℤ)
      → desired_slots desired cs ≡ some result
      → lookup j desired ≡ none
      → lookup j result ≡ find_config j cs
  unfolding desired_slots find_config
  desired_slots-found desired [] result j e f = ground arith
  desired_slots-found desired (d ∷ cs) result j e f = ground (
    arith,
    desired_slots-found (insert d.id d desired) cs result j,
    desired_slots-kept (insert d.id d desired) cs result j d,
    lookup-insert j d.id d desired,
  )

  pub lookup-desired_slots :
      (cs : List (Config A)) (result : Map ℤ (Config A)) (j : ℤ)
      → desired_slots [] cs ≡ some result
      → lookup j result ≡ find_config j cs
  lookup-desired_slots cs result j e = desired_slots-found [] cs result j e (unfold lookup in refl)

  -- The slot at an id afterwards: the old one, or a new one, where the id is desired.
  abbrev pub next_at : Option (ManagedSlot A) → Option (Config A) → Option (ManagedSlot A)
  next_at old none = none
  next_at none (some cfg) = some (new_slot cfg)
  next_at (some c) (some cfg) = some c

  pub lookup-next_slots :
      (slots : Map ℤ (ManagedSlot A)) (desired : Map ℤ (Config A)) (j : ℤ)
      → lookup j (next_slots slots desired) ≡ next_at (lookup j slots) (lookup j desired)
  unfolding next_slots lookup
  lookup-next_slots slots [] j = refl
  lookup-next_slots slots ((id, cfg) ∷ rest) j = elim (Option-cases (lookup id slots)) [
    | inl e ↦ ground (
      arith,
      lookup-next_slots slots rest j,
      lookup-insert j id (new_slot cfg) (next_slots slots rest),
    )
    | inr (c, e) ↦
        ground (arith, lookup-next_slots slots rest j, lookup-insert j id c (next_slots slots rest))
  ]

  pub next_slots-IsMap :
      (slots : Map ℤ (ManagedSlot A)) (desired : Map ℤ (Config A))
      → IsMap (next_slots slots desired)
  unfolding next_slots
  next_slots-IsMap slots [] = tt
  next_slots-IsMap slots ((id, cfg) ∷ rest) = elim (Option-cases (lookup id slots)) [
    | inl e ↦ ground (
      arith,
      insert-IsMap id (new_slot cfg) (next_slots slots rest) (next_slots-IsMap slots rest),
    )
    | inr (c, e) ↦
        ground (arith, insert-IsMap id c (next_slots slots rest) (next_slots-IsMap slots rest))
  ]

  desired_slots-fresh :
      (desired : Map ℤ (Config A)) (cs : List (Config A)) (result : Map ℤ (Config A)) (j : ℤ)
      (c : Config A)
      → desired_slots desired cs ≡ some result
      → lookup j desired ≡ some c
      → find_config j cs ≡ none
  unfolding desired_slots find_config
  desired_slots-fresh desired [] result j c e f = refl
  desired_slots-fresh desired (d ∷ cs) result j c e f = ground (
    arith,
    desired_slots-fresh (insert d.id d desired) cs result j c,
    lookup-insert j d.id d desired,
  )

  pub desired_slots-IsDistinct :
      (desired : Map ℤ (Config A)) (cs : List (Config A)) (result : Map ℤ (Config A))
      → desired_slots desired cs ≡ some result
      → IsDistinct cs
  unfolding desired_slots
  desired_slots-IsDistinct desired [] result e = tt
  desired_slots-IsDistinct desired (c ∷ cs) result e = ground (
    arith,
    desired_slots-IsDistinct (insert c.id c desired) cs result,
    desired_slots-fresh (insert c.id c desired) cs result c.id c,
    lookup-insert c.id c.id c desired,
  )

  pub IsDistinct-desired_slots :
      (desired : Map ℤ (Config A)) (cs : List (Config A))
      → IsDistinct cs
      → ((j : ℤ) (c : Config A) → lookup j desired ≡ some c → find_config j cs ≡ none)
      → is_some (desired_slots desired cs) ≡ true
  unfolding desired_slots
  IsDistinct-desired_slots desired [] u apart = refl
  IsDistinct-desired_slots desired (c ∷ cs) u apart = elim (Option-cases (lookup c.id desired)) [
    | inl e ↦
        let rest = IsDistinct-desired_slots (insert c.id c desired) cs u.1 (λ j d f.
          unfold find_config in ground (arith, apart j d, u.0, lookup-insert j c.id c desired)) in
        ground arith
    | inr (d, e) ↦ absurd (unfold find_config in ground (arith, apart c.id d e))
  ]
