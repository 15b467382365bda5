-- ===== src/Worker/Applying.antt =====
-- internal/worker/manager.go: ApplySlots, when it is accepted and what it makes of each slot.
use sandbox_fleet.Base.{
  true, ◌≡◌, ◌≢◌, ◌↔◌, refl, sym, subst, ◌⊎◌, inl, inr, List, [], ◌∷◌, Option, none, some,
  Option-cases, Bool-cases, arith, Elem, string_key,
}
use sandbox_fleet.Base.Int.{ℤ, int_key}
use sandbox_fleet.Base.Map.{Map, lookup, is_some, IsMap}
use sandbox_fleet.Base.Result.{ok, err}
use sandbox_fleet.Slot.{free, state_key}
use sandbox_fleet.Slot.Config.{Config}
use sandbox_fleet.Worker.Types.{Env, slot_config_invalid}
use sandbox_fleet.Worker.Slots.{ManagedSlot}
use sandbox_fleet.Worker.Manager.{Manager, desired_slots, may_apply, apply_slots}
use sandbox_fleet.Worker.Topology.{
  find_config, IsDistinct, lookup-desired_slots, next_at, lookup-next_slots, next_slots-IsMap,
  desired_slots-IsDistinct, IsDistinct-desired_slots,
}

module _ {W A : Type 0} (env : Env W A) where
  -- Whether a slot may go, or stay under a configuration of its id.
  abbrev pub MayBecome : ManagedSlot A → Option (Config A) → Type 0
  MayBecome c none = c.state ≡ free
  MayBecome c (some cfg) =
      (c.profile ≡ cfg.profile) × (env.same_resources c.resources cfg.resources ≡ true)

  -- The slots and the configurations that ApplySlots accepts.
  pub record Applicable (m : Manager A) (configs : List (Config A)) : Type 0 where
    pub distinct : IsDistinct configs
    pub may_become :
        (id : ℤ) (c : ManagedSlot A)
        → lookup id m.slots ≡ some c
        → MayBecome c (find_config id configs)

  may_apply-MayBecome :
      (slots : Map ℤ (ManagedSlot A)) (desired : Map ℤ (Config A)) (id : ℤ) (c : ManagedSlot A)
      → may_apply env slots desired ≡ true
      → lookup id slots ≡ some c
      → MayBecome c (lookup id desired)
  unfolding may_apply lookup
  may_apply-MayBecome [] desired id c e f = cc
  may_apply-MayBecome ((j, d) ∷ slots) desired id c e f = elim (Option-cases (lookup j desired)) [
    | inl g ↦ ground (arith, may_apply-MayBecome slots desired id c)
    | inr (cfg, g) ↦ ground (arith, may_apply-MayBecome slots desired id c)
  ]

  MayBecome-may_apply :
      (slots : Map ℤ (ManagedSlot A)) (desired : Map ℤ (Config A))
      → IsMap slots
      → ((id : ℤ) (c : ManagedSlot A) → lookup id slots ≡ some c → MayBecome c (lookup id desired))
      → may_apply env slots desired ≡ true
  unfolding may_apply
  MayBecome-may_apply [] desired u h = refl
  MayBecome-may_apply ((j, d) ∷ slots) desired u h =
      let rest =
        MayBecome-may_apply slots desired u.1
          (λ id c f. h id c (unfold lookup in ground (arith, u.0))) in
      let here = h j d (unfold lookup in ground arith) in
      elim (Option-cases (lookup j desired)) [ inl g ↦ ground arith | inr (cfg, g) ↦ ground arith ]

  Applicable-of_may_apply :
      (m : Manager A) (configs : List (Config A)) (desired : Map ℤ (Config A))
      → desired_slots [] configs ≡ some desired
      → may_apply env m.slots desired ≡ true
      → Applicable m configs
  Applicable-of_may_apply m configs desired e f = record {
    distinct = desired_slots-IsDistinct [] configs desired e;
    may_become = λ id c g.
        subst (MayBecome c) (lookup-desired_slots configs desired id e)
          (may_apply-MayBecome m.slots desired id c f g);
  }

  may_apply-of_Applicable :
      (m : Manager A) (configs : List (Config A)) (desired : Map ℤ (Config A))
      → IsMap m.slots
      → desired_slots [] configs ≡ some desired
      → Applicable m configs
      → may_apply env m.slots desired ≡ true
  may_apply-of_Applicable m configs desired u e ready =
      MayBecome-may_apply m.slots desired u (λ id c g.
        subst (MayBecome c) (sym (lookup-desired_slots configs desired id e))
          (ready.may_become id c g))

  desired_slots-of_Applicable :
      (m : Manager A) (configs : List (Config A))
      → Applicable m configs
      → is_some (desired_slots [] configs) ≡ true
  desired_slots-of_Applicable m configs ready =
      IsDistinct-desired_slots [] configs ready.distinct (λ j c f. unfold lookup in cc)

  -- ApplySlots on a map of slots is accepted exactly when the configurations have different ids,
  -- every slot of the manager that they leave out is free, and every other one has the profile and the
  -- resources of its configuration. If not, it changes nothing; if it is, an id has a slot exactly when
  -- it is configured: the old one, whatever its state, or a new free one.
  pub apply_slots_lem :
      (m : Manager A) (configs : List (Config A))
      → IsMap m.slots
      → (((apply_slots env m configs).1 ≡ ok tt) ↔ Applicable m configs)
        × (((apply_slots env m configs).1 ≡ ok tt)
            ⊎ (apply_slots env m configs ≡ (m, err slot_config_invalid)))
        × ((id : ℤ)
            → (apply_slots env m configs).1 ≡ ok tt
            → lookup id (apply_slots env m configs).0.slots
              ≡ next_at (lookup id m.slots) (find_config id configs))
  unfolding apply_slots
  apply_slots_lem m configs u = elim (Option-cases (desired_slots [] configs)) [
    | inl e ↦ (
      (
        λ p. absurd (ground arith),
        λ ready.
            absurd (let some_slots = desired_slots-of_Applicable m configs ready in ground arith),
      ),
      inr (ground arith),
      λ id p. absurd (ground arith),
    )
    | inr (desired, e) ↦ elim (Bool-cases (may_apply env m.slots desired)) [
      | inl f ↦ (
        (λ p. Applicable-of_may_apply m configs desired e f, λ ready. ground arith),
        inl (ground arith),
        λ id p. ground (
          arith,
          lookup-next_slots m.slots desired id,
          lookup-desired_slots configs desired id e,
        ),
      )
      | inr f ↦ (
        (
          λ p. absurd (ground arith),
          λ ready. ground (arith, may_apply-of_Applicable m configs desired u e ready),
        ),
        inr (ground arith),
        λ id p. absurd (ground arith),
      )
    ]
  ]

  pub apply_slots-IsMap :
      (m : Manager A) (configs : List (Config A))
      → IsMap m.slots
      → IsMap (apply_slots env m configs).0.slots
  unfolding apply_slots
  apply_slots-IsMap m configs u = elim (Option-cases (desired_slots [] configs)) [
    | inl e ↦ ground arith
    | inr (desired, e) ↦ ground (arith, next_slots-IsMap m.slots desired)
  ]

  IsDistinct-find_config :
      (c : Config A) (cs : List (Config A))
      → IsDistinct cs
      → Elem c cs
      → find_config c.id cs ≡ some c
  unfolding find_config
  IsDistinct-find_config c [] u h = elim h [ ]
  IsDistinct-find_config c (d ∷ cs) u h = ground (arith, IsDistinct-find_config c cs u.1)

  -- ApplySlots refuses configurations that give the id of a slot, free or not, to another profile, and
  -- changes nothing.
  pub apply_slots-moved :
      (m : Manager A) (configs : List (Config A)) (c : Config A) (current : ManagedSlot A)
      → IsMap m.slots
      → Elem c configs
      → lookup c.id m.slots ≡ some current
      → current.profile ≢ c.profile
      → apply_slots env m configs ≡ (m, err slot_config_invalid)
  apply_slots-moved m configs c current u h e moved =
      let (accepted, either, _) = apply_slots_lem m configs u in
      elim either [
        | inl k ↦
            let ready = accepted.0 k in
            let found = IsDistinct-find_config c configs ready.distinct h in
            let may = subst (MayBecome current) found (ready.may_become c.id current e) in
            absurd (moved may.0)
        | inr k ↦ k
      ]
