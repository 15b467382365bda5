-- ===== src/Worker/Invariant.antt =====
-- internal/worker/manager.go: every history of calls of a SlotManager keeps its slots well-formed.
use sandbox_fleet.Base.{
  ◌≡◌, ◌≢◌, refl, subst, inl, inr, List, [], ◌∷◌, Option, none, some, Option-cases, arith,
  string_key, All,
}
use sandbox_fleet.Base.Int.{ℤ, int_key}
use sandbox_fleet.Base.Map.{Map, lookup, insert, lookup-insert, IsMap, insert-IsMap}
use sandbox_fleet.Base.Result.{Result, ok, err}
use sandbox_fleet.Slot.{free, failed, state_key}
use sandbox_fleet.Slot.Config.{Config}
use sandbox_fleet.Worker.Types.{
  Identity, RuntimeInfo, RuntimeState, state_created, state_running, state_stopped, state_unknown,
  Error, slot_not_found,
}
use sandbox_fleet.Worker.Slots.{ManagedSlot, Call, validate_identity}
use sandbox_fleet.Worker.Manager.{
  Manager, new_slot, new_slots, new_manager, put_slot, on_slot, recovered, recover_all,
}
use sandbox_fleet.Worker.WellFormed.{IsWell, owned-of_IsWell, State-cases}

module _ {A : Type 0} where
  -- Each slot stands under its id and is well-formed.
  pub record IsSound (slots : Map ℤ (ManagedSlot A)) : Type 0 where
    pub is_map : IsMap slots
    pub well : (id : ℤ) (c : ManagedSlot A) → lookup id slots ≡ some c → IsWell c
    pub keyed : (id : ℤ) (c : ManagedSlot A) → lookup id slots ≡ some c → c.id ≡ id

  pub insert-IsSound :
      (id : ℤ) (c : ManagedSlot A) (slots : Map ℤ (ManagedSlot A))
      → IsSound slots
      → IsWell c
      → c.id ≡ id
      → IsSound (insert id c slots)
  insert-IsSound id c slots s v k = record {
    is_map = insert-IsMap id c slots s.is_map;
    well = λ j d e.
        let at = lookup-insert j id c slots in
        elim (int_key.same id j) [
          | yes p ↦ let same : c ≡ d = ground arith in subst IsWell same v
          | no n ↦ s.well j d (ground arith)
        ];
    keyed = λ j d e. ground (arith, lookup-insert j id c slots, s.keyed j d);
  }

  new_slots-IsSound :
      (slots : Map ℤ (ManagedSlot A)) (configs : List (Config A))
      → IsSound slots
      → IsSound (new_slots slots configs)
  unfolding new_slots
  new_slots-IsSound slots [] s = s
  new_slots-IsSound slots (c ∷ cs) s =
      new_slots-IsSound (insert c.id (new_slot c) slots) cs
        (insert-IsSound c.id (new_slot c) slots s (refl, refl, refl, refl) refl)

  pub new_manager-IsSound : (configs : List (Config A)) → IsSound (new_manager configs).slots
  unfolding new_manager
  new_manager-IsSound configs = new_slots-IsSound [] configs (record {
    is_map = tt;
    well = λ id c e. unfold lookup in cc;
    keyed = λ id c e. unfold lookup in cc;
  })

  recovered-IsWell :
      (object : RuntimeInfo) (c : ManagedSlot A)
      → object.identity.uid ≢ ""
      → IsWell (recovered object c)
  unfolding recovered
  recovered-IsWell object c named = go object.status refl
    where
      go : (s : RuntimeState) → object.status ≡ s → IsWell (recovered object c)
      go state_created e = rw e (named, refl)
      go state_running e = rw e (named, refl)
      go state_stopped e = rw e named
      go state_unknown e = rw e named

  pub recover_all-IsSound :
      (objects : List RuntimeInfo) (m : Manager A)
      → All (λ o. o.identity.uid ≢ "") objects
      → IsSound m.slots
      → IsSound (recover_all objects m).0.slots
  unfolding recover_all
  recover_all-IsSound [] m named s = s
  recover_all-IsSound (o ∷ os) m named s = elim (Option-cases (lookup o.slot_id m.slots)) [
    | inl e ↦ rw (e, recover_all) s
    | inr (c, e) ↦ elim (State-cases c.state free) [
      | inl (f, g) ↦
          rw (e, g, recover_all)
            (recover_all-IsSound os (put_slot m o.slot_id (recovered o c)) named.1 (
              unfold put_slot in
              insert-IsSound o.slot_id (recovered o c) m.slots s (recovered-IsWell o c named.0)
                (unfold recovered in s.keyed o.slot_id c e)))
      | inr (n, g) ↦
          rw (e, g, recover_all)
            (unfold put_slot in
              insert-IsSound o.slot_id (record c { state = failed }) m.slots s
                (owned-of_IsWell c (s.well o.slot_id c e) n) (s.keyed o.slot_id c e))
    ]
  ]

module _ {W A T : Type 0} where
  -- A property of what a method on a slot returns: of the errors before the slot is locked, and of
  -- what the locked part leaves.
  pub on_slot-ind {ℓ} :
      (P : W × Manager A × Result Error T → Type ℓ) (body : W → ManagedSlot A → Call W A T)
      (identity : Identity) (id : ℤ) (w : W) (m : Manager A)
      → ((e : Error) → P (w, m, err e))
      → ((c : ManagedSlot A)
          → identity.uid ≢ ""
          → lookup id m.slots ≡ some c
          → P ((body w c).0, put_slot m id (body w c).1, (body w c).2))
      → P (on_slot body identity id w m)
  unfolding on_slot
  on_slot-ind P body identity id w m failing locked =
      go (validate_identity identity) refl (lookup id m.slots) refl
    where
      go :
          (r : Result Error (Unit {0}))
          → validate_identity identity ≡ r
          → (o : Option (ManagedSlot A)) → lookup id m.slots ≡ o
          → P (on_slot body identity id w m)
      go (err e) p o q = rw (p, on_slot) (failing e)
      go (ok _) p none q = rw (p, q, on_slot) (failing slot_not_found)
      go (ok _) p (some c) q =
          rw (p, q, on_slot) (locked c (unfold validate_identity in ground arith) q)
