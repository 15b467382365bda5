-- ===== src/Worker/Ownership.antt =====
-- internal/worker/manager.go: a slot belongs to one sandbox at a time, and a call touches one slot.
use sandbox_fleet.Base.{◌≡◌, ◌≢◌, refl, ap, some, arith, string_key}
use sandbox_fleet.Base.Int.{ℤ, int_key}
use sandbox_fleet.Base.Map.{lookup, lookup-insert, insert-lookup}
use sandbox_fleet.Base.Result.{Result, ok, err}
use sandbox_fleet.Slot.{free, state_key}
use sandbox_fleet.Worker.Types.{Identity, SlotRef, StartRequest, Error, Env, slot_conflict}
use sandbox_fleet.Worker.Slots.{
  ManagedSlot, Call, validate_identity, reserve_slot, start_slot, stop_slot, release_slot,
}
use sandbox_fleet.Worker.Manager.{
  Manager, put_slot, on_slot, reserve, start_sandbox, stop_sandbox, release,
}
use sandbox_fleet.Worker.Invariant.{on_slot-ind}

module _ {W A T : Type 0} where
  pub on_slot-at :
      (body : W → ManagedSlot A → Call W A T) (identity : Identity) (id : ℤ) (w : W) (m : Manager A)
      (c : ManagedSlot A)
      → validate_identity identity ≡ ok tt
      → lookup id m.slots ≡ some c
      → on_slot body identity id w m ≡ ((body w c).0, put_slot m id (body w c).1, (body w c).2)
  unfolding on_slot
  on_slot-at body identity id w m c p q = rw (p, q, on_slot) refl

  -- A locked part that leaves the slot alone leaves the manager alone.
  on_slot-untouched :
      (body : W → ManagedSlot A → Call W A T) (identity : Identity) (id : ℤ) (w : W) (m : Manager A)
      (c : ManagedSlot A) (r : Result Error T)
      → validate_identity identity ≡ ok tt
      → lookup id m.slots ≡ some c
      → body w c ≡ (w, c, r)
      → on_slot body identity id w m ≡ (w, m, r)
  unfolding put_slot
  on_slot-untouched body identity id w m c r p q e =
      let same : put_slot m id c ≡ m =
        ap (λ s. record m { slots = s }) (insert-lookup id c m.slots q) in
      ground (arith, on_slot-at body identity id w m c p q)

  on_slot-elsewhere :
      (body : W → ManagedSlot A → Call W A T) (identity : Identity) (id j : ℤ) (w : W)
      (m : Manager A)
      → id ≢ j
      → lookup j (on_slot body identity id w m).1.slots ≡ lookup j m.slots
  on_slot-elsewhere body identity id j w m n =
      on_slot-ind (λ r. lookup j r.1.slots ≡ lookup j m.slots) body identity id w m (λ e. refl)
        (λ c named e. unfold put_slot in ground (arith, lookup-insert j id (body w c).1 m.slots))

module _ {W A : Type 0} (env : Env W A) where
  -- A call for another sandbox than the owner of a slot in use is refused with ErrSlotConflict and
  -- changes neither the manager nor the world: the runtime is not called.
  pub foreign_refused :
      (ref : SlotRef) (req : StartRequest) (w : W) (m : Manager A) (c : ManagedSlot A)
      → validate_identity ref.identity ≡ ok tt
      → lookup ref.slot_id m.slots ≡ some c
      → c.state ≢ free
      → c.sandbox.uid ≢ ref.identity.uid
      → req.slot_id ≡ ref.slot_id
      → req.identity ≡ ref.identity
      → (reserve ref w m ≡ (w, m, err slot_conflict))
        × (start_sandbox env req w m ≡ (w, m, err slot_conflict))
        × (stop_sandbox env ref w m ≡ (w, m, err slot_conflict))
        × (release env ref w m ≡ (w, m, err slot_conflict))
  unfolding reserve start_sandbox stop_sandbox release
  foreign_refused ref req w m c p q n foreign e f = (
    on_slot-untouched (λ w' c. let (c', r) = reserve_slot c ref.identity in (w', c', r))
        ref.identity ref.slot_id w m c (err slot_conflict) p q
        (unfold reserve_slot in ground arith),
    on_slot-untouched (start_slot env req) req.identity req.slot_id w m c (err slot_conflict)
        (rw f p) (rw e q) (unfold start_slot in ground arith),
    on_slot-untouched (stop_slot env ref.identity) ref.identity ref.slot_id w m c
        (err slot_conflict) p q (unfold stop_slot in ground arith),
    on_slot-untouched (release_slot env ref.identity) ref.identity ref.slot_id w m c
        (err slot_conflict) p q (unfold release_slot in ground arith),
  )

  -- A call on a slot leaves every other slot as it was, on each branch.
  pub calls_elsewhere :
      (ref : SlotRef) (req : StartRequest) (j : ℤ) (w : W) (m : Manager A)
      → ref.slot_id ≢ j
      → req.slot_id ≢ j
      → (lookup j (reserve ref w m).1.slots ≡ lookup j m.slots)
        × (lookup j (start_sandbox env req w m).1.slots ≡ lookup j m.slots)
        × (lookup j (stop_sandbox env ref w m).1.slots ≡ lookup j m.slots)
        × (lookup j (release env ref w m).1.slots ≡ lookup j m.slots)
  unfolding reserve start_sandbox stop_sandbox release
  calls_elsewhere ref req j w m n k = (
    on_slot-elsewhere (λ w' c. let (c', r) = reserve_slot c ref.identity in (w', c', r))
        ref.identity ref.slot_id j w m n,
    on_slot-elsewhere (start_slot env req) req.identity req.slot_id j w m k,
    on_slot-elsewhere (stop_slot env ref.identity) ref.identity ref.slot_id j w m n,
    on_slot-elsewhere (release_slot env ref.identity) ref.identity ref.slot_id j w m n,
  )
