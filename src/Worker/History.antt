-- ===== src/Worker/History.antt =====
-- internal/worker/manager.go: the histories of a SlotManager, as sequences of calls, and what holds
-- after every one.
use sandbox_fleet.Base.{
  ◌≡◌, ◌≢◌, refl, sym, subst, ◌∙◌, inl, inr, List, Option, none, some, arith, All,
}
use sandbox_fleet.Base.Int.{ℤ, int_key}
use sandbox_fleet.Base.Map.{lookup}
use sandbox_fleet.Base.Result.{Result, ok, err}
use sandbox_fleet.Slot.Config.{Config}
use sandbox_fleet.Worker.Types.{Identity, SlotRef, StartRequest, RuntimeInfo, Failure, Env}
use sandbox_fleet.Worker.Slots.{
  ManagedSlot, Call, reserve_slot, start_slot, stop_slot, release_slot,
}
use sandbox_fleet.Worker.Manager.{
  Manager, new_slot, new_manager, put_slot, apply_slots, on_slot, reserve, start_sandbox,
  stop_sandbox, release, recover_from, recover,
}
use sandbox_fleet.Worker.WellFormed.{IsWell, IsSame}
use sandbox_fleet.Worker.Starting.{start_slot-StartPost}
use sandbox_fleet.Worker.Stopping.{
  stop_slot-StopPost, release_slot-ReleasePost, reserve_slot-IsWell,
}
use sandbox_fleet.Worker.Topology.{next_at, find_config, find_config-id}
use sandbox_fleet.Worker.Applying.{apply_slots_lem, apply_slots-IsMap}
use sandbox_fleet.Worker.Invariant.{
  IsSound, insert-IsSound, new_manager-IsSound, recover_all-IsSound, on_slot-ind,
}

module _ {W A : Type 0} where
  -- A locked part that keeps a well-formed slot so, and its id.
  abbrev IsKeeper : {T : Type 0} → (W → ManagedSlot A → Call W A T) → Identity → Type 0
  IsKeeper body identity =
      (w : W) (c : ManagedSlot A)
      → identity.uid ≢ ""
      → IsWell c
      → IsWell (body w c).1 × IsSame c (body w c).1

  on_slot-IsSound :
      {T : Type 0} (body : W → ManagedSlot A → Call W A T) (identity : Identity) (id : ℤ) (w : W)
      (m : Manager A)
      → IsKeeper body identity
      → IsSound m.slots
      → IsSound (on_slot body identity id w m).1.slots
  on_slot-IsSound body identity id w m keeps s =
      on_slot-ind (λ r. IsSound r.1.slots) body identity id w m (λ e. s)
        (λ c named e.
          let (v, same) = keeps w c named (s.well id c e) in
          unfold put_slot in insert-IsSound id (body w c).1 m.slots s v (same.0 ∙ s.keyed id c e))

  reserve-IsSound :
      (ref : SlotRef) (w : W) (m : Manager A) → IsSound m.slots → IsSound (reserve ref w m).1.slots
  unfolding reserve
  reserve-IsSound ref w m s =
      on_slot-IsSound (λ w' c. let (c', r) = reserve_slot c ref.identity in (w', c', r))
        ref.identity ref.slot_id w m (λ w' c named v. reserve_slot-IsWell c ref.identity named v) s

module _ {W A : Type 0} (env : Env W A) where
  start_sandbox-IsSound :
      (req : StartRequest) (w : W) (m : Manager A)
      → IsSound m.slots
      → IsSound (start_sandbox env req w m).1.slots
  unfolding start_sandbox
  start_sandbox-IsSound req w m s =
      on_slot-IsSound (start_slot env req) req.identity req.slot_id w m
        (λ w' c named v. let p = start_slot-StartPost env req w' c v in (p.well, p.same)) s

  stop_sandbox-IsSound :
      (ref : SlotRef) (w : W) (m : Manager A)
      → IsSound m.slots
      → IsSound (stop_sandbox env ref w m).1.slots
  unfolding stop_sandbox
  stop_sandbox-IsSound ref w m s =
      on_slot-IsSound (stop_slot env ref.identity) ref.identity ref.slot_id w m
        (λ w' c named v. let p = stop_slot-StopPost env ref.identity w' c v in (p.well, p.same)) s

  release-IsSound :
      (ref : SlotRef) (w : W) (m : Manager A)
      → IsSound m.slots
      → IsSound (release env ref w m).1.slots
  unfolding release
  release-IsSound ref w m s =
      on_slot-IsSound (release_slot env ref.identity) ref.identity ref.slot_id w m
        (λ w' c named v.
          let p = release_slot-ReleasePost env ref.identity w' c v in (p.well, p.same))
        s

  next_at-IsSound :
      (configs : List (Config A)) (m : Manager A) (id : ℤ) (c : ManagedSlot A)
      → IsSound m.slots
      → next_at (lookup id m.slots) (find_config id configs) ≡ some c
      → IsWell c × (c.id ≡ id)
  next_at-IsSound configs m id c s = go (lookup id m.slots) refl (find_config id configs) refl
    where
      go :
          (old : Option (ManagedSlot A))
          → lookup id m.slots ≡ old
          → (cfg : Option (Config A)) → find_config id configs ≡ cfg
          → next_at old cfg ≡ some c
          → IsWell c × (c.id ≡ id)
      go none e none f g = cc
      go (some d) e none f g = cc
      go none e (some cfg) f g =
          let same : new_slot cfg ≡ c = ground arith in
          subst (λ x. IsWell x × (x.id ≡ id)) same
            (unfold new_slot in ((refl, refl, refl, refl), find_config-id id configs cfg f))
      go (some d) e (some cfg) f g =
          let same : d ≡ c = ground arith in
          subst (λ x. IsWell x × (x.id ≡ id)) same (s.well id d e, s.keyed id d e)

  apply_slots-IsSound :
      (configs : List (Config A)) (m : Manager A)
      → IsSound m.slots
      → IsSound (apply_slots env m configs).0.slots
  apply_slots-IsSound configs m s =
      let (_, accepted, at) = apply_slots_lem env m configs s.is_map in
      elim accepted [
        | inl e ↦ record {
          is_map = apply_slots-IsMap env m configs s.is_map;
          well = λ id c f. (next_at-IsSound configs m id c s (sym (at id e) ∙ f)).0;
          keyed = λ id c f. (next_at-IsSound configs m id c s (sym (at id e) ∙ f)).1;
        }
        | inr e ↦ subst (λ r. IsSound r.0.slots) (sym e) s
      ]

  -- The objects that a runtime lists, where it does.
  abbrev pub IsListed : Result Failure (List RuntimeInfo) → Type 0
  IsListed (ok objects) = All (λ o. o.identity.uid ≢ "") objects
  IsListed (err e) = Unit

  recover-IsSound :
      (w : W) (m : Manager A)
      → IsListed (env.runtime.listing w).1
      → IsSound m.slots
      → IsSound (recover env w m).1.slots
  unfolding recover recover_from
  recover-IsSound w m listed s = go (env.runtime.listing w) refl listed
    where
      go :
          (r : W × Result Failure (List RuntimeInfo))
          → env.runtime.listing w ≡ r
          → IsListed r.1
          → IsSound (recover env w m).1.slots
      go (w', err e) p l = rw (p, recover) s
      go (w', ok objects) p l = rw (p, recover) (recover_all-IsSound objects m l s)

  -- A call of the manager. Recover finds objects that have an owner.
  pub data Step (w : W) (m : Manager A) : W → Manager A → Type 0 where
    applies : (configs : List (Config A)) → Step w m w (apply_slots env m configs).0
    reserves : (ref : SlotRef) → Step w m (reserve ref w m).0 (reserve ref w m).1
    starts :
        (req : StartRequest) → Step w m (start_sandbox env req w m).0 (start_sandbox env req w m).1
    stops : (ref : SlotRef) → Step w m (stop_sandbox env ref w m).0 (stop_sandbox env ref w m).1
    releases : (ref : SlotRef) → Step w m (release env ref w m).0 (release env ref w m).1
    recovers : IsListed (env.runtime.listing w).1 → Step w m (recover env w m).0 (recover env w m).1

  -- A history of calls. Between two of them the world changes by itself in any way.
  pub data Reach (m : Manager A) : Manager A → Type 0 where
    start : Reach m m
    next : {n k : Manager A} {w w' : W} → Reach m n → Step w n w' k → Reach m k

  Step-IsSound :
      {w : W} {m : Manager A} {w' : W} {n : Manager A}
      → Step w m w' n
      → IsSound m.slots
      → IsSound n.slots
  Step-IsSound {w = w} {m = m} (applies configs) s = apply_slots-IsSound configs m s
  Step-IsSound {w = w} {m = m} (reserves ref) s = reserve-IsSound ref w m s
  Step-IsSound {w = w} {m = m} (starts req) s = start_sandbox-IsSound req w m s
  Step-IsSound {w = w} {m = m} (stops ref) s = stop_sandbox-IsSound ref w m s
  Step-IsSound {w = w} {m = m} (releases ref) s = release-IsSound ref w m s
  Step-IsSound {w = w} {m = m} (recovers listed) s = recover-IsSound w m listed s

  -- Whatever the runtime and the snapshotters answer, and however the world changes between two calls,
  -- every slot stands under its id after every history of calls of a new manager; a free slot is
  -- empty, any other has an owner, a reserved one has no runtime, a starting or running one has one,
  -- and none is left in the state Cleaning. Recover finds objects that have an owner.
  pub Reach-IsSound :
      (configs : List (Config A)) {m : Manager A} → Reach (new_manager configs) m → IsSound m.slots
  Reach-IsSound configs start = new_manager-IsSound configs
  Reach-IsSound configs (next r step) = Step-IsSound step (Reach-IsSound configs r)
