-- ===== src/Worker/Manager.antt =====
-- internal/worker/manager.go: SlotManager. A method holds the lock of its slot to its end, so each is
-- one step on the map of slots; ApplySlots holds the lock of the map.
use sandbox_fleet.Base.{
  Bool, true, false, ◌&&◌, List, [], ◌∷◌, Option, none, some, if◌then◌else◌, ◌==◌, ◌!=◌, string_key,
}
use sandbox_fleet.Base.Int.{ℤ, int_key, ltb_ℤ}
use sandbox_fleet.Base.Map.{Map, keys, lookup, insert, is_some}
use sandbox_fleet.Base.Sort.{sort}
use sandbox_fleet.Base.Result.{Result, ok, err}
use sandbox_fleet.Slot.{free, failed, Info, state_key}
use sandbox_fleet.Slot.Config.{Config, clone_resources}
use sandbox_fleet.Worker.Types.{
  Identity, no_identity, SlotRef, StartRequest, SandboxInfo, ExecSandboxRequest, RuntimeInfo,
  ExecResult, Failure, Error, invalid_request, slot_not_found, slot_config_invalid, wrapped,
  unknown_slot, multiple_objects, Env, runtime_slot_state,
}
use sandbox_fleet.Worker.Slots.{
  ManagedSlot, Call, validate_identity, reserve_slot, start_slot, stop_slot, release_slot, info_of,
  exec_slot,
}

-- `configs` is the field config.Slots.
pub record Manager (A : Type 0) : Type 0 where
  pub configs : List (Config A)
  pub slots : Map ℤ (ManagedSlot A)

module _ {A : Type 0} where
  unfoldable pub new_slot : Config A → ManagedSlot A
  unfolding clone_resources
  new_slot spec = record {
    id = spec.id;
    profile = spec.profile;
    resources = clone_resources spec.resources;
    state = free;
    sandbox = no_identity;
    runtime_ref = none;
    restored = false;
    restore_dir = "";
  }

  unfoldable pub new_slots : Map ℤ (ManagedSlot A) → List (Config A) → Map ℤ (ManagedSlot A)
  unfolding new_slot
  new_slots slots [] = slots
  new_slots slots (spec ∷ specs) = new_slots (insert spec.id (new_slot spec) slots) specs

  -- NewSlotManager
  unfoldable pub new_manager : List (Config A) → Manager A
  unfolding new_slots
  new_manager configs = record { configs = configs; slots = new_slots [] configs }

  unfoldable pub get_slot : Manager A → ℤ → Result Error (ManagedSlot A)
  get_slot m id = elim (lookup id m.slots) [ none ↦ err slot_not_found | some c ↦ ok c ]

  unfoldable pub put_slot : Manager A → ℤ → ManagedSlot A → Manager A
  put_slot m id c = record m { slots = insert id c m.slots }

  -- The first loop of ApplySlots: the desired slots by id, none where an id stands twice.
  unfoldable pub desired_slots : Map ℤ (Config A) → List (Config A) → Option (Map ℤ (Config A))
  desired_slots desired [] = some desired
  desired_slots desired (c ∷ cs) =
      let rest = desired_slots (insert c.id c desired) cs in
      if is_some (lookup c.id desired) then none else rest

  -- The last loop: a slot that stays is the same object.
  unfoldable pub next_slots : Map ℤ (ManagedSlot A) → Map ℤ (Config A) → Map ℤ (ManagedSlot A)
  unfolding new_slot
  next_slots slots [] = []
  next_slots slots ((id, cfg) ∷ rest) = elim (lookup id slots) [
    | some current ↦ insert id current (next_slots slots rest)
    | none ↦ insert id (new_slot cfg) (next_slots slots rest)
  ]

  unfoldable pub get_sandbox : SlotRef → Manager A → Result Error SandboxInfo
  unfolding validate_identity get_slot info_of
  get_sandbox ref m = elim (validate_identity ref.identity) [
    | err e ↦ err e
    | ok _ ↦ elim (get_slot m ref.slot_id) [ err e ↦ err e | ok c ↦ info_of ref.identity c ]
  ]

module _ {W A : Type 0} where
  -- What the methods on a slot share: the identity is checked, the slot is found and locked, and its
  -- object is left in the map.
  unfoldable pub on_slot :
      {T : Type 0}
      → (W → ManagedSlot A → Call W A T)
      → Identity
      → ℤ
      → W
      → Manager A
      → W × Manager A × Result Error T
  unfolding validate_identity get_slot put_slot
  on_slot body identity id w m = elim (validate_identity identity) [
    | err e ↦ (w, m, err e)
    | ok _ ↦ elim (get_slot m id) [
      | err e ↦ (w, m, err e)
      | ok c ↦ let (w', c', r) = body w c in (w', put_slot m id c', r)
    ]
  ]

  unfoldable pub reserve : SlotRef → W → Manager A → W × Manager A × Result Error (Unit {0})
  unfolding on_slot reserve_slot
  reserve ref =
      on_slot (λ w c. let (c', r) = reserve_slot c ref.identity in (w, c', r)) ref.identity
        ref.slot_id

module _ {W A : Type 0} (env : Env W A) where
  -- The second loop, over the slots that the manager has.
  unfoldable pub may_apply : Map ℤ (ManagedSlot A) → Map ℤ (Config A) → Bool
  may_apply [] desired = true
  may_apply ((id, current) ∷ rest) desired =
      let others = may_apply rest desired in
      elim (lookup id desired) [
        | none ↦ if current.state != free then false else others
        | some cfg ↦
            if current.profile == cfg.profile && env.same_resources current.resources cfg.resources
            then others
            else false
      ]

  unfoldable pub apply_slots : Manager A → List (Config A) → Manager A × Result Error (Unit {0})
  unfolding desired_slots may_apply next_slots
  apply_slots m configs = elim (desired_slots [] configs) [
    | none ↦ (m, err slot_config_invalid)
    | some desired ↦
        if may_apply m.slots desired
        then (record { configs = configs; slots = next_slots m.slots desired }, ok tt)
        else (m, err slot_config_invalid)
  ]

  unfoldable pub start_sandbox :
      StartRequest → W → Manager A → W × Manager A × Result Error (Unit {0})
  unfolding on_slot start_slot
  start_sandbox req = on_slot (start_slot env req) req.identity req.slot_id

  unfoldable pub stop_sandbox : SlotRef → W → Manager A → W × Manager A × Result Error (Unit {0})
  unfolding on_slot stop_slot
  stop_sandbox ref = on_slot (stop_slot env ref.identity) ref.identity ref.slot_id

  unfoldable pub release : SlotRef → W → Manager A → W × Manager A × Result Error (Unit {0})
  unfolding on_slot release_slot
  release ref = on_slot (release_slot env ref.identity) ref.identity ref.slot_id

  unfoldable pub exec_sandbox : ExecSandboxRequest → W → Manager A → W × Result Error ExecResult
  unfolding validate_identity get_slot exec_slot
  exec_sandbox req w m = elim (validate_identity req.identity) [
    | err e ↦ (w, err e)
    | ok _ ↦ elim req.command [
      | [] ↦ (w, err invalid_request)
      | name ∷ args ↦ elim (get_slot m req.slot_id) [
        | err e ↦ (w, err e)
        | ok c ↦ exec_slot env req w c
      ]
    ]
  ]

module _ {A : Type 0} where
  unfoldable pub list_from : Manager A → List ℤ → List Info
  list_from m [] = []
  list_from m (id ∷ ids) =
      let rest = list_from m ids in
      elim (lookup id m.slots) [
        | none ↦ rest
        | some c ↦
            record { id = id; profile = c.profile; state = c.state; sandbox_uid = c.sandbox.uid }
            ∷ rest
      ]

  unfoldable pub list_slots : Manager A → List Info
  unfolding list_from
  list_slots m = list_from m (sort ltb_ℤ (keys m.slots))

  -- What Recover makes of a free slot.
  unfoldable pub recovered : RuntimeInfo → ManagedSlot A → ManagedSlot A
  unfolding runtime_slot_state
  recovered object c = record c {
    sandbox = object.identity;
    runtime_ref = some object.id;
    state = runtime_slot_state object.status;
  }

  -- The loop of Recover. A return in it leaves what is recovered so far.
  unfoldable pub recover_all : List RuntimeInfo → Manager A → Manager A × Result Error (Unit {0})
  unfolding recovered put_slot
  recover_all [] m = (m, ok tt)
  recover_all (object ∷ objects) m = elim (lookup object.slot_id m.slots) [
    | none ↦ (m, err (unknown_slot object.id.value object.slot_id))
    | some c ↦ elim (c.state == free) [
      | true ↦ recover_all objects (put_slot m object.slot_id (recovered object c))
      | false ↦ (
        put_slot m object.slot_id (record c { state = failed }),
        err (multiple_objects object.id.value object.slot_id),
      )
    ]
  ]

module _ {W A : Type 0} (env : Env W A) where
  unfoldable pub recover_from :
      Manager A → W × Result Failure (List RuntimeInfo) → W × Manager A × Result Error (Unit {0})
  unfolding recover_all
  recover_from m (w, err e) = (w, m, err (wrapped e))
  recover_from m (w, ok objects) = let (m', r) = recover_all objects m in (w, m', r)

  unfoldable pub recover : W → Manager A → W × Manager A × Result Error (Unit {0})
  unfolding recover_from
  recover w m = recover_from m (env.runtime.listing w)
