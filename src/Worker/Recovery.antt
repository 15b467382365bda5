-- ===== src/Worker/Recovery.antt =====
-- internal/worker/manager.go: Recover, which finds the sandboxes of a worker that was restarted, and
-- ListSlots.
use sandbox_fleet.Base.{
  ◌≡◌, ◌≢◌, ◌↔◌, refl, sym, ap, subst, ◌∙◌, inl, inr, List, [], ◌∷◌, Option, none, some,
  Option-cases, arith, string_key, Elem, All, All-Elem,
}
use sandbox_fleet.Base.Int.{ℤ, int_key}
use sandbox_fleet.Base.Map.{lookup, lookup-insert}
use sandbox_fleet.Base.Result.{ok}
use sandbox_fleet.Slot.{State, free, starting, running, stopping, failed, state_key}
use sandbox_fleet.Worker.Types.{
  RuntimeInfo, RuntimeState, state_created, state_running, state_stopped, state_unknown,
  runtime_slot_state,
}
use sandbox_fleet.Worker.Slots.{ManagedSlot}
use sandbox_fleet.Worker.Manager.{Manager, put_slot, recovered, recover_all}
use sandbox_fleet.Worker.WellFormed.{State-cases}

-- The state of a slot whose object was found in a state.
abbrev pub FoundIn : RuntimeState → State → Type 0
FoundIn state_created found = found ≡ starting
FoundIn state_running found = found ≡ running
FoundIn state_stopped found = found ≡ stopping
FoundIn state_unknown found = found ≡ failed

runtime_slot_state-FoundIn : (s : RuntimeState) → FoundIn s (runtime_slot_state s)
unfolding runtime_slot_state
runtime_slot_state-FoundIn state_created = refl
runtime_slot_state-FoundIn state_running = refl
runtime_slot_state-FoundIn state_stopped = refl
runtime_slot_state-FoundIn state_unknown = refl

module _ {A : Type 0} where
  abbrev pub IsFreeSlot : Option (ManagedSlot A) → Type 0
  IsFreeSlot none = ⊥
  IsFreeSlot (some c) = c.state ≡ free

  -- Each object refers to a free slot of its own.
  abbrev pub IsRecoverable : List RuntimeInfo → Manager A → Type 0
  IsRecoverable [] m = Unit
  IsRecoverable (o ∷ os) m =
      IsFreeSlot (lookup o.slot_id m.slots)
      × All (λ p. p.slot_id ≢ o.slot_id) os
      × IsRecoverable os m

  -- A slot that holds an object, and is for the rest the slot `c`.
  pub record Holds (o : RuntimeInfo) (c d : ManagedSlot A) : Type 0 where
    pub owner : d.sandbox ≡ o.identity
    pub object : d.runtime_ref ≡ some o.id
    pub state_found : FoundIn o.status d.state
    pub id_kept : d.id ≡ c.id
    pub profile_kept : d.profile ≡ c.profile
    pub resources_kept : d.resources ≡ c.resources
    pub restored_kept : d.restored ≡ c.restored
    pub dir_kept : d.restore_dir ≡ c.restore_dir

  -- The slot of an object before and after.
  abbrev pub RecoveredAs : RuntimeInfo → Option (ManagedSlot A) → Option (ManagedSlot A) → Type 0
  RecoveredAs o (some c) (some d) = Holds o c d
  RecoveredAs o (some c) none = ⊥
  RecoveredAs o none after = ⊥

  recovered-Holds : (o : RuntimeInfo) (c : ManagedSlot A) → Holds o c (recovered o c)
  unfolding recovered
  recovered-Holds o c = record {
    owner = refl;
    object = refl;
    state_found = runtime_slot_state-FoundIn o.status;
    id_kept = refl;
    profile_kept = refl;
    resources_kept = refl;
    restored_kept = refl;
    dir_kept = refl;
  }

  not_free-recovered : (o : RuntimeInfo) (c : ManagedSlot A) → (recovered o c).state ≢ free
  unfolding recovered
  not_free-recovered o c = go o.status refl
    where
      go : (s : RuntimeState) → o.status ≡ s → (recovered o c).state ≢ free
      go state_created e = rw e (λ p. ground arith)
      go state_running e = rw e (λ p. ground arith)
      go state_stopped e = rw e (λ p. ground arith)
      go state_unknown e = rw e (λ p. ground arith)

  module _ (m : Manager A) (id : ℤ) (d : ManagedSlot A) where
    lookup-put_slot : (j : ℤ) → j ≢ id → lookup j (put_slot m id d).slots ≡ lookup j m.slots
    unfolding put_slot
    lookup-put_slot j n = ground (arith, lookup-insert j id d m.slots)

    lookup-put_slot_same : lookup id (put_slot m id d).slots ≡ some d
    unfolding put_slot
    lookup-put_slot_same = ground (arith, lookup-insert id id d m.slots)

    IsRecoverable-put_slot :
        (os : List RuntimeInfo)
        → All (λ p. p.slot_id ≢ id) os
        → IsRecoverable os m
        → IsRecoverable os (put_slot m id d)
    IsRecoverable-put_slot [] apart r = tt
    IsRecoverable-put_slot (o ∷ os) apart r = (
      subst IsFreeSlot (sym (lookup-put_slot o.slot_id apart.0)) r.0,
      r.1,
      IsRecoverable-put_slot os apart.1 r.2,
    )

    put_slot-IsRecoverable :
        (os : List RuntimeInfo)
        → d.state ≢ free
        → IsRecoverable os (put_slot m id d)
        → All (λ p. p.slot_id ≢ id) os × IsRecoverable os m
    put_slot-IsRecoverable [] n r = (tt, tt)
    put_slot-IsRecoverable (o ∷ os) n (f, a, r) =
        let other : o.slot_id ≢ id = λ e. n (
          subst IsFreeSlot (ap (λ i. lookup i (put_slot m id d).slots) e ∙ lookup-put_slot_same)
            f) in
        let (apart, rest) = put_slot-IsRecoverable os n r in
        ((other, apart), (subst IsFreeSlot (lookup-put_slot o.slot_id other) f, a, rest))

  recover_all_iff :
      (objects : List RuntimeInfo) (m : Manager A)
      → ((recover_all objects m).1 ≡ ok tt) ↔ IsRecoverable objects m
  unfolding recover_all
  recover_all_iff [] m = (λ e. tt, λ r. refl)
  recover_all_iff (o ∷ os) m = elim (Option-cases (lookup o.slot_id m.slots)) [
    | inl e ↦ (λ p. absurd (ground arith), λ r. absurd (subst IsFreeSlot e r.0))
    | inr (c, e) ↦ elim (State-cases c.state free) [
      | inl (f, g) ↦
          let n = put_slot m o.slot_id (recovered o c) in
          let (there, back) = recover_all_iff os n in
          let same : recover_all os n ≡ recover_all (o ∷ os) m = ground arith in
          (
            λ p.
                let (apart, rest) =
                  put_slot-IsRecoverable m o.slot_id (recovered o c) os (not_free-recovered o c)
                    (there (ap (λ r. r.1) same ∙ p)) in
                (subst IsFreeSlot (sym e) f, apart, rest),
            λ r.
                ap (λ x. x.1) (sym same)
                ∙ back (IsRecoverable-put_slot m o.slot_id (recovered o c) os r.1 r.2),
          )
      | inr (n, g) ↦ (λ p. absurd (ground arith), λ r. absurd (n (subst IsFreeSlot e r.0)))
    ]
  ]

  recover_all-elsewhere :
      (objects : List RuntimeInfo) (m : Manager A) (j : ℤ)
      → All (λ o. o.slot_id ≢ j) objects
      → lookup j (recover_all objects m).0.slots ≡ lookup j m.slots
  unfolding recover_all
  recover_all-elsewhere [] m j apart = refl
  recover_all-elsewhere (o ∷ os) m j apart = elim (Option-cases (lookup o.slot_id m.slots)) [
    | inl e ↦ ground arith
    | inr (c, e) ↦ ground (
      arith,
      recover_all-elsewhere os (put_slot m o.slot_id (recovered o c)) j apart.1,
      lookup-put_slot m o.slot_id (recovered o c) j,
      lookup-put_slot m o.slot_id (record c { state = failed }) j,
    )
  ]

  IsRecoverable-RecoveredAs :
      (objects : List RuntimeInfo) (m : Manager A) (o : RuntimeInfo)
      → IsRecoverable objects m
      → Elem o objects
      → RecoveredAs o (lookup o.slot_id m.slots) (lookup o.slot_id (recover_all objects m).0.slots)
  unfolding recover_all
  IsRecoverable-RecoveredAs [] m o r h = elim h [ ]
  IsRecoverable-RecoveredAs (p ∷ ps) m o (f, apart, r) h =
      elim (Option-cases (lookup p.slot_id m.slots)) [
        | inl e ↦ absurd (subst IsFreeSlot e f)
        | inr (c, e) ↦
            let n = put_slot m p.slot_id (recovered p c) in
            let rest = recover_all ps n in
            let free_slot : c.state ≡ free = subst IsFreeSlot e f in
            let same : rest ≡ recover_all (p ∷ ps) m = ground arith in
            let later = IsRecoverable-put_slot m p.slot_id (recovered p c) ps apart r in
            subst (λ x. RecoveredAs o (lookup o.slot_id m.slots) (lookup o.slot_id x.0.slots)) same
              (elim h [
                | inl q ↦
                    let kept = recover_all-elsewhere ps n p.slot_id apart in
                    let here = lookup-put_slot_same m p.slot_id (recovered p c) in
                    let first : RecoveredAs p (lookup p.slot_id m.slots)
                        (lookup p.slot_id rest.0.slots) =
                      subst (λ y. RecoveredAs p y (lookup p.slot_id rest.0.slots)) (sym e)
                        (subst (RecoveredAs p (some c)) (sym (kept ∙ here))
                          (recovered-Holds p c)) in
                    subst
                      (λ y.
                        RecoveredAs y (lookup y.slot_id m.slots) (lookup y.slot_id rest.0.slots))
                      (sym q) first
                | inr q ↦
                    subst (λ y. RecoveredAs o y (lookup o.slot_id rest.0.slots))
                      (lookup-put_slot m p.slot_id (recovered p c) o.slot_id
                        (All-Elem (λ y. y.slot_id ≢ p.slot_id) o ps apart q))
                      (IsRecoverable-RecoveredAs ps n o later q)
              ])
      ]

  -- The loop of Recover succeeds exactly when each object refers to a free slot of its own. The slot
  -- of each object then holds its sandbox and its runtime, in the state Starting, Running, Stopping or
  -- Failed for an object that is created, running, stopped or unknown, and is for the rest as it was.
  -- The slots that no object refers to are as they were.
  pub recover_all_lem :
      (objects : List RuntimeInfo) (m : Manager A)
      → (((recover_all objects m).1 ≡ ok tt) ↔ IsRecoverable objects m)
        × ((o : RuntimeInfo)
            → (recover_all objects m).1 ≡ ok tt
            → Elem o objects
            → RecoveredAs o
                (lookup o.slot_id m.slots)
                (lookup o.slot_id (recover_all objects m).0.slots))
        × ((j : ℤ)
            → All (λ o. o.slot_id ≢ j) objects
            → lookup j (recover_all objects m).0.slots ≡ lookup j m.slots)
  recover_all_lem objects m = (
    recover_all_iff objects m,
    λ o e h. IsRecoverable-RecoveredAs objects m o ((recover_all_iff objects m).0 e) h,
    λ j apart. recover_all-elsewhere objects m j apart,
  )
