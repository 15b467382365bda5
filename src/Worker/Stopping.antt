-- ===== src/Worker/Stopping.antt =====
-- internal/worker/manager.go: StopSandbox, ReleaseSlot and ReserveSlot on a well-formed slot, whatever
-- the runtime and the snapshotters answer.
use sandbox_fleet.Base.{
  false, ◌≡◌, ◌≢◌, refl, sym, ap, subst, ◌⊎◌, inl, inr, none, ◌==◌, Option-cases, Bool-cases, arith,
  string_key,
}
use sandbox_fleet.Base.Result.{Result, ok, err}
use sandbox_fleet.Slot.{
  State, free, reserved, starting, running, stopping, cleaning, failed, state_key,
}
use sandbox_fleet.Worker.Types.{Identity, no_identity, Failure, Error, Env, slot_conflict}
use sandbox_fleet.Worker.Slots.{
  ManagedSlot, reserve_slot, clear_restore_dir, delete_restored, stopped_restored, stopped,
  stop_runtime, stop_slot, released, delete_runtime, release_slot,
}
use sandbox_fleet.Worker.WellFormed.{WellAs, IsIdle, IsWell, owned-of_IsWell, IsSame, State-cases}

module _ {A : Type 0} where
  -- What StopSandbox leaves of the slot `c`.
  abbrev pub StoppedAs : ManagedSlot A → ManagedSlot A → Result Error (Unit {0}) → Type 0
  StoppedAs c d (ok _) = ((d ≡ c) × (c.state ≡ free)) ⊎ (d.state ≡ stopping)
  StoppedAs c d (err e) = (d ≡ c) ⊎ (d.state ≡ failed)

  pub record StopPost (c d : ManagedSlot A) (r : Result Error (Unit {0})) : Type 0 where
    pub well : IsWell d
    pub same : IsSame c d
    pub sandbox : d.sandbox ≡ c.sandbox
    pub outcome : StoppedAs c d r

  -- What ReleaseSlot leaves of it. After a failure the runtime is still known, for another attempt.
  abbrev pub ReleasedAs : ManagedSlot A → ManagedSlot A → Result Error (Unit {0}) → Type 0
  ReleasedAs c d (ok _) = (d.state ≡ free) × IsIdle d
  ReleasedAs c d (err e) =
      (d ≡ c) ⊎ ((d.state ≡ failed) × (d.sandbox ≡ c.sandbox) × (d.runtime_ref ≡ c.runtime_ref))

  pub record ReleasePost (c d : ManagedSlot A) (r : Result Error (Unit {0})) : Type 0 where
    pub well : IsWell d
    pub same : IsSame c d
    pub outcome : ReleasedAs c d r

module _ {W A : Type 0} (env : Env W A) where
  clear_restore_dir_lem :
      (w : W) (c : ManagedSlot A) → (clear_restore_dir env w c).1 ≡ record c { restore_dir = "" }
  unfolding clear_restore_dir
  clear_restore_dir_lem w c = elim (string_key.same c.restore_dir "") [
    | yes e ↦
        let same : c ≡ record c { restore_dir = "" } = ap (λ x. record c { restore_dir = x }) e in
        ground arith
    | no n ↦ ground arith
  ]

  module _ (b c : ManagedSlot A) (same : IsSame b c) (sandbox : c.sandbox ≡ b.sandbox)
      (owned : c.sandbox.uid ≢ "") (going : c.state ≡ stopping) where
    stopped_restored-StopPost :
        (r : W × Result Error (Unit {0}))
        → StopPost b (stopped_restored env c r).1 (stopped_restored env c r).2
    unfolding stopped_restored
    stopped_restored-StopPost (w, ok _) =
        subst (λ d. StopPost b d (ok tt))
          (sym (clear_restore_dir_lem w (record c { runtime_ref = none })))
          (record { well = well_stopping; same = same; sandbox = sandbox; outcome = inr going })
      where
        well_stopping : IsWell (record c { runtime_ref = none; restore_dir = "" })
        well_stopping =
            subst (λ t. WellAs t (record c { runtime_ref = none; restore_dir = "" })) (sym going)
              owned
    stopped_restored-StopPost (w, err e) = record {
      well = owned;
      same = same;
      sandbox = sandbox;
      outcome = inr refl;
    }

    stopped-StopPost :
        (r : W × Result Failure (Unit {0})) → StopPost b (stopped env c r).1 (stopped env c r).2
    unfolding stopped
    stopped-StopPost (w, ok _) = record {
      well = subst (λ t. WellAs t c) (sym going) owned;
      same = same;
      sandbox = sandbox;
      outcome = inr going;
    }
    stopped-StopPost (w, err e) = record {
      well = owned;
      same = same;
      sandbox = sandbox;
      outcome = inr refl;
    }

  stop_runtime-StopPost :
      (b : ManagedSlot A) (w : W) (c : ManagedSlot A)
      → IsSame b c
      → c.sandbox ≡ b.sandbox
      → c.sandbox.uid ≢ ""
      → c.state ≡ stopping
      → StopPost b (stop_runtime env w c).1 (stop_runtime env w c).2
  unfolding stop_runtime
  stop_runtime-StopPost b w c same sandbox owned going = elim (Option-cases c.runtime_ref) [
    | inl e ↦
        let here : (w, c, ok tt) ≡ stop_runtime env w c = ground arith in
        subst (λ x. StopPost b x.1 x.2) here
          (stopped-StopPost b c same sandbox owned going (w, ok tt))
    | inr (id, e) ↦ elim (Bool-cases c.restored) [
      | inl f ↦
          let here : stopped_restored env c (delete_restored env w id) ≡ stop_runtime env w c =
            ground arith in
          subst (λ x. StopPost b x.1 x.2) here
            (stopped_restored-StopPost b c same sandbox owned going (delete_restored env w id))
      | inr f ↦
          let here : stopped env c (env.runtime.stop w id) ≡ stop_runtime env w c = ground arith in
          subst (λ x. StopPost b x.1 x.2) here
            (stopped-StopPost b c same sandbox owned going (env.runtime.stop w id))
    ]
  ]

  -- StopSandbox on a well-formed slot: the slot stays well-formed and keeps its owner; on success it is
  -- stopping, or it was free, and on an error it is as it was, or failed.
  pub stop_slot-StopPost :
      (identity : Identity) (w : W) (c : ManagedSlot A)
      → IsWell c
      → StopPost c (stop_slot env identity w c).1 (stop_slot env identity w c).2
  unfolding stop_slot
  stop_slot-StopPost identity w c v = go c.state refl
    where
      as_it_was :
          (r : Result Error (Unit {0}))
          → StoppedAs c c r
          → (w, c, r) ≡ stop_slot env identity w c
          → StopPost c (stop_slot env identity w c).1 (stop_slot env identity w c).2
      as_it_was r o here =
          subst (λ x. StopPost c x.1 x.2) here
            (record { well = v; same = (refl, refl, refl); sandbox = refl; outcome = o })

      active :
          c.state ≢ free
          → c.state ≢ stopping
          → c.state ≢ cleaning
          → StopPost c (stop_slot env identity w c).1 (stop_slot env identity w c).2
      active n m k = elim (Bool-cases (c.sandbox.uid == identity.uid)) [
        | inl e ↦
            let here : stop_runtime env w (record c { state = stopping })
                ≡ stop_slot env identity w c =
              ground arith in
            subst (λ x. StopPost c x.1 x.2) here
              (stop_runtime-StopPost c w (record c { state = stopping }) (refl, refl, refl) refl
                (owned-of_IsWell c v n) refl)
        | inr e ↦ as_it_was (err slot_conflict) (inl refl) (ground arith)
      ]

      go :
          (s : State)
          → c.state ≡ s
          → StopPost c (stop_slot env identity w c).1 (stop_slot env identity w c).2
      go free e = as_it_was (ok tt) (inl (refl, e)) (ground arith)
      go stopping e = elim (Bool-cases (c.sandbox.uid == identity.uid)) [
        | inl f ↦ as_it_was (ok tt) (inr e) (ground arith)
        | inr f ↦ as_it_was (err slot_conflict) (inl refl) (ground arith)
      ]
      go cleaning e = absurd (subst (λ t. WellAs t c) e v)
      go reserved e = active (ground arith) (ground arith) (ground arith)
      go starting e = active (ground arith) (ground arith) (ground arith)
      go running e = active (ground arith) (ground arith) (ground arith)
      go failed e = active (ground arith) (ground arith) (ground arith)

  released-ReleasePost :
      (c : ManagedSlot A) (r : W × Result Error (Unit {0}))
      → c.sandbox.uid ≢ ""
      → ReleasePost c
          (released env (record c { state = cleaning }) r).1
          (released env (record c { state = cleaning }) r).2
  unfolding released
  released-ReleasePost c (w, err e) o = record {
    well = o;
    same = (refl, refl, refl);
    outcome = inr (refl, refl, refl);
  }
  released-ReleasePost c (w, ok _) o =
      subst (λ d. ReleasePost c d (ok tt))
        (sym (
          clear_restore_dir_lem w (record c {
            state = free;
            sandbox = no_identity;
            runtime_ref = none;
            restored = false;
          })))
        (record {
          well = (refl, refl, refl, refl);
          same = (refl, refl, refl);
          outcome = (refl, (refl, refl, refl, refl));
        })

  -- ReleaseSlot on a well-formed slot: the slot stays well-formed; on success it is free and empty, and
  -- on an error it is as it was, or failed, with its owner and its runtime still known.
  pub release_slot-ReleasePost :
      (identity : Identity) (w : W) (c : ManagedSlot A)
      → IsWell c
      → ReleasePost c (release_slot env identity w c).1 (release_slot env identity w c).2
  unfolding release_slot
  release_slot-ReleasePost identity w c v = elim (State-cases c.state free) [
    | inl (e, f) ↦ as_it_was (ok tt) (e, subst (λ t. WellAs t c) e v) (ground arith)
    | inr (n, f) ↦ elim (Bool-cases (c.sandbox.uid == identity.uid)) [
      | inl g ↦
          let here : released env (record c { state = cleaning }) (delete_runtime env w c)
              ≡ release_slot env identity w c =
            ground arith in
          subst (λ x. ReleasePost c x.1 x.2) here
            (released-ReleasePost c (delete_runtime env w c) (owned-of_IsWell c v n))
      | inr g ↦ as_it_was (err slot_conflict) (inl refl) (ground arith)
    ]
  ]
    where
      as_it_was :
          (r : Result Error (Unit {0}))
          → ReleasedAs c c r
          → (w, c, r) ≡ release_slot env identity w c
          → ReleasePost c (release_slot env identity w c).1 (release_slot env identity w c).2
      as_it_was r o here =
          subst (λ x. ReleasePost c x.1 x.2) here
            (record { well = v; same = (refl, refl, refl); outcome = o })

module _ {A : Type 0} where
  -- ReserveSlot on a well-formed slot: it is reserved for the sandbox, or was the sandbox's already.
  pub reserve_slot-IsWell :
      (c : ManagedSlot A) (identity : Identity)
      → identity.uid ≢ ""
      → IsWell c
      → IsWell (reserve_slot c identity).0 × IsSame c (reserve_slot c identity).0
  unfolding reserve_slot
  reserve_slot-IsWell c identity named v = elim (State-cases c.state free) [
    | inl (e, f) ↦
        let here : record c { state = reserved; sandbox = identity } ≡ (reserve_slot c identity).0 =
          ground arith in
        let u = subst (λ t. WellAs t c) e v in
        subst (λ d. IsWell d × IsSame c d) here ((named, u.1), (refl, refl, refl))
    | inr (n, f) ↦
        let here : c ≡ (reserve_slot c identity).0 = ground arith in
        subst (λ d. IsWell d × IsSame c d) here (v, (refl, refl, refl))
  ]
