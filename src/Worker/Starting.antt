-- ===== src/Worker/Starting.antt =====
-- internal/worker/manager.go: StartSandbox on a well-formed slot, whatever the runtime
-- answers.
use sandbox_fleet.Base.{
  false, ◌≡◌, ◌≢◌, refl, subst, ◌∙◌, ◌⊎◌, inl, inr, none, some, ◌==◌, Option-cases, Bool-cases,
  arith, string_key,
}
use sandbox_fleet.Base.Result.{Result, ok, err}
use sandbox_fleet.Slot.{reserved, starting, running, state_key}
use sandbox_fleet.Worker.Types.{
  StartRequest, ContainerConfig, RuntimeId, RuntimeState, state_created, state_running,
  state_stopped, state_unknown, Failure, not_found, failure, Error, Env, is_restored_id,
  wrong_state, slot_conflict,
}
use sandbox_fleet.Worker.Slots.{
  ManagedSlot, Next, return, go_on, container_config, delete_stale, check_status, check_running,
  clean_failed_start, as_return, resumed, resume_start, started, created, launch, then_launch,
  then_resume, start_slot,
}
use sandbox_fleet.Worker.WellFormed.{WellAs, IsWell, IsSame, StartedAs, StartPost, State-cases}

module _ {A : Type 0} where
  -- The same between two parts of it.
  abbrev NextAs : ManagedSlot A → ManagedSlot A → Next → Type 0
  NextAs c d (return r) = StartedAs c d r
  NextAs c d go_on = (d ≡ c) ⊎ (d.state ≡ reserved)

  record NextPost (c d : ManagedSlot A) (n : Next) : Type 0 where
    well : IsWell d
    same : IsSame c d
    sandbox : d.sandbox ≡ c.sandbox
    outcome : NextAs c d n

module _ {A : Type 0} where
  -- A part of StartSandbox that returns what a call returned.
  NextPost-return :
      (c d : ManagedSlot A) (r : Result Error (Unit {0}))
      → StartPost c d r
      → NextPost c d (return r)
  NextPost-return c d (ok _) p = record {
    well = p.well;
    same = p.same;
    sandbox = p.sandbox;
    outcome = p.outcome;
  }
  NextPost-return c d (err e) p = record {
    well = p.well;
    same = p.same;
    sandbox = p.sandbox;
    outcome = p.outcome;
  }

  StartPost-return :
      (c d : ManagedSlot A) (r : Result Error (Unit {0}))
      → NextPost c d (return r)
      → StartPost c d r
  StartPost-return c d r p = record {
    well = p.well;
    same = p.same;
    sandbox = p.sandbox;
    outcome = p.outcome;
  }

  -- A call after a part that went on.
  StartPost-go_on :
      (c d e : ManagedSlot A) (r : Result Error (Unit {0}))
      → NextPost c d go_on
      → StartPost d e r
      → StartPost c e r
  StartPost-go_on c d e (ok _) p q = record {
    well = q.well;
    same = ground (arith, p.same, q.same);
    sandbox = q.sandbox ∙ p.sandbox;
    outcome = q.outcome;
  }
  StartPost-go_on c d e (err x) p q = record {
    well = q.well;
    same = ground (arith, p.same, q.same);
    sandbox = q.sandbox ∙ p.sandbox;
    outcome = ground (arith, p.outcome, q.outcome);
  }

module _ {W A : Type 0} (env : Env W A) where
  delete_stale-NextPost :
      (c : ManagedSlot A) (r : W × Result Failure (Unit {0}))
      → c.sandbox.uid ≢ ""
      → NextPost c (delete_stale env c r).1 (delete_stale env c r).2
  unfolding delete_stale
  delete_stale-NextPost c (w, ok _) o = record {
    well = (o, refl);
    same = (refl, refl, refl);
    sandbox = refl;
    outcome = inr refl;
  }
  delete_stale-NextPost c (w, err e) o = record {
    well = o;
    same = (refl, refl, refl);
    sandbox = refl;
    outcome = inr (inr refl);
  }

  -- A slot that is running: StartSandbox returns, or goes on.
  check_status-NextPost :
      (c : ManagedSlot A) (id : RuntimeId) (r : W × Result Failure RuntimeState)
      → IsWell c
      → c.state ≡ running
      → NextPost c (check_status env c id r).1 (check_status env c id r).2
  unfolding check_status
  check_status-NextPost c id (w, ok state_running) v e = record {
    well = v;
    same = (refl, refl, refl);
    sandbox = refl;
    outcome = e;
  }
  check_status-NextPost c id (w, ok state_created) v e =
      delete_stale-NextPost c (env.runtime.delete w id) (rw e at v).0
  check_status-NextPost c id (w, ok state_stopped) v e =
      delete_stale-NextPost c (env.runtime.delete w id) (rw e at v).0
  check_status-NextPost c id (w, ok state_unknown) v e =
      delete_stale-NextPost c (env.runtime.delete w id) (rw e at v).0
  check_status-NextPost c id (w, err not_found) v e =
      delete_stale-NextPost c (env.runtime.delete w id) (rw e at v).0
  check_status-NextPost c id (w, err (failure m)) v e = record {
    well = v;
    same = (refl, refl, refl);
    sandbox = refl;
    outcome = inl refl;
  }

  check_running-NextPost :
      (w : W) (c : ManagedSlot A)
      → IsWell c
      → NextPost c (check_running env w c).1 (check_running env w c).2
  unfolding check_running
  check_running-NextPost w c v = elim (Option-cases c.runtime_ref) [
    | inl e ↦ elim (State-cases c.state running) [
      | inl (f, g) ↦ absurd (let u = subst (λ t. WellAs t c) f v in ground arith)
      | inr (n, f) ↦ stay (ground arith)
    ]
    | inr (id, e) ↦ elim (State-cases c.state running) [
      | inl (f, g) ↦
          let same : check_status env c id (env.runtime.status w id) ≡ check_running env w c =
            ground arith in
          subst (λ x. NextPost c x.1 x.2) same
            (check_status-NextPost c id (env.runtime.status w id) v f)
      | inr (n, f) ↦ stay (ground arith)
    ]
  ]
    where
      stay :
          (w, c, go_on) ≡ check_running env w c
          → NextPost c (check_running env w c).1 (check_running env w c).2
      stay same =
          subst (λ x. NextPost c x.1 x.2) same
            (record { well = v; same = (refl, refl, refl); sandbox = refl; outcome = inl refl })

  -- The slot `b` is the one that the part began with.
  module _ (b c : ManagedSlot A) (same : IsSame b c) (sandbox : c.sandbox ≡ b.sandbox)
      (owned : c.sandbox.uid ≢ "") where
    clean_failed_start-StartPost :
        (e : Failure) (r : W × Result Failure (Unit {0}))
        → StartPost b (clean_failed_start env c e r).1 (clean_failed_start env c e r).2
    unfolding clean_failed_start
    clean_failed_start-StartPost e (w, ok _) = record {
      well = (owned, refl);
      same = same;
      sandbox = sandbox;
      outcome = inr (inl refl);
    }
    clean_failed_start-StartPost e (w, err e') = record {
      well = owned;
      same = same;
      sandbox = sandbox;
      outcome = inr (inr refl);
    }

  started-StartPost :
      (b c : ManagedSlot A) (id : RuntimeId) (r : W × Result Failure (Unit {0}))
      → IsSame b c
      → c.sandbox ≡ b.sandbox
      → c.sandbox.uid ≢ ""
      → c.runtime_ref ≡ some id
      → StartPost b (started env c id r).1 (started env c id r).2
  unfolding started
  started-StartPost b c id (w, ok _) s p o e = record {
    well = (o, ground arith);
    same = s;
    sandbox = p;
    outcome = refl;
  }
  started-StartPost b c id (w, err e') s p o e =
      clean_failed_start-StartPost b (record c { restored = false }) s p o e'
        (env.runtime.delete w id)

  created-StartPost :
      (b c : ManagedSlot A) (r : W × Result Failure RuntimeId)
      → IsSame b c
      → c.sandbox ≡ b.sandbox
      → c.sandbox.uid ≢ ""
      → c.runtime_ref ≡ none
      → StartPost b (created env c r).1 (created env c r).2
  unfolding created
  created-StartPost b c (w, err e') s p o e = record {
    well = (o, e);
    same = s;
    sandbox = p;
    outcome = inr (inl refl);
  }
  created-StartPost b c (w, ok id) s p o e =
      started-StartPost b (record c { runtime_ref = some id; restored = is_restored_id id }) id
        (env.runtime.start w id) s p o refl

  resumed-NextPost :
      (c : ManagedSlot A) (id : RuntimeId) (r : W × Result Failure (Unit {0}))
      → IsWell c
      → c.state ≡ starting
      → NextPost c (resumed env c id r).1 (resumed env c id r).2
  unfolding resumed as_return
  resumed-NextPost c id (w, ok _) v e =
      let u = subst (λ t. WellAs t c) e v in
      record { well = u; same = (refl, refl, refl); sandbox = refl; outcome = refl }
  resumed-NextPost c id (w, err e') v e =
      let u = subst (λ t. WellAs t c) e v in
      NextPost-return c _ _
        (clean_failed_start-StartPost c c (refl, refl, refl) refl u.0 e' (env.runtime.delete w id))

  resume_start-NextPost :
      (w : W) (c : ManagedSlot A)
      → IsWell c
      → NextPost c (resume_start env w c).1 (resume_start env w c).2
  unfolding resume_start
  resume_start-NextPost w c v = elim (Option-cases c.runtime_ref) [
    | inl e ↦ stay (ground arith)
    | inr (id, e) ↦ elim (State-cases c.state starting) [
      | inl (f, g) ↦
          let same : resumed env c id (env.runtime.start w id) ≡ resume_start env w c =
            ground arith in
          subst (λ x. NextPost c x.1 x.2) same (resumed-NextPost c id (env.runtime.start w id) v f)
      | inr (n, f) ↦ stay (ground arith)
    ]
  ]
    where
      stay :
          (w, c, go_on) ≡ resume_start env w c
          → NextPost c (resume_start env w c).1 (resume_start env w c).2
      stay same =
          subst (λ x. NextPost c x.1 x.2) same
            (record { well = v; same = (refl, refl, refl); sandbox = refl; outcome = inl refl })

  launch-StartPost :
      (req : StartRequest) (w : W) (c : ManagedSlot A)
      → IsWell c
      → StartPost c (launch env req w c).1 (launch env req w c).2
  unfolding launch
  launch-StartPost req w c v = elim (State-cases c.state reserved) [
    | inl (f, g) ↦ go (container_config req.container) refl f
    | inr (n, f) ↦ stay (wrong_state req.slot_id c.state) (ground arith)
  ]
    where
      stay :
          (e : Error)
          → (w, c, err e) ≡ launch env req w c
          → StartPost c (launch env req w c).1 (launch env req w c).2
      stay e same =
          subst (λ x. StartPost c x.1 x.2) same
            (record { well = v; same = (refl, refl, refl); sandbox = refl; outcome = inl refl })

      go :
          (r : Result Error ContainerConfig)
          → container_config req.container ≡ r
          → c.state ≡ reserved
          → StartPost c (launch env req w c).1 (launch env req w c).2
      go (err e) p f = stay e (ground arith)
      go (ok config) p f =
          let u = subst (λ t. WellAs t c) f v in
          let call = env.runtime.create w (record {
            identity = req.identity;
            slot_id = req.slot_id;
            resources = c.resources;
            container = config;
          }) in
          let same : created env (record c { state = starting }) call ≡ launch env req w c =
            ground arith in
          subst (λ x. StartPost c x.1 x.2) same
            (created-StartPost c (record c { state = starting }) call (refl, refl, refl) refl u.0
              u.1)

  then_launch-StartPost :
      (req : StartRequest) (c : ManagedSlot A) (r : W × ManagedSlot A × Next)
      → NextPost c r.1 r.2
      → StartPost c (then_launch env req r).1 (then_launch env req r).2
  unfolding then_launch
  then_launch-StartPost req c (w, d, return r) p = StartPost-return c d r p
  then_launch-StartPost req c (w, d, go_on) p =
      StartPost-go_on c d _ _ p (launch-StartPost req w d p.well)

  then_resume-StartPost :
      (req : StartRequest) (c : ManagedSlot A) (r : W × ManagedSlot A × Next)
      → NextPost c r.1 r.2
      → StartPost c (then_resume env req r).1 (then_resume env req r).2
  unfolding then_resume
  then_resume-StartPost req c (w, d, return r) p = StartPost-return c d r p
  then_resume-StartPost req c (w, d, go_on) p =
      StartPost-go_on c d _ _ p
        (then_launch-StartPost req d (resume_start env w d) (resume_start-NextPost w d p.well))

  -- StartSandbox on a well-formed slot, whatever the runtime answers: the slot stays well-formed and
  -- keeps its owner; on success it is running, and on an error it is as it was, reserved without a
  -- runtime, or failed.
  pub start_slot-StartPost :
      (req : StartRequest) (w : W) (c : ManagedSlot A)
      → IsWell c
      → StartPost c (start_slot env req w c).1 (start_slot env req w c).2
  unfolding start_slot
  start_slot-StartPost req w c v = elim (Bool-cases (c.sandbox.uid == req.identity.uid)) [
    | inl e ↦
        let same : then_resume env req (check_running env w c) ≡ start_slot env req w c =
          ground arith in
        subst (λ x. StartPost c x.1 x.2) same
          (then_resume-StartPost req c (check_running env w c) (check_running-NextPost w c v))
    | inr e ↦
        let same : (w, c, err slot_conflict) ≡ start_slot env req w c = ground arith in
        subst (λ x. StartPost c x.1 x.2) same
          (record { well = v; same = (refl, refl, refl); sandbox = refl; outcome = inl refl })
  ]
