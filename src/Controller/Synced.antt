-- ===== src/Controller/Synced.antt =====
-- internal/controller/sandbox_controller.go: what syncStatus answers, and what a single call in a method
-- did when the method went on.
use sandbox_fleet.Base.{◌≡◌, refl, subst, inl, inr, Bool-cases, ◌==◌, arith}
use sandbox_fleet.Base.Result.{Result, ok, err}
use sandbox_fleet.Base.Action.{Action, wrap, pure, ◌>>=◌, bind-rule}
use sandbox_fleet.Scheduler.Types.{Strategy}
use sandbox_fleet.Controller.Objects.{Error, context, Sandbox, ObjectMeta, sandbox_status_key}
use sandbox_fleet.Controller.Clients.{Clients}
use sandbox_fleet.Controller.Sandbox.{
  State, on_world, desired_status, update_status, get_current, sync_current, sync_status,
}

module _ {W T : Type 0} where
  pub on_world-ok :
      (f : Error → Error) (m : Action W Error T) (st t : State W) (x : T)
      → on_world (wrap f m) st ≡ (t, ok x)
      → (m st.world ≡ (t.world, ok x)) × (t.scheduler ≡ st.scheduler)
  unfolding on_world wrap
  on_world-ok f m st t x = go (m st.world)
    where
      go :
          (r : W × Result Error T)
          → on_world (wrap f (λ w. r)) st ≡ (t, ok x)
          → (r ≡ (t.world, ok x)) × (t.scheduler ≡ st.scheduler)
      go (w, ok y) h = ground arith
      go (w, err e) h = cc

-- The object that another copy of it names.
abbrev pub IsSameObject : ObjectMeta → ObjectMeta → Type 0
IsSameObject a b = (a.namespace ≡ b.namespace) × (a.name ≡ b.name) × (a.uid ≡ b.uid)

-- The API server answers for the object `m`: what it reads under the name is that object, and what it
-- answers to a status update is the object that was sent, with the status that was sent.
pub record AnswersFor {W A : Type 0} (clients : Clients W A) (m : ObjectMeta) : Type 0 where
  pub reads :
      (w v : W) (o : Sandbox)
      → clients.kube.get_sandbox m.namespace m.name w ≡ (v, ok o)
      → IsSameObject o.meta m
  pub answers :
      (w v : W) (s o : Sandbox)
      → IsSameObject s.meta m
      → clients.kube.update_sandbox_status s w ≡ (v, ok o)
      → IsSameObject o.meta m × (o.status ≡ s.status)

module _ {W A : Type 0} (clients : Clients W A) (strategy : Strategy) (s : Sandbox)
    (answers : AnswersFor clients s.meta) where
  abbrev pub IsSynced : Result Error Sandbox → Type 0
  IsSynced (ok o) =
      IsSameObject o.meta s.meta
      × (o.status ≡ desired_status clients strategy s)
      × (o.spec ≡ s.spec)
  IsSynced (err e) = Unit

  sync_current-IsSynced :
      (current : Sandbox) (st : State W)
      → IsSameObject current.meta s.meta
      → IsSynced (sync_current clients strategy s current st).1
  unfolding sync_current update_status
  sync_current-IsSynced current st same =
      let desired = desired_status clients strategy s in
      elim (Bool-cases (current.status == desired)) [
        | inl e ↦
            let here : pure (record s { meta = current.meta; status = current.status }) st
                ≡ sync_current clients strategy s current st =
              ground arith in
            subst (λ r. IsSynced r.1) here (unfold pure in (same, ground arith, refl))
        | inr e ↦
            let sent = record current { status = desired } in
            let rest =
              λ (o : Sandbox). pure {E = Error} (record s { meta = o.meta; status = o.status }) in
            let here : (update_status clients strategy sent >>= rest) st
                ≡ sync_current clients strategy s current st =
              ground arith in
            subst (λ r. IsSynced r.1) here
              (bind-rule (λ r. IsSynced r.1) (update_status clients strategy sent) rest st
                (λ t o h.
                  let sent_ok = on_world-ok _ (clients.kube.update_sandbox_status sent) st t o h in
                  let a = answers.answers st.world t.world sent o same sent_ok.0 in
                  unfold pure in (a.0, a.1, refl))
                (λ t x h. tt))
      ]

  pub sync_status-IsSynced : (st : State W) → IsSynced (sync_status clients strategy s st).1
  unfolding sync_status get_current
  sync_status-IsSynced st =
      bind-rule (λ r. IsSynced r.1) (get_current clients strategy s)
        (sync_current clients strategy s) st
        (λ t current h.
          let read =
            on_world-ok (context "get current Sandbox before status update")
              (clients.kube.get_sandbox s.meta.namespace s.meta.name) st t current h in
          sync_current-IsSynced current t (answers.reads st.world t.world current read.0))
        (λ t e h. tt)
