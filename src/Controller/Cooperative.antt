-- ===== src/Controller/Cooperative.antt =====
-- internal/controller/sandbox_controller.go: the methods of SandboxReconciler where every call succeeds.
use sandbox_fleet.Base.{
  String, true, ◌≡◌, refl, sym, ap, subst, ◌∙◌, inl, inr, Bool-cases, List, ◌==◌, arith,
}
use sandbox_fleet.Base.Result.{Result, ok, err}
use sandbox_fleet.Base.Action.{Action, wrap, pure, ◌>>=◌}
use sandbox_fleet.Base.Action.Ends.{
  Ends, Ends-weaken, Ends-if_true, Ends-if_false, Ends-wrap, Ends-bind,
}
use sandbox_fleet.Scheduler.Types.{Strategy}
use sandbox_fleet.Worker.Types.{SlotRef, StartRequest}
use sandbox_fleet.Controller.Objects.{
  Error, context, Sandbox, SandboxStatus, Pool, sandbox_status_key,
}
use sandbox_fleet.Controller.Clients.{Clients}
use sandbox_fleet.Controller.Sandbox.{
  State, Step, Requeue, sandbox_finalizer, on_world, desired_status, update_status, get_current,
  sync_current, sync_status, finish,
}
use sandbox_fleet.Controller.Synced.{IsSameObject}

abbrev pub with_version : String → Sandbox → Sandbox
with_version version s = record s { meta = record s.meta { resource_version = version } }

-- What the clients answer when nothing fails: `view` is the sandbox as the server holds it, up to its
-- resource version, which an update of the object and one of the status change and no other call. The
-- pool is `pool`, and the worker of every pod answers at `endpoint`.
pub record IsCooperative {W A : Type 0} (clients : Clients W A) (view : W → Sandbox) (pool : Pool A)
    (endpoint : String) : Type 0 where
  pub get :
      (w : W)
      → Ends
          (clients.kube.get_sandbox (view w).meta.namespace (view w).meta.name w)
          (λ v s. (view v ≡ view w) × ((version : String) × (s ≡ with_version version (view w))))
  pub update :
      (w : W) (s : Sandbox)
      → IsSameObject s.meta (view w).meta
      → Ends (clients.kube.update_sandbox s w) (λ v _. view v ≡ record (view w) {
        meta = record s.meta { resource_version = (view w).meta.resource_version };
      })
  pub update_status :
      (w : W) (s : Sandbox)
      → IsSameObject s.meta (view w).meta
      → Ends (clients.kube.update_sandbox_status s w) (λ v o.
        (view v ≡ record (view w) { status = s.status })
        × ((version : String) × (o ≡ with_version version (view v))))
  pub get_pool :
      (w : W)
      → Ends
          (clients.kube.get_pool (view w).meta.namespace (view w).spec.pool_ref w)
          (λ v p. (p ≡ pool) × (view v ≡ view w))
  pub get_pod :
      (w : W) (name : String)
      → Ends
          (clients.kube.get_pod (view w).meta.namespace name w)
          (λ v pod. (clients.endpoint pod ≡ ok endpoint) × (view v ≡ view w))
  pub reserve :
      (w : W) (ref : SlotRef)
      → Ends (clients.workers.reserve_slot endpoint ref w) (λ v _. view v ≡ view w)
  pub start :
      (w : W) (req : StartRequest)
      → Ends (clients.workers.start_sandbox endpoint req w) (λ v _. view v ≡ view w)
  pub added :
      (fs : List String)
      → clients.kube.contains_finalizer
          (clients.kube.add_finalizer fs sandbox_finalizer)
          sandbox_finalizer
        ≡ true

module _ {W T : Type 0} (P : W → T → Type 0) where
  pub Ends-on_world :
      (m : Action W Error T) (st : State W)
      → Ends (m st.world) P
      → Ends (on_world m st) (λ t x. P t.world x × (t.scheduler ≡ st.scheduler))
  unfolding on_world
  Ends-on_world m st = go (m st.world)
    where
      go :
          (r : W × Result Error T)
          → Ends r P
          → Ends (on_world (λ _. r) st) (λ t x. P t.world x × (t.scheduler ≡ st.scheduler))
      go (w, ok x) h = (h, refl)
      go (w, err e) h = h

module _ {W A : Type 0} (clients : Clients W A) (strategy : Strategy) (view : W → Sandbox)
    (pool : Pool A) (endpoint : String)
    (cooperative : IsCooperative clients view pool endpoint) where
  -- The server holds `s`, and the scheduler is that of `st`.
  abbrev pub Holds : State W → Sandbox → State W → Type 0
  Holds st s t = (view t.world ≡ s) × (t.scheduler ≡ st.scheduler)

  abbrev pub Written : Sandbox → State W → State W → Type 0
  Written s st = Holds st (record (view st.world) { status = desired_status clients strategy s })

  -- After a call that read the sandbox, or wrote its status.
  abbrev pub Got : W → W → Sandbox → Type 0
  Got w v o = (view v ≡ view w) × ((version : String) × (o ≡ with_version version (view w)))

  abbrev pub Read : State W → State W → Sandbox → Type 0
  Read st t o = Got st.world t.world o × (t.scheduler ≡ st.scheduler)

  abbrev Sent : SandboxStatus → State W → State W → Sandbox → Type 0
  Sent status st t o = Holds st (record (view st.world) { status = status }) t

  update_status-Ends :
      (s : Sandbox) (st : State W)
      → IsSameObject s.meta (view st.world).meta
      → Ends (update_status clients strategy s st) (Sent s.status st)
  unfolding update_status
  update_status-Ends s st same =
      let call = clients.kube.update_sandbox_status s in
      let Post : W → Sandbox → Type 0 =
        λ v o. view v ≡ record (view st.world) { status = s.status } in
      let sent =
        Ends-weaken _ Post (call st.world) (cooperative.update_status st.world s same)
          (λ v o h. h.0) in
      let wrapped = Ends-wrap Post (context "update Sandbox status") call st.world sent in
      Ends-on_world Post (wrap (context "update Sandbox status") call) st wrapped

  pub get_sandbox-Ends :
      (namespace name : String) (w : W)
      → (view w).meta.namespace ≡ namespace
      → (view w).meta.name ≡ name
      → Ends (clients.kube.get_sandbox namespace name w) (Got w)
  get_sandbox-Ends namespace name w p q =
      subst (λ n. Ends (clients.kube.get_sandbox n name w) (Got w)) p
        (subst (λ n. Ends (clients.kube.get_sandbox (view w).meta.namespace n w) (Got w)) q
          (cooperative.get w))

  get_current-Ends :
      (s : Sandbox) (st : State W)
      → IsSameObject s.meta (view st.world).meta
      → Ends (get_current clients strategy s st) (Read st)
  unfolding get_current
  get_current-Ends s st same =
      let call = clients.kube.get_sandbox s.meta.namespace s.meta.name in
      let label = context "get current Sandbox before status update" in
      Ends-on_world (Got st.world) (wrap label call) st (
        Ends-wrap (Got st.world) label call st.world
          (get_sandbox-Ends s.meta.namespace s.meta.name st.world (sym same.0) (sym same.1)))

  sync_current-Ends :
      (s : Sandbox) (version : String) (st : State W)
      → Ends
          (sync_current clients strategy s (with_version version (view st.world)) st)
          (λ t _. Written s st t)
  unfolding sync_current
  sync_current-Ends s version st =
      let current = with_version version (view st.world) in
      let desired = desired_status clients strategy s in
      let sent = record current { status = desired } in
      let write = update_status clients strategy sent in
      let keep : Sandbox → Step W Sandbox =
        λ o. pure (record s { meta = o.meta; status = o.status }) in
      let Post : State W → Sandbox → Type 0 = λ t _. Written s st t in
      elim (Bool-cases (current.status == desired)) [
        | inl k ↦
            let equal : (view st.world).status ≡ desired = ground arith in
            Ends-if_true Post Post (current.status == desired) (keep current) (write >>= keep) st k
              (unfold pure in (ap (λ x. record (view st.world) { status = x }) equal, refl))
        | inr k ↦
            Ends-if_false Post Post (current.status == desired) (keep current) (write >>= keep) st k
              (Ends-bind (Sent desired st) Post write keep st
                (update_status-Ends sent st (refl, refl, refl)) (λ t o h. unfold pure in h))
      ]

  pub sync_status-Ends :
      (s : Sandbox) (st : State W)
      → IsSameObject s.meta (view st.world).meta
      → Ends (sync_status clients strategy s st) (λ t _. Written s st t)
  unfolding sync_status
  sync_status-Ends s st same =
      let Post : State W → Sandbox → Type 0 = λ t _. Written s st t in
      Ends-bind (Read st) Post (get_current clients strategy s) (sync_current clients strategy s) st
        (get_current-Ends s st same)
        (λ t o h.
          let version = h.0.1.0 in
          let same_object : with_version version (view t.world) ≡ o =
            ap (with_version version) h.0.0 ∙ sym h.0.1.1 in
          let Later : State W → Sandbox → Type 0 = λ u _. Written s t u in
          Ends-weaken Later Post (sync_current clients strategy s o t)
            (subst (λ c. Ends (sync_current clients strategy s c t) Later) same_object
              (sync_current-Ends s version t))
            (λ u _ g. (
              g.0
                  ∙ ap (λ (x : Sandbox). record x { status = desired_status clients strategy s })
                      h.0.0,
              g.1 ∙ h.1,
            )))

  pub finish-Ends :
      (s : Sandbox) (after : Requeue) (st : State W)
      → IsSameObject s.meta (view st.world).meta
      → Ends (finish clients strategy s after st) (λ t n. Written s st t × (n ≡ after))
  unfolding finish
  finish-Ends s after st same =
      Ends-bind (λ t _. Written s st t) (λ t n. Written s st t × (n ≡ after))
        (sync_status clients strategy s) (λ _. pure after) st (sync_status-Ends s st same)
        (λ t o h. unfold pure in (h, refl))
