-- ===== src/Controller/Started.antt =====
-- internal/controller/sandbox_controller.go: syncStart where every call succeeds.
use sandbox_fleet.Base.{
  String, false, ◌≡◌, refl, sym, ap, subst, ◌∙◌, some, ◌!=◌, arith, string_key,
}
use sandbox_fleet.Base.Result.{Result, ok}
use sandbox_fleet.Base.Action.{wrap, lift, attempt, ◌>>=◌}
use sandbox_fleet.Base.Action.Ends.{
  Ends, Ends-weaken, Ends-if_false, Ends-wrap, Ends-bind, Ends-attempt,
}
use sandbox_fleet.Scheduler.Types.{Strategy, Error as SchedulerError}
use sandbox_fleet.Scheduler.Ops.{Scheduler, restore}
use sandbox_fleet.Worker.Types.{SlotRef, ContainerSpec}
use sandbox_fleet.Controller.Objects.{Error, context, Sandbox, Assignment, running, Pool, Pod}
use sandbox_fleet.Controller.Clients.{Clients, resolve_worker_endpoint}
use sandbox_fleet.Controller.Sandbox.{
  State, Step, Requeue, pool_poll_interval, on_world, on_scheduler, desired_status,
  assignment_from_sandbox, slot_ref, finish, running_sandbox, sync_start, on_worker, reserved_slot,
  start_container, start_cold, started,
}
use sandbox_fleet.Controller.Synced.{IsSameObject}
use sandbox_fleet.Controller.Cooperative.{
  IsCooperative, with_version, Ends-on_world, Written, finish-Ends,
}

module _ {W A : Type 0} (clients : Clients W A) (strategy : Strategy) (view : W → Sandbox)
    (pool : Pool A) (endpoint : String)
    (cooperative : IsCooperative clients view pool endpoint) where
  -- The server holds the sandbox as running, and nothing else changed.
  pub record IsRunning (v : Sandbox) (scheduler : Scheduler) (t : State W) : Type 0 where
    pub meta : (view t.world).meta ≡ v.meta
    pub spec : (view t.world).spec ≡ v.spec
    pub placed : (view t.world).status.assignment ≡ v.status.assignment
    pub phase : (view t.world).status.phase ≡ running
    pub scheduler_is : t.scheduler ≡ scheduler

  abbrev pub Runs : Sandbox → Scheduler → State W → Requeue → Type 0
  Runs v scheduler t n = IsRunning v scheduler t × (n ≡ pool_poll_interval)

  -- Each lemma is about the rest of syncStart from one call on.
  started-Ends :
      (v : Sandbox) (version reason : String) (st : State W)
      → view st.world ≡ v
      → Ends
          (started clients strategy (with_version version v) reason (ok tt) st)
          (Runs v st.scheduler)
  unfolding started
  started-Ends v version reason st e =
      let s = running_sandbox clients strategy (with_version version v) in
      let same : IsSameObject s.meta (view st.world).meta =
        unfold running_sandbox in
        (
          ap (λ (x : Sandbox). x.meta.namespace) (sym e),
          ap (λ (x : Sandbox). x.meta.name) (sym e),
          ap (λ (x : Sandbox). x.meta.uid) (sym e),
        ) in
      Ends-weaken
        (λ t n.
          Written clients strategy view pool endpoint cooperative s st t × (n ≡ pool_poll_interval))
        (Runs v st.scheduler) (finish clients strategy s pool_poll_interval st)
        (finish-Ends clients strategy view pool endpoint cooperative s pool_poll_interval st same)
        (λ t n h. (
          record {
            meta = ap (λ (x : Sandbox). x.meta) h.0.0 ∙ ap (λ (x : Sandbox). x.meta) e;
            spec = ap (λ (x : Sandbox). x.spec) h.0.0 ∙ ap (λ (x : Sandbox). x.spec) e;
            placed =
                ap (λ (x : Sandbox). x.status.assignment) h.0.0
                ∙ unfold desired_status in unfold running_sandbox in refl;
            phase =
                ap (λ (x : Sandbox). x.status.phase) h.0.0
                ∙ unfold desired_status in unfold running_sandbox in refl;
            scheduler_is = h.0.1;
          },
          h.1,
        ))

  -- A call after which the server still holds the sandbox.
  abbrev Quiet : Sandbox → Scheduler → State W → Unit {0} → Type 0
  Quiet v scheduler t _ = (view t.world ≡ v) × (t.scheduler ≡ scheduler)

  start_container-Ends :
      (v : Sandbox) (version : String) (ref : SlotRef) (c : ContainerSpec) (st : State W)
      → view st.world ≡ v
      → Ends
          (start_container clients strategy (with_version version v) endpoint ref (some c) st)
          (Runs v st.scheduler)
  unfolding start_container
  start_container-Ends v version ref c st e =
      let s = with_version version v in
      let call = start_cold clients strategy s endpoint ref c in
      let Post : W → Unit {0} → Type 0 = λ w _. view w ≡ v in
      let cold : Ends (call st.world) Post =
        Ends-weaken (λ w _. view w ≡ view st.world) Post (call st.world)
          (unfold start_cold in cooperative.start st.world _) (λ w x h. h ∙ e) in
      Ends-attempt (Quiet v st.scheduler) (Runs v st.scheduler) (on_world call)
        (started clients strategy s "StartFailed") st (Ends-on_world Post call st cold)
        (λ t x h.
          subst (λ d. Ends (started clients strategy s "StartFailed" (ok tt) t) (Runs v d)) h.1
            (started-Ends v version "StartFailed" t h.0))

  reserved_slot-Ends :
      (v : Sandbox) (version : String) (ref : SlotRef) (c : ContainerSpec) (st : State W)
      → view st.world ≡ v
      → v.spec.from_snapshot ≡ ""
      → v.spec.container ≡ some c
      → Ends
          (reserved_slot clients strategy (with_version version v) endpoint ref (ok tt) st)
          (Runs v st.scheduler)
  unfolding reserved_slot
  reserved_slot-Ends v version ref c st e cold container =
      let s = with_version version v in
      let here : (v.spec.from_snapshot != "") ≡ false = ground arith in
      Ends-if_false (Runs v st.scheduler) (Runs v st.scheduler) (v.spec.from_snapshot != "") _
        (start_container clients strategy s endpoint ref v.spec.container) st here
        (subst
          (λ x. Ends (start_container clients strategy s endpoint ref x st) (Runs v st.scheduler))
          (sym container) (start_container-Ends v version ref c st e))

  on_worker-Ends :
      (v : Sandbox) (version : String) (b : Assignment) (c : ContainerSpec) (st : State W)
      → view st.world ≡ v
      → v.spec.from_snapshot ≡ ""
      → v.spec.container ≡ some c
      → Ends
          (on_worker clients strategy (with_version version v) b (ok endpoint) st)
          (Runs v st.scheduler)
  unfolding on_worker
  on_worker-Ends v version b c st e cold container =
      let s = with_version version v in
      let ref = slot_ref clients strategy s b in
      let call = clients.workers.reserve_slot endpoint ref in
      let Post : W → Unit {0} → Type 0 = λ w _. view w ≡ v in
      let reserve : Ends (call st.world) Post =
        Ends-weaken (λ w _. view w ≡ view st.world) Post (call st.world)
          (cooperative.reserve st.world ref) (λ w x h. h ∙ e) in
      Ends-attempt (Quiet v st.scheduler) (Runs v st.scheduler) (on_world call)
        (reserved_slot clients strategy s endpoint ref) st (Ends-on_world Post call st reserve)
        (λ t x h.
          subst (λ d. Ends (reserved_slot clients strategy s endpoint ref (ok tt) t) (Runs v d)) h.1
            (reserved_slot-Ends v version ref c t h.0 cold container))

  resolve-Ends :
      (v : Sandbox) (worker : String) (w : W)
      → view w ≡ v
      → Ends
          (resolve_worker_endpoint clients v.meta.namespace worker w)
          (λ w' x. (x ≡ endpoint) × (view w' ≡ v))
  unfolding resolve_worker_endpoint
  resolve-Ends v worker w e =
      let call = clients.kube.get_pod v.meta.namespace worker in
      let label = context "get Worker Pod" in
      let Found : W → Pod A → Type 0 =
        λ w' pod. (clients.endpoint pod ≡ ok endpoint) × (view w' ≡ v) in
      let Post : W → String → Type 0 = λ w' x. (x ≡ endpoint) × (view w' ≡ v) in
      let found : Ends (call w) Found =
        subst
          (λ (x : Sandbox).
            Ends (clients.kube.get_pod x.meta.namespace worker w)
              (λ w' pod. (clients.endpoint pod ≡ ok endpoint) × (view w' ≡ x)))
          e (cooperative.get_pod w worker) in
      Ends-bind Found Post (wrap label call) (λ pod. lift (clients.endpoint pod)) w
        (Ends-wrap Found label call w found)
        (λ w' pod h.
          unfold lift in subst (λ r. Ends {E = Error} (w', r) Post) (sym h.0) (refl, h.1))

  pub sync_start-Ends :
      (v : Sandbox) (version : String) (b : Assignment) (c : ContainerSpec) (st : State W)
      → view st.world ≡ v
      → v.spec.from_snapshot ≡ ""
      → v.spec.container ≡ some c
      → restore st.scheduler (assignment_from_sandbox v b) ≡ (st.scheduler, ok tt)
      → Ends (sync_start clients strategy (with_version version v) b st) (Runs v st.scheduler)
  unfolding sync_start
  sync_start-Ends v version b c st e cold container restored =
      let s = with_version version v in
      let label = context "restore Sandbox assignment" in
      let call : Scheduler → Scheduler × Result SchedulerError (Unit {0}) =
        λ d. restore d (assignment_from_sandbox s b) in
      let resolve = resolve_worker_endpoint clients v.meta.namespace b.worker in
      let Same : State W → Unit {0} → Type 0 = λ t _. t ≡ st in
      let Post : W → String → Type 0 = λ w x. (x ≡ endpoint) × (view w ≡ v) in
      let Found : State W → String → Type 0 =
        λ t x. Post t.world x × (t.scheduler ≡ st.scheduler) in
      let go_on : Step W Requeue = attempt (on_world resolve) >>= on_worker clients strategy s b in
      let first : Ends (wrap label (on_scheduler call) st) Same =
        subst (λ r. Ends (wrap label (on_scheduler (λ _. r)) st) Same) (sym restored)
          (unfold wrap in unfold on_scheduler in refl) in
      let second : Ends (go_on st) (Runs v st.scheduler) =
        Ends-attempt Found (Runs v st.scheduler) (on_world resolve) (on_worker clients strategy s b)
          st (Ends-on_world Post resolve st (resolve-Ends v b.worker st.world e))
          (λ t x h.
            subst (λ d. Ends (on_worker clients strategy s b (ok x) t) (Runs v d)) h.1
              (subst (λ y. Ends (on_worker clients strategy s b (ok y) t) (Runs v t.scheduler))
                (sym h.0.0) (on_worker-Ends v version b c t h.0.1 cold container))) in
      Ends-bind Same (Runs v st.scheduler) (wrap label (on_scheduler call)) (λ _. go_on) st first
        (λ t x h. subst (λ u. Ends (go_on u) (Runs v st.scheduler)) (sym h) second)
