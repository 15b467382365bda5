-- ===== src/Controller/Placing.antt =====
-- internal/controller/sandbox_controller.go: the first two reconciles of a new sandbox, where
-- every call succeeds: it gets the finalizer and a slot.
use sandbox_fleet.Base.{
  String, Bool, true, false, not, ◌≡◌, refl, sym, ap, subst, ◌∙◌, some, string_key,
}
use sandbox_fleet.Base.Result.{Result, ok}
use sandbox_fleet.Base.Action.{wrap, pure, map_error, ◌>>=◌}
use sandbox_fleet.Base.Action.Ends.{
  Ends, Ends-weaken, Ends-if_true, Ends-if_false, Ends-wrap, Ends-bind, Ends-attempt,
}
use sandbox_fleet.Scheduler.Types.{
  Strategy, Error as SchedulerError, Assignment as SchedulerAssignment,
}
use sandbox_fleet.Scheduler.Ops.{Scheduler, assign}
use sandbox_fleet.Controller.Objects.{
  Error, context, scheduling, Sandbox, Assignment, Pool, sandbox_status_key,
}
use sandbox_fleet.Controller.Clients.{Clients, is_condition_true}
use sandbox_fleet.Controller.Sandbox.{
  State, Step, Requeue, no_requeue, sandbox_finalizer, on_world, desired_status, has_slot_profile,
  assign_request, finish, assigned_sandbox, assigned, sync_assign, sync_placed, sync_scheduled,
  add_finalizer, sync_delete, found, reconcile_live, reconcile, reconcile_sandbox,
}
use sandbox_fleet.Controller.Synced.{IsSameObject}
use sandbox_fleet.Controller.Cooperative.{
  IsCooperative, with_version, Ends-on_world, Holds, Written, Got, Read, get_sandbox-Ends,
  finish-Ends,
}

abbrev pub placement : SchedulerAssignment → Assignment
placement a = record { worker = a.worker.name; slot_id = a.slot_id; slot_profile = a.slot_profile }

module _ {W A : Type 0} (clients : Clients W A) (strategy : Strategy) (view : W → Sandbox)
    (pool : Pool A) (endpoint : String)
    (cooperative : IsCooperative clients view pool endpoint) where
  abbrev pub has_finalizer : Sandbox → Bool
  has_finalizer s = clients.kube.contains_finalizer s.meta.finalizers sandbox_finalizer

  -- A reconcile goes on with a copy of what the server holds.
  pub reconcile-Ends :
      (namespace name : String) (st : State W) (Q : State W → Requeue → Type 0)
      → (view st.world).meta.namespace ≡ namespace
      → (view st.world).meta.name ≡ name
      → ((t : State W) (version : String)
          → Holds clients strategy view pool endpoint cooperative st (view st.world) t
          → Ends (reconcile_sandbox clients strategy (with_version version (view st.world)) t) Q)
      → Ends (reconcile clients strategy namespace name st) Q
  unfolding reconcile found
  reconcile-Ends namespace name st Q p q rest =
      let call = clients.kube.get_sandbox namespace name in
      Ends-attempt (Read clients strategy view pool endpoint cooperative st) Q (on_world call)
        (found clients strategy) st
        (Ends-on_world (Got clients strategy view pool endpoint cooperative st.world) call st (
          get_sandbox-Ends clients strategy view pool endpoint cooperative namespace name st.world p
            q))
        (λ t o h.
          subst (λ c. Ends (reconcile_sandbox clients strategy c t) Q) (sym h.0.1.1)
            (rest t h.0.1.0 (h.0.0, h.1)))

  -- The object with the finalizer.
  abbrev pub finalized : Sandbox → Sandbox
  finalized s = record s {
    meta = record s.meta {
      finalizers = clients.kube.add_finalizer s.meta.finalizers sandbox_finalizer;
    };
  }

  abbrev pub Finalizes : Sandbox → State W → State W → Requeue → Type 0
  Finalizes v st t n =
      Holds clients strategy view pool endpoint cooperative st (finalized v) t × (n ≡ no_requeue)

  add_finalizer-Ends :
      (v : Sandbox) (version : String) (st : State W)
      → view st.world ≡ v
      → Ends (add_finalizer clients strategy (with_version version v) st) (Finalizes v st)
  unfolding add_finalizer
  add_finalizer-Ends v version st e =
      let sent = finalized (with_version version v) in
      let call = clients.kube.update_sandbox sent in
      let Post : W → Sandbox → Type 0 = λ w _. view w ≡ finalized v in
      let Done : State W → Sandbox → Type 0 =
        λ t o. Post t.world o × (t.scheduler ≡ st.scheduler) in
      let label = context "add Sandbox finalizer" in
      let same : IsSameObject sent.meta (view st.world).meta = (
        ap (λ (x : Sandbox). x.meta.namespace) (sym e),
        ap (λ (x : Sandbox). x.meta.name) (sym e),
        ap (λ (x : Sandbox). x.meta.uid) (sym e),
      ) in
      let with_meta : Sandbox → Sandbox =
        λ x. record x { meta = record sent.meta { resource_version = x.meta.resource_version } } in
      let Given : W → Sandbox → Type 0 = λ w _. view w ≡ with_meta (view st.world) in
      let updated : Ends (call st.world) Post =
        Ends-weaken Given Post (call st.world) (cooperative.update st.world sent same)
          (λ w o h. h ∙ ap with_meta e) in
      Ends-bind Done (Finalizes v st) (on_world (wrap label call)) (λ _. pure no_requeue) st
        (Ends-on_world Post (wrap label call) st (Ends-wrap Post label call st.world updated))
        (λ t o h. unfold pure in (h, refl))

  -- The first reconcile adds the finalizer.
  pub finalizing :
      (v : Sandbox) (version : String) (st : State W)
      → view st.world ≡ v
      → v.meta.deleting ≡ false
      → has_finalizer v ≡ false
      → Ends (reconcile_sandbox clients strategy (with_version version v) st) (Finalizes v st)
  unfolding reconcile_sandbox reconcile_live
  finalizing v version st e live bare =
      let s = with_version version v in
      Ends-if_false (Finalizes v st) (Finalizes v st) v.meta.deleting
        (sync_delete clients strategy s) (reconcile_live clients strategy s) st live
        (Ends-if_true (Finalizes v st) (Finalizes v st) (not (has_finalizer v))
          (add_finalizer clients strategy s) _ st (ap not bare) (add_finalizer-Ends v version st e))

  -- A reconcile of a sandbox that has the finalizer, where the pool is ready.
  pub scheduled :
      (v : Sandbox) (version : String) (st : State W) (Q : State W → Requeue → Type 0)
      → view st.world ≡ v
      → v.meta.deleting ≡ false
      → has_finalizer v ≡ true
      → is_condition_true clients.kube pool.status.conditions "Ready" ≡ true
      → ((t : State W)
          → Holds clients strategy view pool endpoint cooperative st v t
          → Ends
              (sync_placed clients strategy (with_version version v) pool v.status.assignment t)
              Q)
      → Ends (reconcile_sandbox clients strategy (with_version version v) st) Q
  unfolding reconcile_sandbox reconcile_live sync_scheduled
  scheduled v version st Q e live guarded ready rest =
      let s = with_version version v in
      let call = clients.kube.get_pool v.meta.namespace v.spec.pool_ref in
      let label = context "get SandboxPool" in
      let get : Step W (Pool A) = on_world (wrap label call) in
      let Post : W → Pool A → Type 0 = λ w p. (p ≡ pool) × (view w ≡ v) in
      let Read : State W → Pool A → Type 0 = λ t p. Post t.world p × (t.scheduler ≡ st.scheduler) in
      let read : Ends (call st.world) Post =
        subst
          (λ (x : Sandbox).
            Ends (clients.kube.get_pool x.meta.namespace x.spec.pool_ref st.world)
              (λ w p. (p ≡ pool) × (view w ≡ x)))
          e (cooperative.get_pool st.world) in
      Ends-if_false Q Q v.meta.deleting (sync_delete clients strategy s)
        (reconcile_live clients strategy s) st live
        (Ends-if_false Q Q (not (has_finalizer v)) (add_finalizer clients strategy s)
          (get >>= sync_scheduled clients strategy s) st (ap not guarded)
          (Ends-bind Read Q get (sync_scheduled clients strategy s) st
            (Ends-on_world Post (wrap label call) st (Ends-wrap Post label call st.world read))
            (λ t p h.
              subst (λ x. Ends (sync_scheduled clients strategy s x t) Q) (sym h.0.0)
                (Ends-if_false Q Q
                  (not (is_condition_true clients.kube pool.status.conditions "Ready")) _
                  (sync_placed clients strategy s pool v.status.assignment) t (ap not ready)
                  (rest t (h.0.1, h.1))))))

  -- What the server and the scheduler hold once the sandbox has the assignment `a`, or runs with it.
  pub record IsPlaced (v : Sandbox) (a : SchedulerAssignment) (scheduler : Scheduler) (t : State W)
      : Type 0 where
    pub meta : (view t.world).meta ≡ v.meta
    pub spec : (view t.world).spec ≡ v.spec
    pub placed : (view t.world).status.assignment ≡ some (placement a)
    pub scheduler_is : t.scheduler ≡ scheduler

  assigned-Ends :
      (v : Sandbox) (version : String) (st : State W) (a : SchedulerAssignment)
      → view st.world ≡ v
      → Ends
          (finish clients strategy
            (assigned_sandbox clients strategy (with_version version v) a)
            no_requeue
            st)
          (λ t n. IsPlaced v a st.scheduler t × (n ≡ no_requeue))
  assigned-Ends v version st a e =
      let s = assigned_sandbox clients strategy (with_version version v) a in
      let same : IsSameObject s.meta (view st.world).meta =
        unfold assigned_sandbox in
        (
          ap (λ (x : Sandbox). x.meta.namespace) (sym e),
          ap (λ (x : Sandbox). x.meta.name) (sym e),
          ap (λ (x : Sandbox). x.meta.uid) (sym e),
        ) in
      Ends-weaken
        (λ t n. Written clients strategy view pool endpoint cooperative s st t × (n ≡ no_requeue))
        (λ t n. IsPlaced v a st.scheduler t × (n ≡ no_requeue))
        (finish clients strategy s no_requeue st)
        (finish-Ends clients strategy view pool endpoint cooperative s no_requeue st same)
        (λ t n h. (
          record {
            meta = ap (λ (x : Sandbox). x.meta) h.0.0 ∙ ap (λ (x : Sandbox). x.meta) e;
            spec = ap (λ (x : Sandbox). x.spec) h.0.0 ∙ ap (λ (x : Sandbox). x.spec) e;
            placed =
                ap (λ (x : Sandbox). x.status.assignment) h.0.0
                ∙ unfold desired_status in unfold assigned_sandbox in refl;
            scheduler_is = h.0.1;
          },
          h.1,
        ))

  pub placing :
      (v : Sandbox) (version : String) (st : State W) (a : SchedulerAssignment)
      (scheduler : Scheduler)
      → view st.world ≡ v
      → has_slot_profile pool.spec.slot_profiles v.spec.slot_profile ≡ true
      → assign strategy st.scheduler (assign_request v) ≡ (scheduler, ok a)
      → Ends
          (sync_assign clients strategy (with_version version v) pool st)
          (λ t n. IsPlaced v a scheduler t × (n ≡ no_requeue))
  unfolding sync_assign
  placing v version st a scheduler e offered granted =
      let s = with_version version v in
      let Post : State W → Requeue → Type 0 = λ t n. IsPlaced v a scheduler t × (n ≡ no_requeue) in
      let answer : Scheduler × Result SchedulerError SchedulerAssignment
          → State W × Result Error Requeue =
        λ r.
          assigned clients strategy s (map_error scheduling r.1) (record st { scheduler = r.0 }) in
      Ends-if_false Post Post (not (has_slot_profile pool.spec.slot_profiles v.spec.slot_profile)) _
        _ st (ap not offered)
        (subst (λ r. Ends (answer r) Post) (sym granted)
          (unfold assigned in assigned-Ends v version (record st { scheduler = scheduler }) a e))
