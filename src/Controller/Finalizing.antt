-- ===== src/Controller/Finalizing.antt =====
-- internal/controller/sandbox_controller.go: when a sandbox loses its finalizer.
use sandbox_fleet.Base.{
  String, Bool, true, false, not, ◌≡◌, refl, sym, ap, subst, ◌∙◌, ◌⊎◌, inl, inr, Option, none, some,
  List, if◌then◌else◌, arith, string_key,
}
use sandbox_fleet.Base.Int.{ℤ}
use sandbox_fleet.Base.Map.{lookup-delete}
use sandbox_fleet.Base.Result.{Result, ok, err}
use sandbox_fleet.Base.Action.{wrap, pure, ◌>>=◌, bind-rule}
use sandbox_fleet.Base.Action.Keeps.{Keeps, keeps_rules}
use sandbox_fleet.Scheduler.Types.{Strategy, no_capacity, Assignment as SchedulerAssignment}
use sandbox_fleet.Scheduler.Ops.{Scheduler, release, free_slot, get}
use sandbox_fleet.Worker.Types.{SlotRef}
use sandbox_fleet.Controller.Objects.{
  Error, context, scheduling, Sandbox, Assignment, stopping, Pool,
}
use sandbox_fleet.Controller.Clients.{Clients, resolve_worker_endpoint}
use sandbox_fleet.Controller.Sandbox.{
  State, Step, Requeue, finish, desired_status, on_world, sandbox_finalizer, slot_ref, sync_status,
  unset_finalizer, drop_finalizer, clean_worker, delete_from, delete_placed, sync_delete,
  add_finalizer, sync_scheduled, sync_placed, sync_assign, sync_start, assigned, on_worker,
  reconcile_live, reconcile_sandbox, set_phase, no_requeue,
}
use sandbox_fleet.Controller.Keeping.{
  IsUntouched, OfWorld, step_rules, finish-Keeps, reserved_slot-Keeps,
  resolve_worker_endpoint-Keeps, sync_status-Keeps,
}
use sandbox_fleet.Controller.Synced.{
  on_world-ok, IsSameObject, AnswersFor, IsSynced, sync_status-IsSynced,
}

-- A property that an action keeps holds in the state that it leaves.
kept_to :
    {W T : Type 0} (P : W → Type 0) (m : Step W T) (st t : State W) (r : Result Error T)
    → Keeps (OfWorld P) m
    → m st ≡ (t, r)
    → P st.world
    → P t.world
kept_to P m st t r k e h = subst (λ x. P x.0.world) e (k.at st h)

get-release : (t : Scheduler) (uid : String) → get (release t uid) uid ≡ none
unfolding get release free_slot
get-release t uid = ground (arith, lookup-delete uid uid t.assignments)

-- What the clients are to do. `Finalized` is whether the object of the server has the finalizer, which
-- an update with it keeps and no other call changes; `holder` is the sandbox that holds the slot of the
-- worker at an endpoint. A successful ReleaseSlot frees the slot.
pub record IsLawful {W A : Type 0} (clients : Clients W A) (Finalized : W → Type 0)
    (holder : W → String → ℤ → String) : Type 0 where
  pub untouched : IsUntouched clients Finalized
  pub reserve :
      (endpoint : String) (ref : SlotRef)
      → Keeps Finalized (clients.workers.reserve_slot endpoint ref)
  pub release :
      (endpoint : String) (ref : SlotRef)
      → Keeps Finalized (clients.workers.release_slot endpoint ref)
  pub update :
      (s : Sandbox)
      → clients.kube.contains_finalizer s.meta.finalizers sandbox_finalizer ≡ true
      → Keeps Finalized (clients.kube.update_sandbox s)
  pub added :
      (fs : List String)
      → clients.kube.contains_finalizer
          (clients.kube.add_finalizer fs sandbox_finalizer)
          sandbox_finalizer
        ≡ true
  pub freed :
      (w v : W) (endpoint : String) (ref : SlotRef)
      → clients.workers.release_slot endpoint ref w ≡ (v, ok tt)
      → holder v endpoint ref.slot_id ≡ ""
  pub stays_free :
      (s : Sandbox) (endpoint : String) (id : ℤ)
      → Keeps (λ w. holder w endpoint id ≡ "") (clients.kube.update_sandbox s)

module _ {W A : Type 0} (clients : Clients W A) (strategy : Strategy) (Finalized : W → Type 0)
    (holder : W → String → ℤ → String) (lawful : IsLawful clients Finalized holder) where
  -- The slot of an assignment is free, at the endpoint of its worker.
  abbrev pub HasFreeSlot : Sandbox → Option Assignment → W → Type 0
  HasFreeSlot s none w = Unit
  HasFreeSlot s (some a) w =
      (endpoint : String) × (v : W) × ((resolve_worker_endpoint clients s.meta.namespace a.worker
          v).1
        ≡ ok endpoint)
      × (holder w endpoint a.slot_id ≡ "")

  -- No trace of the sandbox is left in the scheduler and on its worker.
  pub record IsClean (s : Sandbox) (st : State W) : Type 0 where
    pub unassigned : get st.scheduler s.meta.uid ≡ none
    pub slot : HasFreeSlot s s.status.assignment st.world

  abbrev pub IsSafe : Sandbox → State W → Type 0
  IsSafe s st = Finalized st.world ⊎ IsClean s st

  HasFreeSlot-stays :
      (s o : Sandbox) (a : Option Assignment)
      → Keeps (HasFreeSlot s a) (clients.kube.update_sandbox o)
  HasFreeSlot-stays s o none = record { at = λ w h. h }
  HasFreeSlot-stays s o (some a) = record {
    at = λ w h. (h.0, h.1, h.2, (lawful.stays_free o h.0 a.slot_id).at w h.3);
  }

  IsClean-stays :
      (s o : Sandbox) (f : Error → Error)
      → Keeps (IsClean s) (on_world (wrap f (clients.kube.update_sandbox o)))
  unfolding on_world wrap
  IsClean-stays s o f = record {
    at = λ st h. record {
      unassigned = h.unassigned;
      slot = (HasFreeSlot-stays s o s.status.assignment).at st.world h.slot;
    };
  }

  unset_finalizer-Keeps : (s o : Sandbox) → Keeps (IsClean s) (unset_finalizer clients strategy o)
  unfolding unset_finalizer
  unset_finalizer-Keeps s o = search (keeps_rules, IsClean-stays)

  -- The rest of syncDelete, for a sandbox whose slot is free: `o` is the copy that is at hand.
  drop_finalizer-IsClean :
      (s o : Sandbox) (st : State W)
      → o.meta.uid ≡ s.meta.uid
      → HasFreeSlot s s.status.assignment st.world
      → IsClean s (drop_finalizer clients strategy o st).0
  unfolding drop_finalizer
  drop_finalizer-IsClean s o st same free =
      (unset_finalizer-Keeps s o).at (record st { scheduler = release st.scheduler o.meta.uid })
        (record {
          unassigned =
              subst (λ uid. get (release st.scheduler uid) s.meta.uid ≡ none) (sym same)
                (get-release st.scheduler s.meta.uid);
          slot = free;
        })

  clean_worker-IsSafe :
      (s o : Sandbox) (a : Assignment) (endpoint : String) (v : W) (st : State W)
      → o.meta.uid ≡ s.meta.uid
      → s.status.assignment ≡ some a
      → (resolve_worker_endpoint clients s.meta.namespace a.worker v).1 ≡ ok endpoint
      → Finalized st.world
      → IsSafe s (clean_worker clients strategy o a (ok endpoint) st).0
  unfolding clean_worker
  clean_worker-IsSafe s o a endpoint v st same placed resolved h =
      let ref = slot_ref clients strategy o a in
      let stop : Step W (Unit {0}) =
        on_world (wrap (context "stop Sandbox") (clients.workers.stop_sandbox endpoint ref)) in
      let free : Step W (Unit {0}) =
        on_world
          (wrap (context "release Sandbox Slot") (clients.workers.release_slot endpoint ref)) in
      let Safe : State W × Result Error Requeue → Type 0 = λ r. IsSafe s r.0 in
      let stop-Keeps : Keeps (OfWorld Finalized) stop =
        search (step_rules, lawful.untouched.stop_sandbox) in
      let free-Keeps : Keeps (OfWorld Finalized) free = search (step_rules, lawful.release) in
      bind-rule Safe stop (λ _. free >>= λ _. drop_finalizer clients strategy o) st
        (λ t x k.
          let g = kept_to Finalized stop st t (ok x) stop-Keeps k h in
          bind-rule Safe free (λ _. drop_finalizer clients strategy o) t
            (λ t' y k'.
              let done =
                on_world-ok (context "release Sandbox Slot")
                  (clients.workers.release_slot endpoint ref) t t' tt k' in
              inr (
                drop_finalizer-IsClean s o t' same (
                  subst (λ b. HasFreeSlot s b t'.world) (sym placed)
                    (endpoint, v, resolved, lawful.freed t.world t'.world endpoint ref done.0))))
            (λ t' e k'. inl (kept_to Finalized free t t' (err e) free-Keeps k' g)))
        (λ t e k. inl (kept_to Finalized stop st t (err e) stop-Keeps k h))

  resolved-IsSafe :
      (s o : Sandbox) (a : Assignment) (v : W) (st : State W) (r : Result Error String)
      → o.meta.uid ≡ s.meta.uid
      → s.status.assignment ≡ some a
      → (resolve_worker_endpoint clients s.meta.namespace a.worker v).1 ≡ r
      → Finalized st.world
      → IsSafe s (clean_worker clients strategy o a r st).0
  resolved-IsSafe s o a v st (ok endpoint) same placed resolved h =
      clean_worker-IsSafe s o a endpoint v st same placed resolved h
  resolved-IsSafe s o a v st (err e) same placed resolved h = unfold clean_worker in inl h

  delete_from-IsSafe :
      (s o : Sandbox) (a : Assignment) (st : State W)
      → IsSameObject o.meta s.meta
      → s.status.assignment ≡ some a
      → Finalized st.world
      → IsSafe s (delete_from clients strategy o (some a) st).0
  unfolding delete_from
  delete_from-IsSafe s o a st same placed h =
      let resolve = λ (namespace : String). resolve_worker_endpoint clients namespace a.worker in
      let found : resolve s.meta.namespace st.world ≡ resolve o.meta.namespace st.world =
        ap (λ n. resolve n st.world) (sym same.0) in
      let seen = resolve o.meta.namespace st.world in
      resolved-IsSafe s o a st.world (record st { world = seen.0 }) seen.1 same.2 placed
        (ap (λ r. r.1) found)
        ((resolve_worker_endpoint-Keeps clients strategy Finalized lawful.untouched o.meta.namespace
            a.worker).at
          st.world h)

  -- Once the status was written; `o` is the answer of the server.
  synced-IsSafe :
      (s o : Sandbox) (a : Assignment) (st : State W)
      → IsSameObject o.meta s.meta
      → s.status.assignment ≡ some a
      → o.status.assignment ≡ some a
      → Finalized st.world
      → IsSafe s (delete_from clients strategy o o.status.assignment st).0
  synced-IsSafe s o a st same placed answered h =
      subst (λ b. IsSafe s (delete_from clients strategy o b st).0) (sym answered)
        (delete_from-IsSafe s o a st same placed h)

  delete_placed-IsSafe :
      (s : Sandbox) (st : State W) (b : Option Assignment)
      → AnswersFor clients s.meta
      → s.status.assignment ≡ b
      → Finalized st.world
      → IsSafe s (delete_placed clients strategy s b st).0
  unfolding delete_placed
  delete_placed-IsSafe s st none answers placed h =
      inr
        (drop_finalizer-IsClean s s st refl (subst (λ b. HasFreeSlot s b st.world) (sym placed) tt))
  delete_placed-IsSafe s st (some a) answers placed h =
      let sent = set_phase clients strategy stopping s in
      let write = sync_status clients strategy sent in
      bind-rule (λ r. IsSafe s r.0) write (λ o. delete_from clients strategy o o.status.assignment)
        st
        (λ t o k.
          let synced =
            subst (λ r. IsSynced clients strategy sent answers r.1) k
              (sync_status-IsSynced clients strategy sent answers st) in
          synced-IsSafe s o a t synced.0 placed
            (unfold desired_status in (ap (λ x. x.assignment) synced.1 ∙ placed))
            (kept_to Finalized write st t (ok o)
              (sync_status-Keeps clients strategy Finalized lawful.untouched sent) k h))
        (λ t e k. inl (
          kept_to Finalized write st t (err e)
            (sync_status-Keeps clients strategy Finalized lawful.untouched sent) k h))

  -- The methods for a sandbox that is not deleted.
  done-Keeps :
      (s : Sandbox) (after : Requeue) → Keeps (OfWorld Finalized) (finish clients strategy s after)
  done-Keeps s after = finish-Keeps clients strategy Finalized lawful.untouched s after

  assigned-Keeps :
      (s : Sandbox) (r : Result Error SchedulerAssignment)
      → Keeps (OfWorld Finalized) (assigned clients strategy s r)
  unfolding assigned
  assigned-Keeps s (ok a) = search done-Keeps
  assigned-Keeps s (err (scheduling no_capacity)) = search done-Keeps
  assigned-Keeps s (err e) = search keeps_rules

  sync_assign-Keeps :
      (s : Sandbox) (pool : Pool A)
      → Keeps (OfWorld Finalized) (sync_assign clients strategy s pool)
  unfolding sync_assign
  sync_assign-Keeps s pool = search (step_rules, done-Keeps, assigned-Keeps)

  on_worker-Keeps :
      (s : Sandbox) (a : Assignment) (r : Result Error String)
      → Keeps (OfWorld Finalized) (on_worker clients strategy s a r)
  unfolding on_worker
  on_worker-Keeps s a (err e) = search done-Keeps
  on_worker-Keeps s a (ok endpoint) =
      let rest = reserved_slot-Keeps clients strategy Finalized lawful.untouched s endpoint in
      search (step_rules, lawful.reserve, rest)

  sync_start-Keeps :
      (s : Sandbox) (a : Assignment) → Keeps (OfWorld Finalized) (sync_start clients strategy s a)
  unfolding sync_start
  sync_start-Keeps s a =
      let resolve = resolve_worker_endpoint-Keeps clients strategy Finalized lawful.untouched in
      search (step_rules, resolve, on_worker-Keeps)

  sync_placed-Keeps :
      (s : Sandbox) (pool : Pool A) (a : Option Assignment)
      → Keeps (OfWorld Finalized) (sync_placed clients strategy s pool a)
  unfolding sync_placed
  sync_placed-Keeps s pool none = sync_assign-Keeps s pool
  sync_placed-Keeps s pool (some a) = sync_start-Keeps s a

  sync_scheduled-Keeps :
      (s : Sandbox) (pool : Pool A)
      → Keeps (OfWorld Finalized) (sync_scheduled clients strategy s pool)
  unfolding sync_scheduled
  sync_scheduled-Keeps s pool = search (step_rules, done-Keeps, sync_placed-Keeps)

  add_finalizer-Keeps : (s : Sandbox) → Keeps (OfWorld Finalized) (add_finalizer clients strategy s)
  unfolding add_finalizer
  add_finalizer-Keeps s = search (step_rules, lawful.update, lawful.added)

  if-IsSafe :
      (s : Sandbox) (st : State W) (b : Bool) (m n : Step W Requeue)
      → IsSafe s (m st).0
      → IsSafe s (n st).0
      → IsSafe s ((if b then m else n) st).0
  if-IsSafe s st true m n km kn = km
  if-IsSafe s st false m n km kn = kn

  sync_delete-IsSafe :
      (s : Sandbox) (st : State W)
      → AnswersFor clients s.meta
      → Finalized st.world
      → IsSafe s (sync_delete clients strategy s st).0
  unfolding sync_delete
  sync_delete-IsSafe s st answers h =
      if-IsSafe s st (not (clients.kube.contains_finalizer s.meta.finalizers sandbox_finalizer))
        (pure no_requeue) (delete_placed clients strategy s s.status.assignment)
        (unfold pure in inl h) (delete_placed-IsSafe s st s.status.assignment answers refl h)

  reconcile_live-Keeps :
      (s : Sandbox) → Keeps (OfWorld Finalized) (reconcile_live clients strategy s)
  unfolding reconcile_live
  reconcile_live-Keeps s =
      search (step_rules, add_finalizer-Keeps, lawful.untouched.get_pool, sync_scheduled-Keeps)
        depth 9

  -- A reconcile takes the finalizer of a sandbox away only when the scheduler has no assignment of it
  -- and the slot that its status names is free at the endpoint of its worker, whatever else the calls
  -- answer. The clients are lawful, and the server answers for the sandbox.
  pub reconcile_sandbox-IsSafe :
      (s : Sandbox) (st : State W)
      → AnswersFor clients s.meta
      → Finalized st.world
      → IsSafe s (reconcile_sandbox clients strategy s st).0
  unfolding reconcile_sandbox
  reconcile_sandbox-IsSafe s st answers h =
      if-IsSafe s st s.meta.deleting (sync_delete clients strategy s)
        (reconcile_live clients strategy s) (sync_delete-IsSafe s st answers h)
        (inl ((reconcile_live-Keeps s).at st h))
