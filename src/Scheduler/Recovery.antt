-- ===== src/Scheduler/Recovery.antt =====
-- What a stored assignment is after Restore, Release and UpdateWorker.
use sandbox_fleet.Base.{
  String, ◌≡◌, ◌≢◌, ◌↔◌, ◌⊎◌, inl, inr, Option, none, some, if◌then◌else◌, ◌==◌, Option-cases,
  arith, string_key,
}
use sandbox_fleet.Base.Int.{ℤ, int_key}
use sandbox_fleet.Base.Map.{lookup, delete, lookup-insert, lookup-delete, lookup-Elem, Elem-lookup}
use sandbox_fleet.Base.Result.{ok, err}
use sandbox_fleet.Slot.{free, Info, state_key}
use sandbox_fleet.Scheduler.Types.{
  assignment_conflict, WorkerKey, WorkerState, Assignment, AssignRequest, Strategy, worker_key,
  assignment_key,
}
use sandbox_fleet.Scheduler.Ops.{
  Scheduler, update_worker, assign, record_assignment, restore_new, restore, free_slot, release,
  get,
}
use sandbox_fleet.Scheduler.Slots.{
  slot_at, slot_at-set_slot, slot_at-update_worker, lookup-overlay, claimed, first_claim,
  first_claim-Elem, first_claim_some,
}
use sandbox_fleet.Scheduler.Strategies.{IsHonest}
use sandbox_fleet.Scheduler.Calls.{get-assign, assign-uid}
use sandbox_fleet.Scheduler.Invariant.{Inv}

-- A slot that is in use and that the record gives to another sandbox.
abbrev pub IsForeign : String → Option Info → Type 0
IsForeign uid none = ⊥
IsForeign uid (some info) = (info.state ≢ free) × (info.sandbox_uid ≢ uid)

-- Restore of a sandbox without an assignment is refused, and then changes nothing, exactly when the
-- slot is known, not free and of another sandbox.
pub restore-conflict :
    (s : Scheduler) (a : Assignment)
    → get s a.sandbox_uid ≡ none
    → (restore s a ≡ (s, err assignment_conflict))
      ↔ IsForeign a.sandbox_uid (slot_at s a.worker a.slot_id)
unfolding restore restore_new get slot_at
restore-conflict s a fresh = ground arith

-- Restore of an assignment that is recorded already succeeds and changes nothing; restore of another
-- one for the same sandbox is refused and changes nothing.
pub restore_again :
    (s : Scheduler) (a current : Assignment)
    → get s a.sandbox_uid ≡ some current
    → restore s a ≡ (s, (if current == a then ok tt else err assignment_conflict))
unfolding restore get
restore_again s a current e = ground arith

-- A restored assignment is the one that Get returns.
pub get-restore :
    (s : Scheduler) (a : Assignment)
    → (restore s a).1 ≡ ok tt
    → get (restore s a).0 a.sandbox_uid ≡ some a
unfolding restore restore_new get record_assignment
get-restore s a e = ground (arith, lookup-insert a.sandbox_uid a.sandbox_uid a s.assignments)

-- Assign and then Restore of the assignment that it returned: Restore succeeds and changes nothing.
-- The state satisfies the invariant, and the strategy chooses among the candidates.
pub restore-assign :
    (strategy : Strategy) (s : Scheduler) (req : AssignRequest) (a : Assignment)
    → IsHonest strategy
    → Inv s
    → (assign strategy s req).1 ≡ ok a
    → restore (assign strategy s req).0 a ≡ ((assign strategy s req).0, ok tt)
restore-assign strategy s req a honest v e =
    let uid = assign-uid strategy s req a honest v e in
    let found = get-assign strategy s req a honest e in
    let t = (assign strategy s req).0 in ground (arith, restore_again t a a, uid, found)

-- Restore does not look at the other assignments: where the worker is not known, a sandbox without an
-- assignment is restored to a slot that another sandbox holds, and the invariant is lost.
pub restore_double :
    (s : Scheduler) (a b : Assignment) (v : String)
    → get s a.sandbox_uid ≡ none
    → lookup a.worker s.workers ≡ none
    → get s v ≡ some b
    → a.worker ≡ b.worker
    → a.slot_id ≡ b.slot_id
    → ((restore s a).1 ≡ ok tt) × ¬ Inv (restore s a).0
unfolding restore restore_new get record_assignment
restore_double s a b v fresh unknown held w i = (
  ground arith,
  λ inv. ground (
    arith,
    inv.exclusive a.sandbox_uid v a b,
    lookup-insert a.sandbox_uid a.sandbox_uid a s.assignments,
    lookup-insert v a.sandbox_uid a s.assignments,
  ),
)

first_claim-holder :
    (s : Scheduler) (u : String) (a : Assignment)
    → Inv s
    → get s u ≡ some a
    → first_claim a.worker a.slot_id s.assignments ≡ some u
unfolding get
first_claim-holder s u a v e = elim (Option-cases (first_claim a.worker a.slot_id s.assignments)) [
  | inl f ↦ absurd (first_claim_some s.assignments u a (Elem-lookup u a s.assignments e) f)
  | inr (w, f) ↦
      let (b, m, p, q) = first_claim-Elem a.worker a.slot_id s.assignments w f in
      ground (arith, v.exclusive w u b a (lookup-Elem w b s.assignments v.is_map m) e p q)
]

-- A report of a worker, under the invariant: a slot that a sandbox holds is reserved for that sandbox
-- if it is reported free and kept as reported if not, whatever the order of the assignments.
pub update_worker_held :
    (s : Scheduler) (st : WorkerState) (u : String) (a : Assignment)
    → Inv s
    → get s u ≡ some a
    → a.worker ≡ st.key
    → slot_at (update_worker s st) a.worker a.slot_id ≡ claimed (some u) (lookup a.slot_id st.slots)
update_worker_held s st u a v e k = ground (
  arith,
  slot_at-update_worker s st a.worker a.slot_id,
  lookup-overlay st.key s.assignments st.slots a.slot_id,
  first_claim-holder s u a v e,
)

-- A slot that nobody holds is as the report says, and the slots of other workers are as they were.
pub update_worker_unheld :
    (s : Scheduler) (st : WorkerState) (w : WorkerKey) (j : ℤ)
    → Inv s
    → ((u : String) (a : Assignment) → get s u ≡ some a → a.worker ≡ st.key → a.slot_id ≢ j)
    → slot_at (update_worker s st) w j ≡ (if st.key == w then lookup j st.slots else slot_at s w j)
unfolding get
update_worker_unheld s st w j v unheld = elim (Option-cases (first_claim st.key j s.assignments)) [
  | inl f ↦
      ground (arith, slot_at-update_worker s st w j, lookup-overlay st.key s.assignments st.slots j)
  | inr (u, f) ↦
      let (b, m, p, q) = first_claim-Elem st.key j s.assignments u f in
      absurd (unheld u b (lookup-Elem u b s.assignments v.is_map m) p q)
]

-- A slot that is free, without an owner.
abbrev pub IsFreed : Option Info → Type 0
IsFreed none = ⊥
IsFreed (some info) = (info.state ≡ free) × (info.sandbox_uid ≡ "")

-- Release of a sandbox that holds a slot which is its own: the assignment is gone, the slot is free
-- and without an owner, and every other assignment and slot is as it was.
pub release_frees :
    (s : Scheduler) (uid : String) (a : Assignment) (info : Info)
    → get s uid ≡ some a
    → slot_at s a.worker a.slot_id ≡ some info
    → info.sandbox_uid ≡ uid
    → (get (release s uid) uid ≡ none)
      × IsFreed (slot_at (release s uid) a.worker a.slot_id)
      × ((u : String) → u ≢ uid → get (release s uid) u ≡ get s u)
      × ((w : WorkerKey) (i : ℤ)
          → ((a.worker ≡ w) × (a.slot_id ≡ i)) ⊎ (slot_at (release s uid) w i ≡ slot_at s w i))
unfolding release free_slot get slot_at
release_frees s uid a info e there own = elim (Option-cases (lookup a.worker s.workers)) [
  | inl f ↦ absurd (ground arith)
  | inr (worker, f) ↦
      let t : Scheduler = record s { assignments = delete uid s.assignments } in
      let freed : Info = record info { state = free; sandbox_uid = "" } in
      let set =
        λ (w : WorkerKey) (i : ℤ). slot_at-set_slot t a.worker w worker a.slot_id i freed f in
      (
        ground (arith, lookup-delete uid uid s.assignments),
        ground (arith, set a.worker a.slot_id),
        λ u h. ground (arith, lookup-delete u uid s.assignments),
        λ w i. ground (arith, set w i),
      )
]
