-- ===== src/Scheduler/Safety.antt =====
-- No history of calls assigns one slot to two sandboxes.
use sandbox_fleet.Base.{
  String, ◌≡◌, refl, ◌⊎◌, inl, inr, List, [], ◌∷◌, some, if◌then◌else◌, ◌!=◌, Option-cases, arith,
  string_key, Elem,
}
use sandbox_fleet.Base.Int.{ℤ, int_key}
use sandbox_fleet.Base.Map.{lookup, delete, lookup-delete, delete-IsMap}
use sandbox_fleet.Base.Result.{Result, ok, err}
use sandbox_fleet.Slot.{free, reserved, Info, state_key}
use sandbox_fleet.Scheduler.Types.{
  Error, WorkerKey, WorkerState, Assignment, AssignRequest, Candidate, Strategy, worker_key,
  assignment_key,
}
use sandbox_fleet.Scheduler.Ops.{
  Scheduler, new, update_worker, remove_worker, reserve, choose, assign, assignment_of, restore_new,
  restore, free_slot, release, candidates,
}
use sandbox_fleet.Scheduler.Strategies.{IsHonest}
use sandbox_fleet.Scheduler.Slots.{slot_at, slot_at-set_slot}
use sandbox_fleet.Scheduler.Candidates.{Fits, candidates-Fits}
use sandbox_fleet.Scheduler.Invariant.{
  Inv, IsAlone, new-Inv, remove_worker-Inv, update_worker-Inv, record-Inv, set_and_record-Inv,
}

-- A slot that a candidate names is free, so nobody holds it.
reserve-Inv :
    (s : Scheduler) (req : AssignRequest) (c : Candidate)
    → Inv s
    → Fits s req c.worker c.slot_id
    → Inv (reserve s req c).0
unfolding slot_at reserve
reserve-Inv s req c v f = elim (Option-cases (lookup c.worker s.workers)) [
  | inl e ↦ absurd (rw e at f.ready)
  | inr (worker, e) ↦
      rw (e, reserve) (set_and_record-Inv s (assignment_of req c) v alone worker _ e (ground arith))
]
  where
    alone : IsAlone s (assignment_of req c)
    alone u b h p q = ground (arith, v.taken u b h, f.ready)

choose-Inv :
    (strategy : Strategy) (s : Scheduler) (req : AssignRequest) (cs : List Candidate)
    → IsHonest strategy
    → Inv s
    → ((c : Candidate) → Elem c cs → Fits s req c.worker c.slot_id)
    → Inv (choose strategy s req cs).0
unfolding choose
choose-Inv strategy s req [] honest v fits = v
choose-Inv strategy s req (c ∷ cs) honest v fits = go (strategy.select req (c ∷ cs)) refl
  where
    go :
        (r : Result Error Candidate)
        → strategy.select req (c ∷ cs) ≡ r
        → Inv (choose strategy s req (c ∷ cs)).0
    go (err e) p = rw (p, choose) v
    go (ok selected) p =
        rw (p, choose)
          (reserve-Inv s req selected v (fits selected (honest req (c ∷ cs) selected p)))

assign-Inv :
    (strategy : Strategy) (s : Scheduler) (req : AssignRequest)
    → IsHonest strategy
    → Inv s
    → Inv (assign strategy s req).0
unfolding assign
assign-Inv strategy s req honest v =
    ground (arith, choose-Inv strategy s req (candidates s req) honest v (candidates-Fits s req), v)

-- No other sandbox holds the slot that `a` names.
abbrev pub IsUncontested : Scheduler → Assignment → Type 0
IsUncontested s a =
    (u : String) (b : Assignment)
    → lookup u s.assignments ≡ some b
    → a.worker ≡ b.worker
    → a.slot_id ≡ b.slot_id
    → u ≡ a.sandbox_uid

restore_new-Inv : (s : Scheduler) (a : Assignment) → Inv s → IsAlone s a → Inv (restore_new s a).0
unfolding restore_new slot_at
restore_new-Inv s a v alone = elim (Option-cases (lookup a.worker s.workers)) [
  | inl e ↦ rw (e, restore_new) (record-Inv s a v alone (ground arith))
  | inr (worker, e) ↦ elim (Option-cases (lookup a.slot_id worker.slots)) [
    | inl f ↦ rw (e, f, restore_new) (record-Inv s a v alone (ground arith))
    | inr (info, f) ↦
        let profile = if a.slot_profile != "" then a.slot_profile else info.profile in
        let info' : Info = record info {
          state = reserved;
          sandbox_uid = a.sandbox_uid;
          profile = profile;
        } in
        let kept = set_and_record-Inv s a v alone worker info' e (ground arith) in
        rw (e, f, restore_new) (ground (arith, v, kept))
  ]
]

restore-Inv : (s : Scheduler) (a : Assignment) → Inv s → IsUncontested s a → Inv (restore s a).0
unfolding restore
restore-Inv s a v free_of_others = elim (Option-cases (lookup a.sandbox_uid s.assignments)) [
  | inl e ↦
      rw (e, restore) (restore_new-Inv s a v λ u b h p q. ground (arith, free_of_others u b h p q))
  | inr (current, e) ↦ rw (e, restore) (ground (arith, v))
]

module _ (s : Scheduler) (uid : String) (a : Assignment) (v : Inv s)
    (held : lookup uid s.assignments ≡ some a) where
  released-Inv :
      (t : Scheduler)
      → t.assignments ≡ delete uid s.assignments
      → ((w : WorkerKey) (i : ℤ)
          → ((a.worker ≡ w) × (a.slot_id ≡ i)) ⊎ (slot_at t w i ≡ slot_at s w i))
      → Inv t
  released-Inv t deleted elsewhere = record {
    is_map = rw deleted (delete-IsMap uid s.assignments v.is_map);
    keyed = λ u b e. ground (arith, deleted, lookup-delete u uid s.assignments, v.keyed u b);
    exclusive = λ u w b c e f p q. ground (
      arith,
      deleted,
      lookup-delete u uid s.assignments,
      lookup-delete w uid s.assignments,
      v.exclusive u w b c,
    );
    taken = λ u b e. ground (
      arith,
      deleted,
      lookup-delete u uid s.assignments,
      v.exclusive u uid b a,
      v.taken u b,
      elsewhere b.worker b.slot_id,
    );
  }

free_slot-assignments :
    (s : Scheduler) (uid : String) (a : Assignment)
    → (free_slot s uid a).assignments ≡ s.assignments
unfolding free_slot
free_slot-assignments s uid a = ground arith

-- Releasing a slot leaves every other slot as it was.
free_slot_elsewhere :
    (s : Scheduler) (uid : String) (a : Assignment) (w : WorkerKey) (i : ℤ)
    → ((a.worker ≡ w) × (a.slot_id ≡ i)) ⊎ (slot_at (free_slot s uid a) w i ≡ slot_at s w i)
unfolding free_slot
free_slot_elsewhere s uid a w i = elim (Option-cases (lookup a.worker s.workers)) [
  | inl e ↦ rw (e, free_slot) (inr refl)
  | inr (worker, e) ↦ elim (Option-cases (lookup a.slot_id worker.slots)) [
    | inl f ↦ rw (e, f, free_slot) (inr refl)
    | inr (info, f) ↦
        let freed : Info = record info { state = free; sandbox_uid = "" } in
        rw (e, f, free_slot)
          (ground (arith, slot_at-set_slot s a.worker w worker a.slot_id i freed e))
  ]
]

release-Inv : (s : Scheduler) (uid : String) → Inv s → Inv (release s uid)
unfolding release slot_at
release-Inv s uid v = elim (Option-cases (lookup uid s.assignments)) [
  | inl e ↦ rw (e, release) v
  | inr (a, e) ↦
      let t : Scheduler = record s { assignments = delete uid s.assignments } in
      rw (e, release)
        (released-Inv s uid a v e (free_slot t uid a) (free_slot-assignments t uid a)
          (free_slot_elsewhere t uid a))
]

-- The calls that change the state. A Restore may come from anywhere, and is one of them only if no
-- other sandbox holds the slot that it names.
pub data Step (s : Scheduler) : Scheduler → Type 0 where
  update : (w : WorkerState) → Step s (update_worker s w)
  remove : (w : WorkerKey) → Step s (remove_worker s w)
  assigns :
      (strategy : Strategy) (req : AssignRequest)
      → IsHonest strategy
      → Step s (assign strategy s req).0
  restores : (a : Assignment) → IsUncontested s a → Step s (restore s a).0
  releases : (uid : String) → Step s (release s uid)

pub data Reach (s : Scheduler) : Scheduler → Type 0 where
  start : Reach s s
  next : {t u : Scheduler} → Reach s t → Step t u → Reach s u

Step-Inv : {s t : Scheduler} → Step s t → Inv s → Inv t
Step-Inv {s} (update w) v = update_worker-Inv s w v
Step-Inv {s} (remove w) v = remove_worker-Inv s w v
Step-Inv {s} (assigns strategy req honest) v = assign-Inv strategy s req honest v
Step-Inv {s} (restores a alone) v = restore-Inv s a v alone
Step-Inv {s} (releases uid) v = release-Inv s uid v

-- Every state reached from an empty scheduler satisfies the invariant: each assignment stands under
-- its own sandbox, no slot is assigned to two sandboxes, and an assigned slot that is known is not
-- free. The calls are those of `Step`: a strategy chooses among its candidates, and a Restore names
-- a slot that no other sandbox holds.
pub Reach-Inv : {t : Scheduler} → Reach new t → Inv t
Reach-Inv start = new-Inv
Reach-Inv (next r step) = Step-Inv step (Reach-Inv r)
