-- ===== src/Scheduler/Ops.antt =====
-- internal/scheduler/scheduler.go: the in-memory scheduler. Each method runs under the lock, so it
-- is a function from the state to the state after it and its result.
use sandbox_fleet.Base.{
  ℕ, suc, String, not, ◌&&◌, List, [], ◌∷◌, ◌++◌, Option, none, some, if◌then◌else◌, ◌==◌, ◌!=◌,
  keep_if, string_key,
}
use sandbox_fleet.Base.Int.{ℤ, pos, int_key, ltb_ℤ}
use sandbox_fleet.Base.Map.{Map, keys, lookup, insert, delete}
use sandbox_fleet.Base.Text.{str_ltb}
use sandbox_fleet.Base.Sort.{sort}
use sandbox_fleet.Base.Result.{Result, ok, err}
use sandbox_fleet.Slot.{free, reserved, Info, state_key}
use sandbox_fleet.Scheduler.Types.{
  Error, no_capacity, assignment_conflict, invalid_slot_profile, runtime_panic, WorkerKey,
  WorkerState, Assignment, AssignRequest, Candidate, Strategy, worker_key, assignment_key,
}

-- The strategy is an argument of `assign`.
pub record Scheduler : Type 0 where
  pub workers : Map WorkerKey WorkerState
  pub assignments : Map String Assignment

unfoldable pub new : Scheduler
new = record { workers = []; assignments = [] }

-- The body of the loop over `s.assignments` in UpdateWorker: a reported free slot that is assigned
-- is reserved.
unfoldable pub overlay_one : WorkerKey → String → Assignment → Map ℤ Info → Map ℤ Info
overlay_one key uid a slots = if a.worker != key then slots else elim (lookup a.slot_id slots) [
  | none ↦ slots
  | some info ↦
      if info.state == free
      then insert a.slot_id (record info { state = reserved; sandbox_uid = uid }) slots
      else slots
]

unfoldable pub overlay : WorkerKey → Map String Assignment → Map ℤ Info → Map ℤ Info
unfolding overlay_one
overlay key [] slots = slots
overlay key ((uid, a) ∷ rest) slots = overlay key rest (overlay_one key uid a slots)

unfoldable pub update_worker : Scheduler → WorkerState → Scheduler
unfolding overlay
update_worker s state = record s {
  workers =
      insert state.key (record state { slots = overlay state.key s.assignments state.slots })
        s.workers;
}

unfoldable pub remove_worker : Scheduler → WorkerKey → Scheduler
remove_worker s key = record s { workers = delete key s.workers }

unfoldable pub sorted_workers : Scheduler → String → String → List WorkerKey
sorted_workers s namespace pool =
    sort (λ a b. str_ltb a.name b.name)
      (keep_if (λ key. key.namespace == namespace && key.pool == pool) (keys s.workers))

unfoldable pub sorted_slot_ids : Map ℤ Info → List ℤ
sorted_slot_ids slots = sort ltb_ℤ (keys slots)

-- The free slots of the profile, and the slots of any profile that are not free.
unfoldable pub count_worker_slots : Map ℤ Info → String → ℕ × ℕ
count_worker_slots [] profile = (0, 0)
count_worker_slots ((id, info) ∷ slots) profile =
    let (free_matching, busy) = count_worker_slots slots profile in
    if info.state != free
    then (free_matching, suc busy)
    else if info.profile == profile
    then (suc free_matching, busy)
    else (free_matching, busy)

-- The inner loop of Assign. A listed id is a key of `slots`.
unfoldable pub slot_candidates :
    AssignRequest → WorkerKey → Map ℤ Info → ℕ × ℕ → List ℤ → List Candidate
slot_candidates req key slots counts [] = []
slot_candidates req key slots counts (id ∷ ids) =
    let rest = slot_candidates req key slots counts ids in
    elim (lookup id slots) [
      | none ↦ rest
      | some info ↦
          if info.state != free
          then rest
          else if info.profile != req.slot_profile
          then rest
          else record {
            worker = key;
            slot_id = id;
            profile = req.slot_profile;
            free_slots = counts.0;
            busy_slots = counts.1;
          }
            ∷ rest
    ]

-- The body of the outer loop of Assign.
unfoldable pub worker_candidates : AssignRequest → WorkerKey → WorkerState → List Candidate
unfolding slot_candidates count_worker_slots sorted_slot_ids
worker_candidates req key worker =
    if not worker.healthy
    then []
    else slot_candidates req key worker.slots (count_worker_slots worker.slots req.slot_profile)
        (sorted_slot_ids worker.slots)

-- The outer loop. A listed worker is a key of `s.workers`.
unfoldable pub all_candidates :
    AssignRequest → Map WorkerKey WorkerState → List WorkerKey → List Candidate
unfolding worker_candidates
all_candidates req workers [] = []
all_candidates req workers (key ∷ more) =
    let rest = all_candidates req workers more in
    elim (lookup key workers) [
      | none ↦ rest
      | some worker ↦ worker_candidates req key worker ++ rest
    ]

unfoldable pub candidates : Scheduler → AssignRequest → List Candidate
unfolding all_candidates sorted_workers
candidates s req = all_candidates req s.workers (sorted_workers s req.namespace req.pool)

-- `worker.Slots[id] = info` through the pointer that the map holds.
unfoldable pub set_slot : Scheduler → WorkerKey → WorkerState → ℤ → Info → Scheduler
set_slot s key worker id info = record s {
  workers = insert key (record worker { slots = insert id info worker.slots }) s.workers;
}

-- `worker.Slots[id]`, the zero value for a key that is missing.
unfoldable pub slot_or_zero : Option Info → Info
slot_or_zero none = record { id = pos 0; profile = ""; state = free; sandbox_uid = "" }
slot_or_zero (some info) = info

-- `s.assignments[uid] = assignment`
unfoldable pub record_assignment : Scheduler → Assignment → Scheduler
record_assignment s a = record s { assignments = insert a.sandbox_uid a s.assignments }

abbrev pub assignment_of : AssignRequest → Candidate → Assignment
assignment_of req selected = record {
  sandbox_uid = req.sandbox_uid;
  namespace = req.namespace;
  name = req.name;
  worker = selected.worker;
  slot_id = selected.slot_id;
  slot_profile = req.slot_profile;
}

-- What Assign does with the candidate that the strategy selected.
unfoldable pub reserve : Scheduler → AssignRequest → Candidate → Scheduler × Result Error Assignment
unfolding set_slot slot_or_zero record_assignment
reserve s req selected = elim (lookup selected.worker s.workers) [
  | none ↦ (s, err runtime_panic)
  | some worker ↦
      let info = slot_or_zero (lookup selected.slot_id worker.slots) in
      let info' = record info { state = reserved; sandbox_uid = req.sandbox_uid } in
      let s' = set_slot s selected.worker worker selected.slot_id info' in
      let assignment = assignment_of req selected in
      (record_assignment s' assignment, ok assignment)
]

unfoldable pub choose :
    Strategy → Scheduler → AssignRequest → List Candidate → Scheduler × Result Error Assignment
unfolding reserve
choose strategy s req [] = (s, err no_capacity)
choose strategy s req (c ∷ cs) = elim (strategy.select req (c ∷ cs)) [
  | err e ↦ (s, err e)
  | ok selected ↦ reserve s req selected
]

unfoldable pub assign : Strategy → Scheduler → AssignRequest → Scheduler × Result Error Assignment
unfolding choose candidates
assign strategy s req = elim (lookup req.sandbox_uid s.assignments) [
  | some assignment ↦ (s, ok assignment)
  | none ↦
      if req.slot_profile == ""
      then (s, err invalid_slot_profile)
      else choose strategy s req (candidates s req)
]

-- Restore of a sandbox that has no assignment yet.
unfoldable pub restore_new : Scheduler → Assignment → Scheduler × Result Error (Unit {0})
unfolding set_slot record_assignment
restore_new s a = elim (lookup a.worker s.workers) [
  | none ↦ (record_assignment s a, ok tt)
  | some worker ↦ elim (lookup a.slot_id worker.slots) [
    | none ↦ (record_assignment s a, ok tt)
    | some info ↦
        if info.state != free && info.sandbox_uid != a.sandbox_uid
        then (s, err assignment_conflict)
        else let profile = if a.slot_profile != "" then a.slot_profile else info.profile in
          let info' = record info {
            state = reserved;
            sandbox_uid = a.sandbox_uid;
            profile = profile;
          } in
          (record_assignment (set_slot s a.worker worker a.slot_id info') a, ok tt)
  ]
]

unfoldable pub restore : Scheduler → Assignment → Scheduler × Result Error (Unit {0})
unfolding restore_new
restore s a = elim (lookup a.sandbox_uid s.assignments) [
  | some current ↦ if current == a then (s, ok tt) else (s, err assignment_conflict)
  | none ↦ restore_new s a
]

-- Release of the slot that an assignment held, if the slot is known and still its sandbox's.
unfoldable pub free_slot : Scheduler → String → Assignment → Scheduler
unfolding set_slot
free_slot s uid a = elim (lookup a.worker s.workers) [
  | none ↦ s
  | some worker ↦ elim (lookup a.slot_id worker.slots) [
    | none ↦ s
    | some info ↦
        if info.sandbox_uid != uid
        then s
        else set_slot s a.worker worker a.slot_id (record info { state = free; sandbox_uid = "" })
  ]
]

-- Release never fails.
unfoldable pub release : Scheduler → String → Scheduler
unfolding free_slot
release s uid = elim (lookup uid s.assignments) [
  | none ↦ s
  | some a ↦ free_slot (record s { assignments = delete uid s.assignments }) uid a
]

unfoldable pub get : Scheduler → String → Option Assignment
get s uid = lookup uid s.assignments
