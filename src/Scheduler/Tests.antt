-- ===== src/Scheduler/Tests.antt =====
-- Two workers with small slots, one sandbox placed, and each theorem at this state.
use sandbox_fleet.Base.{
  ℕ, String, true, ◌≡◌, ◌≢◌, ◌↔◌, refl, List, [], ◌∷◌, none, some, string_key, bool_key, nat_key,
  Elem, keep_if,
}
use sandbox_fleet.Base.Int.{ℤ, pos, int_key}
use sandbox_fleet.Base.Map.{lookup, insert, keys}
use sandbox_fleet.Base.Text.{str_ltb}
use sandbox_fleet.Base.Sort.{sort}
use text.Mathlib.TextEquality.{eq_iff}
use mathlib.Core.Bool.{false≢true}
use sandbox_fleet.Base.Result.{Result, ok, err}
use sandbox_fleet.Slot.{State, free, reserved, Info, state_key}
use sandbox_fleet.Scheduler.Types.{
  Error, no_capacity, WorkerKey, WorkerState, Assignment, AssignRequest, Candidate, worker_key,
  assignment_key,
}
use sandbox_fleet.Scheduler.Ops.{Scheduler, new, update_worker, assign, restore, get}
use sandbox_fleet.Scheduler.Strategies.{
  bin_pack, stable, GoesFirst, bin_pack_best, bin_pack-IsHonest,
}
use sandbox_fleet.Scheduler.Slots.{slot_at, claimed}
use sandbox_fleet.Scheduler.Candidates.{Fits}
use sandbox_fleet.Scheduler.Invariant.{Inv}
use sandbox_fleet.Scheduler.Safety.{Reach, Reach-Inv, update, assigns, start, next}
use sandbox_fleet.Scheduler.Calls.{GrantedBy, assign_grants, assign_again, assign-no_capacity}
use sandbox_fleet.Scheduler.Recovery.{restore-assign, restore_double, update_worker_held}

abbrev key : String → WorkerKey
key name = record { namespace = "ns"; pool = "pool"; name = name }

abbrev slot : ℕ → State → String → ℤ × Info
slot n state uid =
    (pos n, record { id = pos n; profile = "small"; state = state; sandbox_uid = uid })

abbrev worker : String → List (ℤ × Info) → WorkerState
worker name slots = record { key = key name; healthy = true; last_observed = 0; slots = slots }

abbrev request : String → AssignRequest
request uid = record {
  sandbox_uid = uid;
  namespace = "ns";
  name = "sandbox";
  pool = "pool";
  slot_profile = "small";
}

abbrev primary : WorkerState
primary = worker "primary" (slot 1 free "" ∷ slot 0 free "" ∷ [])

abbrev secondary : WorkerState
secondary = worker "secondary" (slot 0 free "" ∷ [])

two_workers : Scheduler
unfolding new update_worker insert worker_key string_key
two_workers = update_worker (update_worker new secondary) primary

abbrev placed : String → String → ℕ → Assignment
placed uid name n = record {
  sandbox_uid = uid;
  namespace = "ns";
  name = "sandbox";
  worker = key name;
  slot_id = pos n;
  slot_profile = "small";
}

one_placed : Scheduler
unfolding two_workers assign
one_placed = (assign bin_pack two_workers (request "parent")).0

-- The first sandbox goes to the first slot of the first worker by name.
first_assignment :
    (assign bin_pack two_workers (request "parent")).1 ≡ ok (placed "parent" "primary" 0)
unfolding two_workers assign lookup sort keep_if keys str_ltb int_key bin_pack state_key bool_key
first_assignment = refl

-- The second goes to the same worker, and the third has to leave it.
abbrev child : Scheduler × Result Error Assignment
child = assign bin_pack one_placed (request "child")

next_assignments :
    (child.1 ≡ ok (placed "child" "primary" 1))
    × ((assign bin_pack child.0 (request "grandchild")).1 ≡ ok (placed "grandchild" "secondary" 0))
unfolding one_placed two_workers assign lookup sort keep_if keys str_ltb int_key bin_pack state_key
    bool_key nat_key insert
next_assignments = (refl, refl)

two_workers_fresh : get two_workers "parent" ≡ none
unfolding two_workers get lookup string_key
two_workers_fresh = refl

history : Reach new one_placed
unfolding one_placed two_workers
history =
    next (next (next start (update secondary)) (update primary))
      (assigns bin_pack (request "parent") bin_pack-IsHonest)

Reach-Inv_example : Inv one_placed
Reach-Inv_example = Reach-Inv history

assign_grants_example :
    GrantedBy two_workers (request "parent") (assign bin_pack two_workers (request "parent"))
assign_grants_example =
    assign_grants bin_pack two_workers (request "parent") bin_pack-IsHonest two_workers_fresh

assign_again_example :
    assign stable one_placed (request "parent") ≡ (one_placed, ok (placed "parent" "primary" 0))
unfolding one_placed
assign_again_example =
    assign_again bin_pack stable two_workers (request "parent") (request "parent")
      (placed "parent" "primary" 0) bin_pack-IsHonest first_assignment refl

no_workers_fresh : get new "parent" ≡ none
unfolding new get lookup string_key
no_workers_fresh = refl

small_profile : (request "parent").slot_profile ≢ ""
small_profile e = false≢true ((eq_iff "small" "").1 e)

assign-no_capacity_example :
    ((assign bin_pack new (request "parent")).1 ≡ err no_capacity)
    ↔ ((w : WorkerKey) (i : ℤ) → ¬ Fits new (request "parent") w i)
assign-no_capacity_example =
    assign-no_capacity new (request "parent") no_workers_fresh small_profile

abbrev busy_candidate : Candidate
busy_candidate = record {
  worker = key "secondary";
  slot_id = pos 1;
  profile = "small";
  free_slots = 1;
  busy_slots = 2;
}

abbrev idle_candidate : Candidate
idle_candidate = record busy_candidate { worker = key "primary"; busy_slots = 0 }

abbrev offered : List Candidate
offered = idle_candidate ∷ busy_candidate ∷ []

selected : bin_pack.select (request "child") offered ≡ ok busy_candidate
unfolding bin_pack bool_key nat_key
selected = refl

other_fresh : get one_placed "other" ≡ none
unfolding get one_placed two_workers assign lookup sort keep_if keys str_ltb int_key bin_pack
    state_key bool_key nat_key insert
other_fresh = refl

one_placed_parent : get one_placed "parent" ≡ some (placed "parent" "primary" 0)
unfolding get one_placed two_workers assign lookup sort keep_if keys str_ltb int_key bin_pack
    state_key bool_key nat_key insert
one_placed_parent = refl

one_placed_slot :
    slot_at one_placed (key "primary") (pos 0)
    ≡ some (record { id = pos 0; profile = "small"; state = reserved; sandbox_uid = "parent" })
unfolding slot_at one_placed two_workers assign lookup sort keep_if keys str_ltb int_key bin_pack
    state_key bool_key nat_key insert
one_placed_slot = refl

-- A controller that has just started knows no worker yet.
abbrev restarted : Scheduler
restarted = (restore new (placed "parent" "primary" 0)).0

restarted_other : get restarted "other" ≡ none
unfolding get restore new lookup insert worker_key string_key
restarted_other = refl

restarted_unknown : lookup (key "primary") restarted.workers ≡ none
unfolding restore new lookup insert worker_key string_key
restarted_unknown = refl

restarted_parent : get restarted "parent" ≡ some (placed "parent" "primary" 0)
unfolding get restore new lookup insert worker_key string_key
restarted_parent = refl

bin_pack_best_example :
    Elem busy_candidate offered × ((x : Candidate) → Elem x offered → GoesFirst busy_candidate x)
bin_pack_best_example = bin_pack_best (request "child") offered busy_candidate selected

two_workers-Inv : Inv two_workers
unfolding two_workers
two_workers-Inv = Reach-Inv (next (next start (update secondary)) (update primary))

restore-assign_example : restore one_placed (placed "parent" "primary" 0) ≡ (one_placed, ok tt)
unfolding one_placed
restore-assign_example =
    restore-assign bin_pack two_workers (request "parent") (placed "parent" "primary" 0)
      bin_pack-IsHonest two_workers-Inv first_assignment

restore_double_example :
    ((restore restarted (placed "other" "primary" 0)).1 ≡ ok tt)
    × ¬ Inv (restore restarted (placed "other" "primary" 0)).0
restore_double_example =
    restore_double restarted (placed "other" "primary" 0) (placed "parent" "primary" 0) "parent"
      restarted_other restarted_unknown restarted_parent refl refl

update_worker_held_example :
    slot_at (update_worker one_placed primary) (key "primary") (pos 0)
    ≡ claimed (some "parent") (lookup (pos 0) primary.slots)
update_worker_held_example =
    update_worker_held one_placed primary "parent" (placed "parent" "primary" 0) Reach-Inv_example
      one_placed_parent refl
