-- ===== src/Scheduler/Slots.antt =====
-- The slots that the scheduler knows, read through both maps, and how each write changes them.
use sandbox_fleet.Base.{
  String, ◌&&◌, ◌≡◌, ◌≢◌, refl, inl, inr, [], ◌∷◌, Option, none, some, if◌then◌else◌, ◌==◌,
  Option-cases, Bool-cases, arith, string_key, Elem,
}
use sandbox_fleet.Base.Int.{ℤ, int_key}
use sandbox_fleet.Base.Map.{Map, lookup, insert, lookup-insert, lookup-delete}
use sandbox_fleet.Slot.{free, reserved, Info, state_key}
use sandbox_fleet.Scheduler.Types.{WorkerKey, WorkerState, Assignment, worker_key}
use sandbox_fleet.Scheduler.Ops.{
  Scheduler, overlay_one, overlay, update_worker, remove_worker, set_slot,
}

abbrev pub slot_of : Option WorkerState → ℤ → Option Info
slot_of none i = none
slot_of (some w) i = lookup i w.slots

-- The slot `i` of the worker `w`, if the scheduler knows both.
unfoldable pub slot_at : Scheduler → WorkerKey → ℤ → Option Info
slot_at s w i = slot_of (lookup w s.workers) i

pub slot_at-set_slot :
    (s : Scheduler) (w v : WorkerKey) (st : WorkerState) (i j : ℤ) (info : Info)
    → lookup w s.workers ≡ some st
    → slot_at (set_slot s w st i info) v j
      ≡ (if (w == v) && (i == j) then some info else slot_at s v j)
unfolding slot_at set_slot
slot_at-set_slot s w v st i j info e = ground (
  arith,
  lookup-insert v w (record st { slots = insert i info st.slots }) s.workers,
  lookup-insert j i info st.slots,
)

pub slot_at-remove_worker :
    (s : Scheduler) (w v : WorkerKey) (j : ℤ)
    → slot_at (remove_worker s w) v j ≡ (if w == v then none else slot_at s v j)
unfolding slot_at remove_worker
slot_at-remove_worker s w v j = ground (arith, lookup-delete v w s.workers)

pub slot_at-update_worker :
    (s : Scheduler) (st : WorkerState) (v : WorkerKey) (j : ℤ)
    → slot_at (update_worker s st) v j
      ≡ (if st.key == v then lookup j (overlay st.key s.assignments st.slots) else slot_at s v j)
unfolding slot_at update_worker
slot_at-update_worker s st v j = ground (
  arith,
  lookup-insert v st.key (record st { slots = overlay st.key s.assignments st.slots }) s.workers,
)

-- The first sandbox in the iteration that is assigned to the slot `j` of the worker.
abbrev pub first_claim : WorkerKey → ℤ → Map String Assignment → Option String
first_claim key j [] = none
first_claim key j ((uid, a) ∷ m) =
    if (a.worker == key) && (a.slot_id == j) then some uid else first_claim key j m

-- The slot that a claim leaves: only a free slot changes.
abbrev pub claimed : Option String → Option Info → Option Info
claimed none slot = slot
claimed (some uid) none = none
claimed (some uid) (some info) =
    if info.state == free
    then some (record info { state = reserved; sandbox_uid = uid })
    else some info

lookup-overlay_one :
    (key : WorkerKey) (uid : String) (a : Assignment) (slots : Map ℤ Info) (j : ℤ)
    → lookup j (overlay_one key uid a slots) ≡ (
        if (a.worker == key) && (a.slot_id == j)
        then claimed (some uid) (lookup j slots)
        else lookup j slots)
unfolding overlay_one
lookup-overlay_one key uid a slots j = elim (Option-cases (lookup a.slot_id slots)) [
  | inl e ↦ ground arith
  | inr (info, e) ↦
      ground (
        arith,
        lookup-insert j a.slot_id (record info { state = reserved; sandbox_uid = uid }) slots,
      )
]

claimed-claimed :
    (o : Option String) (uid : String) (slot : Option Info)
    → claimed o (claimed (some uid) slot) ≡ claimed (some uid) slot
claimed-claimed o uid slot = ground arith

-- The loop of UpdateWorker leaves each slot to the first sandbox that claims it.
pub lookup-overlay :
    (key : WorkerKey) (m : Map String Assignment) (slots : Map ℤ Info) (j : ℤ)
    → lookup j (overlay key m slots) ≡ claimed (first_claim key j m) (lookup j slots)
unfolding overlay
lookup-overlay key [] slots j = refl
lookup-overlay key ((uid, a) ∷ m) slots j = ground (
  arith,
  lookup-overlay key m (overlay_one key uid a slots) j,
  lookup-overlay_one key uid a slots j,
  claimed-claimed (first_claim key j m) uid (lookup j slots),
)

pub first_claim-Elem :
    (key : WorkerKey) (j : ℤ) (m : Map String Assignment) (uid : String)
    → first_claim key j m ≡ some uid
    → (a : Assignment) × Elem (uid, a) m × (a.worker ≡ key) × (a.slot_id ≡ j)
first_claim-Elem key j [] uid e = cc
first_claim-Elem key j ((u, a) ∷ m) uid e =
    elim (Bool-cases ((a.worker == key) && (a.slot_id == j))) [
      | inl hit ↦ (a, ground arith, ground arith, ground arith)
      | inr miss ↦
          let (b, h, p, q) = first_claim-Elem key j m uid (ground arith) in (b, inr h, p, q)
    ]

pub first_claim_some :
    (m : Map String Assignment) (uid : String) (a : Assignment)
    → Elem (uid, a) m
    → first_claim a.worker a.slot_id m ≢ none
first_claim_some [] uid a h = elim h [ ]
first_claim_some ((u, b) ∷ m) uid a h = ground (arith, first_claim_some m uid a)
