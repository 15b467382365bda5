-- ===== src/Scheduler/Candidates.antt =====
-- The hard filters of Assign: exactly the free slots of the profile, on healthy workers of the pool.
use sandbox_fleet.Base.{
  ℕ, String, true, ◌&&◌, ◌≡◌, refl, inl, inr, List, [], ◌∷◌, Option, none, some, ◌==◌, Option-cases,
  arith, string_key, Elem, Elem-append, Elem-append_left, Elem-append_right, Elem-keep_if,
  Elem-keep_if_of, keep_if,
}
use sandbox_fleet.Base.Int.{ℤ, int_key, ltb_ℤ}
use sandbox_fleet.Base.Text.{str_ltb}
use sandbox_fleet.Base.Sort.{Elem-sort, sort-Elem}
use sandbox_fleet.Base.Map.{Map, lookup, keys, keys-lookup}
use sandbox_fleet.Slot.{free, Info, state_key}
use sandbox_fleet.Scheduler.Types.{WorkerKey, WorkerState, AssignRequest, Candidate, worker_key}
use sandbox_fleet.Scheduler.Ops.{
  Scheduler, candidates, all_candidates, worker_candidates, slot_candidates, sorted_workers,
  sorted_slot_ids, count_worker_slots,
}

-- A slot that is known, free and of the profile.
abbrev pub IsAvailable : String → Option Info → Type 0
IsAvailable profile none = ⊥
IsAvailable profile (some info) = (info.state ≡ free) × (info.profile ≡ profile)

-- A worker that is known and healthy, with the slot `i` available.
abbrev pub IsReady : String → ℤ → Option WorkerState → Type 0
IsReady profile i none = ⊥
IsReady profile i (some worker) =
    (worker.healthy ≡ true) × IsAvailable profile (lookup i worker.slots)

-- The slot `i` of the worker `w` may serve the request.
pub record Fits (s : Scheduler) (req : AssignRequest) (w : WorkerKey) (i : ℤ) : Type 0 where
  pub namespace : w.namespace ≡ req.namespace
  pub pool : w.pool ≡ req.pool
  pub ready : IsReady req.slot_profile i (lookup w s.workers)

module _ (req : AssignRequest) (key : WorkerKey) (slots : Map ℤ Info) (counts : ℕ × ℕ) where
  abbrev offer : ℤ → Candidate
  offer i = record {
    worker = key;
    slot_id = i;
    profile = req.slot_profile;
    free_slots = counts.0;
    busy_slots = counts.1;
  }

  slot_candidates-IsAvailable :
      (ids : List ℤ) (c : Candidate)
      → Elem c (slot_candidates req key slots counts ids)
      → (c ≡ offer c.slot_id) × IsAvailable req.slot_profile (lookup c.slot_id slots)
  unfolding slot_candidates
  slot_candidates-IsAvailable [] c h = elim h [ ]
  slot_candidates-IsAvailable (i ∷ ids) c h = ground (arith, slot_candidates-IsAvailable ids c)

  slot_candidates-of_IsAvailable :
      (ids : List ℤ) (i : ℤ)
      → Elem i ids
      → IsAvailable req.slot_profile (lookup i slots)
      → Elem (offer i) (slot_candidates req key slots counts ids)
  unfolding slot_candidates
  slot_candidates-of_IsAvailable [] i h a = elim h [ ]
  slot_candidates-of_IsAvailable (j ∷ ids) i h a =
      ground (arith, slot_candidates-of_IsAvailable ids i)

sorted_slot_ids-of_IsAvailable :
    (profile : String) (i : ℤ) (slots : Map ℤ Info)
    → IsAvailable profile (lookup i slots)
    → Elem i (sorted_slot_ids slots)
unfolding sorted_slot_ids
sorted_slot_ids-of_IsAvailable profile i slots a = elim (Option-cases (lookup i slots)) [
  | inl e ↦ ground arith
  | inr (info, e) ↦ sort-Elem ltb_ℤ i (keys slots) (keys-lookup i info slots e)
]

-- The candidate that a worker offers for its slot `i`.
abbrev pub offer_of : AssignRequest → WorkerKey → ℤ → WorkerState → Candidate
offer_of req key i worker =
    offer req key worker.slots (count_worker_slots worker.slots req.slot_profile) i

worker_candidates-IsReady :
    (req : AssignRequest) (key : WorkerKey) (worker : WorkerState) (c : Candidate)
    → Elem c (worker_candidates req key worker)
    → (c.worker ≡ key) × IsReady req.slot_profile c.slot_id (some worker)
unfolding worker_candidates
worker_candidates-IsReady req key worker c h = ground (
  arith,
  slot_candidates-IsAvailable req key worker.slots
      (count_worker_slots worker.slots req.slot_profile) (sorted_slot_ids worker.slots) c,
)

worker_candidates-of_IsReady :
    (req : AssignRequest) (key : WorkerKey) (worker : WorkerState) (i : ℤ)
    → IsReady req.slot_profile i (some worker)
    → Elem (offer_of req key i worker) (worker_candidates req key worker)
unfolding worker_candidates
worker_candidates-of_IsReady req key worker i r = ground (
  arith,
  sorted_slot_ids-of_IsAvailable req.slot_profile i worker.slots,
  slot_candidates-of_IsAvailable req key worker.slots
      (count_worker_slots worker.slots req.slot_profile) (sorted_slot_ids worker.slots) i,
)

module _ (req : AssignRequest) (workers : Map WorkerKey WorkerState) where
  all_candidates-IsReady :
      (ws : List WorkerKey) (c : Candidate)
      → Elem c (all_candidates req workers ws)
      → Elem c.worker ws × IsReady req.slot_profile c.slot_id (lookup c.worker workers)
  unfolding all_candidates
  all_candidates-IsReady [] c h = elim h [ ]
  all_candidates-IsReady (w ∷ ws) c h = elim (Option-cases (lookup w workers)) [
    | inl e ↦ ground (arith, all_candidates-IsReady ws c)
    | inr (worker, e) ↦ ground (
      arith,
      Elem-append c (worker_candidates req w worker) (all_candidates req workers ws),
      worker_candidates-IsReady req w worker c,
      all_candidates-IsReady ws c,
    )
  ]

  all_candidates-of_IsReady :
      (ws : List WorkerKey) (w : WorkerKey) (worker : WorkerState) (i : ℤ)
      → Elem w ws
      → lookup w workers ≡ some worker
      → IsReady req.slot_profile i (some worker)
      → Elem (offer_of req w i worker) (all_candidates req workers ws)
  unfolding all_candidates
  all_candidates-of_IsReady [] w worker i h e r = elim h [ ]
  all_candidates-of_IsReady (v ∷ ws) w worker i (inl p) e r = ground (
    arith,
    worker_candidates-of_IsReady req w worker i,
    Elem-append_left (offer_of req w i worker) (worker_candidates req w worker)
        (all_candidates req workers ws),
  )
  all_candidates-of_IsReady (v ∷ ws) w worker i (inr h) e r =
      elim (Option-cases (lookup v workers)) [
        | inl none_there ↦ ground (arith, all_candidates-of_IsReady ws w worker i)
        | inr (st, found) ↦
            rw (found, all_candidates)
              (Elem-append_right _ (worker_candidates req v st) (all_candidates req workers ws)
                (all_candidates-of_IsReady ws w worker i h e r))
      ]

-- Every candidate of Assign fits the request.
pub candidates-Fits :
    (s : Scheduler) (req : AssignRequest) (c : Candidate)
    → Elem c (candidates s req)
    → Fits s req c.worker c.slot_id
unfolding candidates sorted_workers
candidates-Fits s req c h =
    let in_pool = λ (w : WorkerKey). w.namespace == req.namespace && w.pool == req.pool in
    let (listed, ready) = all_candidates-IsReady req s.workers _ c h in
    let (_, passed) =
      Elem-keep_if in_pool c.worker (keys s.workers) (Elem-sort _ c.worker _ listed) in
    record { namespace = ground arith; pool = ground arith; ready = ready }

-- Every slot that fits the request is a candidate of Assign.
pub candidates-of_Fits :
    (s : Scheduler) (req : AssignRequest) (w : WorkerKey) (i : ℤ)
    → Fits s req w i
    → (c : Candidate) × Elem c (candidates s req) × (c.worker ≡ w) × (c.slot_id ≡ i)
unfolding candidates sorted_workers
candidates-of_Fits s req w i f = elim (Option-cases (lookup w s.workers)) [
  | inl e ↦ absurd (rw e at f.ready)
  | inr (worker, e) ↦
      let in_pool = λ (w : WorkerKey). w.namespace == req.namespace && w.pool == req.pool in
      let listed =
        sort-Elem (λ a b. str_ltb a.name b.name) w (keep_if in_pool (keys s.workers))
          (Elem-keep_if_of in_pool w (keys s.workers) (keys-lookup w worker s.workers e)
            (ground arith)) in
      (
        offer_of req w i worker,
        all_candidates-of_IsReady req s.workers _ w worker i listed e (ground arith),
        refl,
        refl,
      )
]
