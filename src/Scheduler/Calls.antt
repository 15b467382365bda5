-- ===== src/Scheduler/Calls.antt =====
-- What Assign, Restore and Release do on each branch.
use sandbox_fleet.Base.{
  String, ◌≡◌, ◌≢◌, ◌↔◌, refl, subst, ◌⊎◌, inl, inr, List, [], ◌∷◌, Option, none, some, ◌==◌,
  Option-cases, Bool-cases, arith, string_key, Elem, not-Elem-nil,
}
use sandbox_fleet.Base.Int.{ℤ, int_key}
use sandbox_fleet.Base.Map.{lookup, lookup-insert}
use sandbox_fleet.Base.Result.{Result, ok, err}
use sandbox_fleet.Slot.{reserved, Info, state_key}
use sandbox_fleet.Scheduler.Types.{
  Error, no_capacity, WorkerKey, Assignment, AssignRequest, Candidate, Strategy, worker_key,
  assignment_key,
}
use sandbox_fleet.Scheduler.Ops.{
  Scheduler, reserve, choose, assign, assignment_of, record_assignment, candidates, get,
}
use sandbox_fleet.Scheduler.Strategies.{
  IsHonest, bin_pack, bin_pack_select, best_of, bin_pack-IsHonest,
}
use sandbox_fleet.Scheduler.Slots.{slot_at, slot_at-set_slot}
use sandbox_fleet.Scheduler.Candidates.{Fits, candidates-Fits, candidates-of_Fits}
use sandbox_fleet.Scheduler.Invariant.{Inv}

-- The slot that a grant leaves: the request's, reserved for its sandbox.
abbrev pub IsReservedFor : AssignRequest → Option Info → Type 0
IsReservedFor req none = ⊥
IsReservedFor req (some info) =
    (info.state ≡ reserved)
    × (info.sandbox_uid ≡ req.sandbox_uid)
    × (info.profile ≡ req.slot_profile)

-- What a new assignment `a` means for the states before and after it.
pub record Granted (s : Scheduler) (req : AssignRequest) (a : Assignment) (t : Scheduler)
    : Type 0 where
  pub sandbox_uid : a.sandbox_uid ≡ req.sandbox_uid
  pub namespace : a.namespace ≡ req.namespace
  pub name : a.name ≡ req.name
  pub slot_profile : a.slot_profile ≡ req.slot_profile
  pub fits : Fits s req a.worker a.slot_id
  pub known : get t req.sandbox_uid ≡ some a
  pub others : (u : String) → u ≢ req.sandbox_uid → get t u ≡ get s u
  pub held : IsReservedFor req (slot_at t a.worker a.slot_id)
  pub elsewhere :
      (w : WorkerKey) (i : ℤ) → ((a.worker ≡ w) × (a.slot_id ≡ i)) ⊎ (slot_at t w i ≡ slot_at s w i)

reserve-Granted :
    (s : Scheduler) (req : AssignRequest) (c : Candidate)
    → Fits s req c.worker c.slot_id
    → ((reserve s req c).1 ≡ ok (assignment_of req c))
      × Granted s req (assignment_of req c) (reserve s req c).0
unfolding reserve record_assignment slot_at get
reserve-Granted s req c f = elim (Option-cases (lookup c.worker s.workers)) [
  | inl e ↦ absurd (rw e at f.ready)
  | inr (worker, e) ↦ elim (Option-cases (lookup c.slot_id worker.slots)) [
    | inl g ↦ absurd (ground (arith, f.ready))
    | inr (info, g) ↦
        let info' : Info = record info { state = reserved; sandbox_uid = req.sandbox_uid } in
        let there =
          λ (w : WorkerKey) (i : ℤ). slot_at-set_slot s c.worker w worker c.slot_id i info' e in
        rw (e, g, reserve)
          (
            refl,
            record {
              sandbox_uid = refl;
              namespace = refl;
              name = refl;
              slot_profile = refl;
              fits = f;
              known = ground (
                arith,
                lookup-insert req.sandbox_uid req.sandbox_uid (assignment_of req c) s.assignments,
              );
              others = λ u h.
                  ground
                    (arith, lookup-insert u req.sandbox_uid (assignment_of req c) s.assignments);
              held = ground (arith, there c.worker c.slot_id, f.ready);
              elsewhere = λ w i. ground (arith, there w i);
            },
          )
  ]
]

-- What a call of Assign means for a sandbox that has no assignment.
abbrev pub GrantedBy : Scheduler → AssignRequest → Scheduler × Result Error Assignment → Type 0
GrantedBy s req (t, ok a) = Granted s req a t
GrantedBy s req (t, err e) = t ≡ s

GrantedBy-of_ok :
    (s : Scheduler) (req : AssignRequest) (r : Scheduler × Result Error Assignment) (a : Assignment)
    → r.1 ≡ ok a
    → Granted s req a r.0
    → GrantedBy s req r
GrantedBy-of_ok s req (t, ok b) a e g =
    let same : a ≡ b = ground arith in subst (λ x. Granted s req x t) same g
GrantedBy-of_ok s req (t, err x) a e g = cc

module _ (strategy : Strategy) (s : Scheduler) (req : AssignRequest)
    (honest : IsHonest strategy) where
  choose-Granted :
      (cs : List Candidate)
      → ((c : Candidate) → Elem c cs → Fits s req c.worker c.slot_id)
      → GrantedBy s req (choose strategy s req cs)
  unfolding choose
  choose-Granted [] fits = refl
  choose-Granted (c ∷ cs) fits = go (strategy.select req (c ∷ cs)) refl
    where
      go :
          (r : Result Error Candidate)
          → strategy.select req (c ∷ cs) ≡ r
          → GrantedBy s req (choose strategy s req (c ∷ cs))
      go (err e) p = rw (p, choose) refl
      go (ok selected) p =
          let (granted, g) =
            reserve-Granted s req selected (fits selected (honest req (c ∷ cs) selected p)) in
          rw (p, choose)
            (GrantedBy-of_ok s req (reserve s req selected) (assignment_of req selected) granted g)

  -- Assign, for a sandbox without an assignment and a strategy that chooses among the candidates,
  -- fails and changes nothing, or grants a slot that fits: free, of the profile, on a healthy worker
  -- of the pool. The slot is then reserved for the sandbox, Get finds the assignment, and all other
  -- assignments and slots are as they were.
  pub assign_grants : get s req.sandbox_uid ≡ none → GrantedBy s req (assign strategy s req)
  unfolding assign get
  assign_grants fresh =
      let chosen = choose-Granted (candidates s req) (candidates-Fits s req) in
      rw (fresh, assign)
        (elim (Bool-cases (req.slot_profile == "")) [ inl e ↦ rw e refl | inr e ↦ rw e chosen ])

get-of_GrantedBy :
    (s : Scheduler) (req : AssignRequest) (r : Scheduler × Result Error Assignment) (a : Assignment)
    → GrantedBy s req r
    → r.1 ≡ ok a
    → get r.0 req.sandbox_uid ≡ some a
get-of_GrantedBy s req (t, ok b) a g e = ground (arith, g.known)
get-of_GrantedBy s req (t, err x) a g e = cc

uid-of_GrantedBy :
    (s : Scheduler) (req : AssignRequest) (r : Scheduler × Result Error Assignment) (a : Assignment)
    → GrantedBy s req r
    → r.1 ≡ ok a
    → a.sandbox_uid ≡ req.sandbox_uid
uid-of_GrantedBy s req (t, ok b) a g e = ground (arith, g.sandbox_uid)
uid-of_GrantedBy s req (t, err x) a g e = cc

pub get-assign :
    (strategy : Strategy) (s : Scheduler) (req : AssignRequest) (a : Assignment)
    → IsHonest strategy
    → (assign strategy s req).1 ≡ ok a
    → get (assign strategy s req).0 req.sandbox_uid ≡ some a
unfolding get
get-assign strategy s req a honest e = elim (Option-cases (lookup req.sandbox_uid s.assignments)) [
  | inl fresh ↦
      get-of_GrantedBy s req (assign strategy s req) a (assign_grants strategy s req honest fresh) e
  | inr (b, found) ↦ unfold assign in ground arith
]

pub assign-uid :
    (strategy : Strategy) (s : Scheduler) (req : AssignRequest) (a : Assignment)
    → IsHonest strategy
    → Inv s
    → (assign strategy s req).1 ≡ ok a
    → a.sandbox_uid ≡ req.sandbox_uid
assign-uid strategy s req a honest v e =
    elim (Option-cases (lookup req.sandbox_uid s.assignments)) [
      | inl fresh ↦
          uid-of_GrantedBy s req (assign strategy s req) a
            (assign_grants strategy s req honest (unfold get in fresh)) e
      | inr (b, found) ↦ unfold assign in ground (arith, v.keyed req.sandbox_uid b found)
    ]

-- A sandbox to which Assign gave a slot is given the same assignment by every later Assign, whatever
-- the request says beside the UID, and the state stays as it is. The first strategy chooses among
-- the candidates.
pub assign_again :
    (strategy other : Strategy) (s : Scheduler) (req again : AssignRequest) (a : Assignment)
    → IsHonest strategy
    → (assign strategy s req).1 ≡ ok a
    → again.sandbox_uid ≡ req.sandbox_uid
    → assign other (assign strategy s req).0 again ≡ ((assign strategy s req).0, ok a)
unfolding assign
assign_again strategy other s req again a honest e same =
    let found : lookup req.sandbox_uid (assign strategy s req).0.assignments ≡ some a =
      unfold get in get-assign strategy s req a honest e in
    rw (same, found, assign) refl

assign_fresh :
    (strategy : Strategy) (s : Scheduler) (req : AssignRequest)
    → get s req.sandbox_uid ≡ none
    → req.slot_profile ≢ ""
    → assign strategy s req ≡ choose strategy s req (candidates s req)
unfolding assign get
assign_fresh strategy s req fresh named = ground arith

choose-no_capacity :
    (s : Scheduler) (req : AssignRequest) (cs : List Candidate)
    → candidates s req ≡ cs
    → ((choose bin_pack s req cs).1 ≡ err no_capacity)
      ↔ ((w : WorkerKey) (i : ℤ) → ¬ Fits s req w i)
unfolding choose bin_pack bin_pack_select
choose-no_capacity s req [] e = (
  λ _ w i f. let (c, m, _, _) = candidates-of_Fits s req w i f in not-Elem-nil c (rw e at m),
  λ _. refl,
)
choose-no_capacity s req (c ∷ cs) e =
    let best = best_of c cs in
    let m : Elem best (c ∷ cs) = bin_pack-IsHonest req (c ∷ cs) best refl in
    let f = candidates-Fits s req best (rw e m) in
    let (granted, _) = reserve-Granted s req best f in
    (λ h. cc, λ nothing. absurd (nothing best.worker best.slot_id f))

-- With bin packing, Assign of a sandbox that has no assignment fails for want of capacity exactly
-- when no slot fits.
pub assign-no_capacity :
    (s : Scheduler) (req : AssignRequest)
    → get s req.sandbox_uid ≡ none
    → req.slot_profile ≢ ""
    → ((assign bin_pack s req).1 ≡ err no_capacity) ↔ ((w : WorkerKey) (i : ℤ) → ¬ Fits s req w i)
assign-no_capacity s req fresh named =
    rw (assign_fresh bin_pack s req fresh named) (choose-no_capacity s req (candidates s req) refl)
