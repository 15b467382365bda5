-- ===== src/Scheduler/Invariant.antt =====
-- What holds of the scheduler between two calls: no slot is assigned to two sandboxes, and a known
-- slot that is assigned is never free.
use sandbox_fleet.Base.{
  String, ◌≡◌, ◌≢◌, refl, ◌⊎◌, inr, Option, none, some, if◌then◌else◌, ◌==◌, arith, string_key,
}
use sandbox_fleet.Base.Int.{ℤ, int_key}
use sandbox_fleet.Base.Map.{lookup, insert, lookup-insert, Elem-lookup, IsMap, insert-IsMap}
use sandbox_fleet.Slot.{free, Info, state_key}
use sandbox_fleet.Scheduler.Types.{WorkerKey, WorkerState, Assignment, worker_key, assignment_key}
use sandbox_fleet.Scheduler.Ops.{
  Scheduler, new, update_worker, remove_worker, set_slot, record_assignment,
}
use sandbox_fleet.Scheduler.Slots.{
  slot_at, slot_at-set_slot, slot_at-remove_worker, slot_at-update_worker, lookup-overlay,
  first_claim_some,
}

abbrev pub IsTaken : Option Info → Type 0
IsTaken none = Unit
IsTaken (some info) = info.state ≢ free

pub record Inv (s : Scheduler) : Type 0 where
  pub is_map : IsMap s.assignments
  pub keyed : (u : String) (a : Assignment) → lookup u s.assignments ≡ some a → a.sandbox_uid ≡ u
  pub exclusive :
      (u v : String) (a b : Assignment)
      → lookup u s.assignments ≡ some a
      → lookup v s.assignments ≡ some b
      → a.worker ≡ b.worker
      → a.slot_id ≡ b.slot_id
      → u ≡ v
  pub taken :
      (u : String) (a : Assignment)
      → lookup u s.assignments ≡ some a
      → IsTaken (slot_at s a.worker a.slot_id)

pub new-Inv : Inv new
unfolding new lookup
new-Inv = record {
  is_map = tt;
  keyed = λ u a e. cc;
  exclusive = λ u v a b e f p q. cc;
  taken = λ u a e. cc;
}

pub remove_worker-Inv : (s : Scheduler) (w : WorkerKey) → Inv s → Inv (remove_worker s w)
remove_worker-Inv s w v = record {
  is_map = unfold remove_worker in v.is_map;
  keyed = unfold remove_worker in v.keyed;
  exclusive = unfold remove_worker in v.exclusive;
  taken = λ u a e. ground (
    arith,
    slot_at-remove_worker s w a.worker a.slot_id,
    v.taken u a (unfold remove_worker in e),
  );
}

pub update_worker-Inv : (s : Scheduler) (st : WorkerState) → Inv s → Inv (update_worker s st)
update_worker-Inv s st v = record {
  is_map = unfold update_worker in v.is_map;
  keyed = unfold update_worker in v.keyed;
  exclusive = unfold update_worker in v.exclusive;
  taken = λ u a e.
      let e' : lookup u s.assignments ≡ some a = unfold update_worker in e in
      ground (
        arith,
        slot_at-update_worker s st a.worker a.slot_id,
        lookup-overlay st.key s.assignments st.slots a.slot_id,
        first_claim_some s.assignments u a (Elem-lookup u a s.assignments e'),
        v.taken u a e',
      );
}

-- Nobody holds the slot that `a` names.
abbrev pub IsAlone : Scheduler → Assignment → Type 0
IsAlone s a =
    (u : String) (b : Assignment)
    → lookup u s.assignments ≡ some b
    → a.worker ≡ b.worker
    → a.slot_id ≡ b.slot_id
    → ⊥

module _ (s : Scheduler) (a : Assignment) (v : Inv s) (alone : IsAlone s a) where
  -- A new assignment keeps the invariant where the slots beside its own stay as they were.
  added-Inv :
      (t : Scheduler)
      → t.assignments ≡ insert a.sandbox_uid a s.assignments
      → IsTaken (slot_at t a.worker a.slot_id)
      → ((w : WorkerKey) (i : ℤ)
          → ((a.worker ≡ w) × (a.slot_id ≡ i)) ⊎ (slot_at t w i ≡ slot_at s w i))
      → Inv t
  added-Inv t inserted here elsewhere = record {
    is_map = rw inserted (insert-IsMap a.sandbox_uid a s.assignments v.is_map);
    keyed = λ u b e. ground (arith, added u, v.keyed u b);
    exclusive = λ u w b c e f p q.
        ground (arith, added u, added w, v.exclusive u w b c, alone u b, alone w c);
    taken = λ u b e. ground (arith, added u, here, v.taken u b, elsewhere b.worker b.slot_id);
  }
    where
      added :
          (u : String)
          → lookup u t.assignments ≡ (if a.sandbox_uid == u then some a else lookup u s.assignments)
      added u = rw inserted (lookup-insert u a.sandbox_uid a s.assignments)

  pub record-Inv : slot_at s a.worker a.slot_id ≡ none → Inv (record_assignment s a)
  unfolding record_assignment slot_at
  record-Inv unknown = added-Inv _ refl (ground arith) (λ w i. inr refl)

  pub set_and_record-Inv :
      (worker : WorkerState) (info : Info)
      → lookup a.worker s.workers ≡ some worker
      → info.state ≢ free
      → Inv (record_assignment (set_slot s a.worker worker a.slot_id info) a)
  unfolding record_assignment set_slot slot_at
  set_and_record-Inv worker info known busy =
      let there =
        λ (w : WorkerKey) (i : ℤ). slot_at-set_slot s a.worker w worker a.slot_id i info known in
      added-Inv _ refl (ground (arith, there a.worker a.slot_id)) (λ w i. ground (arith, there w i))
