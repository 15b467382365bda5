-- ===== src/Controller/Counting.antt =====
-- internal/controller/pool_controller.go: the numbers in the status of a pool.
use sandbox_fleet.Base.{
  ℕ, suc, ◌+◌, ◌≤◌, String, Bool, true, false, not, ◌≡◌, refl, sym, subst, ◌∙◌, List, [], ◌∷◌,
  Option, some, none, if◌then◌else◌, ◌!=◌, ◌==◌, string_key, length, arith,
}
use sandbox_fleet.Base.Map.{Map, lookup, insert, lookup-insert}
use sandbox_fleet.Base.Result.{Result, ok, err}
use sandbox_fleet.Base.Action.{attempt, pure, ◌>>=◌}
use sandbox_fleet.Base.Action.Ends.{Ends, Ends-if, Ends-attempt_any, Ends-bind}
use sandbox_fleet.Slot.{State, Info, free, state_key}
use sandbox_fleet.Slot.Config.{Quantity}
use sandbox_fleet.Slot.Plan.{or_zero}
use sandbox_fleet.Scheduler.Types.{WorkerKey}
use sandbox_fleet.Scheduler.Ops.{remove_worker}
use sandbox_fleet.Controller.Objects.{Error, ProfileStatus, Pool, Pod}
use sandbox_fleet.Controller.Sandbox.{State as Both, Step, on_world, on_scheduler}
use sandbox_fleet.Controller.Pool.{
  Tally, no_profile, count_up, count_state, count_found, count_profile, count_slot, count_slots,
  pod_ready, worker_key_of,
}
use sandbox_fleet.Controller.Clients.{label_template}
use sandbox_fleet.Controller.Topology.{Workloads}
use sandbox_fleet.Controller.Inventory.{Printer, see_pod, count_worker, label_of}
use sandbox_fleet.Controller.Refreshing.{report_worker, observe_pod, observe_pods, healthy_slots}

-- The numbers of a profile fit together and into the numbers of all slots.
abbrev pub IsCount : ℕ → ℕ → ProfileStatus → Type 0
IsCount used available p =
    (p.total ≡ p.used + p.available) × (p.used ≤ used) × (p.available ≤ available)

abbrev pub IsCounted : ℕ → ℕ → Map String ProfileStatus → Type 0
IsCounted used available m =
    (k : String) (p : ProfileStatus) → lookup k m ≡ some p → IsCount used available p

abbrev pub number : String → Map String ℕ → ℕ
number k m = or_zero (lookup k m)

-- What the counts promise after a number of pods.
pub record IsTally (pods : ℕ) (t : Tally) : Type 0 where
  pub counted : IsCounted t.used_slots t.available_slots t.profiles
  pub workers : t.ready_workers ≤ pods
  pub ready : (k : String) → number k t.ready ≤ number k t.total
  pub total : (k : String) → number k t.total ≤ pods

number-count_up :
    (k name : String) (m : Map String ℕ)
    → number k (count_up name m) ≡ (if name == k then suc (number k m) else number k m)
unfolding count_up
number-count_up k name m = ground (arith, lookup-insert k name (suc (number name m)) m)

-- The number of used slots, and of available ones, after a slot of a state.
abbrev used_after : State → ℕ → ℕ
used_after state n = if state == free then n else suc n

abbrev available_after : State → ℕ → ℕ
available_after state n = if state == free then suc n else n

count_state-IsCount :
    (state : State) (used available : ℕ) (p : ProfileStatus)
    → IsCount used available p
    → IsCount (used_after state used) (available_after state available) (count_state state p)
unfolding count_state
count_state-IsCount state used available p h = (ground arith, ground arith, ground arith)

IsCount-after :
    (state : State) (used available : ℕ) (p : ProfileStatus)
    → IsCount used available p
    → IsCount (used_after state used) (available_after state available) p
IsCount-after state used available p h = (h.0, ground arith, ground arith)

pub insert-IsCounted :
    (used available : ℕ) (name : String) (p : ProfileStatus) (m : Map String ProfileStatus)
    → IsCount used available p
    → IsCounted used available m
    → IsCounted used available (insert name p m)
insert-IsCounted used available name p m hp h k r e =
    pick (name == k) (sym (lookup-insert k name p m) ∙ e)
  where
    some_inj : some p ≡ some r → p ≡ r
    some_inj e = cc

    pick : (b : Bool) → (if b then some p else lookup k m) ≡ some r → IsCount used available r
    pick true e = subst (IsCount used available) (some_inj e) hp
    pick false e = h k r e

count_found-IsCounted :
    (info : Info) (used available : ℕ) (m : Map String ProfileStatus) (found : Option ProfileStatus)
    → lookup info.profile m ≡ found
    → IsCounted used available m
    → IsCounted
        (used_after info.state used)
        (available_after info.state available)
        (count_found info m found)
unfolding count_found
count_found-IsCounted info used available m found e h = go found e
  where
    after : IsCounted (used_after info.state used) (available_after info.state available) m
    after k p r = IsCount-after info.state used available p (h k p r)

    put :
        (p : ProfileStatus)
        → IsCount used available p
        → IsCounted
            (used_after info.state used)
            (available_after info.state available)
            (insert info.profile (count_state info.state p) m)
    put p c =
        insert-IsCounted _ _ info.profile (count_state info.state p) m
          (count_state-IsCount info.state used available p c) after

    either :
        (b : Bool)
        → IsCounted (used_after info.state used) (available_after info.state available) (
            if b
            then insert info.profile (count_state info.state (no_profile info.profile)) m
            else m)
    either true = put (no_profile info.profile) (refl, omega arith, omega arith)
    either false = after

    go :
        (found : Option ProfileStatus)
        → lookup info.profile m ≡ found
        → IsCounted
            (used_after info.state used)
            (available_after info.state available)
            (count_found info m found)
    go none e = either (info.profile != "")
    go (some p) e = put p (h info.profile p e)

count_slot-IsCounted :
    (t : Tally) (info : Info)
    → IsCounted t.used_slots t.available_slots t.profiles
    → IsCounted
        (count_slot t info).used_slots
        (count_slot t info).available_slots
        (count_slot t info).profiles
unfolding count_slot count_profile
count_slot-IsCounted t info h =
    count_found-IsCounted info t.used_slots t.available_slots t.profiles _ refl h

-- A pod is seen: its template may be one worker ahead.
record IsAhead (n : ℕ) (label : String) (t : Tally) : Type 0 where
  pub counted : IsCounted t.used_slots t.available_slots t.profiles
  pub workers : t.ready_workers ≤ n
  pub ready : (k : String) → number k t.ready + (if label == k then 1 else 0) ≤ number k t.total
  pub total : (k : String) → number k t.total ≤ suc n

count_slot-IsAhead :
    (n : ℕ) (label : String) (t : Tally) (info : Info)
    → IsAhead n label t
    → IsAhead n label (count_slot t info)
unfolding count_slot
count_slot-IsAhead n label t info h = record {
  counted = unfold count_slot in count_slot-IsCounted t info h.counted;
  workers = h.workers;
  ready = h.ready;
  total = h.total;
}

count_slots-IsAhead :
    (n : ℕ) (label : String) (slots : List Info) (t : Tally)
    → IsAhead n label t
    → IsAhead n label (count_slots t slots)
unfolding count_slots
count_slots-IsAhead n label [] t h = h
count_slots-IsAhead n label (info ∷ rest) t h =
    count_slots-IsAhead n label rest _ (count_slot-IsAhead n label t info h)

module _ {A : Type 0} (pod : Pod A) where
  abbrev label : String
  label = label_of pod label_template

  see_pod-IsAhead : (n : ℕ) (t : Tally) → IsTally n t → IsAhead n label (see_pod pod t)
  unfolding see_pod
  see_pod-IsAhead n t h = record {
    counted = h.counted;
    workers = h.workers;
    ready = λ k. ground (arith, number-count_up k label t.total, h.ready k);
    total = λ k. ground (arith, number-count_up k label t.total, h.total k);
  }

  -- The worker of the pod is not counted.
  IsAhead-IsTally : (n : ℕ) (t : Tally) → IsAhead n label t → IsTally (suc n) t
  IsAhead-IsTally n t h = record {
    counted = h.counted;
    workers = omega (arith, h.workers);
    ready = λ k. ground (arith, h.ready k);
    total = h.total;
  }

  count_worker-IsTally :
      (n : ℕ) (slots : List Info) (t : Tally)
      → IsAhead n label t
      → IsTally (suc n) (count_worker pod slots t)
  unfolding count_worker
  count_worker-IsTally n slots t h =
      let after = count_slots-IsAhead n label slots t h in
      record {
        counted = after.counted;
        workers = omega (arith, after.workers);
        ready =
            λ k. ground (arith, number-count_up k label (count_slots t slots).ready, after.ready k);
        total = after.total;
      }

module _ (q : Quantity) {W T : Type 0} (workloads : Workloads W q.Amount T)
    (printer : Printer) where
  report_worker-Ends :
      (key : WorkerKey) (pod : Pod q.Amount) (n : ℕ) (t : Tally) (r : Result Error (List Info))
      (st : Both W)
      → IsAhead n (label pod) t
      → Ends (report_worker q workloads printer key pod t r st) (λ _ t'. IsTally (suc n) t')
  unfolding report_worker on_scheduler on_world pure ◌>>=◌
  report_worker-Ends key pod n t (err e) st h = IsAhead-IsTally pod n t h
  report_worker-Ends key pod n t (ok slots) st h = count_worker-IsTally pod n slots t h

  observe_pod-Ends :
      (pool : Pool q.Amount) (pod : Pod q.Amount) (n : ℕ) (t : Tally) (st : Both W)
      → IsTally n t
      → Ends (observe_pod q workloads printer pool pod t st) (λ _ t'. IsTally (suc n) t')
  unfolding observe_pod on_scheduler pure ◌>>=◌
  observe_pod-Ends pool pod n t st h =
      Ends-if (λ _ t'. IsTally (suc n) t') (λ _ _. Unit {0}) (not (pod_ready pod)) drop ask st
        (IsAhead-IsTally pod n _ ahead)
        (Ends-attempt_any (λ _ _. Unit {0}) (λ _ t'. IsTally (suc n) t')
          (on_world (healthy_slots q workloads printer (workloads.clients.endpoint pod)))
          (report_worker q workloads printer key pod (see_pod pod t)) st
          (λ st' r. report_worker-Ends key pod n (see_pod pod t) r st' ahead))
    where
      key : WorkerKey
      key = worker_key_of pool pod.name

      ahead : IsAhead n (label pod) (see_pod pod t)
      ahead = see_pod-IsAhead pod n t h

      drop : Step W Tally
      drop = on_scheduler (λ s. (remove_worker s key, ok (tt {0}))) >>= λ _. pure (see_pod pod t)

      ask : Step W Tally
      ask =
          attempt (on_world (healthy_slots q workloads printer (workloads.clients.endpoint pod)))
          >>= report_worker q workloads printer key pod (see_pod pod t)

  pub observe_pods-Ends :
      (pool : Pool q.Amount) (pods : List (Pod q.Amount)) (n : ℕ) (t : Tally) (st : Both W)
      → IsTally n t
      → Ends
          (observe_pods q workloads printer pool pods t st)
          (λ _ t'. IsTally (n + length pods) t')
  unfolding observe_pods pure
  observe_pods-Ends pool [] n t st h = subst (λ k. IsTally k t) (omega arith) h
  observe_pods-Ends pool (pod ∷ pods) n t st h =
      Ends-bind (λ _ t'. IsTally (suc n) t') (λ _ t'. IsTally (n + suc (length pods)) t')
        (observe_pod q workloads printer pool pod t)
        (λ t'. observe_pods q workloads printer pool pods t') st
        (observe_pod-Ends pool pod n t st h)
        (λ st' t' h'.
          subst (λ k. Ends (observe_pods q workloads printer pool pods t' st') (λ _ u. IsTally k u))
            (omega arith) (observe_pods-Ends pool pods (suc n) t' st' h'))
