-- ===== src/Scheduler/Types.antt =====
-- internal/scheduler/types.go: keys, the view of a worker, assignments, candidates and errors.
use sandbox_fleet.Base.{ℕ, String, Bool, List, Key, String-discrete}
use sandbox_fleet.Base.Int.{ℤ, ℤ-discrete}
use sandbox_fleet.Base.Map.{Map}
use sandbox_fleet.Base.Result.{Result}
use sandbox_fleet.Slot.{Info}

-- The errors are the sentinels that the messages wrap. `strategy_failed` is any other error of a
-- strategy, and `runtime_panic` a nil pointer or an index out of range.
pub data Error : Type 0 where
  no_capacity assignment_conflict invalid_slot_profile no_strategy_candidate : Error
  strategy_failed : String → Error
  runtime_panic : Error

pub record WorkerKey : Type 0 where
  pub namespace : String
  pub pool : String
  pub name : String

pub record WorkerState : Type 0 where
  pub key : WorkerKey
  pub healthy : Bool
  pub last_observed : ℕ
  pub slots : Map ℤ Info

pub record Assignment : Type 0 where
  pub sandbox_uid : String
  pub namespace : String
  pub name : String
  pub worker : WorkerKey
  pub slot_id : ℤ
  pub slot_profile : String

pub record AssignRequest : Type 0 where
  pub sandbox_uid : String
  pub namespace : String
  pub name : String
  pub pool : String
  pub slot_profile : String

pub record Candidate : Type 0 where
  pub worker : WorkerKey
  pub slot_id : ℤ
  pub profile : String
  pub free_slots : ℕ
  pub busy_slots : ℕ

-- The interface `Strategy`. A strategy that draws at random is another value at each call.
pub record Strategy : Type 0 where
  pub name : String
  pub select : AssignRequest → List Candidate → Result Error Candidate

unfoldable pub WorkerKey-discrete : Discrete WorkerKey
unfolding String-discrete
WorkerKey-discrete = hlevel String-discrete

instance unfoldable pub worker_key : Key WorkerKey
unfolding WorkerKey-discrete
worker_key = record { same = WorkerKey-discrete }

unfoldable pub Assignment-discrete : Discrete Assignment
unfolding String-discrete WorkerKey-discrete ℤ-discrete
Assignment-discrete = hlevel (String-discrete, WorkerKey-discrete, ℤ-discrete)

-- `==` on the struct compares every field.
instance unfoldable pub assignment_key : Key Assignment
unfolding Assignment-discrete
assignment_key = record { same = Assignment-discrete }
