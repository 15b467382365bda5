-- ===== src/Slot.antt =====
-- internal/slot/slot.go: the state of a slot that workers and the scheduler share.
pub mod Config
pub mod Plan
mod Tests
use sandbox_fleet.Base.{String, Key}
use sandbox_fleet.Base.Int.{ℤ}

pub data State : Type 0 where
  free reserved starting running stopping cleaning failed : State

State-discrete : Discrete State
State-discrete = hlevel

instance unfoldable pub state_key : Key State
unfolding State-discrete
state_key = record { same = State-discrete }

pub record Info : Type 0 where
  pub id : ℤ
  pub profile : String
  pub state : State
  pub sandbox_uid : String
