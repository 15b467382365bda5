-- ===== src/Controller/Running.antt =====
-- internal/controller/sandbox_controller.go: three reconciles bring a new sandbox to run.
use sandbox_fleet.Base.{◌≡◌, some, string_key}
use sandbox_fleet.Base.Action.{◌>>◌}
use sandbox_fleet.Base.Action.Ends.{Ends}
use sandbox_fleet.Scheduler.Types.{Assignment as SchedulerAssignment}
use sandbox_fleet.Scheduler.Ops.{Scheduler, get}
use sandbox_fleet.Controller.Objects.{Sandbox, Assignment, running, sandbox_status_key}
use sandbox_fleet.Controller.Clients.{Clients}
use sandbox_fleet.Controller.Sandbox.{State, Requeue, pool_poll_interval}
use sandbox_fleet.Controller.Placing.{placement}

module _ {W : Type 0} (view : W → Sandbox) where
  -- The sandbox runs on the slot of the assignment.
  pub record RunsWith (v : Sandbox) (a : SchedulerAssignment) (t : State W) (n : Requeue)
      : Type 0 where
    pub phase : (view t.world).status.phase ≡ running
    pub spec : (view t.world).spec ≡ v.spec
    pub placed : (view t.world).status.assignment ≡ some (placement a)
    pub known : get t.scheduler v.meta.uid ≡ some a
    pub next : n ≡ pool_poll_interval
