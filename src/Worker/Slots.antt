-- ===== src/Worker/Slots.antt =====
-- internal/worker/manager.go: what the methods of SlotManager do to the one slot that they lock. A
-- call takes the world and the slot and returns both as it leaves them, with its result.
use sandbox_fleet.Base.{
  ℕ, String, Bool, true, false, ◌||◌, List, [], ◌∷◌, Option, none, some, if◌then◌else◌, ◌==◌, ◌!=◌,
  string_key,
}
use sandbox_fleet.Base.Int.{ℤ, pos, negsuc}
use sandbox_fleet.Base.Result.{Result, ok, err}
use sandbox_fleet.Slot.{
  State, free, reserved, starting, running, stopping, cleaning, failed, state_key,
}
use sandbox_fleet.Slot.Config.{ResourceRequirements}
use sandbox_fleet.Worker.Types.{
  Identity, no_identity, EnvVar, ContainerSpec, StartRequest, SandboxInfo, ExecSandboxRequest,
  EnvironmentVariable, ContainerConfig, RuntimeId, RuntimeState, state_running, ExecRequest,
  ExecResult, Failure, not_found, failure, Error, invalid_request, sandbox_not_found, slot_conflict,
  wrong_state, wrapped, clean_failed, Env, is_restored_id, runtime_handler, snapshotter_for,
}

pub record ManagedSlot (A : Type 0) : Type 0 where
  pub id : ℤ
  pub profile : String
  pub resources : ResourceRequirements A
  pub state : State
  pub sandbox : Identity
  pub runtime_ref : Option RuntimeId
  pub restored : Bool
  pub restore_dir : String

-- A call's world, slot and result.
abbrev pub Call : Type 0 → Type 0 → Type 0 → Type 0
Call W A T = W × ManagedSlot A × Result Error T

-- What a part of StartSandbox does: return from the method, or go on to the next part.
pub data Next : Type 0 where
  return : Result Error (Unit {0}) → Next
  go_on : Next

unfoldable pub validate_identity : Identity → Result Error (Unit {0})
validate_identity i =
    if i.namespace == "" || i.name == "" || i.uid == "" then err invalid_request else ok tt

-- The loop of containerConfig over the environment.
unfoldable pub environment : List EnvVar → Result Error (List EnvironmentVariable)
environment [] = ok []
environment (v ∷ vs) =
    let rest = environment vs in
    if v.has_value_from
    then err invalid_request
    else elim rest [ ok env ↦ ok (record { name = v.name; value = v.value } ∷ env) | err e ↦ err e ]

unfoldable pub container_config : ContainerSpec → Result Error ContainerConfig
unfolding environment
container_config c = elim (environment c.env) [
  | ok env ↦ ok (record { image = c.image; command = c.command; args = c.args; env = env })
  | err e ↦ err e
]

abbrev is_running : RuntimeState → Bool
is_running state_running = true
is_running _ = false

-- The timeout of an exec: none unless the request names a positive one.
abbrev pub timeout_of : ℤ → ℕ
timeout_of (pos n) = n
timeout_of (negsuc n) = 0

module _ {A : Type 0} where
  -- The locked part of ReserveSlot.
  unfoldable pub reserve_slot : ManagedSlot A → Identity → ManagedSlot A × Result Error (Unit {0})
  reserve_slot c identity =
      if c.state == free
      then (record c { state = reserved; sandbox = identity }, ok tt)
      else if c.sandbox.uid == identity.uid
      then (c, ok tt)
      else (c, err slot_conflict)

  -- GetSandbox reads only.
  unfoldable pub info_of : Identity → ManagedSlot A → Result Error SandboxInfo
  info_of identity c =
      if c.state == free || c.sandbox.uid != identity.uid
      then err sandbox_not_found
      else ok (record { identity = c.sandbox; slot_id = c.id; state = c.state })

  -- The check of runningSlot and ExecSandbox: the runtime of a running sandbox.
  unfoldable pub running_ref : Identity → ManagedSlot A → Result Error RuntimeId
  running_ref identity c =
      if c.state == free || c.sandbox.uid != identity.uid
      then err sandbox_not_found
      else if c.state != running
      then err invalid_request
      else elim c.runtime_ref [ none ↦ err invalid_request | some id ↦ ok id ]

module _ {W T : Type 0} where
  -- The error that wraps the failure of a call.
  unfoldable pub wrap_failure : W × Result Failure T → W × Result Error T
  wrap_failure (w, ok t) = (w, ok t)
  wrap_failure (w, err e) = (w, err (wrapped e))

module _ {W A : Type 0} (env : Env W A) where
  -- The return of `runtime.Delete` of a runtime that is no longer running.
  unfoldable pub delete_stale :
      ManagedSlot A → W × Result Failure (Unit {0}) → W × ManagedSlot A × Next
  delete_stale c (w, ok _) = (w, record c { runtime_ref = none; state = reserved }, go_on)
  delete_stale c (w, err e) = (w, record c { state = failed }, return (err (wrapped e)))

  unfoldable pub check_status :
      ManagedSlot A → RuntimeId → W × Result Failure RuntimeState → W × ManagedSlot A × Next
  unfolding delete_stale
  check_status c id (w, ok status) =
      if is_running status then (w, c, return (ok tt)) else delete_stale c (env.runtime.delete w id)
  check_status c id (w, err not_found) = delete_stale c (env.runtime.delete w id)
  check_status c id (w, err (failure m)) = (w, c, return (err (wrapped (failure m))))

  -- The first part of StartSandbox: a slot that is running already.
  unfoldable pub check_running : W → ManagedSlot A → W × ManagedSlot A × Next
  unfolding check_status
  check_running w c = elim c.runtime_ref [
    | none ↦ if c.state == running then (w, record c { state = reserved }, go_on) else (w, c, go_on)
    | some id ↦
        if c.state == running then check_status c id (env.runtime.status w id) else (w, c, go_on)
  ]

  -- The clean-up after `runtime.Start` failed with `e`.
  unfoldable pub clean_failed_start :
      ManagedSlot A → Failure → W × Result Failure (Unit {0}) → Call W A (Unit {0})
  clean_failed_start c e (w, ok _) =
      (w, record c { runtime_ref = none; state = reserved }, err (wrapped e))
  clean_failed_start c e (w, err e') =
      (w, record c { runtime_ref = none; state = failed }, err (clean_failed e e'))

  unfoldable pub as_return : Call W A (Unit {0}) → W × ManagedSlot A × Next
  as_return (w, c, r) = (w, c, return r)

  unfoldable pub resumed :
      ManagedSlot A → RuntimeId → W × Result Failure (Unit {0}) → W × ManagedSlot A × Next
  unfolding clean_failed_start as_return
  resumed c id (w, ok _) = (w, record c { state = running }, return (ok tt))
  resumed c id (w, err e) = as_return (clean_failed_start c e (env.runtime.delete w id))

  -- The second part: a runtime that was created and not started.
  unfoldable pub resume_start : W → ManagedSlot A → W × ManagedSlot A × Next
  unfolding resumed
  resume_start w c = elim c.runtime_ref [
    | none ↦ (w, c, go_on)
    | some id ↦ if c.state == starting then resumed c id (env.runtime.start w id) else (w, c, go_on)
  ]

  -- The result of `runtime.Start` of a new runtime.
  unfoldable pub started :
      ManagedSlot A → RuntimeId → W × Result Failure (Unit {0}) → Call W A (Unit {0})
  unfolding clean_failed_start
  started c id (w, ok _) = (w, record c { state = running }, ok tt)
  started c id (w, err e) =
      clean_failed_start (record c { restored = false }) e (env.runtime.delete w id)

  -- The result of `runtime.Create`.
  unfoldable pub created : ManagedSlot A → W × Result Failure RuntimeId → Call W A (Unit {0})
  unfolding started
  created c (w, err e) = (w, record c { state = reserved }, err (wrapped e))
  created c (w, ok id) =
      started (record c { runtime_ref = some id; restored = is_restored_id id }) id
        (env.runtime.start w id)

  -- The last part: a new runtime for a reserved slot.
  unfoldable pub launch : StartRequest → W → ManagedSlot A → Call W A (Unit {0})
  unfolding created
  launch req w c =
      if c.state != reserved
      then (w, c, err (wrong_state req.slot_id c.state))
      else elim (container_config req.container) [
        | err e ↦ (w, c, err e)
        | ok container ↦
            created (record c { state = starting })
              (env.runtime.create w (record {
                identity = req.identity;
                slot_id = req.slot_id;
                resources = c.resources;
                container = container;
              }))
      ]

  unfoldable pub then_launch : StartRequest → W × ManagedSlot A × Next → Call W A (Unit {0})
  unfolding launch
  then_launch req (w, c, return r) = (w, c, r)
  then_launch req (w, c, go_on) = launch req w c

  unfoldable pub then_resume : StartRequest → W × ManagedSlot A × Next → Call W A (Unit {0})
  unfolding then_launch resume_start
  then_resume req (w, c, return r) = (w, c, r)
  then_resume req (w, c, go_on) = then_launch req (resume_start w c)

  -- The locked part of StartSandbox.
  unfoldable pub start_slot : StartRequest → W → ManagedSlot A → Call W A (Unit {0})
  unfolding then_resume check_running
  start_slot req w c =
      if c.sandbox.uid != req.identity.uid
      then (w, c, err slot_conflict)
      else then_resume req (check_running w c)

  unfoldable pub clear_restore_dir : W → ManagedSlot A → W × ManagedSlot A
  clear_restore_dir w c =
      if c.restore_dir == ""
      then (w, c)
      else (env.remove_all w c.restore_dir, record c { restore_dir = "" })

  -- `Registry.For` and then `DeleteRestored`.
  unfoldable pub delete_restored : W → RuntimeId → W × Result Error (Unit {0})
  unfolding snapshotter_for runtime_handler wrap_failure
  delete_restored w id = elim (snapshotter_for env (runtime_handler env)) [
    | err e ↦ (w, err e)
    | ok snap ↦ wrap_failure (snap.delete_restored w id)
  ]

  unfoldable pub stopped_restored :
      ManagedSlot A → W × Result Error (Unit {0}) → Call W A (Unit {0})
  unfolding clear_restore_dir
  stopped_restored c (w, err e) = (w, record c { state = failed }, err e)
  stopped_restored c (w, ok _) =
      let (w', c') = clear_restore_dir w (record c { runtime_ref = none }) in (w', c', ok tt)

  unfoldable pub stopped : ManagedSlot A → W × Result Failure (Unit {0}) → Call W A (Unit {0})
  stopped c (w, ok _) = (w, c, ok tt)
  stopped c (w, err e) = (w, record c { state = failed }, err (wrapped e))

  -- The end of StopSandbox, once the slot is stopping.
  unfoldable pub stop_runtime : W → ManagedSlot A → Call W A (Unit {0})
  unfolding stopped_restored stopped delete_restored
  stop_runtime w c = elim c.runtime_ref [
    | none ↦ (w, c, ok tt)
    | some id ↦
        if c.restored
        then stopped_restored c (delete_restored w id)
        else stopped c (env.runtime.stop w id)
  ]

  -- The locked part of StopSandbox.
  unfoldable pub stop_slot : Identity → W → ManagedSlot A → Call W A (Unit {0})
  unfolding stop_runtime
  stop_slot identity w c =
      if c.state == free
      then (w, c, ok tt)
      else if c.sandbox.uid != identity.uid
      then (w, c, err slot_conflict)
      else if c.state == stopping || c.state == cleaning
      then (w, c, ok tt)
      else stop_runtime w (record c { state = stopping })

  -- What ReleaseSlot makes of a slot whose runtime is deleted.
  unfoldable pub released : ManagedSlot A → W × Result Error (Unit {0}) → Call W A (Unit {0})
  unfolding clear_restore_dir
  released c (w, err e) = (w, record c { state = failed }, err e)
  released c (w, ok _) =
      let (w', c') =
        clear_restore_dir w (record c {
          state = free;
          sandbox = no_identity;
          runtime_ref = none;
          restored = false;
        }) in
      (w', c', ok tt)

  unfoldable pub delete_runtime : W → ManagedSlot A → W × Result Error (Unit {0})
  unfolding delete_restored wrap_failure
  delete_runtime w c = elim c.runtime_ref [
    | none ↦ (w, ok tt)
    | some id ↦ if c.restored then delete_restored w id else wrap_failure (env.runtime.delete w id)
  ]

  -- The locked part of ReleaseSlot.
  unfoldable pub release_slot : Identity → W → ManagedSlot A → Call W A (Unit {0})
  unfolding released delete_runtime
  release_slot identity w c =
      if c.state == free
      then (w, c, ok tt)
      else if c.sandbox.uid != identity.uid
      then (w, c, err slot_conflict)
      else released (record c { state = cleaning }) (delete_runtime w c)

  unfoldable pub exec_restored : W → RuntimeId → ExecRequest → W × Result Error ExecResult
  unfolding snapshotter_for runtime_handler wrap_failure
  exec_restored w id req = elim (snapshotter_for env (runtime_handler env)) [
    | err e ↦ (w, err e)
    | ok snap ↦ wrap_failure (snap.exec_restored w id req)
  ]

  -- The locked part of ExecSandbox.
  unfoldable pub exec_slot : ExecSandboxRequest → W → ManagedSlot A → W × Result Error ExecResult
  unfolding running_ref exec_restored
  exec_slot req w c = elim (running_ref req.identity c) [
    | err e ↦ (w, err e)
    | ok id ↦
        let exec : ExecRequest = record {
          command = req.command;
          timeout = timeout_of req.timeout_seconds;
        } in
        if c.restored then exec_restored w id exec else wrap_failure (env.runtime.exec w id exec)
  ]
