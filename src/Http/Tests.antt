-- ===== src/Http/Tests.antt =====
-- The errors of the slot manager as the server sees them, and each theorem of the API at one of them.
use sandbox_fleet.Base.{ℕ, String, Bool, true, false, ◌≡◌, refl, none, some}
use sandbox_fleet.Base.Result.{err}
use sandbox_fleet.Worker.Types.{Error as WorkerError}
use sandbox_fleet.Controller.Objects.{http}
use sandbox_fleet.Http.Wire.{Codec, Wire, Errors, ErrorResponse, Sentinel}
use sandbox_fleet.Http.Server.{write_manager_error}
use sandbox_fleet.Http.Retrying.{
  IsReadBack, seen_by_client, fails_for_good, seen_by_client-write_manager_error,
}

wraps : WorkerError → Sentinel → Bool
wraps WorkerError.invalid_request Sentinel.invalid_request = true
wraps WorkerError.slot_not_found Sentinel.slot_not_found = true
wraps WorkerError.sandbox_not_found Sentinel.sandbox_not_found = true
wraps WorkerError.slot_conflict Sentinel.slot_conflict = true
wraps WorkerError.slot_config_invalid Sentinel.slot_config_invalid = true
wraps _ _ = false

abbrev errors : Errors WorkerError
errors = record { wraps = wraps; error_message = λ e. "slot belongs to another sandbox" }

abbrev silent : {T : Type 0} → Codec ErrorResponse T
silent = record { encode = λ x. none; decode = λ j. none }

-- Only errors are written, each as itself.
abbrev wire : Wire ErrorResponse ℕ
wire = record {
  configs = silent;
  slots = silent;
  slot_ref = silent;
  info = silent;
  start = silent;
  exec = silent;
  exec_result = silent;
  create = silent;
  created = silent;
  restore = silent;
  delete = silent;
  exists = silent;
  entries = silent;
  error = record { encode = λ x. some x; decode = λ x. some x };
}

abbrev status_text : ℕ → String
status_text status = "409 Conflict"

error-IsReadBack : IsReadBack wire.error
error-IsReadBack = record { text = λ x. x; writes = λ x. refl; reads = λ x. refl }

seen_by_client-write_manager_error_example :
    (seen_by_client String wire errors status_text error-IsReadBack
        (write_manager_error wire errors WorkerError.slot_conflict)
      ≡ err (http 409 "SlotConflict" "slot belongs to another sandbox"))
    × (fails_for_good (
          seen_by_client String wire errors status_text error-IsReadBack
            (write_manager_error wire errors WorkerError.slot_conflict))
        ≡ true)
unfolding wraps
seen_by_client-write_manager_error_example =
    seen_by_client-write_manager_error String wire errors status_text error-IsReadBack
      WorkerError.slot_conflict
