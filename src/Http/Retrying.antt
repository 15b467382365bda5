-- ===== src/Http/Retrying.antt =====
-- internal/worker/httpapi with handleWorkerError of internal/controller/sandbox_controller.go: which
-- errors of a worker make its sandbox fail for good.
use sandbox_fleet.Base.{
  ℕ, String, Bool, true, false, not, ◌||◌, ◌≡◌, refl, ap, ◌∙◌, some, if◌then◌else◌, arith, nat_key,
}
use sandbox_fleet.Base.Result.{Result, ok, err}
use sandbox_fleet.Controller.Objects.{Error, http}
use sandbox_fleet.Controller.Sandbox.{is_retryable, is_permanent}
use sandbox_fleet.Http.Wire.{
  Wire, Codec, Errors, ErrorResponse, Response, invalid_request, slot_not_found, sandbox_not_found,
  slot_conflict, slot_config_invalid, snapshot_load,
}
use sandbox_fleet.Http.Server.{write_json, write_error, write_manager_error}
use sandbox_fleet.Http.Client.{error_details, response_error, read_nothing, is_failure}

-- Whether an error wraps one of the sentinels.
abbrev pub is_known : {E : Type 0} → Errors E → E → Bool
is_known errors e =
    errors.wraps e invalid_request
    || errors.wraps e slot_config_invalid
    || errors.wraps e snapshot_load
    || errors.wraps e slot_not_found
    || errors.wraps e sandbox_not_found
    || errors.wraps e slot_conflict

-- The status and the code of a response to an error.
abbrev pub status_and_code : {E : Type 0} → Errors E → E → ℕ × String
status_and_code errors e =
    if errors.wraps e invalid_request || errors.wraps e slot_config_invalid
    then (400, "InvalidRequest")
    else if errors.wraps e snapshot_load
    then (422, "SnapshotLoadFailed")
    else if errors.wraps e slot_not_found || errors.wraps e sandbox_not_found
    then (404, "SandboxNotFound")
    else if errors.wraps e slot_conflict
    then (409, "SlotConflict")
    else (500, "RuntimeError")

-- The permanence of the error that a client makes of a result; a success has none.
abbrev pub fails_for_good : Result Error (Unit {0}) → Bool
fails_for_good (ok _) = false
fails_for_good (err e) = is_permanent e

-- A value is written as a text that is read back as it.
pub record IsReadBack {J T : Type 0} (codec : Codec J T) : Type 0 where
  pub text : T → J
  pub writes : (x : T) → codec.encode x ≡ some (text x)
  pub reads : (x : T) → codec.decode (text x) ≡ some x

module _ {E : Type 0} (errors : Errors E) where
  failure_status : (e : E) → is_failure (status_and_code errors e).0 ≡ true
  failure_status e = ground arith

  is_retryable-status :
      (e : E) → not (is_retryable (status_and_code errors e).0) ≡ is_known errors e
  unfolding is_retryable nat_key
  is_retryable-status e = ground arith

module _ {J A E : Type 0} (B : Type 0) (wire : Wire J A) (errors : Errors E)
    (status_text : ℕ → String) (lawful : IsReadBack wire.error) where
  abbrev pub seen_by_client : Response J B → Result Error (Unit {0})
  seen_by_client r = read_nothing wire.error status_text r

  read_nothing-write_error :
      (status : ℕ) (code message : String)
      → is_failure status ≡ true
      → seen_by_client (write_error wire errors status code message)
        ≡ err (http status code message)
  unfolding write_error write_json read_nothing response_error error_details
  read_nothing-write_error status code message f =
      let x : ErrorResponse = record { error_code = code; message = message } in
      rw (lawful.writes x) (rw f (rw (lawful.reads x) refl))

  write_manager_error-write_error :
      (e : E)
      → write_manager_error {B = B} wire errors e
        ≡ write_error wire errors
            (status_and_code errors e).0
            (status_and_code errors e).1
            (errors.error_message e)
  unfolding write_manager_error
  write_manager_error-write_error e = ground arith

  -- What the client reports of an error that the server answers with has its status, code and message,
  -- and makes the sandbox fail for good exactly when the error wraps one of the sentinels. The JSON of an
  -- error is read back.
  pub seen_by_client-write_manager_error :
      (e : E)
      → (seen_by_client (write_manager_error wire errors e)
          ≡ err (
              http
                (status_and_code errors e).0
                (status_and_code errors e).1
                (errors.error_message e)))
        × (fails_for_good (seen_by_client (write_manager_error wire errors e)) ≡ is_known errors e)
  seen_by_client-write_manager_error e =
      (seen, ap fails_for_good seen ∙ (unfold is_permanent in is_retryable-status errors e))
    where
      seen :
          seen_by_client (write_manager_error wire errors e)
          ≡ err (
              http
                (status_and_code errors e).0
                (status_and_code errors e).1
                (errors.error_message e))
      seen =
          ap seen_by_client (write_manager_error-write_error e)
          ∙ read_nothing-write_error _ _ (errors.error_message e) (failure_status errors e)
