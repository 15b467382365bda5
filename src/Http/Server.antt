-- ===== src/Http/Server.antt =====
-- internal/worker/httpapi/server.go: the handlers of Server, but those of the files. A handler takes the
-- request and the world and answers with a response.
use sandbox_fleet.Base.{ℕ, String, ◌||◌, Option, none, some, if◌then◌else◌, ◌!=◌, string_key}
use sandbox_fleet.Base.Int.{ℤ, pos, int_key}
use sandbox_fleet.Base.Result.{Result, ok, err}
use sandbox_fleet.Base.Action.{Action}
use sandbox_fleet.Worker.Types.{Identity, SlotRef, StartRequest, ExecSandboxRequest}
use sandbox_fleet.Worker.Snapshots.{CreateSnapshotRequest, RestoreRequest}
use sandbox_fleet.Http.Wire.{
  Codec, Wire, Body, empty, json, plain, Request, Response, Manager, Errors, parse_int32,
  invalid_request, slot_not_found, sandbox_not_found, slot_conflict, slot_config_invalid,
  snapshot_load,
}

-- An int32 that is not negative.
unfoldable pub slot_of_path : Option ℤ → Option ℤ
slot_of_path (some (pos n)) = some (pos n)
slot_of_path _ = none

module _ {J B : Type 0} where
  unfoldable pub no_content : Response J B
  no_content = record { status = 204; body = empty }

  -- writeJSON
  unfoldable pub write_json : ℕ → Option J → Response J B
  write_json status none = record { status = 500; body = plain "encode response" }
  write_json status (some text) = record { status = status; body = json text }

  -- decodeRequest
  unfoldable pub decode_request : {T : Type 0} → Codec J T → Body J B → Option T
  decode_request codec (json text) = codec.decode text
  decode_request codec _ = none

  -- pathSlotID
  unfoldable pub path_slot_id : Request J B → Option ℤ
  unfolding parse_int32 slot_of_path
  path_slot_id r = slot_of_path (parse_int32 r.path_slot)

  unfoldable pub identity_from_query : Request J B → Identity
  identity_from_query r = record {
    namespace = r.query "namespace";
    name = r.query "name";
    uid = r.query "uid";
  }

module _ {J B A E : Type 0} (wire : Wire J A) (errors : Errors E) where
  unfoldable pub write_error : ℕ → String → String → Response J B
  unfolding write_json
  write_error status code message =
      write_json status (wire.error.encode (record { error_code = code; message = message }))

  unfoldable pub bad_request : String → Response J B
  unfolding write_error
  bad_request message = write_error 400 "InvalidRequest" message

  unfoldable pub write_manager_error : E → Response J B
  unfolding write_error
  write_manager_error e =
      if errors.wraps e invalid_request || errors.wraps e slot_config_invalid
      then write_error 400 "InvalidRequest" (errors.error_message e)
      else if errors.wraps e snapshot_load
      then write_error 422 "SnapshotLoadFailed" (errors.error_message e)
      else if errors.wraps e slot_not_found || errors.wraps e sandbox_not_found
      then write_error 404 "SandboxNotFound" (errors.error_message e)
      else if errors.wraps e slot_conflict
      then write_error 409 "SlotConflict" (errors.error_message e)
      else write_error 500 "RuntimeError" (errors.error_message e)

  -- The end of a handler without a value.
  unfoldable pub answer_done : {W : Type 0} → W × Result E (Unit {0}) → W × Response J B
  unfolding no_content write_manager_error
  answer_done (w, ok _) = (w, no_content)
  answer_done (w, err e) = (w, write_manager_error e)

  -- The end of a handler with a value.
  unfoldable pub answer_value : {W T : Type 0} → Codec J T → W × Result E T → W × Response J B
  unfolding write_json write_manager_error
  answer_value codec (w, ok value) = (w, write_json 200 (codec.encode value))
  answer_value codec (w, err e) = (w, write_manager_error e)

  -- The slot of the path is the slot of the request.
  unfoldable pub match_slot_id :
      {W : Type 0} → Option ℤ → ℤ → (W → W × Response J B) → W → W × Response J B
  unfolding bad_request
  match_slot_id none id handle w = (w, bad_request "slotID must be a non-negative integer")
  match_slot_id (some path) id handle w =
      if path != id then (w, bad_request "path slotID does not match request slotID") else handle w

  -- A request that is decoded first.
  unfoldable pub decoded :
      {W T : Type 0} → Option T → (T → W → W × Response J B) → W → W × Response J B
  unfolding bad_request
  decoded none handle w = (w, bad_request "request body is not valid JSON")
  decoded (some request) handle w = handle request w

module _ {J B W A E : Type 0} (wire : Wire J A) (errors : Errors E)
    (manager : Manager W A B E) where
  abbrev pub Handler : Type 0
  Handler = Request J B → W → W × Response J B

  unfoldable pub health : Handler
  unfolding no_content
  health r w = (w, no_content)

  unfoldable pub put_topology : Handler
  unfolding decode_request decoded answer_done
  put_topology r =
      decoded wire errors (decode_request wire.configs r.body)
        (λ configs w. answer_done wire errors (manager.apply_slots configs w))

  unfoldable pub list_slots : Handler
  unfolding write_json
  list_slots r w = (w, write_json 200 (wire.slots.encode (manager.list_slots w)))

  unfoldable pub get_from : Option ℤ → Handler
  unfolding bad_request identity_from_query answer_value
  get_from none r w = (w, bad_request wire errors "slotID must be a non-negative integer")
  get_from (some id) r w =
      answer_value wire errors wire.info
        (manager.get_sandbox (record { slot_id = id; identity = identity_from_query r }) w)

  unfoldable pub get_sandbox : Handler
  unfolding path_slot_id get_from
  get_sandbox r = get_from (path_slot_id r) r

  -- The handlers that take a slot and its sandbox.
  unfoldable pub on_ref : (SlotRef → Action W E (Unit {0})) → Handler
  unfolding decode_request decoded path_slot_id match_slot_id answer_done
  on_ref call r = decoded wire errors (decode_request wire.slot_ref r.body) (λ ref.
      match_slot_id wire errors (path_slot_id r) ref.slot_id
        (λ w. answer_done wire errors (call ref w)))

  unfoldable pub reserve_slot : Handler
  unfolding on_ref
  reserve_slot = on_ref manager.reserve_slot

  unfoldable pub stop_sandbox : Handler
  unfolding on_ref
  stop_sandbox = on_ref manager.stop_sandbox

  unfoldable pub release_slot : Handler
  unfolding on_ref
  release_slot = on_ref manager.release_slot

  unfoldable pub start_sandbox : Handler
  unfolding decode_request decoded path_slot_id match_slot_id answer_done
  start_sandbox r = decoded wire errors (decode_request wire.start r.body) (λ (req : StartRequest).
      match_slot_id wire errors (path_slot_id r) req.slot_id
        (λ w. answer_done wire errors (manager.start_sandbox req w)))

  unfoldable pub exec_sandbox : Handler
  unfolding decode_request decoded path_slot_id match_slot_id answer_value
  exec_sandbox r =
      decoded wire errors (decode_request wire.exec r.body) (λ (req : ExecSandboxRequest).
        match_slot_id wire errors (path_slot_id r) req.slot_id
          (λ w. answer_value wire errors wire.exec_result (manager.exec_sandbox req w)))

  unfoldable pub create_snapshot : Handler
  unfolding decode_request decoded path_slot_id match_slot_id answer_value
  create_snapshot r =
      decoded wire errors (decode_request wire.create r.body) (λ (req : CreateSnapshotRequest).
        match_slot_id wire errors (path_slot_id r) req.slot_id
          (λ w. answer_value wire errors wire.created (manager.create_snapshot req w)))

  unfoldable pub restore_from_snapshot : Handler
  unfolding decode_request decoded path_slot_id match_slot_id answer_done
  restore_from_snapshot r =
      decoded wire errors (decode_request wire.restore r.body) (λ (req : RestoreRequest).
        match_slot_id wire errors (path_slot_id r) req.slot_id
          (λ w. answer_done wire errors (manager.restore_from_snapshot req w)))

  unfoldable pub delete_snapshot_objects : Handler
  unfolding decode_request decoded answer_done
  delete_snapshot_objects r =
      decoded wire errors (decode_request wire.delete r.body)
        (λ req w. answer_done wire errors (manager.delete_snapshot_objects req w))
