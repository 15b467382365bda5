-- ===== src/Http/Client.antt =====
-- internal/worker/httpapi/client.go: Client. `Transport` is http.Client.Do with the request that is built:
-- it answers with a response and the text of its status.
use Prim.Native.String.{[], ◌∷◌, ◌++◌ as join_text}
use Prim.Native.Char.{code}
use sandbox_fleet.Base.{
  ℕ, String, Bool, false, ◌||◌, List, Option, none, some, if◌then◌else◌, ◌==◌, ◌!=◌, ltb, leb,
  string_key, nat_key,
}
use sandbox_fleet.Base.Int.{ℤ, pos}
use sandbox_fleet.Base.Text.{decimal_int}
use sandbox_fleet.Base.Result.{Result, ok, err}
use sandbox_fleet.Base.Action.{Action, fail, lift, ◌>>=◌}
use sandbox_fleet.Slot.{Info}
use sandbox_fleet.Slot.Config.{Config}
use sandbox_fleet.Worker.Types.{SlotRef, StartRequest, ExecSandboxRequest, ExecResult}
use sandbox_fleet.Worker.Snapshots.{
  CreateSnapshotRequest, CreateSnapshotResult, RestoreRequest, DeleteObjectsRequest,
}
use sandbox_fleet.Controller.Objects.{Error, http, transport}
use sandbox_fleet.Http.Wire.{Codec, Wire, Body, empty, json, Response, ErrorResponse}

-- The method, the URL and the body of a request, with the name of an uploaded file.
pub record Call (J B : Type 0) : Type 0 where
  pub method : String
  pub url : String
  pub body : Body J B
  pub file_name : String

-- `encode_query` is url.Values.Encode of the values, and `status_text` the text of a status.
pub record Transport (W J B : Type 0) : Type 0 where
  pub send : Call J B → Action W Error (Response J B)
  pub status_text : ℕ → String
  pub encode_query : List (String × String) → String
  pub length_of : B → ℕ

abbrev is_slash : ℕ → String → Bool
is_slash c [] = c == 47
is_slash c _ = false

-- strings.TrimRight(s, "/")
unfoldable pub trim_slashes : String → String
trim_slashes [] = ""
trim_slashes (c ∷ s) = let rest = trim_slashes s in if is_slash (code c) rest then "" else c ∷ rest

unfoldable pub slot_url : String → ℤ → String → String
unfolding trim_slashes decimal_int
slot_url endpoint id action =
    let url = join_text (trim_slashes endpoint) (join_text "/v1/slots/" (decimal_int id)) in
    if action != "" then join_text url (join_text "/" action) else url

-- The details of a response that reports an error.
unfoldable pub error_details :
    {J B : Type 0} → Codec J ErrorResponse → String → Body J B → ErrorResponse
error_details codec status (json text) = elim (codec.decode text) [
  | some details ↦ details
  | none ↦ record { error_code = ""; message = status }
]
error_details codec status _ = record { error_code = ""; message = status }

-- Whether a response is no success.
abbrev pub is_failure : ℕ → Bool
is_failure status = ltb status 200 || leb 300 status

module _ {J B : Type 0} (codec : Codec J ErrorResponse) (status_text : ℕ → String) where
  -- The error of a response.
  unfoldable pub response_error : Response J B → Error
  unfolding error_details
  response_error r =
      let details = error_details codec (status_text r.status) r.body in
      http r.status details.error_code details.message

  -- The end of `do` without a result.
  unfoldable pub read_nothing : Response J B → Result Error (Unit {0})
  unfolding response_error
  read_nothing r = if is_failure r.status then err (response_error r) else ok tt

module _ {J B T : Type 0} (codec : Codec J T) (zero : T) where
  -- The value of a body, where it has one.
  unfoldable pub decode_body : Body J B → Result Error T
  decode_body (json text) = elim (codec.decode text) [
    | some value ↦ ok value
    | none ↦ err (transport "decode worker response")
  ]
  decode_body _ = err (transport "decode worker response")

  -- The end of `do` with a result; after 204 it stays the zero value.
  unfoldable pub read_value : Codec J ErrorResponse → (ℕ → String) → Response J B → Result Error T
  unfolding response_error decode_body
  read_value error_codec status_text r =
      if is_failure r.status
      then err (response_error error_codec status_text r)
      else if r.status == 204
      then ok zero
      else decode_body r.body

module _ {W J B A : Type 0} (wire : Wire J A) (t : Transport W J B) where
  -- `do` with a body that json.Marshal accepts or not, and without a result.
  unfoldable pub do_nothing : String → String → Option J → Action W Error (Unit {0})
  unfolding read_nothing fail ◌>>=◌
  do_nothing method url none = fail (transport "encode worker request")
  do_nothing method url (some text) = do
    response ← t.send (record { method = method; url = url; body = json text; file_name = "" })
    lift (read_nothing wire.error t.status_text response)

  -- `do` with a result.
  unfoldable pub do_value :
      {T : Type 0} → Codec J T → T → String → String → Option (Body J B) → Action W Error T
  unfolding read_value fail ◌>>=◌
  do_value codec zero method url none = fail (transport "encode worker request")
  do_value codec zero method url (some body) = do
    response ← t.send (record { method = method; url = url; body = body; file_name = "" })
    lift (read_value codec zero wire.error t.status_text response)

  abbrev pub json_body : Option J → Option (Body J B)
  json_body none = none
  json_body (some text) = some (json text)

  unfoldable pub health : String → Action W Error (Unit {0})
  unfolding trim_slashes read_nothing ◌>>=◌
  health endpoint = do
    response ← t.send (record {
      method = "GET";
      url = join_text (trim_slashes endpoint) "/healthz";
      body = empty;
      file_name = "";
    })
    lift (read_nothing wire.error t.status_text response)

  unfoldable pub list_slots : String → Action W Error (List Info)
  unfolding trim_slashes do_value
  list_slots endpoint =
      do_value wire.slots List.[] "GET" (join_text (trim_slashes endpoint) "/v1/slots") (some empty)

  unfoldable pub apply_topology : String → List (Config A) → Action W Error (Unit {0})
  unfolding trim_slashes do_nothing
  apply_topology endpoint configs =
      do_nothing "PUT" (join_text (trim_slashes endpoint) "/v1/topology")
        (wire.configs.encode configs)

  unfoldable pub reserve_slot : String → SlotRef → Action W Error (Unit {0})
  unfolding slot_url do_nothing
  reserve_slot endpoint ref =
      do_nothing "POST" (slot_url endpoint ref.slot_id "reserve") (wire.slot_ref.encode ref)

  unfoldable pub start_sandbox : String → StartRequest → Action W Error (Unit {0})
  unfolding slot_url do_nothing
  start_sandbox endpoint req =
      do_nothing "POST" (slot_url endpoint req.slot_id "start") (wire.start.encode req)

  unfoldable pub stop_sandbox : String → SlotRef → Action W Error (Unit {0})
  unfolding slot_url do_nothing
  stop_sandbox endpoint ref =
      do_nothing "POST" (slot_url endpoint ref.slot_id "stop") (wire.slot_ref.encode ref)

  unfoldable pub release_slot : String → SlotRef → Action W Error (Unit {0})
  unfolding slot_url do_nothing
  release_slot endpoint ref =
      do_nothing "POST" (slot_url endpoint ref.slot_id "release") (wire.slot_ref.encode ref)

  unfoldable pub exec_sandbox : String → ExecSandboxRequest → Action W Error ExecResult
  unfolding slot_url do_value
  exec_sandbox endpoint req =
      do_value wire.exec_result (record { exit_code = pos 0; stdout = ""; stderr = "" }) "POST"
        (slot_url endpoint req.slot_id "exec") (json_body (wire.exec.encode req))

  unfoldable pub create_snapshot :
      String → CreateSnapshotRequest → Action W Error CreateSnapshotResult
  unfolding slot_url do_value
  create_snapshot endpoint req =
      do_value wire.created
        (record {
          storage_path = "";
          snapshot_files = List.[];
          size_bytes = 0;
          format_version = "";
          runtime = "";
        })
        "POST" (slot_url endpoint req.slot_id "createSnapshot") (json_body (wire.create.encode req))

  unfoldable pub restore_from_snapshot : String → RestoreRequest → Action W Error (Unit {0})
  unfolding slot_url do_nothing
  restore_from_snapshot endpoint req =
      do_nothing "POST" (slot_url endpoint req.slot_id "restoreFromSnapshot")
        (wire.restore.encode req)

  unfoldable pub delete_snapshot_objects : String → DeleteObjectsRequest → Action W Error (Unit {0})
  unfolding trim_slashes do_nothing
  delete_snapshot_objects endpoint req =
      do_nothing "POST" (join_text (trim_slashes endpoint) "/v1/snapshots/delete")
        (wire.delete.encode req)
