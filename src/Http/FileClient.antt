-- ===== src/Http/FileClient.antt =====
-- internal/worker/httpapi/client.go: the calls of Client for a sandbox and its files.
use Prim.Native.String.{◌++◌ as join_text}
use sandbox_fleet.Base.{
  String, Bool, false, List, [], ◌∷◌, ◌++◌, some, if◌then◌else◌, ◌!=◌, ltb, string_key,
}
use sandbox_fleet.Base.Int.{pos}
use sandbox_fleet.Base.Text.{decimal_int}
use sandbox_fleet.Base.Result.{Result, ok, err}
use sandbox_fleet.Base.Action.{Action, lift, ◌>>=◌}
use sandbox_fleet.Slot.{free}
use sandbox_fleet.Worker.Types.{Identity, SlotRef, SandboxInfo, no_identity}
use sandbox_fleet.Controller.Objects.{Error, transport, invalid}
use sandbox_fleet.Http.Wire.{Wire, Body, empty, file, Response, FileRequest, FileEntry}
use sandbox_fleet.Http.Files.{max_file_bytes}
use sandbox_fleet.Http.Client.{
  Transport, trim_slashes, slot_url, is_failure, response_error, read_nothing, do_value,
}

unfoldable pub identity_query : Identity → List (String × String)
identity_query i = ("namespace", i.namespace) ∷ ("name", i.name) ∷ ("uid", i.uid) ∷ []

-- The values of the query of fileURL; `url.Values.Encode` sorts them by their keys.
unfoldable pub file_query : String → FileRequest → List (String × String)
unfolding identity_query
file_query action req =
    if action != "upload"
    then identity_query req.identity ++ ("path", req.path) ∷ []
    else identity_query req.identity

module _ {W J B A : Type 0} (wire : Wire J A) (t : Transport W J B) where
  unfoldable pub file_url : String → String → FileRequest → String
  unfolding trim_slashes decimal_int file_query
  file_url endpoint action req = join_text (trim_slashes endpoint) (
      join_text "/v1/slots/" (
        join_text (decimal_int req.slot_id) (
          join_text "/files/"
            (join_text action (join_text "?" (t.encode_query (file_query action req)))))))

  -- The answer of a missing status has no state; a zero value stands for it.
  abbrev pub zero_info : SandboxInfo
  zero_info = record { identity = no_identity; slot_id = pos 0; state = free }

  unfoldable pub get_sandbox : String → SlotRef → Action W Error SandboxInfo
  unfolding slot_url identity_query do_value
  get_sandbox endpoint ref =
      do_value wire t wire.info zero_info "GET"
        (join_text (slot_url endpoint ref.slot_id "")
          (join_text "?" (t.encode_query (identity_query ref.identity))))
        (some empty)

  unfoldable pub exists_sandbox_file : String → FileRequest → Action W Error Bool
  unfolding file_url do_value
  exists_sandbox_file endpoint req =
      do_value wire t wire.exists false "GET" (file_url endpoint "exists" req) (some empty)

  unfoldable pub list_sandbox_files : String → FileRequest → Action W Error (List FileEntry)
  unfolding file_url do_value
  list_sandbox_files endpoint req =
      do_value wire t wire.entries [] "GET" (file_url endpoint "list" req) (some empty)

  -- The content of a body, if it is not too long.
  unfoldable pub read_content : Body J B → Result Error B
  read_content (file content) =
      if ltb max_file_bytes (t.length_of content)
      then err (invalid "file exceeds %d bytes" [])
      else ok content
  read_content _ = err (transport "read worker response")

  unfoldable pub read_file_response : Response J B → Result Error B
  unfolding response_error read_content
  read_file_response r =
      if is_failure r.status
      then err (response_error wire.error t.status_text r)
      else read_content r.body

  unfoldable pub read_sandbox_file : String → FileRequest → Action W Error B
  unfolding file_url read_file_response ◌>>=◌
  read_sandbox_file endpoint req = do
    response ← t.send (record {
      method = "GET";
      url = file_url endpoint "content" req;
      body = empty;
      file_name = "";
    })
    lift (read_file_response response)

  unfoldable pub write_sandbox_file : String → FileRequest → B → Action W Error (Unit {0})
  unfolding file_url read_nothing ◌>>=◌
  write_sandbox_file endpoint req content = do
    response ← t.send (record {
      method = "POST";
      url = file_url endpoint "upload" req;
      body = file content;
      file_name = req.path;
    })
    lift (read_nothing wire.error t.status_text response)
