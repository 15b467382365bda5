-- ===== src/Http/Files.antt =====
-- internal/worker/httpapi/server.go: the handlers of the files of a sandbox. `length_of` is the number of
-- bytes of a file, and MaxFileBytes is 1 MiB. Reading
-- the file of a form does not fail.
use sandbox_fleet.Base.{ℕ, String, Option, none, some, if◌then◌else◌, ◌==◌, not, ltb, string_key}
use sandbox_fleet.Base.Int.{ℤ}
use sandbox_fleet.Base.Result.{Result, ok, err}
use sandbox_fleet.Http.Wire.{Wire, file, Request, Response, Manager, Errors, FileRequest}
use sandbox_fleet.Http.Server.{
  path_slot_id, identity_from_query, bad_request, answer_done, answer_value, write_manager_error,
}

abbrev pub max_file_bytes : ℕ
max_file_bytes = 1048576

module _ {J B A E : Type 0} (wire : Wire J A) (errors : Errors E) where
  -- fileRequestFromQuery, then the handler; the slot of the path is known or not.
  unfoldable pub with_file :
      {W : Type 0}
      → Request J B
      → Option ℤ
      → (FileRequest → W → W × Response J B)
      → W
      → W × Response J B
  unfolding bad_request identity_from_query
  with_file r none handle w = (w, bad_request wire errors "slotID must be a non-negative integer")
  with_file r (some id) handle w =
      if r.query "path" == ""
      then (w, bad_request wire errors "path query parameter is required")
      else handle (record { slot_id = id; identity = identity_from_query r; path = r.query "path" })
          w

  unfoldable pub answer_file : {W : Type 0} → W × Result E B → W × Response J B
  unfolding write_manager_error
  answer_file (w, ok content) = (w, record { status = 200; body = file content })
  answer_file (w, err e) = (w, write_manager_error wire errors e)

module _ {J B W A E : Type 0} (wire : Wire J A) (errors : Errors E)
    (manager : Manager W A B E) where
  unfoldable pub file_exists : Request J B → W → W × Response J B
  unfolding path_slot_id with_file answer_value
  file_exists r =
      with_file wire errors r (path_slot_id r)
        (λ req w. answer_value wire errors wire.exists (manager.exists_sandbox_file req w))

  unfoldable pub list_files : Request J B → W → W × Response J B
  unfolding path_slot_id with_file answer_value
  list_files r =
      with_file wire errors r (path_slot_id r)
        (λ req w. answer_value wire errors wire.entries (manager.list_sandbox_files req w))

  unfoldable pub read_file : Request J B → W → W × Response J B
  unfolding path_slot_id with_file answer_file
  read_file r =
      with_file wire errors r (path_slot_id r)
        (λ req w. answer_file wire errors (manager.read_sandbox_file req w))

  module _ (length_of : B → ℕ) where
    -- writeFile, with the file of the form: readUpload, then the name.
    unfoldable pub store_upload : Request J B → ℤ → Option (String × B) → W → W × Response J B
    unfolding bad_request identity_from_query answer_done
    store_upload r id none w = (w, bad_request wire errors "multipart field \"file\" is required")
    store_upload r id (some (name, content)) w =
        if ltb max_file_bytes (length_of content)
        then (w, bad_request wire errors "uploaded file exceeds size limit")
        else if name == ""
        then (w, bad_request wire errors "upload filename is required")
        else answer_done wire errors (
            manager.write_sandbox_file
              (record { slot_id = id; identity = identity_from_query r; path = name }) content w)

    unfoldable pub write_to : Request J B → Option ℤ → W → W × Response J B
    unfolding bad_request store_upload
    write_to r none w = (w, bad_request wire errors "slotID must be a non-negative integer")
    write_to r (some id) w =
        if not r.has_form
        then (w, bad_request wire errors "multipart form is required")
        else store_upload r id r.form_file w

    unfoldable pub write_file : Request J B → W → W × Response J B
    unfolding path_slot_id write_to
    write_file r = write_to r (path_slot_id r)
