-- ===== src/Http/Wire.antt =====
-- internal/worker/httpapi: requests, responses and errors of the API. `J` is the type of JSON texts, `B`
-- that of the contents of files, and `E` that of the errors of a worker. JSON and the HTTP library are
-- parameters.
use Prim.Native.Char.{code}
use Prim.Native.String.{[], ◌∷◌}
use sandbox_fleet.Base.{
  ℕ, ◌+◌, ◌*◌, ◌-◌, String, Bool, ◌||◌, List, Option, none, some, if◌then◌else◌, ◌==◌, nat_key, ltb,
  leb,
}
use sandbox_fleet.Base.Int.{ℤ, pos, negsuc}
use sandbox_fleet.Base.Action.{Action}
use sandbox_fleet.Slot.{Info}
use sandbox_fleet.Slot.Config.{Config}
use sandbox_fleet.Worker.Types.{
  Identity, SlotRef, StartRequest, SandboxInfo, ExecSandboxRequest, ExecResult,
}
use sandbox_fleet.Worker.Snapshots.{
  CreateSnapshotRequest, CreateSnapshotResult, RestoreRequest, DeleteObjectsRequest,
}

pub record FileRequest : Type 0 where
  pub slot_id : ℤ
  pub identity : Identity
  pub path : String

pub record FileEntry : Type 0 where
  pub name : String
  pub kind : String

pub record ErrorResponse : Type 0 where
  pub error_code : String
  pub message : String

-- The sentinels of workerapi.
pub data Sentinel : Type 0 where
  invalid_request slot_not_found sandbox_not_found slot_conflict slot_config_invalid snapshot_load :
      Sentinel

-- errors.Is and Error().
pub record Errors (E : Type 0) : Type 0 where
  pub wraps : E → Sentinel → Bool
  pub error_message : E → String

-- json.Marshal, and a decoder of one value, for a type.
pub record Codec (J T : Type 0) : Type 0 where
  pub encode : T → Option J
  pub decode : J → Option T

pub record Wire (J A : Type 0) : Type 0 where
  pub configs : Codec J (List (Config A))
  pub slots : Codec J (List Info)
  pub slot_ref : Codec J SlotRef
  pub info : Codec J SandboxInfo
  pub start : Codec J StartRequest
  pub exec : Codec J ExecSandboxRequest
  pub exec_result : Codec J ExecResult
  pub create : Codec J CreateSnapshotRequest
  pub created : Codec J CreateSnapshotResult
  pub restore : Codec J RestoreRequest
  pub delete : Codec J DeleteObjectsRequest
  pub exists : Codec J Bool
  pub entries : Codec J (List FileEntry)
  pub error : Codec J ErrorResponse

-- The body of a request or a response: none, a value in JSON, the bytes of a file, or a plain text.
pub data Body (J B : Type 0) : Type 0 where
  empty : Body J B
  json : J → Body J B
  file : B → Body J B
  plain : String → Body J B

-- The slot of the path, the query, the body, and of a multipart form the file with its name, where
-- they are there.
pub record Request (J B : Type 0) : Type 0 where
  pub path_slot : String
  pub query : String → String
  pub body : Body J B
  pub has_form : Bool
  pub form_file : Option (String × B)

pub record Response (J B : Type 0) : Type 0 where
  pub status : ℕ
  pub body : Body J B

-- The interface Manager of the server.
pub record Manager (W A B E : Type 0) : Type 0 where
  pub reserve_slot : SlotRef → Action W E (Unit {0})
  pub start_sandbox : StartRequest → Action W E (Unit {0})
  pub stop_sandbox : SlotRef → Action W E (Unit {0})
  pub release_slot : SlotRef → Action W E (Unit {0})
  pub get_sandbox : SlotRef → Action W E SandboxInfo
  pub exec_sandbox : ExecSandboxRequest → Action W E ExecResult
  pub create_snapshot : CreateSnapshotRequest → Action W E CreateSnapshotResult
  pub restore_from_snapshot : RestoreRequest → Action W E (Unit {0})
  pub delete_snapshot_objects : DeleteObjectsRequest → Action W E (Unit {0})
  pub exists_sandbox_file : FileRequest → Action W E Bool
  pub list_sandbox_files : FileRequest → Action W E (List FileEntry)
  pub read_sandbox_file : FileRequest → Action W E B
  pub write_sandbox_file : FileRequest → B → Action W E (Unit {0})
  pub list_slots : W → List Info
  pub apply_slots : List (Config A) → Action W E (Unit {0})

-- strconv.ParseInt in base 10 with 32 bits: the digits, after those that were read.
unfoldable pub parse_digits : ℕ → String → Option ℕ
parse_digits n [] = some n
parse_digits n (c ∷ s) =
    let rest = parse_digits (n * 10 + (code c - 48)) s in
    if ltb (code c) 48 || ltb 57 (code c) then none else rest

-- At least one digit.
unfoldable pub parse_number : String → Option ℕ
unfolding parse_digits
parse_number [] = none
parse_number (c ∷ s) = parse_digits 0 (c ∷ s)

abbrev pub positive : Option ℕ → Option ℤ
positive none = none
positive (some n) = if leb n 2147483647 then some (pos n) else none

abbrev pub negative : Option ℕ → Option ℤ
negative none = none
negative (some n) =
    if n == 0 then some (pos 0) else if leb n 2147483648 then some (negsuc (n - 1)) else none

unfoldable pub parse_int32 : String → Option ℤ
unfolding parse_number
parse_int32 [] = none
parse_int32 (c ∷ s) =
    if code c == 45
    then negative (parse_number s)
    else if code c == 43
    then positive (parse_number s)
    else positive (parse_number (c ∷ s))
