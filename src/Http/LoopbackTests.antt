-- ===== src/Http/LoopbackTests.antt =====
-- A worker that counts its calls and refuses to stop, and the client's calls of it.
use sandbox_fleet.Base.{
  ℕ, ◌+◌, String, Bool, true, false, ◌≡◌, refl, [], Option, none, some, if◌then◌else◌, ◌==◌,
  string_key, nat_key, arith,
}
use sandbox_fleet.Base.Int.{pos, int_key}
use sandbox_fleet.Base.Text.{decimal_int, decimal, decimal_within}
use sandbox_fleet.Base.Result.{Result, ok, err}
use sandbox_fleet.Base.Action.{Action}
use sandbox_fleet.Worker.Types.{SlotRef, StartRequest, ContainerSpec, no_identity}
use sandbox_fleet.Controller.Objects.{Error, transport}
use sandbox_fleet.Http.Wire.{
  Codec, Wire, Errors, ErrorResponse, Sentinel, slot_conflict, Body, json, Response, Manager,
}
use sandbox_fleet.Http.Server.{reserve_slot, start_sandbox, stop_sandbox, release_slot}
use sandbox_fleet.Http.Client.{
  Transport, slot_url, trim_slashes, reserve_slot as call_reserve, start_sandbox as call_start,
  stop_sandbox as call_stop, release_slot as call_release,
}
use sandbox_fleet.Http.Retrying.{IsReadBack}
use sandbox_fleet.Http.Loopback.{post, deliver, Serves, through, calls-through}

-- The texts that are sent.
data Text : Type 0 where
  ref_text : SlotRef → Text
  start_text : StartRequest → Text
  error_text : ErrorResponse → Text

read_ref : Text → Option SlotRef
read_ref (ref_text r) = some r
read_ref _ = none

read_start : Text → Option StartRequest
read_start (start_text r) = some r
read_start _ = none

read_error : Text → Option ErrorResponse
read_error (error_text r) = some r
read_error _ = none

abbrev silent : {T : Type 0} → Codec Text T
silent = record { encode = λ x. none; decode = λ j. none }

abbrev wire : Wire Text ℕ
wire = record {
  configs = silent;
  slots = silent;
  slot_ref = record { encode = λ r. some (ref_text r); decode = read_ref };
  info = silent;
  start = record { encode = λ r. some (start_text r); decode = read_start };
  exec = silent;
  exec_result = silent;
  create = silent;
  created = silent;
  restore = silent;
  delete = silent;
  exists = silent;
  entries = silent;
  error = record { encode = λ r. some (error_text r); decode = read_error };
}

abbrev conflicts : Unit {0} → Sentinel → Bool
conflicts e slot_conflict = true
conflicts e _ = false

abbrev errors : Errors (Unit {0})
errors = record { wraps = conflicts; error_message = λ e. "slot belongs to another sandbox" }

abbrev counted : {T : Type 0} → T → Action ℕ (Unit {0}) T
counted x w = (w + 1, ok x)

abbrev refused : {T : Type 0} → Action ℕ (Unit {0}) T
refused w = (w, err tt)

abbrev manager : Manager ℕ ℕ String (Unit {0})
manager = record {
  reserve_slot = λ ref. counted tt;
  start_sandbox = λ req. counted tt;
  stop_sandbox = λ ref. refused;
  release_slot = λ ref. counted tt;
  get_sandbox = λ ref. refused;
  exec_sandbox = λ req. refused;
  create_snapshot = λ req. refused;
  restore_from_snapshot = λ req. refused;
  delete_snapshot_objects = λ req. refused;
  exists_sandbox_file = λ req. refused;
  list_sandbox_files = λ req. refused;
  read_sandbox_file = λ req. refused;
  write_sandbox_file = λ req content. refused;
  list_slots = λ w. [];
  apply_slots = λ configs. counted tt;
}

-- The handlers of slot 0 by their URLs.
route : String → Text → ℕ → ℕ × Result Error (Response Text String)
route url text w =
    if url == "http://w/v1/slots/0/reserve"
    then deliver (reserve_slot wire errors manager (post (pos 0) text) w)
    else if url == "http://w/v1/slots/0/start"
    then deliver (start_sandbox wire errors manager (post (pos 0) text) w)
    else if url == "http://w/v1/slots/0/stop"
    then deliver (stop_sandbox wire errors manager (post (pos 0) text) w)
    else if url == "http://w/v1/slots/0/release"
    then deliver (release_slot wire errors manager (post (pos 0) text) w)
    else (w, err (transport "call worker API"))

serve : Body Text String → String → Action ℕ Error (Response Text String)
serve (json text) url w = route url text w
serve _ url w = (w, err (transport "call worker API"))

abbrev loop : Transport ℕ Text String
loop = record {
  send = λ call. serve call.body call.url;
  status_text = λ status. "";
  encode_query = λ values. "";
  length_of = λ content. 0;
}

loop-Serves : Serves wire errors manager loop "http://w" (pos 0)
unfolding serve route slot_url trim_slashes decimal_int decimal decimal_within string_key nat_key
loop-Serves = record {
  reserve = λ text w. refl;
  start = λ text w. refl;
  stop = λ text w. refl;
  release = λ text w. refl;
}

ref-IsReadBack : IsReadBack wire.slot_ref
unfolding read_ref
ref-IsReadBack = record { text = ref_text; writes = λ x. refl; reads = λ x. refl }

start-IsReadBack : IsReadBack wire.start
unfolding read_start
start-IsReadBack = record { text = start_text; writes = λ x. refl; reads = λ x. refl }

error-IsReadBack : IsReadBack wire.error
unfolding read_error
error-IsReadBack = record { text = error_text; writes = λ x. refl; reads = λ x. refl }

abbrev container : ContainerSpec
container = record { image = "image"; command = []; args = []; env = [] }

abbrev ref : SlotRef
ref = record { slot_id = pos 0; identity = no_identity }

abbrev req : StartRequest
req = record { slot_id = pos 0; identity = no_identity; container = container }

calls-through_example :
    (call_reserve wire loop "http://w" ref 5
      ≡ through wire errors manager (manager.reserve_slot ref 5))
    × (call_start wire loop "http://w" req 5
        ≡ through wire errors manager (manager.start_sandbox req 5))
    × (call_stop wire loop "http://w" ref 5
        ≡ through wire errors manager (manager.stop_sandbox ref 5))
    × (call_release wire loop "http://w" ref 5
        ≡ through wire errors manager (manager.release_slot ref 5))
calls-through_example =
    calls-through wire errors manager loop error-IsReadBack "http://w" 0 no_identity container 5
      (omega arith) ref-IsReadBack start-IsReadBack loop-Serves
