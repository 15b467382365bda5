-- ===== src/Worker/Files/CallTests.antt =====
-- internal/worker/files.go at a manager with one running sandbox, whose files are one file.
use sandbox_fleet.Base.{ℕ, true, false, ◌≡◌, refl, List, [], ◌∷◌, none, some, string_key, nat_key}
use sandbox_fleet.Base.Int.{pos, int_key}
use sandbox_fleet.Base.Map.{lookup}
use sandbox_fleet.Base.Result.{Result, ok, err}
use sandbox_fleet.Slot.{running, state_key}
use sandbox_fleet.Store.Paths.{is_space, trim_space}
use sandbox_fleet.Http.Wire.{FileRequest}
use sandbox_fleet.Worker.Types.{
  Identity, RuntimeId, state_running, Failure, Runtime, Env, invalid_request,
}
use sandbox_fleet.Worker.Manager.{Manager}
use sandbox_fleet.Worker.Files.Paths.{validate_write_name}
use sandbox_fleet.Worker.Files.Calls.{
  FileRuntime, cri_sandbox_fs, running_slot, read_sandbox_file, write_sandbox_file,
}
use sandbox_fleet.Worker.Files.RoundTrip.{WritesBack, read-write_sandbox_file}

-- The content of the file.
abbrev World : Type 0
World = List ℕ

abbrev id : RuntimeId
id = record { value = "task" }

abbrev quiet : {T : Type 0} → T → World → World × Result Failure T
quiet t w = (w, ok t)

abbrev runtime : Runtime World ℕ
runtime = record {
  create = λ w req. quiet id w;
  start = λ w id. quiet tt w;
  stop = λ w id. quiet tt w;
  delete = λ w id. quiet tt w;
  status = λ w id. quiet state_running w;
  listing = λ w. quiet [] w;
  exec = λ w id req. quiet (record { exit_code = pos 0; stdout = ""; stderr = "" }) w;
}

abbrev env : Env World ℕ
env = record {
  runtime = runtime;
  snapshotters = none;
  cri_handler = none;
  same_resources = λ a b. true;
  remove_all = λ w path. w;
}

abbrev files : FileRuntime World
files = record {
  file_exists = λ id path. quiet true;
  list_files = λ id path. quiet [];
  read_file = λ id path w. (w, ok w);
  write_file = λ id path content w. (content, ok tt);
}

abbrev owner : Identity
owner = record { namespace = "ns"; name = "box"; uid = "uid" }

abbrev manager : Manager ℕ
manager = record {
  configs = [];
  slots =
      (
        pos 0,
        record {
          id = pos 0;
          profile = "small";
          resources = record { requests = []; limits = [] };
          state = running;
          sandbox = owner;
          runtime_ref = some id;
          restored = false;
          restore_dir = "";
        },
      )
      ∷ [];
}

abbrev request : FileRequest
request = record { slot_id = pos 0; identity = owner; path = "a.txt" }

is_running : running_slot env files request manager ≡ ok (cri_sandbox_fs files id)
unfolding running_slot string_key state_key int_key lookup
is_running = refl

files-WritesBack : WritesBack (cri_sandbox_fs files id)
unfolding cri_sandbox_fs
files-WritesBack path content w w' e = (w', cc e)

valid : validate_write_name "a.txt" ≡ ok tt
unfolding validate_write_name string_key nat_key is_space
valid = refl

plain : trim_space "a.txt" ≡ "a.txt"
unfolding trim_space is_space nat_key
plain = refl

wrote : write_sandbox_file env files request (1 ∷ 2 ∷ []) [] manager ≡ (1 ∷ 2 ∷ [], ok tt)
unfolding write_sandbox_file string_key state_key int_key nat_key is_space lookup
wrote = refl

-- A path out of the root is refused before anything is done.
refused :
    read_sandbox_file env files (record request { path = "../a" }) (1 ∷ []) manager
    ≡ (1 ∷ [], err invalid_request)
unfolding read_sandbox_file string_key state_key int_key nat_key is_space lookup
refused = refl

read-write_sandbox_file_example :
    (v : World) × (read_sandbox_file env files request (1 ∷ 2 ∷ []) manager ≡ (v, ok (1 ∷ 2 ∷ [])))
read-write_sandbox_file_example =
    read-write_sandbox_file env files request (1 ∷ 2 ∷ []) (cri_sandbox_fs files id) [] (1 ∷ 2 ∷ [])
      manager is_running files-WritesBack valid plain wrote
