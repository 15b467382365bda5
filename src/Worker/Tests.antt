-- ===== src/Worker/Tests.antt =====
-- A worker of two slots on a runtime that always succeeds, and each theorem at it.
use sandbox_fleet.Base.{
  ℕ, suc, arith, String, false, true, ◌≡◌, ◌≢◌, ◌↔◌, refl, ◌⊎◌, [], ◌∷◌, none, some, string_key,
  nat_key, bool_key, Elem, All,
}
use sandbox_fleet.Base.Int.{ℤ, pos, int_key}
use sandbox_fleet.Base.Map.{lookup, insert, IsMap}
use sandbox_fleet.Base.Result.{Result, ok, err}
use text.Mathlib.TextEquality.{eq_iff}
use mathlib.Core.Bool.{false≢true}
use sandbox_fleet.Slot.{free, running, state_key}
use sandbox_fleet.Slot.Config.{Config}
use sandbox_fleet.Worker.Types.{
  Identity, SlotRef, ContainerSpec, StartRequest, RuntimeInfo, state_running, Runtime, Error,
  slot_conflict, slot_config_invalid, Env, is_restored_id,
}
use sandbox_fleet.Worker.Slots.{
  ManagedSlot, validate_identity, container_config, start_slot, release_slot, delete_restored,
}
use sandbox_fleet.Worker.Manager.{
  Manager, new_slot, new_manager, apply_slots, reserve, start_sandbox, stop_sandbox, release,
  recover_all,
}
use sandbox_fleet.Worker.WellFormed.{IsWell, StartPost}
use sandbox_fleet.Worker.Starting.{start_slot-StartPost}
use sandbox_fleet.Worker.Stopping.{ReleasePost, release_slot-ReleasePost}
use sandbox_fleet.Worker.Invariant.{IsSound}
use sandbox_fleet.Worker.History.{start, next, reserves, starts, Reach-IsSound}
use sandbox_fleet.Worker.Ownership.{foreign_refused}
use sandbox_fleet.Worker.Success.{Succeeds, IsOk}
use sandbox_fleet.Worker.Lifecycle.{one_life, one_life_lem}
use sandbox_fleet.Worker.Topology.{next_at, find_config}
use sandbox_fleet.Worker.Applying.{Applicable, apply_slots_lem}
use sandbox_fleet.Worker.Recovery.{IsRecoverable, RecoveredAs, recover_all_lem}

-- The world counts the calls. Amounts are numbers, and the resources are not compared.
abbrev runtime : Runtime ℕ ℕ
runtime = record {
  create = λ w req. (suc w, ok (record { value = "container" }));
  start = λ w id. (suc w, ok tt);
  stop = λ w id. (suc w, ok tt);
  delete = λ w id. (suc w, ok tt);
  status = λ w id. (suc w, ok state_running);
  listing = λ w. (suc w, ok []);
  exec = λ w id req. (suc w, ok (record { exit_code = pos 0; stdout = ""; stderr = "" }));
}

abbrev env : Env ℕ ℕ
env = record {
  runtime = runtime;
  snapshotters = some (
      (
        "",
        record {
          format_version = "1";
          tears_down_on_save = false;
          save_snapshot = λ w req. (suc w, ok tt);
          load_snapshot = λ w req. (suc w, ok (record { value = "runsc:restored" }));
          delete_restored = λ w id. (suc w, ok tt);
          exec_restored =
              λ w id req. (suc w, ok (record { exit_code = pos 0; stdout = ""; stderr = "" }));
        },
      )
      ∷ []);
  cri_handler = none;
  same_resources = λ a b. true;
  remove_all = λ w dir. suc w;
}

abbrev config : ℕ → Config ℕ
config n = record {
  id = pos n;
  profile = "small";
  resources = record { requests = []; limits = [] };
}

two_slots : Manager ℕ
unfolding new_manager
two_slots = new_manager (config 0 ∷ config 1 ∷ [])

abbrev identity : String → Identity
identity uid = record { namespace = "ns"; name = "sandbox"; uid = uid }

abbrev ref : String → SlotRef
ref uid = record { slot_id = pos 0; identity = identity uid }

abbrev container : ContainerSpec
container = record { image = "image"; command = []; args = []; env = [] }

abbrev request : String → StartRequest
request uid = record { slot_id = pos 0; identity = identity uid; container = container }

reserved_one : Manager ℕ
unfolding two_slots
reserved_one = (reserve {W = ℕ} (ref "parent") 0 two_slots).1

running_one : ℕ × Manager ℕ × Result Error (Unit {0})
unfolding reserved_one
running_one = start_sandbox env (request "parent") 0 reserved_one

-- The runtime is created and started.
running_one_lem : (running_one.2 ≡ ok tt) × (running_one.0 ≡ 2)
unfolding running_one reserved_one two_slots reserve start_sandbox container_config insert lookup
    int_key string_key state_key is_restored_id
running_one_lem = (refl, refl)

Reach-IsSound_example : IsSound running_one.1.slots
unfolding running_one reserved_one two_slots
Reach-IsSound_example =
    Reach-IsSound env (config 0 ∷ config 1 ∷ [])
      (next {w = 0} (next {w = 0} start (reserves (ref "parent"))) (starts (request "parent")))

abbrev occupied : ManagedSlot ℕ
occupied = record {
  id = pos 0;
  profile = "small";
  resources = record { requests = []; limits = [] };
  state = running;
  sandbox = identity "parent";
  runtime_ref = some (record { value = "container" });
  restored = false;
  restore_dir = "";
}

parent_named : (identity "parent").uid ≢ ""
parent_named e = false≢true ((eq_iff "parent" "").1 e)

child_differs : occupied.sandbox.uid ≢ (identity "child").uid
child_differs e = false≢true ((eq_iff "parent" "child").1 e)

occupied-IsWell : IsWell occupied
occupied-IsWell = (parent_named, refl)

start_slot-StartPost_example :
    StartPost occupied
      (start_slot env (request "parent") 0 occupied).1
      (start_slot env (request "parent") 0 occupied).2
start_slot-StartPost_example =
    start_slot-StartPost env (request "parent") 0 occupied occupied-IsWell

release_slot-ReleasePost_example :
    ReleasePost occupied
      (release_slot env (identity "parent") 0 occupied).1
      (release_slot env (identity "parent") 0 occupied).2
release_slot-ReleasePost_example =
    release_slot-ReleasePost env (identity "parent") 0 occupied occupied-IsWell

child_valid : validate_identity (identity "child") ≡ ok tt
unfolding validate_identity string_key
child_valid = refl

abbrev occupied_manager : Manager ℕ
occupied_manager = record { configs = config 0 ∷ []; slots = (pos 0, occupied) ∷ [] }

occupied-lookup : lookup (pos 0) occupied_manager.slots ≡ some occupied
unfolding lookup int_key
occupied-lookup = refl

foreign_refused_example :
    (reserve {W = ℕ} (ref "child") 0 occupied_manager ≡ (0, occupied_manager, err slot_conflict))
    × (start_sandbox env (request "child") 0 occupied_manager
        ≡ (0, occupied_manager, err slot_conflict))
    × (stop_sandbox env (ref "child") 0 occupied_manager ≡ (0, occupied_manager, err slot_conflict))
    × (release env (ref "child") 0 occupied_manager ≡ (0, occupied_manager, err slot_conflict))
foreign_refused_example =
    foreign_refused env (ref "child") (request "child") 0 occupied_manager occupied child_valid
      occupied-lookup (λ e. ground arith) child_differs refl refl

other_id : pos 0 ≢ pos 1
other_id e = ground arith

env-Succeeds : Succeeds env
unfolding delete_restored lookup string_key
env-Succeeds = record {
  create = λ w req. tt;
  start = λ w id. tt;
  stop = λ w id. tt;
  delete = λ w id. tt;
  delete_restored = λ w id. tt;
}

two_slots-IsSound : IsSound two_slots.slots
unfolding two_slots
two_slots-IsSound = Reach-IsSound env (config 0 ∷ config 1 ∷ []) start

two_slots-lookup : lookup (pos 0) two_slots.slots ≡ some (new_slot (config 0))
unfolding two_slots lookup insert int_key new_slot
two_slots-lookup = refl

parent_valid : validate_identity (identity "parent") ≡ ok tt
unfolding validate_identity string_key
parent_valid = refl

new_slot-free : (new_slot (config 0)).state ≡ free
unfolding new_slot
new_slot-free = refl

container-IsOk : IsOk (container_config container)
unfolding container_config
container-IsOk = tt

one_life_lem_example :
    ((one_life env (ref "parent") (request "parent") 0 two_slots).1 ≡ two_slots)
    × ((one_life env (ref "parent") (request "parent") 0 two_slots).2 ≡ ok tt)
one_life_lem_example =
    one_life_lem env (ref "parent") (request "parent") 0 two_slots (new_slot (config 0))
      env-Succeeds two_slots-IsSound two_slots-lookup new_slot-free parent_valid refl refl
      container-IsOk

occupied-IsMap : IsMap occupied_manager.slots
occupied-IsMap = (unfold lookup in refl, tt)

apply_slots_lem_example :
    (((apply_slots env occupied_manager (config 0 ∷ config 2 ∷ [])).1 ≡ ok tt)
      ↔ Applicable env occupied_manager (config 0 ∷ config 2 ∷ []))
    × (((apply_slots env occupied_manager (config 0 ∷ config 2 ∷ [])).1 ≡ ok tt)
        ⊎ (apply_slots env occupied_manager (config 0 ∷ config 2 ∷ [])
            ≡ (occupied_manager, err slot_config_invalid)))
    × ((id : ℤ)
        → (apply_slots env occupied_manager (config 0 ∷ config 2 ∷ [])).1 ≡ ok tt
        → lookup id (apply_slots env occupied_manager (config 0 ∷ config 2 ∷ [])).0.slots
          ≡ next_at (lookup id occupied_manager.slots) (find_config id (config 0 ∷ config 2 ∷ [])))
apply_slots_lem_example =
    apply_slots_lem env occupied_manager (config 0 ∷ config 2 ∷ []) occupied-IsMap

-- The busy slot stays, and a free one is made.
applied : (apply_slots env occupied_manager (config 0 ∷ config 2 ∷ [])).1 ≡ ok tt
unfolding apply_slots lookup insert int_key string_key state_key
applied = refl

abbrev object : RuntimeInfo
object = record {
  id = record { value = "container" };
  identity = identity "parent";
  slot_id = pos 0;
  status = state_running;
}

recover_all_lem_example :
    (((recover_all (object ∷ []) two_slots).1 ≡ ok tt) ↔ IsRecoverable (object ∷ []) two_slots)
    × ((o : RuntimeInfo)
        → (recover_all (object ∷ []) two_slots).1 ≡ ok tt
        → Elem o (object ∷ [])
        → RecoveredAs o
            (lookup o.slot_id two_slots.slots)
            (lookup o.slot_id (recover_all (object ∷ []) two_slots).0.slots))
    × ((j : ℤ)
        → All (λ o. o.slot_id ≢ j) (object ∷ [])
        → lookup j (recover_all (object ∷ []) two_slots).0.slots ≡ lookup j two_slots.slots)
recover_all_lem_example = recover_all_lem (object ∷ []) two_slots

recovered_one : (recover_all (object ∷ []) two_slots).1 ≡ ok tt
unfolding recover_all two_slots lookup insert int_key state_key
recovered_one = refl

abbrev moved : Config ℕ
moved = record (config 1) { profile = "large" }

two_slots-moved : lookup (pos 1) two_slots.slots ≡ some (new_slot (config 1))
unfolding two_slots lookup insert int_key new_slot
two_slots-moved = refl

profile_differs : (new_slot (config 1)).profile ≢ moved.profile
unfolding new_slot
profile_differs e = false≢true ((eq_iff "small" "large").1 e)
