-- ===== src/Controller/Tests.antt =====
-- An API server in memory with one sandbox, one worker with one slot, and each theorem at it.
use sandbox_fleet.Base.{
  ℕ, String, Bool, true, false, not, ◌≡◌, List, [], ◌∷◌, Option, none, some, if◌then◌else◌, ◌==◌,
  arith, string_key, keep_if,
}
use sandbox_fleet.Base.Int.{ℤ, pos}
use sandbox_fleet.Base.Map.{insert}
use sandbox_fleet.Base.Result.{ok, err}
use sandbox_fleet.Base.Action.{Action, ◌>>◌}
use sandbox_fleet.Base.Action.Ends.{Ends}
use sandbox_fleet.Slot.{free}
use sandbox_fleet.Scheduler.Types.{WorkerKey, Assignment as SchedulerAssignment, worker_key}
use sandbox_fleet.Scheduler.Ops.{Scheduler, new, update_worker}
use sandbox_fleet.Scheduler.Strategies.{bin_pack}
use sandbox_fleet.Worker.Types.{ContainerSpec}
use sandbox_fleet.Controller.Objects.{
  Error, Condition, condition_true, ObjectMeta, Sandbox, SandboxStatus, unset, running, Assignment,
  Pool, Pod, text,
}
use sandbox_fleet.Controller.Clients.{Kube, WorkerClient, Clients}
use sandbox_fleet.Controller.Sandbox.{State, sandbox_finalizer, reconcile_sandbox}
use sandbox_fleet.Controller.Synced.{AnswersFor}
use sandbox_fleet.Controller.Finalizing.{IsLawful, IsSafe, reconcile_sandbox-IsSafe}

abbrev container : ContainerSpec
container = record { image = "image"; command = []; args = []; env = [] }

abbrev fresh : Sandbox
fresh = record {
  meta = record {
    namespace = "ns";
    name = "sandbox";
    uid = "uid";
    generation = 1;
    resource_version = "1";
    finalizers = [];
    deleting = false;
  };
  spec = record {
    pool_ref = "pool";
    slot_profile = "small";
    container = some container;
    from_snapshot = "";
  };
  status = record { observed_generation = 0; phase = unset; assignment = none; conditions = [] };
}

-- The metadata and the status as the server holds them, and the sandbox that holds the slot.
record World : Type 0 where
  meta : ObjectMeta
  status : SandboxStatus
  held : String

abbrev object : World → Sandbox
object w = record fresh {
  meta = record w.meta { namespace = "ns"; name = "sandbox"; uid = "uid" };
  status = w.status;
}

abbrev put_meta : Sandbox → World → World
put_meta s w = record w { meta = record s.meta { resource_version = w.meta.resource_version } }

abbrev pod : Pod ℕ
pod = record { name = "primary"; labels = []; ip = "10.0.0.1"; conditions = []; containers = [] }

abbrev pool : Pool ℕ
pool = record {
  meta = record {
    namespace = "ns";
    name = "pool";
    uid = "pool";
    generation = 1;
    resource_version = "1";
    finalizers = [];
    deleting = false;
  };
  spec = record {
    runtime = record { backend = "cri"; cri = none };
    snapshot_storage = none;
    slot_profiles =
        record { name = "small"; resources = record { requests = []; limits = [] } } ∷ [];
    worker_templates = [];
  };
  status = record {
    observed_generation = 1;
    current_workers = 1;
    ready_workers = 1;
    used_slots = 0;
    available_slots = 1;
    templates = [];
    profiles = [];
    conditions =
        record {
          kind = "Ready";
          status = condition_true;
          observed_generation = 1;
          reason = "WorkerAvailable";
          message = text "1 Workers can accept Sandbox operations" [];
        }
        ∷ [];
  };
}

contains : List String → String → Bool
contains [] f = false
contains (x ∷ xs) f = if x == f then true else contains xs f

find : List Condition → String → Option Condition
find [] kind = none
find (c ∷ cs) kind = if c.kind == kind then some c else find cs kind

abbrev quiet : {T : Type 0} → T → Action World Error T
quiet x w = (w, ok x)

abbrev kube : Kube World ℕ
kube = record {
  contains_finalizer = contains;
  add_finalizer = λ fs f. f ∷ fs;
  remove_finalizer = λ fs f. keep_if (λ x. not (x == f)) fs;
  set_condition = λ cs c. c ∷ keep_if (λ x. not (x.kind == c.kind)) cs;
  find_condition = find;
  get_sandbox = λ namespace name w. (w, ok (object w));
  get_snapshot = λ namespace name w. (w, err Error.missing);
  get_pool = λ namespace name. quiet pool;
  get_pod = λ namespace name. quiet pod;
  get_secret = λ namespace name w. (w, err Error.missing);
  list_sandboxes = λ namespace w. (w, ok (object w ∷ []));
  list_pods = λ namespace labels. quiet (pod ∷ []);
  update_sandbox = λ s w. let w' = put_meta s w in (w', ok (object w'));
  update_sandbox_status = λ s w. let w' = record w { status = s.status } in (w', ok (object w'));
  update_snapshot = λ s. quiet s;
  update_snapshot_status = λ s. quiet s;
  update_pool_status = λ p. quiet p;
}

abbrev workers : WorkerClient World ℕ
workers = record {
  health = λ endpoint. quiet tt;
  list_slots = λ endpoint. quiet [];
  apply_topology = λ endpoint configs. quiet tt;
  reserve_slot = λ endpoint ref w. (record w { held = ref.identity.uid }, ok tt);
  start_sandbox = λ endpoint req. quiet tt;
  stop_sandbox = λ endpoint ref. quiet tt;
  release_slot = λ endpoint ref w. (record w { held = "" }, ok tt);
  create_snapshot = λ endpoint req w. (w, err Error.missing);
  restore_from_snapshot = λ endpoint req. quiet tt;
  delete_snapshot_objects = λ endpoint req. quiet tt;
}

abbrev clients : Clients World ℕ
clients = record { kube = kube; workers = workers; endpoint = λ p. ok "http://10.0.0.1:8090" }

abbrev Finalized : World → Type 0
Finalized w = contains w.meta.finalizers sandbox_finalizer ≡ true

abbrev holder : World → String → ℤ → String
holder w endpoint id = w.held

contains_added : (fs : List String) → contains (sandbox_finalizer ∷ fs) sandbox_finalizer ≡ true
unfolding contains
contains_added fs = ground arith

clients-IsLawful : IsLawful clients Finalized holder
clients-IsLawful = record {
  untouched = record {
    get_sandbox = λ namespace name. record { at = λ w h. h };
    get_pool = λ namespace name. record { at = λ w h. h };
    get_pod = λ namespace name. record { at = λ w h. h };
    get_snapshot = λ namespace name. record { at = λ w h. h };
    get_secret = λ namespace name. record { at = λ w h. h };
    update_status = λ s. record { at = λ w h. h };
    start_sandbox = λ endpoint req. record { at = λ w h. h };
    stop_sandbox = λ endpoint ref. record { at = λ w h. h };
    restore = λ endpoint req. record { at = λ w h. h };
  };
  reserve = λ endpoint ref. record { at = λ w h. h };
  release = λ endpoint ref. record { at = λ w h. h };
  update = λ s k. record { at = λ w h. k };
  added = contains_added;
  freed = λ w v endpoint ref h. ground arith;
  stays_free = λ s endpoint id. record { at = λ w h. h };
}

abbrev given : Assignment
given = record { worker = "primary"; slot_id = pos 0; slot_profile = "small" }

abbrev dying : Sandbox
dying = record fresh {
  meta = record fresh.meta { finalizers = sandbox_finalizer ∷ []; deleting = true };
  status = record fresh.status { phase = running; assignment = some given };
}

abbrev key : WorkerKey
key = record { namespace = "ns"; pool = "pool"; name = "primary" }

one_worker : Scheduler
unfolding new update_worker insert worker_key string_key
one_worker = update_worker new (record {
  key = key;
  healthy = true;
  last_observed = 0;
  slots = (pos 0, record { id = pos 0; profile = "small"; state = free; sandbox_uid = "" }) ∷ [];
})

abbrev at_end : State World
at_end = record {
  world = record { meta = dying.meta; status = dying.status; held = "uid" };
  scheduler = one_worker;
}

dying-AnswersFor : AnswersFor clients dying.meta
dying-AnswersFor = record {
  reads = λ w v o h. ground arith;
  answers = λ w v s o same h. ground arith;
}

reconcile_sandbox-IsSafe_example :
    IsSafe clients bin_pack Finalized holder clients-IsLawful dying
      (reconcile_sandbox clients bin_pack dying at_end).0
reconcile_sandbox-IsSafe_example =
    reconcile_sandbox-IsSafe clients bin_pack Finalized holder clients-IsLawful dying at_end
      dying-AnswersFor (contains_added [])

abbrev at_start : State World
at_start = record {
  world = record { meta = fresh.meta; status = fresh.status; held = "" };
  scheduler = one_worker;
}

abbrev granted : SchedulerAssignment
granted = record {
  sandbox_uid = "uid";
  namespace = "ns";
  name = "sandbox";
  worker = key;
  slot_id = pos 0;
  slot_profile = "small";
}
