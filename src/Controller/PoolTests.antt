-- ===== src/Controller/PoolTests.antt =====
-- A pool with one worker of two slots, and the theorems on the pool's controller at it.
use sandbox_fleet.Base.{
  ℕ, ◌+◌, true, false, ◌≡◌, inl, refl, List, [], ◌∷◌, none, some, ltb, ◌==◌, nat_key, arith, String,
  string_key,
}
use sandbox_fleet.Base.Int.{pos, int_key}
use sandbox_fleet.Base.Map.{lookup, insert}
use sandbox_fleet.Base.Result.{ok, err}
use sandbox_fleet.Base.Action.{Action}
use sandbox_fleet.Base.Action.Ends.{Ends}
use sandbox_fleet.Slot.{Info, free, running}
use sandbox_fleet.Slot.Config.{Quantity, Config, ResourceRequirements, sum_resources}
use sandbox_fleet.Scheduler.Ops.{new}
use sandbox_fleet.Scheduler.Invariant.{Inv, new-Inv}
use sandbox_fleet.Controller.Objects.{Error, ObjectMeta, condition_true, WorkerTemplate, Pool, Pod}
use sandbox_fleet.Controller.Clients.{Kube, WorkerClient}
use sandbox_fleet.Controller.Sandbox.{State}
use sandbox_fleet.Controller.Topology.{Workloads}
use sandbox_fleet.Controller.Inventory.{Printer, desired_pool_status}
use sandbox_fleet.Controller.Refreshing.{
  workers_can_fit, first_tally, observe_pods, next_topology, reconcile_pool_named,
}
use sandbox_fleet.Controller.Discovery.{reconcile_pool_named-Inv}
use sandbox_fleet.Slot.Plan.{plan_topology}
use sandbox_fleet.Controller.Occupied.{KeepsSlot, next_topology-busy}
use sandbox_fleet.Controller.Bounds.{IsBounded, observe_pods-IsBounded}
use sandbox_fleet.Controller.Workload.{StatefulSetBuilder, worker_pod_resources, build}
use sandbox_fleet.Controller.Headroom.{IsOrdered, workers_can_fit-built}

abbrev quantity : Quantity
quantity = record { Amount = ℕ; zero = 0; add = ◌+◌; less = ltb; is_zero = λ n. n == 0 }

-- The world counts the calls that push a topology.
abbrev World : Type 0
World = ℕ

abbrev meta : ObjectMeta
meta = record {
  namespace = "ns";
  name = "pool";
  uid = "pool";
  generation = 1;
  resource_version = "1";
  finalizers = [];
  deleting = false;
}

abbrev small : ResourceRequirements ℕ
small = record { requests = ("memory", 1) ∷ []; limits = [] }

abbrev pool : Pool ℕ
pool = record {
  meta = meta;
  spec = record {
    runtime = record { backend = "cri"; cri = none };
    snapshot_storage = none;
    slot_profiles = record { name = "small"; resources = small } ∷ [];
    worker_templates =
        record {
          name = "basic";
          replicas = 2;
          slots = record { profile = "small"; count = 2 } ∷ [];
        }
        ∷ [];
  };
  status = record {
    observed_generation = 0;
    current_workers = 0;
    ready_workers = 0;
    used_slots = 0;
    available_slots = 0;
    templates = [];
    profiles = [];
    conditions = [];
  };
}

abbrev pod : Pod ℕ
pod = record {
  name = "pool-basic-worker-0";
  labels = ("sandboxfleet.io/template", "basic") ∷ [];
  ip = "10.0.0.1";
  conditions = ("Ready", condition_true) ∷ [];
  containers = record { requests = ("memory", 2) ∷ []; limits = [] } ∷ [];
}

abbrev slots : List Info
slots =
    record { id = pos 0; profile = "small"; state = running; sandbox_uid = "uid" }
    ∷ record { id = pos 1; profile = "small"; state = free; sandbox_uid = "" }
    ∷ []

abbrev quiet : {T : Type 0} → T → Action World Error T
quiet x w = (w, ok x)

abbrev absent : {T : Type 0} → Action World Error T
absent w = (w, err Error.missing)

abbrev kube : Kube World ℕ
kube = record {
  contains_finalizer = λ fs f. false;
  add_finalizer = λ fs f. f ∷ fs;
  remove_finalizer = λ fs f. [];
  set_condition = λ cs c. c ∷ cs;
  find_condition = λ cs kind. none;
  get_sandbox = λ namespace name. absent;
  get_snapshot = λ namespace name. absent;
  get_pool = λ namespace name. quiet pool;
  get_pod = λ namespace name. quiet pod;
  get_secret = λ namespace name. absent;
  list_sandboxes = λ namespace. quiet [];
  list_pods = λ namespace labels. quiet (pod ∷ []);
  update_sandbox = λ s. quiet s;
  update_sandbox_status = λ s. quiet s;
  update_snapshot = λ s. quiet s;
  update_snapshot_status = λ s. quiet s;
  update_pool_status = λ p. quiet p;
}

abbrev workers : WorkerClient World ℕ
workers = record {
  health = λ endpoint. quiet tt;
  list_slots = λ endpoint. quiet slots;
  apply_topology = λ endpoint configs w. (w + 1, ok tt);
  reserve_slot = λ endpoint ref. quiet tt;
  start_sandbox = λ endpoint req. quiet tt;
  stop_sandbox = λ endpoint ref. quiet tt;
  release_slot = λ endpoint ref. quiet tt;
  create_snapshot = λ endpoint req. absent;
  restore_from_snapshot = λ endpoint req. quiet tt;
  delete_snapshot_objects = λ endpoint req. quiet tt;
}

abbrev workloads : Workloads World ℕ Unit
workloads = record {
  clients = record { kube = kube; workers = workers; endpoint = λ p. ok p.ip };
  own_service = λ p s. ok s;
  get_service = λ namespace name. absent;
  create_service = λ s. quiet s;
  own_set = λ p s. ok s;
  get_set = λ namespace name. absent;
  create_set = λ s. quiet s;
  update_set = λ s. quiet s;
  build = λ p t configs. record {
    namespace = "ns";
    name = "pool-basic-worker";
    labels = [];
    service_name = "pool-worker";
    replicas = some 2;
    selector = [];
    update_strategy = "OnDelete";
    template = tt;
  };
  same_template = λ a b. true;
  worker_port = 0;
  now = λ w. w;
}

abbrev printer : Printer
printer = record { join = λ pending. "" }

abbrev start : State World
start = record { world = 0; scheduler = new }

reconcile_pool_named-Inv_example :
    Inv (reconcile_pool_named quantity workloads printer "ns" "pool" start).0.scheduler
    × ((reconcile_pool_named quantity workloads printer "ns" "pool" start).0.scheduler.assignments
        ≡ start.scheduler.assignments)
reconcile_pool_named-Inv_example =
    reconcile_pool_named-Inv quantity workloads printer "ns" "pool" start new-Inv

observe_pods-IsBounded_example :
    Ends
      (observe_pods quantity workloads printer pool
        (pod ∷ [])
        (first_tally quantity workloads printer pool)
        start)
      (λ _ t. IsBounded (desired_pool_status kube printer pool 1 t []))
observe_pods-IsBounded_example =
    observe_pods-IsBounded quantity workloads printer pool [] (pod ∷ []) start

abbrev slot_zero : Config ℕ
slot_zero = record { id = pos 0; profile = "small"; resources = small }

-- The counts ask for no slot, and the only one is busy.
next_topology-busy_example :
    KeepsSlot slot_zero
      (next_topology quantity workloads printer pool "basic"
        (slot_zero ∷ [])
        (plan_topology (slot_zero ∷ []) [] [] ((pos 0, true) ∷ []) [])
        0).1
unfolding lookup int_key
next_topology-busy_example =
    next_topology-busy quantity workloads printer pool "basic" (slot_zero ∷ []) [] []
      ((pos 0, true) ∷ []) [] slot_zero 0 (inl refl) refl

quantity-IsOrdered : IsOrdered quantity
quantity-IsOrdered = record {
  less_irrefl = λ a. ground arith;
  less_asym = λ a b h. ground arith;
  at_least_trans = λ a b c h k. ground arith;
  add_grows = λ a b h. ground arith;
}

-- 2Gi, and no other amount.
abbrev two_gi : String → ℕ
two_gi s = 2147483648

abbrev builder : StatefulSetBuilder
builder = record { port = 8090; default_image = "worker"; profiles = [] }

abbrev basic : WorkerTemplate
basic = record { name = "basic"; replicas = 2; slots = [] }

-- A worker that was made for the slot.
abbrev made_pod : Pod ℕ
made_pod = record pod {
  containers = worker_pod_resources quantity two_gi pool (slot_zero ∷ []) ∷ [];
}

abbrev with_made_pod : Workloads World ℕ Unit
with_made_pod = record workloads {
  clients = record workloads.clients {
    kube = record kube { list_pods = λ namespace labels. quiet (made_pod ∷ []) };
  };
}

workers_can_fit-built_example :
    workers_can_fit quantity with_made_pod printer pool "basic"
      (sum_resources quantity (slot_zero ∷ []))
      0
    ≡ (0, ok true)
unfolding build string_key
workers_can_fit-built_example =
    workers_can_fit-built quantity quantity-IsOrdered two_gi refl builder pool with_made_pod printer
      basic (slot_zero ∷ []) (made_pod ∷ []) 0 0 refl (refl, tt)

made_resources :
    (worker_pod_resources quantity two_gi pool (slot_zero ∷ [])).requests
    ≡ ("memory", 2147483649) ∷ []
unfolding worker_pod_resources string_key nat_key lookup insert
made_resources = refl
