-- ===== src/Controller/SnapshotTests.antt =====
-- A server with a snapshot, its parent and a sandbox that is made from it, a storage of one upload, and
-- the theorem at them.
use sandbox_fleet.Base.{
  String, true, false, ◌≡◌, refl, inr, List, [], ◌∷◌, none, some, arith, string_key,
}
use sandbox_fleet.Base.Int.{pos}
use sandbox_fleet.Base.Result.{ok}
use sandbox_fleet.Base.Action.{Action}
use sandbox_fleet.Controller.Objects.{
  Error, ObjectMeta, Sandbox, running, Snapshot, SnapshotStatus, snapshot_pending, snapshot_ready,
  Pool, Pod, text,
}
use sandbox_fleet.Controller.Clients.{Kube, WorkerClient, Clients}
use sandbox_fleet.Controller.Snapshot.{snapshot_finalizer}
use sandbox_fleet.Controller.Reclaiming.{reconcile_snapshot}
use sandbox_fleet.Controller.Published.{IsReadOnly, IsFaithful, IsHonest}
use sandbox_fleet.Controller.Referenced.{IsReferenced, reconcile_snapshot-IsHonest}

-- The status of the snapshot, and the path and the files of the last upload.
record World : Type 0 where
  status : SnapshotStatus
  path : String
  files : List String

abbrev meta : String → ObjectMeta
meta name = record {
  namespace = "ns";
  name = name;
  uid = name;
  generation = 1;
  resource_version = "1";
  finalizers = snapshot_finalizer ∷ [];
  deleting = false;
}

abbrev snap : Snapshot
snap = record {
  meta = meta "snap";
  spec = record { source_sandbox = "parent"; pool = "pool" };
  status = record {
    observed_generation = 0;
    phase = snapshot_pending;
    storage_path = "";
    snapshot_files = [];
    runtime = "";
    format_version = "";
    size_bytes = 0;
    source_worker = "";
    message = text "" [];
    conditions = [];
  };
}

abbrev parent : Sandbox
parent = record {
  meta = meta "parent";
  spec = record { pool_ref = "pool"; slot_profile = "small"; container = none; from_snapshot = "" };
  status = record {
    observed_generation = 1;
    phase = running;
    assignment = some (record { worker = "primary"; slot_id = pos 0; slot_profile = "small" });
    conditions = [];
  };
}

-- The second sandbox of the namespace is made from the snapshot.
abbrev child : Sandbox
child = record parent {
  meta = meta "child";
  spec = record {
    pool_ref = "pool";
    slot_profile = "small";
    container = none;
    from_snapshot = "snap";
  };
}

abbrev pool : Pool Unit
pool = record {
  meta = meta "pool";
  spec = record {
    runtime = record { backend = "cri"; cri = none };
    snapshot_storage = some (record {
      s3 = some (record {
        endpoint = "";
        bucket = "bucket";
        region = "eu";
        credentials_secret = "secret";
      });
    });
    slot_profiles = [];
    worker_templates = [];
  };
  status = record {
    observed_generation = 1;
    current_workers = 1;
    ready_workers = 1;
    used_slots = 0;
    available_slots = 1;
    templates = [];
    profiles = [];
    conditions = [];
  };
}

abbrev pod : Pod Unit
pod = record { name = "primary"; labels = []; ip = "10.0.0.1"; conditions = []; containers = [] }

abbrev quiet : {T : Type 0} → T → Action World Error T
quiet x w = (w, ok x)

abbrev kube : Kube World Unit
kube = record {
  contains_finalizer = λ fs f. true;
  add_finalizer = λ fs f. f ∷ fs;
  remove_finalizer = λ fs f. [];
  set_condition = λ cs c. c ∷ cs;
  find_condition = λ cs kind. none;
  get_sandbox = λ namespace name. quiet parent;
  get_snapshot = λ namespace name w. (w, ok (record snap { status = w.status }));
  get_pool = λ namespace name. quiet pool;
  get_pod = λ namespace name. quiet pod;
  get_secret = λ namespace name.
      quiet (record { entries = ("accessKeyID", "id") ∷ ("secretAccessKey", "key") ∷ [] });
  list_sandboxes = λ namespace. quiet (parent ∷ child ∷ []);
  list_pods = λ namespace labels. quiet (pod ∷ []);
  update_sandbox = λ s. quiet s;
  update_sandbox_status = λ s. quiet s;
  update_snapshot = λ s. quiet s;
  update_snapshot_status = λ s w. (record w { status = s.status }, ok s);
  update_pool_status = λ p. quiet p;
}

abbrev workers : WorkerClient World Unit
workers = record {
  health = λ endpoint. quiet tt;
  list_slots = λ endpoint. quiet [];
  apply_topology = λ endpoint configs. quiet tt;
  reserve_slot = λ endpoint ref. quiet tt;
  start_sandbox = λ endpoint req. quiet tt;
  stop_sandbox = λ endpoint ref. quiet tt;
  release_slot = λ endpoint ref. quiet tt;
  create_snapshot = λ endpoint req w. (
    record w { path = req.storage_path; files = "state.img" ∷ [] },
    ok (record {
      storage_path = req.storage_path;
      snapshot_files = "state.img" ∷ [];
      size_bytes = 1;
      format_version = "1";
      runtime = req.runtime;
    }),
  );
  restore_from_snapshot = λ endpoint req. quiet tt;
  delete_snapshot_objects = λ endpoint req w. (record w { path = ""; files = [] }, ok tt);
}

abbrev clients : Clients World Unit
clients = record { kube = kube; workers = workers; endpoint = λ p. ok p.ip }

abbrev Stored : World → String → List String → Type 0
Stored w path files = (w.path ≡ path) × (w.files ≡ files)

abbrev read_only : (P : World → Type 0) → IsReadOnly clients P
read_only P = record {
  get_sandbox = λ namespace name. record { at = λ w h. h };
  get_pool = λ namespace name. record { at = λ w h. h };
  get_pod = λ namespace name. record { at = λ w h. h };
  get_secret = λ namespace name. record { at = λ w h. h };
  list_sandboxes = λ namespace. record { at = λ w h. h };
}

faithful : IsFaithful clients (λ w. w.status) Stored
faithful = record {
  reads_phase = read_only _;
  reads_files = λ path files. read_only _;
  reads = read_only _;
  update = λ s. record { at = λ w h. h };
  write = λ s. record { to = λ w h. h.1 };
  create = λ endpoint req. record { at = λ w h. h };
  stores = λ endpoint req v w r e. (ground arith, ground arith);
  wipe = λ endpoint req. record { at = λ w h. h };
}

-- Deleted while it is Ready, with its file in the storage.
abbrev ready_snap : Snapshot
ready_snap = record snap {
  meta = record (meta "snap") { deleting = true };
  status = record snap.status {
    phase = snapshot_ready;
    storage_path = "snapshots/parent/snap/";
    snapshot_files = "state.img" ∷ [];
  };
}

abbrev ready_world : World
ready_world = record {
  status = ready_snap.status;
  path = "snapshots/parent/snap/";
  files = "state.img" ∷ [];
}

referenced : IsReferenced clients (λ w. w.status) Stored faithful ready_snap ready_world
referenced v l e = (child, (ground arith, refl))

reconcile_snapshot-IsHonest_example :
    IsHonest clients
      (λ w. w.status)
      Stored
      faithful
      (reconcile_snapshot clients ready_snap ready_world).0
reconcile_snapshot-IsHonest_example =
    reconcile_snapshot-IsHonest clients (λ w. w.status) Stored faithful ready_snap ready_world
      (inr referenced) refl (λ e. (refl, refl))

-- Its files are still there.
files_stay : (reconcile_snapshot clients ready_snap ready_world).0.files ≡ "state.img" ∷ []
unfolding reconcile_snapshot string_key
files_stay = refl
