-- ===== src/Worker/SnapshotTests.antt =====
-- Snapshots of and restores into concrete slots: a restore that fails in a slot that was recovered before its
-- runtime was started, and a snapshot whose upload fails.
use sandbox_fleet.Base.{
  ◌⊎◌, ℕ, true, false, ◌≡◌, refl, [], ◌∷◌, none, some, nat_key, string_key, ◌==◌,
}
use sandbox_fleet.Base.Int.{pos}
use sandbox_fleet.Base.Result.{ok, err}
use sandbox_fleet.Base.Sort.{sort}
use sandbox_fleet.Slot.{starting, running, failed, state_key}
use sandbox_fleet.Worker.Types.{
  Identity, no_identity, RuntimeId, invalid_request, not_found, failure, state_running, Snapshotter,
  Runtime, Env, is_restored_id,
}
use sandbox_fleet.Worker.Slots.{ManagedSlot}
use sandbox_fleet.Worker.Snapshots.{
  CreateSnapshotRequest, RestoreRequest, worker, SnapshotEnv, snapshot_slot,
}
use sandbox_fleet.Worker.Names.{strip_prefix, first_existing_path}
use sandbox_fleet.Worker.Restoring.{restore_slot}
use sandbox_fleet.Worker.Saved.{SavedAs, snapshot_slot-SavedAs}
use sandbox_fleet.Worker.Restored.{RestorePost, restore_slot-RestorePost}
use sandbox_fleet.Store.Ops.{Manifest, list_regular_files, upload}

abbrev W : Type 0
W = Unit

abbrev snap : Snapshotter W
snap = record {
  format_version = "1";
  tears_down_on_save = false;
  save_snapshot = λ w req. (w, ok tt);
  load_snapshot = λ w req. (w, err (failure "load"));
  delete_restored = λ w id. (w, ok tt);
  exec_restored = λ w id req. (w, err not_found);
}

abbrev runtime : Runtime W ℕ
runtime = record {
  create = λ w req. (w, err not_found);
  start = λ w id. (w, ok tt);
  stop = λ w id. (w, ok tt);
  delete = λ w id. (w, ok tt);
  status = λ w id. (w, ok state_running);
  listing = λ w. (w, ok []);
  exec = λ w id req. (w, err not_found);
}

abbrev env : Env W ℕ
env = record {
  runtime = runtime;
  snapshotters = none;
  cri_handler = some "gvisor";
  same_resources = λ a b. true;
  remove_all = λ w dir. w;
}

abbrev manifest : Manifest
manifest = record {
  runtime_handler = "gvisor";
  format_version = "1";
  snapshot_files = "memory" ∷ [];
  source_sandbox = no_identity;
  pool_ref = "pool";
  container = record { image = "image"; command = []; args = []; env = [] };
  created_at = 0;
}

abbrev se : SnapshotEnv W ℕ ℕ
se = record {
  env = env;
  libs = record {
    read_dir = λ w dir. (w, ok []);
    mkdir_all = λ w dir. (w, ok tt);
    compress = λ w path. (w, err not_found);
    decompress = λ w path body. (w, ok tt);
    encode = λ m. ok 0;
    decode = λ b. ok manifest;
    now = λ w. 1;
    join = λ dir name. name;
  };
  open_storage = λ cfg. ok (record {
    put = λ w key body. (w, ok tt);
    get = λ w key. (w, ok 0);
    delete = λ w key. (w, ok tt);
  });
  mkdir_temp = λ w. (w, ok "dir");
  primary_container_id = λ w id. (w, ok "");
}

abbrev identity : Identity
identity = record { namespace = "ns"; name = "sandbox"; uid = "child" }

abbrev request : RestoreRequest
request = record {
  slot_id = pos 0;
  identity = identity;
  storage_path = "a";
  storage = record {
    endpoint = "";
    bucket = "bucket";
    region = "";
    access_key_id = "";
    secret_access_key = "";
    use_path_style = false;
  };
  runtime = "gvisor";
}

abbrev created : RuntimeId
created = record { value = "container" }

abbrev recovered : ManagedSlot ℕ
recovered = record {
  id = pos 0;
  profile = "small";
  resources = record { requests = []; limits = [] };
  state = starting;
  sandbox = identity;
  runtime_ref = some created;
  restored = false;
  restore_dir = "";
}

restore_slot-RestorePost_example :
    RestorePost recovered
      (restore_slot se request "gvisor" snap tt recovered).1
      (restore_slot se request "gvisor" snap tt recovered).2
restore_slot-RestorePost_example = restore_slot-RestorePost se request "gvisor" snap tt recovered

abbrev vm_snap : Snapshotter W
vm_snap = record snap { tears_down_on_save = true }

abbrev snapshot_request : CreateSnapshotRequest
snapshot_request = record {
  slot_id = pos 0;
  identity = identity;
  storage_path = "a";
  storage = request.storage;
  runtime = "kata";
  pool = "pool";
  container = manifest.container;
}

abbrev in_use : ManagedSlot ℕ
in_use = record recovered { state = running; restore_dir = "dir" }

-- The virtual machine is gone although the upload found no file.
nothing_saved : (snapshot_slot se snapshot_request "kata" vm_snap tt in_use).1.state ≡ failed
unfolding snapshot_slot string_key state_key upload list_regular_files is_restored_id sort
nothing_saved = refl

snapshot_slot-SavedAs_example :
    SavedAs vm_snap in_use
      (snapshot_slot se snapshot_request "kata" vm_snap tt in_use).1
      (snapshot_slot se snapshot_request "kata" vm_snap tt in_use).2
    × ((in_use.state ≡ running) × (in_use.sandbox.uid ≡ snapshot_request.identity.uid)
        ⊎ (snapshot_slot se snapshot_request "kata" vm_snap tt in_use
            ≡ (tt, in_use, err (worker invalid_request))))
snapshot_slot-SavedAs_example = snapshot_slot-SavedAs se snapshot_request "kata" vm_snap tt in_use

-- Names of restored instances.
strip_restored : strip_prefix "runsc:web-12345678" "runsc:" ≡ some "web-12345678"
unfolding strip_prefix nat_key
strip_restored = refl

-- A bare name is taken as it is where no path before it exists.
falls_back :
    first_existing_path (λ p. p == "/bin/x") ("/usr/virtiofsd" ∷ "virtiofsd" ∷ []) ≡ "virtiofsd"
unfolding first_existing_path string_key nat_key
falls_back = refl
