-- ===== src/Worker/Restoring.antt =====
-- internal/worker/snapshot.go: CreateSnapshot, RestoreFromSnapshot and DeleteSnapshotObjects.
use sandbox_fleet.Base.{String, true, ◌&&◌, ◌||◌, none, some, if◌then◌else◌, ◌==◌, ◌!=◌, string_key}
use sandbox_fleet.Base.Int.{ℤ, int_key}
use sandbox_fleet.Base.Map.{is_some}
use sandbox_fleet.Base.Result.{Result, ok, err}
use sandbox_fleet.Slot.{reserved, starting, running, state_key}
use sandbox_fleet.Worker.Types.{
  RuntimeId, Failure, invalid_request, slot_conflict, wrong_state, Snapshotter, runtime_handler,
  snapshotter_for,
}
use sandbox_fleet.Worker.Slots.{ManagedSlot, validate_identity}
use sandbox_fleet.Worker.Manager.{Manager, get_slot, put_slot}
use sandbox_fleet.Worker.Snapshots.{
  CreateSnapshotRequest, CreateSnapshotResult, RestoreRequest, DeleteObjectsRequest, SnapshotError,
  worker, store, call, load_failed, SnapshotEnv, SnapshotCall, or_default, open_snapshot_storage,
  snapshot_slot,
}
use sandbox_fleet.Store.Ops.{Error as StoreError, Manifest, download, delete}

module _ {W A B : Type 0} (se : SnapshotEnv W A B) where
  -- The result of `LoadSnapshot`. After a success the work directory stays.
  unfoldable pub loaded :
      String → ManagedSlot A → W × Result Failure RuntimeId → SnapshotCall W A (Unit {0})
  loaded dir c (w, err e) =
      (se.env.remove_all w dir, record c { state = reserved }, err (load_failed e))
  loaded dir c (w, ok id) = (
    w,
    record c { runtime_ref = some id; restored = true; restore_dir = dir; state = running },
    ok tt,
  )

  -- The result of `store.Download`.
  unfoldable pub downloaded :
      RestoreRequest
      → String
      → Snapshotter W
      → String
      → String
      → ManagedSlot A
      → W × Result StoreError Manifest
      → SnapshotCall W A (Unit {0})
  unfolding loaded
  downloaded req handler snap dir checkpoint c (w, err e) =
      (se.env.remove_all w dir, c, err (store e))
  downloaded req handler snap dir checkpoint c (w, ok manifest) =
      if manifest.runtime_handler != "" && manifest.runtime_handler != handler
      then (se.env.remove_all w dir, c, err (worker invalid_request))
      else loaded dir (record c { state = starting })
          (snap.load_snapshot w (record {
            source_dir = checkpoint;
            identity = req.identity;
            slot_id = req.slot_id;
            app_image = manifest.container.image;
          }))

  unfoldable pub restore_in :
      RestoreRequest
      → String
      → Snapshotter W
      → ManagedSlot A
      → W × Result Failure String
      → SnapshotCall W A (Unit {0})
  unfolding downloaded open_snapshot_storage
  restore_in req handler snap c (w, err e) = (w, c, err (call e))
  restore_in req handler snap c (w, ok dir) = elim (open_snapshot_storage se req.storage) [
    | err e ↦ (se.env.remove_all w dir, c, err (call e))
    | ok blobs ↦
        let checkpoint = se.libs.join dir "checkpoint" in
        downloaded req handler snap dir checkpoint c
          (download blobs se.libs req.storage_path checkpoint w)
  ]

  -- The locked part of RestoreFromSnapshot.
  unfoldable pub restore_slot :
      RestoreRequest → String → Snapshotter W → W → ManagedSlot A → SnapshotCall W A (Unit {0})
  unfolding restore_in
  restore_slot req handler snap w c =
      if c.sandbox.uid != req.identity.uid
      then (w, c, err (worker slot_conflict))
      else if c.state == running && is_some c.runtime_ref
      then (w, c, ok tt)
      else if c.state != reserved && c.state != starting
      then (w, c, err (worker (wrong_state req.slot_id c.state)))
      else restore_in req handler snap c (se.mkdir_temp w)

  -- The slot that a call locks, found after its snapshotter.
  unfoldable pub on_snapshot_slot :
      {T : Type 0}
      → (Snapshotter W → W → ManagedSlot A → SnapshotCall W A T)
      → String
      → ℤ
      → W
      → Manager A
      → W × Manager A × Result SnapshotError T
  unfolding snapshotter_for get_slot put_slot
  on_snapshot_slot body handler id w m = elim (snapshotter_for se.env handler) [
    | err e ↦ (w, m, err (worker e))
    | ok snap ↦ elim (get_slot m id) [
      | err e ↦ (w, m, err (worker e))
      | ok c ↦ let (w', c', r) = body snap w c in (w', put_slot m id c', r)
    ]
  ]

  unfoldable pub create_snapshot :
      CreateSnapshotRequest
      → W
      → Manager A
      → W × Manager A × Result SnapshotError CreateSnapshotResult
  unfolding validate_identity runtime_handler on_snapshot_slot snapshot_slot
  create_snapshot req w m = elim (validate_identity req.identity) [
    | err e ↦ (w, m, err (worker e))
    | ok _ ↦
        let handler = or_default req.runtime (runtime_handler se.env) in
        if req.storage_path == "" || req.storage.bucket == ""
        then (w, m, err (worker invalid_request))
        else on_snapshot_slot (snapshot_slot se req handler) handler req.slot_id w m
  ]

  unfoldable pub restore_from_snapshot :
      RestoreRequest → W → Manager A → W × Manager A × Result SnapshotError (Unit {0})
  unfolding validate_identity runtime_handler on_snapshot_slot restore_slot
  restore_from_snapshot req w m = elim (validate_identity req.identity) [
    | err e ↦ (w, m, err (worker e))
    | ok _ ↦
        let local = runtime_handler se.env in
        let handler = or_default req.runtime local in
        if req.storage_path == "" || req.storage.bucket == ""
        then (w, m, err (worker invalid_request))
        else if local != "" && handler != local
        then (w, m, err (worker invalid_request))
        else on_snapshot_slot (restore_slot req handler) handler req.slot_id w m
  ]

  unfoldable pub delete_snapshot_objects :
      DeleteObjectsRequest → W → W × Result SnapshotError (Unit {0})
  unfolding open_snapshot_storage
  delete_snapshot_objects req w =
      if req.storage_path == "" || req.storage.bucket == ""
      then (w, err (worker invalid_request))
      else elim (open_snapshot_storage se req.storage) [
        | err e ↦ (w, err (call e))
        | ok blobs ↦
            let (w', first) = delete blobs se.libs req.storage_path req.snapshot_files w in
            elim first [ none ↦ (w', ok tt) | some e ↦ (w', err (call e)) ]
      ]
