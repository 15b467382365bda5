-- ===== src/Worker/Saved.antt =====
-- internal/worker/snapshot.go: what CreateSnapshot leaves of the slot that it locks, whatever the store
-- and the snapshotter answer.
use sandbox_fleet.Base.{
  ℕ, String, false, ◌||◌, [], ◌≡◌, refl, sym, subst, ◌⊎◌, inl, inr, none, if◌then◌else◌, ◌==◌, ◌!=◌,
  Bool-cases, Option-cases, arith, string_key,
}
use sandbox_fleet.Base.Result.{Result, ok, err, Result-cases}
use sandbox_fleet.Slot.{running, failed, state_key}
use sandbox_fleet.Worker.Types.{RuntimeId, Failure, invalid_request, Snapshotter}
use sandbox_fleet.Worker.Slots.{ManagedSlot, clear_restore_dir}
use sandbox_fleet.Worker.Snapshots.{
  CreateSnapshotRequest, CreateSnapshotResult, SnapshotError, worker, store, call, load_failed,
  SnapshotEnv, open_snapshot_storage, tear_down, described, uploaded, upload_snapshot, saved,
  container_id, identified, in_work_dir, remove_after, snapshot_slot,
}
use sandbox_fleet.Store.Ops.{Error as StoreError, Manifest, Blobs, upload, get_manifest}

module _ {W A : Type 0} where
  -- A slot after SaveSnapshot: a snapshotter that leaves nothing running takes the runtime away.
  abbrev pub after_save : Snapshotter W → ManagedSlot A → ManagedSlot A
  after_save snap c =
      if snap.tears_down_on_save
      then record c { runtime_ref = none; restored = false; restore_dir = ""; state = failed }
      else c

  -- The slot `d` that is left of `c`: after a success and after an error of the store the snapshot was
  -- saved, after an error of the worker nothing was done.
  abbrev pub SavedAs :
      Snapshotter W
      → ManagedSlot A
      → ManagedSlot A
      → Result SnapshotError CreateSnapshotResult
      → Type 0
  SavedAs snap c d (ok _) = d ≡ after_save snap c
  SavedAs snap c d (err (worker e)) = d ≡ c
  SavedAs snap c d (err (store e)) = d ≡ after_save snap c
  SavedAs snap c d (err (call e)) = (d ≡ c) ⊎ (d ≡ after_save snap c)
  SavedAs snap c d (err (load_failed e)) = ⊥

module _ {W A B : Type 0} (se : SnapshotEnv W A B) (req : CreateSnapshotRequest) (handler : String)
    (snap : Snapshotter W) where
  tear_down_lem :
      (id : RuntimeId) (w : W) (c : ManagedSlot A)
      → (tear_down se snap id w c).1 ≡ after_save snap c
  unfolding tear_down clear_restore_dir
  tear_down_lem id w c = elim (Bool-cases snap.tears_down_on_save) [
    | inl t ↦ elim (Bool-cases (c.restore_dir == "")) [
      | inl e ↦ ground arith
      | inr e ↦ ground arith
    ]
    | inr t ↦ ground arith
  ]

  described-SavedAs :
      (size : ℕ) (c d : ManagedSlot A) (r : W × Result StoreError Manifest)
      → d ≡ after_save snap c
      → SavedAs snap c
          (described se req handler snap size d r).1
          (described se req handler snap size d r).2
  unfolding described
  described-SavedAs size c d (w, err e) h = h
  described-SavedAs size c d (w, ok m) h = h

  uploaded-SavedAs :
      (blobs : Blobs W B) (c d : ManagedSlot A) (r : W × ℕ × Result StoreError (Unit {0}))
      → d ≡ after_save snap c
      → SavedAs snap c
          (uploaded se req handler snap blobs d r).1
          (uploaded se req handler snap blobs d r).2
  unfolding uploaded
  uploaded-SavedAs blobs c d (w, size, err e) h = h
  uploaded-SavedAs blobs c d (w, size, ok _) h =
      described-SavedAs size c d (get_manifest blobs se.libs req.storage_path w) h

  upload_snapshot-SavedAs :
      (dir : String) (w : W) (c d : ManagedSlot A)
      → d ≡ after_save snap c
      → SavedAs snap c
          (upload_snapshot se req handler snap dir w d).1
          (upload_snapshot se req handler snap dir w d).2
  unfolding upload_snapshot
  upload_snapshot-SavedAs dir w c d h = elim (Result-cases (open_snapshot_storage se req.storage)) [
    | inl (blobs, e) ↦
        let manifest : Manifest = record {
          runtime_handler = handler;
          format_version = snap.format_version;
          snapshot_files = [];
          source_sandbox = req.identity;
          pool_ref = req.pool;
          container = req.container;
          created_at = se.libs.now w;
        } in
        let sent = upload blobs se.libs req.storage_path dir manifest w in
        let here : uploaded se req handler snap blobs d sent
            ≡ upload_snapshot se req handler snap dir w d =
          ground arith in
        subst (λ x. SavedAs snap c x.1 x.2) here (uploaded-SavedAs blobs c d sent h)
    | inr (x, e) ↦
        let here : (w, d, err (call x)) ≡ upload_snapshot se req handler snap dir w d =
          ground arith in
        subst (λ x. SavedAs snap c x.1 x.2) here (inr h)
  ]

  saved-SavedAs :
      (id : RuntimeId) (dir : String) (c : ManagedSlot A) (r : W × Result Failure (Unit {0}))
      → SavedAs snap c
          (saved se req handler snap id dir c r).1
          (saved se req handler snap id dir c r).2
  unfolding saved
  saved-SavedAs id dir c (w, err e) = inl refl
  saved-SavedAs id dir c (w, ok _) =
      upload_snapshot-SavedAs dir (tear_down se snap id w c).0 c (tear_down se snap id w c).1
        (tear_down_lem id w c)

  identified-SavedAs :
      (id : RuntimeId) (dir : String) (c : ManagedSlot A) (r : W × Result Failure String)
      → SavedAs snap c
          (identified se req handler snap id dir c r).1
          (identified se req handler snap id dir c r).2
  unfolding identified
  identified-SavedAs id dir c (w, err e) = inl refl
  identified-SavedAs id dir c (w, ok container) = saved-SavedAs id dir c _

  in_work_dir-SavedAs :
      (id : RuntimeId) (c : ManagedSlot A) (r : W × Result Failure String)
      → SavedAs snap c
          (in_work_dir se req handler snap id c r).1
          (in_work_dir se req handler snap id c r).2
  unfolding in_work_dir remove_after
  in_work_dir-SavedAs id c (w, err e) = inl refl
  in_work_dir-SavedAs id c (w, ok dir) = identified-SavedAs id dir c (container_id se w id)

  -- CreateSnapshot touches its slot only if the snapshotter leaves nothing running: after a success,
  -- and after an error of the store, such a slot has failed and has no runtime, and any other slot is
  -- as it was. Any other error leaves the slot in one of these two ways, and one of the worker as it
  -- was. It refuses every slot but a running one of the sandbox.
  pub snapshot_slot-SavedAs :
      (w : W) (c : ManagedSlot A)
      → SavedAs snap c
          (snapshot_slot se req handler snap w c).1
          (snapshot_slot se req handler snap w c).2
        × ((c.state ≡ running) × (c.sandbox.uid ≡ req.identity.uid)
            ⊎ (snapshot_slot se req handler snap w c ≡ (w, c, err (worker invalid_request))))
  unfolding snapshot_slot
  snapshot_slot-SavedAs w c = elim (Option-cases c.runtime_ref) [
    | inl e ↦
        let here : (w, c, err (worker invalid_request)) ≡ snapshot_slot se req handler snap w c =
          ground arith in
        (subst (λ x. SavedAs snap c x.1 x.2) here refl, inr (sym here))
    | inr (id, e) ↦ elim (Bool-cases (c.state != running || c.sandbox.uid != req.identity.uid)) [
      | inl f ↦
          let here : (w, c, err (worker invalid_request)) ≡ snapshot_slot se req handler snap w c =
            ground arith in
          (subst (λ x. SavedAs snap c x.1 x.2) here refl, inr (sym here))
      | inr f ↦
          let here : in_work_dir se req handler snap id c (se.mkdir_temp w)
              ≡ snapshot_slot se req handler snap w c =
            ground arith in
          (
            subst (λ x. SavedAs snap c x.1 x.2) here (in_work_dir-SavedAs id c (se.mkdir_temp w)),
            inl (ground arith, ground arith),
          )
    ]
  ]
