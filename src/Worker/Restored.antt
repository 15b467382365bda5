-- ===== src/Worker/Restored.antt =====
-- internal/worker/snapshot.go: what RestoreFromSnapshot leaves of the slot that it locks, whatever the
-- store and the snapshotter answer.
use sandbox_fleet.Base.{
  String, true, ◌&&◌, ◌≡◌, refl, subst, inl, inr, ◌==◌, ◌!=◌, Bool-cases, arith, string_key,
}
use sandbox_fleet.Base.Map.{is_some}
use sandbox_fleet.Base.Result.{Result, ok, err, Result-cases}
use sandbox_fleet.Slot.{reserved, starting, running, state_key}
use sandbox_fleet.Worker.Types.{
  RuntimeId, LoadRequest, Failure, invalid_request, slot_conflict, wrong_state, Snapshotter,
}
use sandbox_fleet.Worker.Slots.{ManagedSlot}
use sandbox_fleet.Worker.Snapshots.{
  RestoreRequest, SnapshotError, worker, store, call, load_failed, SnapshotEnv,
  open_snapshot_storage,
}
use sandbox_fleet.Worker.Restoring.{loaded, downloaded, restore_in, restore_slot}
use sandbox_fleet.Worker.WellFormed.{IsSame}
use sandbox_fleet.Store.Ops.{Error as StoreError, Manifest, download}

module _ {A : Type 0} where
  -- A success leaves a running slot with a restored runtime, a failure of LoadSnapshot the slot as it
  -- was, but reserved, and any other error the slot as it was.
  abbrev pub RestoredAs : ManagedSlot A → ManagedSlot A → Result SnapshotError (Unit {0}) → Type 0
  RestoredAs c d (ok _) = (d.state ≡ running) × (is_some d.runtime_ref ≡ true)
  RestoredAs c d (err (load_failed e)) = d ≡ record c { state = reserved }
  RestoredAs c d (err (worker e)) = d ≡ c
  RestoredAs c d (err (store e)) = d ≡ c
  RestoredAs c d (err (call e)) = d ≡ c

  pub record RestorePost (c d : ManagedSlot A) (r : Result SnapshotError (Unit {0})) : Type 0 where
    pub same : IsSame c d
    pub sandbox : d.sandbox ≡ c.sandbox
    pub outcome : RestoredAs c d r

module _ {W A B : Type 0} (se : SnapshotEnv W A B) where
  loaded-RestorePost :
      (dir : String) (c : ManagedSlot A) (r : W × Result Failure RuntimeId)
      → RestorePost c
          (loaded se dir (record c { state = starting }) r).1
          (loaded se dir (record c { state = starting }) r).2
  unfolding loaded
  loaded-RestorePost dir c (w, err e) = record {
    same = (refl, refl, refl);
    sandbox = refl;
    outcome = refl;
  }
  loaded-RestorePost dir c (w, ok id) = record {
    same = (refl, refl, refl);
    sandbox = refl;
    outcome = (refl, refl);
  }

  downloaded-RestorePost :
      (req : RestoreRequest) (handler : String) (snap : Snapshotter W) (dir checkpoint : String)
      (c : ManagedSlot A) (r : W × Result StoreError Manifest)
      → RestorePost c
          (downloaded se req handler snap dir checkpoint c r).1
          (downloaded se req handler snap dir checkpoint c r).2
  unfolding downloaded
  downloaded-RestorePost req handler snap dir checkpoint c (w, err e) = record {
    same = (refl, refl, refl);
    sandbox = refl;
    outcome = refl;
  }
  downloaded-RestorePost req handler snap dir checkpoint c (w, ok m) =
      elim (Bool-cases (m.runtime_handler != "" && m.runtime_handler != handler)) [
        | inl e ↦
            let here : (se.env.remove_all w dir, c, err (worker invalid_request))
                ≡ downloaded se req handler snap dir checkpoint c (w, ok m) =
              ground arith in
            subst (λ x. RestorePost c x.1 x.2) here
              (record { same = (refl, refl, refl); sandbox = refl; outcome = refl })
        | inr e ↦
            let request : LoadRequest = record {
              source_dir = checkpoint;
              identity = req.identity;
              slot_id = req.slot_id;
              app_image = m.container.image;
            } in
            let here : loaded se dir (record c { state = starting }) (snap.load_snapshot w request)
                ≡ downloaded se req handler snap dir checkpoint c (w, ok m) =
              ground arith in
            subst (λ x. RestorePost c x.1 x.2) here
              (loaded-RestorePost dir c (snap.load_snapshot w request))
      ]

  restore_in-RestorePost :
      (req : RestoreRequest) (handler : String) (snap : Snapshotter W) (c : ManagedSlot A)
      (r : W × Result Failure String)
      → RestorePost c (restore_in se req handler snap c r).1 (restore_in se req handler snap c r).2
  unfolding restore_in
  restore_in-RestorePost req handler snap c (w, err e) = record {
    same = (refl, refl, refl);
    sandbox = refl;
    outcome = refl;
  }
  restore_in-RestorePost req handler snap c (w, ok dir) =
      elim (Result-cases (open_snapshot_storage se req.storage)) [
        | inl (blobs, e) ↦
            let checkpoint = se.libs.join dir "checkpoint" in
            let received = download blobs se.libs req.storage_path checkpoint w in
            let here : downloaded se req handler snap dir checkpoint c received
                ≡ restore_in se req handler snap c (w, ok dir) =
              ground arith in
            subst (λ x. RestorePost c x.1 x.2) here
              (downloaded-RestorePost req handler snap dir checkpoint c received)
        | inr (x, e) ↦
            let here : (se.env.remove_all w dir, c, err (call x))
                ≡ restore_in se req handler snap c (w, ok dir) =
              ground arith in
            subst (λ x. RestorePost c x.1 x.2) here
              (record { same = (refl, refl, refl); sandbox = refl; outcome = refl })
      ]

  -- RestoreFromSnapshot keeps the owner, the profile and the resources of its slot. A success leaves
  -- the slot running with a runtime, a failure of LoadSnapshot leaves it as it was, but reserved, and
  -- any other error leaves it as it was.
  pub restore_slot-RestorePost :
      (req : RestoreRequest) (handler : String) (snap : Snapshotter W) (w : W) (c : ManagedSlot A)
      → RestorePost c
          (restore_slot se req handler snap w c).1
          (restore_slot se req handler snap w c).2
  unfolding restore_slot
  restore_slot-RestorePost req handler snap w c =
      elim (Bool-cases (c.sandbox.uid == req.identity.uid)) [
        | inr e ↦ stay (worker slot_conflict) refl (ground arith)
        | inl e ↦ elim (Bool-cases (c.state == running && is_some c.runtime_ref)) [
          | inl f ↦
              let here : (w, c, ok tt) ≡ restore_slot se req handler snap w c = ground arith in
              subst (λ x. RestorePost c x.1 x.2) here
                (record {
                  same = (refl, refl, refl);
                  sandbox = refl;
                  outcome = (ground arith, ground arith);
                })
          | inr f ↦ elim (Bool-cases (c.state != reserved && c.state != starting)) [
            | inl g ↦ stay (worker (wrong_state req.slot_id c.state)) refl (ground arith)
            | inr g ↦
                let here : restore_in se req handler snap c (se.mkdir_temp w)
                    ≡ restore_slot se req handler snap w c =
                  ground arith in
                subst (λ x. RestorePost c x.1 x.2) here
                  (restore_in-RestorePost req handler snap c (se.mkdir_temp w))
          ]
        ]
      ]
    where
      stay :
          (e : SnapshotError)
          → RestoredAs c c (err e)
          → (w, c, err e) ≡ restore_slot se req handler snap w c
          → RestorePost c
              (restore_slot se req handler snap w c).1
              (restore_slot se req handler snap w c).2
      stay e o here =
          subst (λ x. RestorePost c x.1 x.2) here
            (record { same = (refl, refl, refl); sandbox = refl; outcome = o })
