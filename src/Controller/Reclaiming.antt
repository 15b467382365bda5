-- ===== src/Controller/Reclaiming.antt =====
-- internal/controller/snapshot_controller.go: syncDelete and Reconcile of SnapshotReconciler.
use sandbox_fleet.Base.{
  String, not, List, [], ◌∷◌, Option, none, some, if◌then◌else◌, ◌!=◌, string_key,
}
use sandbox_fleet.Base.Result.{Result, ok, err}
use sandbox_fleet.Base.Action.{Action, pure, fail, lift, attempt, ignore, wrap, ◌>>=◌, ◌>>◌}
use sandbox_fleet.Worker.Snapshots.{ObjectStorageConfig}
use sandbox_fleet.Controller.Objects.{
  Error, missing, invalid, context, text, condition_false, Sandbox, Snapshot, SnapshotPhase,
  snapshot_unset, snapshot_pending, snapshot_ready, snapshot_failed, Pool, Pod,
}
use sandbox_fleet.Controller.Clients.{
  Clients, label_managed, label_pool, snapshot_storage_config, resolve_worker_endpoint,
}
use sandbox_fleet.Controller.Sandbox.{Requeue, no_requeue}
use sandbox_fleet.Controller.Snapshot.{
  snapshot_retry_interval, snapshot_finalizer, reference_to, set_snapshot_condition,
  finish_snapshot, sync_create,
}

module _ {A : Type 0} (endpoint_of : Pod A → Result Error String) where
  -- The loop of pickWorkerEndpoint.
  unfoldable pub first_endpoint : List (Pod A) → Result Error String
  first_endpoint [] = err (invalid "no Worker available to delete snapshot objects" [])
  first_endpoint (pod ∷ pods) = elim (endpoint_of pod) [
    | ok endpoint ↦ if endpoint != "" then ok endpoint else first_endpoint pods
    | err e ↦ first_endpoint pods
  ]

module _ {W A : Type 0} (clients : Clients W A) where
  unfoldable pub pick_any_endpoint : String → Pool A → Action W Error String
  unfolding ◌>>=◌
  pick_any_endpoint namespace pool = do
    pods ←
        clients.kube.list_pods namespace
          ((label_managed, "true") ∷ (label_pool, pool.meta.name) ∷ [])
    lift (first_endpoint clients.endpoint pods)

  -- Where the preferred worker answered or not.
  unfoldable pub pick_or_other : String → Pool A → Result Error String → Action W Error String
  unfolding pick_any_endpoint
  pick_or_other namespace pool (ok endpoint) = pure endpoint
  pick_or_other namespace pool (err e) = pick_any_endpoint namespace pool

  unfoldable pub pick_worker_endpoint : String → Pool A → String → Action W Error String
  unfolding resolve_worker_endpoint pick_any_endpoint pick_or_other attempt ◌>>=◌
  pick_worker_endpoint namespace pool preferred =
      if preferred != ""
      then (do
        answer ← attempt (resolve_worker_endpoint clients namespace preferred)
        pick_or_other namespace pool answer)
      else pick_any_endpoint namespace pool

  unfoldable pub delete_at :
      Snapshot → ObjectStorageConfig → Result Error String → Action W Error (Unit {0})
  unfolding pure ignore
  delete_at snap storage (err e) = pure tt
  delete_at snap storage (ok endpoint) = ignore (
      clients.workers.delete_snapshot_objects endpoint (record {
        storage_path = snap.status.storage_path;
        snapshot_files = snap.status.snapshot_files;
        storage = storage;
      }))

  unfoldable pub delete_in :
      Snapshot → Pool A → Result Error ObjectStorageConfig → Action W Error (Unit {0})
  unfolding pick_worker_endpoint delete_at attempt ◌>>=◌
  delete_in snap pool (err e) = pure tt
  delete_in snap pool (ok storage) = do
    endpoint ← attempt (pick_worker_endpoint snap.meta.namespace pool snap.status.source_worker)
    delete_at snap storage endpoint

  -- Where the pool was found or not.
  unfoldable pub delete_objects_of : Snapshot → Result Error (Pool A) → Action W Error (Unit {0})
  unfolding snapshot_storage_config delete_in attempt ◌>>=◌
  delete_objects_of snap (err missing) = pure tt
  delete_objects_of snap (err e) = fail e
  delete_objects_of snap (ok pool) = do
    storage ← attempt (snapshot_storage_config clients.kube pool)
    delete_in snap pool storage

  -- The objects of the snapshot are deleted where a worker can be asked to.
  unfoldable pub delete_objects : Snapshot → Action W Error (Unit {0})
  unfolding delete_objects_of pure attempt ◌>>=◌
  delete_objects snap =
      if snap.status.storage_path != ""
      then (do
        pool ← attempt (clients.kube.get_pool snap.meta.namespace snap.spec.pool)
        delete_objects_of snap pool)
      else pure tt

  unfoldable pub unset_snapshot_finalizer : Snapshot → Action W Error Requeue
  unfolding wrap ◌>>=◌
  unset_snapshot_finalizer snap = do
    wrap (context "remove SandboxSnapshot finalizer") (
        clients.kube.update_snapshot (record snap {
          meta = record snap.meta {
            finalizers = clients.kube.remove_finalizer snap.meta.finalizers snapshot_finalizer;
          };
        }))
    pure no_requeue

  unfoldable pub in_use : Snapshot → Sandbox → Snapshot
  unfolding set_snapshot_condition
  in_use snap s =
      let message = text "still referenced by Sandbox %q" (s.meta.name ∷ []) in
      set_snapshot_condition clients condition_false "InUse" message
        (record snap { status = record snap.status { message = message } })

  -- What syncDelete does once it looked for a sandbox that is made from the snapshot.
  unfoldable pub reclaim : Snapshot → Option Sandbox → Action W Error Requeue
  unfolding in_use finish_snapshot delete_objects unset_snapshot_finalizer ignore ◌>>=◌
  reclaim snap (some s) = do
    ignore (finish_snapshot clients (in_use snap s) no_requeue)
    pure snapshot_retry_interval
  reclaim snap none = do delete_objects snap; unset_snapshot_finalizer snap

  unfoldable pub sync_delete_snapshot : Snapshot → Action W Error Requeue
  unfolding reference_to reclaim pure ◌>>=◌
  sync_delete_snapshot snap =
      if not (clients.kube.contains_finalizer snap.meta.finalizers snapshot_finalizer)
      then pure no_requeue
      else (do
        sandboxes ← clients.kube.list_sandboxes snap.meta.namespace
        reclaim snap (reference_to snap.meta.name sandboxes))

  unfoldable pub add_snapshot_finalizer : Snapshot → Action W Error Requeue
  unfolding wrap ◌>>=◌
  add_snapshot_finalizer snap = do
    wrap (context "add SandboxSnapshot finalizer") (
        clients.kube.update_snapshot (record snap {
          meta = record snap.meta {
            finalizers = clients.kube.add_finalizer snap.meta.finalizers snapshot_finalizer;
          };
        }))
    pure no_requeue

  -- Reconcile of a snapshot that stays and has the finalizer.
  unfoldable pub sync_phase : Snapshot → SnapshotPhase → Action W Error Requeue
  unfolding sync_create pure
  sync_phase snap snapshot_ready = pure no_requeue
  sync_phase snap snapshot_failed = pure no_requeue
  sync_phase snap snapshot_unset = sync_create clients snap
  sync_phase snap snapshot_pending = sync_create clients snap

  unfoldable pub reconcile_snapshot : Snapshot → Action W Error Requeue
  unfolding sync_delete_snapshot add_snapshot_finalizer sync_phase
  reconcile_snapshot snap =
      if snap.meta.deleting
      then sync_delete_snapshot snap
      else if not (clients.kube.contains_finalizer snap.meta.finalizers snapshot_finalizer)
      then add_snapshot_finalizer snap
      else sync_phase snap snap.status.phase

  -- client.IgnoreNotFound
  unfoldable pub snapshot_found : Result Error Snapshot → Action W Error Requeue
  unfolding reconcile_snapshot
  snapshot_found (err missing) = pure no_requeue
  snapshot_found (err e) = fail e
  snapshot_found (ok snap) = reconcile_snapshot snap

  unfoldable pub reconcile_snapshot_named : String → String → Action W Error Requeue
  unfolding snapshot_found attempt ◌>>=◌
  reconcile_snapshot_named namespace name = do
    answer ← attempt (clients.kube.get_snapshot namespace name)
    snapshot_found answer
