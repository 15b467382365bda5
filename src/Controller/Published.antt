-- ===== src/Controller/Published.antt =====
-- internal/controller/snapshot_controller.go: a snapshot that is Ready has its files in the storage.
use sandbox_fleet.Base.{
  String, Bool, true, false, ◌≡◌, ◌≢◌, List, Option, none, some, arith, string_key,
}
use sandbox_fleet.Base.Result.{Result, ok, err}
use sandbox_fleet.Base.Action.Keeps.{
  Keeps, keeps_rules, Keeps-wrap, Keeps-attempt, Keeps-ignore, Keeps-pure, Leads, Leads-keep,
  Leads-if, Leads-attempt, Leads-bind, Leads-then, Leads-wrap, Leads-from,
}
use sandbox_fleet.Worker.Snapshots.{
  ObjectStorageConfig, CreateSnapshotRequest, CreateSnapshotResult, DeleteObjectsRequest,
}
use sandbox_fleet.Controller.Objects.{
  Error, missing, error_text, condition_false, Sandbox, Assignment, Message, Snapshot,
  SnapshotStatus, snapshot_ready, snapshot_failed, Pool, S3Storage, sandbox_phase_key,
}
use sandbox_fleet.Controller.Clients.{
  Clients, snapshot_storage_config, s3_config, resolve_worker_endpoint,
}
use sandbox_fleet.Controller.Sandbox.{Requeue, no_requeue}
use sandbox_fleet.Controller.Snapshot.{
  finish_snapshot, waiting_snapshot, snapshot_retry_interval, fail_snapshot, ready_snapshot,
  set_snapshot_condition, created, create_request, wipe_request, create_on, create_in, create_from,
  create_with, sync_create,
}

-- The calls that read objects.
pub record IsReadOnly {W A : Type 0} (clients : Clients W A) (P : W → Type 0) : Type 0 where
  pub get_sandbox : (namespace name : String) → Keeps P (clients.kube.get_sandbox namespace name)
  pub get_pool : (namespace name : String) → Keeps P (clients.kube.get_pool namespace name)
  pub get_pod : (namespace name : String) → Keeps P (clients.kube.get_pod namespace name)
  pub get_secret : (namespace name : String) → Keeps P (clients.kube.get_secret namespace name)
  pub list_sandboxes : (namespace : String) → Keeps P (clients.kube.list_sandboxes namespace)

-- The files of a status are stored, if the status is Ready.
abbrev pub IsBacked : (String → List String → Type 0) → SnapshotStatus → Type 0
IsBacked Stored status =
    status.phase ≡ snapshot_ready → Stored status.storage_path status.snapshot_files

-- What the clients are to do. `status_of` is the status of the snapshot in the server, and `Stored` that
-- the files are at the path of the storage. A successful CreateSnapshot stored what it answers.
pub record IsFaithful {W A : Type 0} (clients : Clients W A) (status_of : W → SnapshotStatus)
    (Stored : W → String → List String → Type 0) : Type 0 where
  pub reads_phase : IsReadOnly clients (λ w. (status_of w).phase ≢ snapshot_ready)
  pub reads_files :
      (path : String) (files : List String) → IsReadOnly clients (λ w. Stored w path files)
  pub reads : IsReadOnly clients (λ w. IsBacked (Stored w) (status_of w))
  pub update :
      (s : Snapshot)
      → Keeps (λ w. IsBacked (Stored w) (status_of w)) (clients.kube.update_snapshot s)
  pub write :
      (s : Snapshot)
      → Leads
          (λ w. IsBacked (Stored w) (status_of w) × IsBacked (Stored w) s.status)
          (λ w. IsBacked (Stored w) (status_of w))
          (clients.kube.update_snapshot_status s)
  pub create :
      (endpoint : String) (req : CreateSnapshotRequest)
      → Keeps
          (λ w. (status_of w).phase ≢ snapshot_ready)
          (clients.workers.create_snapshot endpoint req)
  pub stores :
      (endpoint : String) (req : CreateSnapshotRequest) (v w : W) (r : CreateSnapshotResult)
      → clients.workers.create_snapshot endpoint req v ≡ (w, ok r)
      → Stored w r.storage_path r.snapshot_files
  pub wipe :
      (endpoint : String) (req : DeleteObjectsRequest)
      → Keeps
          (λ w. (status_of w).phase ≢ snapshot_ready)
          (clients.workers.delete_snapshot_objects endpoint req)

module _ {W A : Type 0} (clients : Clients W A) (status_of : W → SnapshotStatus)
    (Stored : W → String → List String → Type 0)
    (faithful : IsFaithful clients status_of Stored) where
  abbrev pub IsHonest : W → Type 0
  IsHonest w = IsBacked (Stored w) (status_of w)

  abbrev pub IsUnready : W → Type 0
  IsUnready w = (status_of w).phase ≢ snapshot_ready

  IsUnready-IsHonest : (w : W) → IsUnready w → IsHonest w
  IsUnready-IsHonest w n r = elim (n r) [ ]

  pub finish_snapshot-Leads :
      (P : W → Type 0) (s : Snapshot) (after : Requeue)
      → ((w : W) → P w → IsHonest w × IsBacked (Stored w) s.status)
      → Leads P IsHonest (finish_snapshot clients s after)
  unfolding finish_snapshot
  finish_snapshot-Leads P s after sound =
      Leads-then _ _ (Leads-wrap _ _ (Leads-from P _ IsHonest _ sound (faithful.write _)))
        (λ _. Keeps-pure after)

  finish_snapshot-of_IsUnready :
      (s : Snapshot) (after : Requeue)
      → s.status.phase ≢ snapshot_ready
      → Leads IsUnready IsHonest (finish_snapshot clients s after)
  finish_snapshot-of_IsUnready s after n =
      finish_snapshot-Leads IsUnready s after (λ w h. (IsUnready-IsHonest w h, λ r. elim (n r) [ ]))

  fail_snapshot-Leads :
      (reason : String) (m : Message) (s : Snapshot)
      → Leads IsUnready IsHonest (fail_snapshot clients reason m s)
  unfolding fail_snapshot set_snapshot_condition
  fail_snapshot-Leads reason m s =
      finish_snapshot-of_IsUnready
        (set_snapshot_condition clients condition_false reason m
          (record s { status = record s.status { phase = snapshot_failed; message = m } }))
        no_requeue (λ e. ground arith)

  created-Leads :
      (s : Snapshot) (a : Assignment) (endpoint : String) (req : DeleteObjectsRequest) (e : Error)
      → Leads IsUnready IsHonest (created clients s a endpoint req (err e))
  unfolding created
  created-Leads s a endpoint req e =
      Leads-bind _ _ IsUnready-IsHonest (Keeps-ignore _ (faithful.wipe endpoint req))
        (λ _. fail_snapshot-Leads "CreateFailed" (error_text e) s)

  ready-Leads :
      (s : Snapshot) (a : Assignment) (r : CreateSnapshotResult)
      → Leads
          (λ w. IsUnready w × Stored w r.storage_path r.snapshot_files)
          IsHonest
          (finish_snapshot clients (ready_snapshot clients a r s) no_requeue)
  unfolding ready_snapshot set_snapshot_condition
  ready-Leads s a r =
      finish_snapshot-Leads _ (ready_snapshot clients a r s) no_requeue
        (λ w h. (IsUnready-IsHonest w h.0, λ _. h.1))

  create_on-Leads :
      (s : Snapshot) (parent : Sandbox) (a : Assignment) (pool : Pool A)
      (storage : ObjectStorageConfig) (r : Result Error String)
      → s.status.phase ≢ snapshot_ready
      → Leads IsUnready IsHonest (create_on clients s parent a pool storage r)
  unfolding create_on created set_snapshot_condition
  create_on-Leads s parent a pool storage (err e) n =
      finish_snapshot-of_IsUnready
        (set_snapshot_condition clients condition_false "WorkerUnavailable" (error_text e) s)
        snapshot_retry_interval n
  create_on-Leads s parent a pool storage (ok endpoint) n =
      let req = create_request clients s parent a pool storage in
      let wipe = wipe_request clients s parent storage in
      Leads-attempt (λ r w. IsUnready w × Stored w r.storage_path r.snapshot_files)
        (clients.workers.create_snapshot endpoint req) (created clients s a endpoint wipe)
        (faithful.create endpoint req) (λ v w r u e. (u, faithful.stores endpoint req v w r e))
        (λ e. created-Leads s a endpoint wipe e) (λ r. ready-Leads s a r)

  s3_config-Keeps :
      (P : W → Type 0) (reads : IsReadOnly clients P) (pool : Pool A) (s3 : Option S3Storage)
      → Keeps P (s3_config clients.kube pool s3)
  unfolding s3_config
  s3_config-Keeps P reads pool none = search keeps_rules
  s3_config-Keeps P reads pool (some s3) = search (keeps_rules, reads.get_secret)

  resolve_worker_endpoint-Keeps :
      (namespace name : String) → Keeps IsUnready (resolve_worker_endpoint clients namespace name)
  unfolding resolve_worker_endpoint
  resolve_worker_endpoint-Keeps namespace name = search (keeps_rules, faithful.reads_phase.get_pod)

  create_in-Leads :
      (s : Snapshot) (parent : Sandbox) (a : Assignment) (pool : Pool A)
      (r : Result Error ObjectStorageConfig)
      → s.status.phase ≢ snapshot_ready
      → Leads IsUnready IsHonest (create_in clients s parent a pool r)
  unfolding create_in
  create_in-Leads s parent a pool (err e) n = fail_snapshot-Leads "StorageConfig" (error_text e) s
  create_in-Leads s parent a pool (ok storage) n =
      Leads-bind _ _ IsUnready-IsHonest
        (Keeps-attempt _ (resolve_worker_endpoint-Keeps s.meta.namespace a.worker))
        (λ r. create_on-Leads s parent a pool storage r n)

  waiting_snapshot-Leads :
      (s : Snapshot)
      → Leads IsUnready IsHonest
          (finish_snapshot clients (waiting_snapshot clients s) snapshot_retry_interval)
  unfolding waiting_snapshot set_snapshot_condition
  waiting_snapshot-Leads s = finish_snapshot-of_IsUnready _ _ (λ e. ground arith)

  create_from-Leads :
      (s : Snapshot) (parent : Sandbox) (b : Bool) (a : Option Assignment)
      → s.status.phase ≢ snapshot_ready
      → Leads IsUnready IsHonest (create_from clients s parent b a)
  unfolding create_from snapshot_storage_config
  create_from-Leads s parent true (some a) n = Leads-if _ _ _ (fail_snapshot-Leads _ _ s) (
      Leads-bind _ _ IsUnready-IsHonest (Keeps-wrap _ _ (faithful.reads_phase.get_pool _ _))
        (λ pool.
          Leads-bind _ _ IsUnready-IsHonest
            (Keeps-attempt _ (s3_config-Keeps IsUnready faithful.reads_phase pool _))
            (λ r. create_in-Leads s parent a pool r n)))
  create_from-Leads s parent true none n = waiting_snapshot-Leads s
  create_from-Leads s parent false a n = waiting_snapshot-Leads s

  create_with-Leads :
      (s : Snapshot) (r : Result Error Sandbox)
      → s.status.phase ≢ snapshot_ready
      → Leads IsUnready IsHonest (create_with clients s r)
  unfolding create_with
  create_with-Leads s (err missing) n = fail_snapshot-Leads "ParentNotFound" _ s
  create_with-Leads s (err e) n = Leads-keep _ IsUnready-IsHonest (search keeps_rules)
  create_with-Leads s (ok parent) n = create_from-Leads s parent _ _ n

  pub sync_create-Leads :
      (s : Snapshot)
      → s.status.phase ≢ snapshot_ready
      → Leads IsUnready IsHonest (sync_create clients s)
  unfolding sync_create
  sync_create-Leads s n =
      Leads-bind _ _ IsUnready-IsHonest (Keeps-attempt _ (faithful.reads_phase.get_sandbox _ _))
        (λ r. create_with-Leads s r n)
