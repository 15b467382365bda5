-- ===== src/Controller/Referenced.antt =====
-- internal/controller/snapshot_controller.go: what a reconcile of a snapshot leaves of its files.
use sandbox_fleet.Base.{
  String, Bool, true, false, not, ◌≡◌, ◌≢◌, refl, sym, subst, ◌⊎◌, inl, inr, List, [], ◌∷◌, Elem,
  Option, none, some, arith, if◌then◌else◌, string_key,
}
use sandbox_fleet.Base.Result.{Result, ok, err}
use sandbox_fleet.Base.Action.{Action, pure, bind-rule, ◌>>=◌}
use sandbox_fleet.Base.Action.Keeps.{
  Keeps, keeps_rules, Keeps-pure, Leads, Leads-ignore, Leads-then,
}
use sandbox_fleet.Controller.Objects.{
  Error, Sandbox, Snapshot, SnapshotStatus, SnapshotPhase, snapshot_ready, snapshot_failed,
  snapshot_pending, snapshot_unset, sandbox_phase_key,
}
use sandbox_fleet.Controller.Clients.{Clients}
use sandbox_fleet.Controller.Sandbox.{Requeue, no_requeue}
use sandbox_fleet.Controller.Snapshot.{
  reference_to, finish_snapshot, snapshot_retry_interval, set_snapshot_condition, sync_create,
  snapshot_finalizer,
}
use sandbox_fleet.Controller.Reclaiming.{
  in_use, reclaim, sync_delete_snapshot, add_snapshot_finalizer, sync_phase, reconcile_snapshot,
}
use sandbox_fleet.Controller.Published.{
  IsFaithful, IsBacked, IsHonest, finish_snapshot-Leads, sync_create-Leads,
}

-- A list with a sandbox that is made from a snapshot has a first one.
reference_to-some :
    (name : String) (child : Sandbox) (l : List Sandbox)
    → Elem child l
    → child.spec.from_snapshot ≡ name
    → reference_to name l ≢ none
unfolding reference_to
reference_to-some name child [] h e = elim h [ ]
reference_to-some name child (s ∷ ss) h e =
    let later = λ (g : Elem child ss). reference_to-some name child ss g e in
    elim h [
      | inl q ↦
          let named : s.spec.from_snapshot ≡ name =
            subst (λ (t : Sandbox). t.spec.from_snapshot ≡ name) q e in
          λ k. ground arith
      | inr g ↦ let missed = later g in λ k. ground (arith, missed)
    ]

module _ {W A : Type 0} (clients : Clients W A) (status_of : W → SnapshotStatus)
    (Stored : W → String → List String → Type 0)
    (faithful : IsFaithful clients status_of Stored) where
  abbrev Honest : W → Type 0
  Honest = IsHonest clients status_of Stored faithful

  in_use-Leads :
      (s : Snapshot) (child : Sandbox)
      → Leads
          (λ w. Honest w × IsBacked (Stored w) s.status)
          Honest
          (finish_snapshot clients (in_use clients s child) no_requeue)
  unfolding in_use set_snapshot_condition
  in_use-Leads s child =
      finish_snapshot-Leads clients status_of Stored faithful _ (in_use clients s child) no_requeue
        (λ w h. h)

  reclaim-Leads :
      (s : Snapshot) (child : Option Sandbox)
      → child ≢ none
      → Leads (λ w. Honest w × IsBacked (Stored w) s.status) Honest (reclaim clients s child)
  unfolding reclaim
  reclaim-Leads s none n = elim (n refl) [ ]
  reclaim-Leads s (some child) n =
      Leads-then _ _ (Leads-ignore _ (in_use-Leads s child))
        (λ _. Keeps-pure snapshot_retry_interval)

  -- Whatever list of sandboxes the server answers with has one that names the snapshot as the one it is
  -- made from.
  abbrev pub IsReferenced : Snapshot → W → Type 0
  IsReferenced s w =
      (v : W) (l : List Sandbox)
      → clients.kube.list_sandboxes s.meta.namespace w ≡ (v, ok l)
      → (child : Sandbox) × (Elem child l × (child.spec.from_snapshot ≡ s.meta.name))

  if-both :
      (b : Bool) (m n : Action W Error Requeue) (w : W)
      → (b ≡ true → Honest (m w).0)
      → Honest (n w).0
      → Honest ((if b then m else n) w).0
  if-both true m n w hm hn = hm refl
  if-both false m n w hm hn = hn

  abbrev lacks_finalizer : Snapshot → Bool
  lacks_finalizer s = not (clients.kube.contains_finalizer s.meta.finalizers snapshot_finalizer)

  sync_delete_snapshot-Honest :
      (s : Snapshot) (w : W)
      → IsReferenced s w
      → status_of w ≡ s.status
      → Honest w
      → Honest (sync_delete_snapshot clients s w).0
  unfolding sync_delete_snapshot pure
  sync_delete_snapshot-Honest s w r same h =
      if-both (lacks_finalizer s) (pure no_requeue) (list >>= rest) w (λ _. h)
        (bind-rule (λ x. Honest x.0) list rest w
          (λ v l e.
            let (child, (there, named)) = r v l e in
            (reclaim-Leads s (reference_to s.meta.name l)
                (reference_to-some s.meta.name child l there named)).to
              v (kept_to Honest v (ok l) e faithful.reads.list_sandboxes h, backed v (ok l) e))
          (λ v x e. kept_to Honest v (err x) e faithful.reads.list_sandboxes h))
    where
      list : Action W Error (List Sandbox)
      list = clients.kube.list_sandboxes s.meta.namespace

      rest : List Sandbox → Action W Error Requeue
      rest l = reclaim clients s (reference_to s.meta.name l)

      kept_to :
          (P : W → Type 0) (v : W) (x : Result Error (List Sandbox))
          → list w ≡ (v, x)
          → ((namespace : String) → Keeps P (clients.kube.list_sandboxes namespace))
          → P w
          → P v
      kept_to P v x e k p = subst (λ z. P z.0) e ((k s.meta.namespace).at w p)

      backed :
          (v : W) (x : Result Error (List Sandbox)) → list w ≡ (v, x) → IsBacked (Stored v) s.status
      backed v x e ready =
          kept_to (λ u. Stored u s.status.storage_path s.status.snapshot_files) v x e
            (faithful.reads_files s.status.storage_path s.status.snapshot_files).list_sandboxes
            (subst (λ t. IsBacked (Stored w) t) same h ready)

  sync_create-Honest :
      (s : Snapshot) (w : W)
      → s.status.phase ≢ snapshot_ready
      → status_of w ≡ s.status
      → Honest (sync_create clients s w).0
  sync_create-Honest s w n same =
      (sync_create-Leads clients status_of Stored faithful s n).to w
        (subst (λ t. t.phase ≢ snapshot_ready) (sym same) n)

  sync_phase-Honest :
      (s : Snapshot) (w : W) (phase : SnapshotPhase)
      → phase ≡ s.status.phase
      → status_of w ≡ s.status
      → Honest w
      → Honest (sync_phase clients s phase w).0
  unfolding sync_phase pure
  sync_phase-Honest s w snapshot_ready e same h = h
  sync_phase-Honest s w snapshot_failed e same h = h
  sync_phase-Honest s w snapshot_unset e same h = sync_create-Honest s w (λ r. ground arith) same
  sync_phase-Honest s w snapshot_pending e same h = sync_create-Honest s w (λ r. ground arith) same

  add_snapshot_finalizer-Keeps : (s : Snapshot) → Keeps Honest (add_snapshot_finalizer clients s)
  unfolding add_snapshot_finalizer
  add_snapshot_finalizer-Keeps s = search (keeps_rules, faithful.update)

  -- A reconcile of a snapshot that is not deleted.
  abbrev live : Snapshot → Action W Error Requeue
  live s =
      if lacks_finalizer s
      then add_snapshot_finalizer clients s
      else sync_phase clients s s.status.phase

  live-Honest : (s : Snapshot) (w : W) → status_of w ≡ s.status → Honest w → Honest (live s w).0
  live-Honest s w same h =
      if-both (lacks_finalizer s) (add_snapshot_finalizer clients s)
        (sync_phase clients s s.status.phase) w (λ _. (add_snapshot_finalizer-Keeps s).at w h)
        (sync_phase-Honest s w s.status.phase refl same h)

  -- A reconcile of a snapshot that is not deleted, or that a sandbox of its namespace names as the one
  -- it is made from, keeps what its status promises: if the server has it as Ready then its files are in
  -- the storage. The calls are faithful, and the status that the reconciler has read is the one that the
  -- server has.
  pub reconcile_snapshot-IsHonest :
      (s : Snapshot) (w : W)
      → (s.meta.deleting ≡ false) ⊎ IsReferenced s w
      → status_of w ≡ s.status
      → Honest w
      → Honest (reconcile_snapshot clients s w).0
  unfolding reconcile_snapshot
  reconcile_snapshot-IsHonest s w d same h =
      if-both s.meta.deleting (sync_delete_snapshot clients s) (live s) w (deleted d)
        (live-Honest s w same h)
    where
      deleted :
          (s.meta.deleting ≡ false) ⊎ IsReferenced s w
          → s.meta.deleting ≡ true
          → Honest (sync_delete_snapshot clients s w).0
      deleted (inl e) t = ground arith
      deleted (inr r) t = sync_delete_snapshot-Honest s w r same h
