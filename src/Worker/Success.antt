-- ===== src/Worker/Success.antt =====
-- internal/worker/manager.go: the calls on a slot succeed where the runtime does.
use sandbox_fleet.Base.{
  ◌≡◌, ◌≢◌, refl, subst, inl, inr, none, some, Option-cases, Bool-cases, arith, string_key,
}
use sandbox_fleet.Base.Int.{int_key}
use sandbox_fleet.Base.Result.{Result, ok, err}
use sandbox_fleet.Slot.{free, reserved, starting, running, cleaning, stopping, state_key}
use sandbox_fleet.Worker.Types.{
  Identity, StartRequest, ContainerConfig, CreateRequest, RuntimeId, Failure, Error, Env,
  is_restored_id,
}
use sandbox_fleet.Worker.Slots.{
  ManagedSlot, container_config, started, created, launch, start_slot, stopped_restored, stopped,
  stop_runtime, stop_slot, delete_restored, released, delete_runtime, wrap_failure, release_slot,
}

abbrev pub IsOk {ℓ κ} : {E : Type ℓ} {T : Type κ} → Result E T → Type 0
IsOk (ok a) = Unit
IsOk (err e) = ⊥

module _ {W A : Type 0} (env : Env W A) where
  -- A runtime and a snapshotter that succeed at every call.
  pub record Succeeds : Type 0 where
    pub create : (w : W) (req : CreateRequest A) → IsOk (env.runtime.create w req).1
    pub start : (w : W) (id : RuntimeId) → IsOk (env.runtime.start w id).1
    pub stop : (w : W) (id : RuntimeId) → IsOk (env.runtime.stop w id).1
    pub delete : (w : W) (id : RuntimeId) → IsOk (env.runtime.delete w id).1
    pub delete_restored : (w : W) (id : RuntimeId) → IsOk (delete_restored env w id).1

  started-IsOk :
      (c : ManagedSlot A) (id : RuntimeId) (r : W × Result Failure (Unit {0}))
      → IsOk r.1
      → IsOk (started env c id r).2
  unfolding started
  started-IsOk c id (w, ok _) k = tt
  started-IsOk c id (w, err e) k = absurd k

  created-IsOk :
      (c : ManagedSlot A) (r : W × Result Failure RuntimeId)
      → Succeeds
      → IsOk r.1
      → IsOk (created env c r).2
  unfolding created
  created-IsOk c (w, ok id) s k =
      started-IsOk (record c { runtime_ref = some id; restored = is_restored_id id }) id
        (env.runtime.start w id) (s.start w id)
  created-IsOk c (w, err e) s k = absurd k

  launch-IsOk :
      (req : StartRequest) (w : W) (c : ManagedSlot A)
      → Succeeds
      → IsOk (container_config req.container)
      → c.state ≡ reserved
      → IsOk (launch env req w c).2
  launch-IsOk req w c s k e = go (container_config req.container) refl k
    where
      go :
          (r : Result Error ContainerConfig)
          → container_config req.container ≡ r
          → IsOk r
          → IsOk (launch env req w c).2
      go (ok config) p l =
          let request : CreateRequest A = record {
            identity = req.identity;
            slot_id = req.slot_id;
            resources = c.resources;
            container = config;
          } in
          let same : created env (record c { state = starting }) (env.runtime.create w request)
              ≡ launch env req w c =
            unfold launch in ground arith in
          subst (λ r. IsOk r.2) same
            (created-IsOk (record c { state = starting }) (env.runtime.create w request) s
              (s.create w request))
      go (err e) p l = absurd l

  -- StartSandbox for the owner of a reserved slot.
  pub start_slot-IsOk :
      (req : StartRequest) (w : W) (c : ManagedSlot A)
      → Succeeds
      → IsOk (container_config req.container)
      → c.state ≡ reserved
      → c.runtime_ref ≡ none
      → c.sandbox.uid ≡ req.identity.uid
      → IsOk (start_slot env req w c).2
  start_slot-IsOk req w c s k e f g =
      let direct : launch env req w c ≡ start_slot env req w c =
        unfold start_slot in ground arith in
      subst (λ r. IsOk r.2) direct (launch-IsOk req w c s k e)

  stopped_restored-IsOk :
      (c : ManagedSlot A) (r : W × Result Error (Unit {0}))
      → IsOk r.1
      → IsOk (stopped_restored env c r).2
  unfolding stopped_restored
  stopped_restored-IsOk c (w, ok _) k = tt
  stopped_restored-IsOk c (w, err e) k = absurd k

  stopped-IsOk :
      (c : ManagedSlot A) (r : W × Result Failure (Unit {0})) → IsOk r.1 → IsOk (stopped env c r).2
  unfolding stopped
  stopped-IsOk c (w, ok _) k = tt
  stopped-IsOk c (w, err e) k = absurd k

  stop_runtime-IsOk : (w : W) (c : ManagedSlot A) → Succeeds → IsOk (stop_runtime env w c).2
  stop_runtime-IsOk w c s = elim (Option-cases c.runtime_ref) [
    | inl e ↦
        let same : (w, c, ok tt) ≡ stop_runtime env w c = unfold stop_runtime in ground arith in
        subst (λ r. IsOk r.2) same tt
    | inr (id, e) ↦ elim (Bool-cases c.restored) [
      | inl f ↦
          let same : stopped_restored env c (delete_restored env w id) ≡ stop_runtime env w c =
            unfold stop_runtime in ground arith in
          subst (λ r. IsOk r.2) same
            (stopped_restored-IsOk c (delete_restored env w id) (s.delete_restored w id))
      | inr f ↦
          let same : stopped env c (env.runtime.stop w id) ≡ stop_runtime env w c =
            unfold stop_runtime in ground arith in
          subst (λ r. IsOk r.2) same (stopped-IsOk c (env.runtime.stop w id) (s.stop w id))
    ]
  ]

  pub stop_slot-IsOk :
      (identity : Identity) (w : W) (c : ManagedSlot A)
      → Succeeds
      → c.state ≡ running
      → c.sandbox.uid ≡ identity.uid
      → IsOk (stop_slot env identity w c).2
  stop_slot-IsOk identity w c s e f =
      let same : stop_runtime env w (record c { state = stopping }) ≡ stop_slot env identity w c =
        unfold stop_slot in ground arith in
      subst (λ r. IsOk r.2) same (stop_runtime-IsOk w (record c { state = stopping }) s)

  released-IsOk :
      (c : ManagedSlot A) (r : W × Result Error (Unit {0})) → IsOk r.1 → IsOk (released env c r).2
  unfolding released
  released-IsOk c (w, ok _) k = tt
  released-IsOk c (w, err e) k = absurd k

  wrapped-IsOk : (r : W × Result Failure (Unit {0})) → IsOk r.1 → IsOk (wrap_failure r).1
  unfolding wrap_failure
  wrapped-IsOk (w, ok _) k = tt
  wrapped-IsOk (w, err e) k = absurd k

  delete_runtime-IsOk : (w : W) (c : ManagedSlot A) → Succeeds → IsOk (delete_runtime env w c).1
  delete_runtime-IsOk w c s = elim (Option-cases c.runtime_ref) [
    | inl e ↦
        let same : (w, ok tt) ≡ delete_runtime env w c = unfold delete_runtime in ground arith in
        subst (λ r. IsOk r.1) same tt
    | inr (id, e) ↦ elim (Bool-cases c.restored) [
      | inl f ↦
          let same : delete_restored env w id ≡ delete_runtime env w c =
            unfold delete_runtime in ground arith in
          subst (λ r. IsOk r.1) same (s.delete_restored w id)
      | inr f ↦
          let same : wrap_failure (env.runtime.delete w id) ≡ delete_runtime env w c =
            unfold delete_runtime in ground arith in
          subst (λ r. IsOk r.1) same (wrapped-IsOk (env.runtime.delete w id) (s.delete w id))
    ]
  ]

  pub release_slot-IsOk :
      (identity : Identity) (w : W) (c : ManagedSlot A)
      → Succeeds
      → c.state ≢ free
      → c.sandbox.uid ≡ identity.uid
      → IsOk (release_slot env identity w c).2
  release_slot-IsOk identity w c s e f =
      let same : released env (record c { state = cleaning }) (delete_runtime env w c)
          ≡ release_slot env identity w c =
        unfold release_slot in ground arith in
      subst (λ r. IsOk r.2) same
        (released-IsOk (record c { state = cleaning }) (delete_runtime env w c)
          (delete_runtime-IsOk w c s))
