-- ===== src/Worker/Lifecycle.antt =====
-- internal/worker/manager.go: the life of a sandbox in a slot, from ReserveSlot to ReleaseSlot.
use sandbox_fleet.Base.{◌≡◌, ◌≢◌, refl, sym, ap, subst, ◌∙◌, inl, inr, some, arith, string_key}
use sandbox_fleet.Base.Int.{ℤ, int_key}
use sandbox_fleet.Base.Map.{lookup, lookup-insert, insert-lookup, insert-insert}
use sandbox_fleet.Base.Result.{Result, ok, err}
use sandbox_fleet.Slot.{free, reserved, running, stopping, state_key}
use sandbox_fleet.Worker.Types.{Identity, SlotRef, StartRequest, Error, Env}
use sandbox_fleet.Worker.Slots.{
  ManagedSlot, Call, validate_identity, container_config, reserve_slot, start_slot, stop_slot,
  release_slot,
}
use sandbox_fleet.Worker.Manager.{
  Manager, put_slot, on_slot, reserve, start_sandbox, stop_sandbox, release,
}
use sandbox_fleet.Worker.WellFormed.{WellAs, IsIdle, IsWell, StartedAs, StartPost}
use sandbox_fleet.Worker.Starting.{start_slot-StartPost}
use sandbox_fleet.Worker.Stopping.{
  StoppedAs, StopPost, ReleasedAs, ReleasePost, stop_slot-StopPost, release_slot-ReleasePost,
}
use sandbox_fleet.Worker.Ownership.{on_slot-at}
use sandbox_fleet.Worker.Invariant.{IsSound}
use sandbox_fleet.Worker.Success.{
  IsOk, Succeeds, start_slot-IsOk, stop_slot-IsOk, release_slot-IsOk,
}

slot-path :
    {A : Type 0} (c d : ManagedSlot A)
    → c.id ≡ d.id
    → c.profile ≡ d.profile
    → c.resources ≡ d.resources
    → c.state ≡ d.state
    → c.sandbox ≡ d.sandbox
    → c.runtime_ref ≡ d.runtime_ref
    → c.restored ≡ d.restored
    → c.restore_dir ≡ d.restore_dir
    → c ≡ d
slot-path c d p q r s t u v w = λ i. record {
  id = p i;
  profile = q i;
  resources = r i;
  state = s i;
  sandbox = t i;
  runtime_ref = u i;
  restored = v i;
  restore_dir = w i;
}

module _ {W A : Type 0} (env : Env W A) where
  -- The slot during a whole life: reserved, and what StartSandbox, StopSandbox and ReleaseSlot leave.
  module _ (identity : Identity) (req : StartRequest) (w : W) (c : ManagedSlot A)
      (owner : req.identity ≡ identity) (named : identity.uid ≢ "") (s : Succeeds env)
      (config : IsOk (container_config req.container)) (v : IsWell c) (e : c.state ≡ free) where
    abbrev taken_slot : ManagedSlot A
    taken_slot = record c { state = reserved; sandbox = identity }

    abbrev start_call : Call W A (Unit {0})
    start_call = start_slot env req w taken_slot

    abbrev stop_call : Call W A (Unit {0})
    stop_call = stop_slot env identity start_call.0 start_call.1

    abbrev release_call : Call W A (Unit {0})
    release_call = release_slot env identity stop_call.0 stop_call.1

    taken_slot-IsWell : IsWell taken_slot
    taken_slot-IsWell = let u = subst (λ t. WellAs t c) e v in (named, u.1)

    start_call-IsOk : IsOk start_call.2
    start_call-IsOk =
        let u = subst (λ t. WellAs t c) e v in
        start_slot-IsOk env req w taken_slot s config refl u.1 (sym (ap (λ i. i.uid) owner))

    start_call-post : StartPost taken_slot start_call.1 start_call.2
    start_call-post = start_slot-StartPost env req w taken_slot taken_slot-IsWell

    start_call-running : start_call.1.state ≡ running
    start_call-running = go start_call.2 start_call-post.outcome start_call-IsOk
      where
        go :
            (r : Result Error (Unit {0}))
            → StartedAs taken_slot start_call.1 r
            → IsOk r
            → start_call.1.state ≡ running
        go (ok _) o k = o
        go (err x) o k = absurd k

    stop_call-IsOk : IsOk stop_call.2
    stop_call-IsOk =
        stop_slot-IsOk env identity start_call.0 start_call.1 s start_call-running
          (ap (λ i. i.uid) start_call-post.sandbox)

    stop_call-post : StopPost start_call.1 stop_call.1 stop_call.2
    stop_call-post = stop_slot-StopPost env identity start_call.0 start_call.1 start_call-post.well

    stop_call-stopping : stop_call.1.state ≡ stopping
    stop_call-stopping = go stop_call.2 stop_call-post.outcome stop_call-IsOk
      where
        go :
            (r : Result Error (Unit {0}))
            → StoppedAs start_call.1 stop_call.1 r
            → IsOk r
            → stop_call.1.state ≡ stopping
        go (ok _) (inl (p, q)) k = absurd (let r = start_call-running in ground arith)
        go (ok _) (inr p) k = p
        go (err x) o k = absurd k

    release_call-IsOk : IsOk release_call.2
    release_call-IsOk =
        release_slot-IsOk env identity stop_call.0 stop_call.1 s
          (let p = stop_call-stopping in ground arith)
          (ap (λ i. i.uid) (stop_call-post.sandbox ∙ start_call-post.sandbox))

    release_call-post : ReleasePost stop_call.1 release_call.1 release_call.2
    release_call-post =
        release_slot-ReleasePost env identity stop_call.0 stop_call.1 stop_call-post.well

    release_call-IsIdle : (release_call.1.state ≡ free) × IsIdle release_call.1
    release_call-IsIdle = go release_call.2 release_call-post.outcome release_call-IsOk
      where
        go :
            (r : Result Error (Unit {0}))
            → ReleasedAs stop_call.1 release_call.1 r
            → IsOk r
            → (release_call.1.state ≡ free) × IsIdle release_call.1
        go (ok _) o k = o
        go (err x) o k = absurd k

    release_call-slot : release_call.1 ≡ c
    release_call-slot =
        let (p, q, r) = start_call-post.same in
        let (p', q', r') = stop_call-post.same in
        let (p'', q'', r'') = release_call-post.same in
        let (f, (g, h, i, j)) = release_call-IsIdle in
        let (g', h', i', j') = subst (λ t. WellAs t c) e v in
        slot-path release_call.1 c (p'' ∙ p' ∙ p) (q'' ∙ q' ∙ q) (r'' ∙ r' ∙ r) (f ∙ sym e)
          (g ∙ sym g') (h ∙ sym h') (i ∙ sym i') (j ∙ sym j')

module _ {A : Type 0} where
  reserve_slot-free :
      (c : ManagedSlot A) (identity : Identity)
      → c.state ≡ free
      → reserve_slot c identity ≡ (record c { state = reserved; sandbox = identity }, ok tt)
  unfolding reserve_slot
  reserve_slot-free c identity e = ground arith

uid-validate_identity :
    (identity : Identity) → validate_identity identity ≡ ok tt → identity.uid ≢ ""
unfolding validate_identity
uid-validate_identity identity p = ground arith

ok-of_IsOk : (r : Result Error (Unit {0})) → IsOk r → r ≡ ok tt
ok-of_IsOk (ok _) k = refl
ok-of_IsOk (err e) k = absurd k

module _ {W A : Type 0} where
  -- A call, and the next one unless it failed.
  abbrev pub then_call :
      W × Manager A × Result Error (Unit {0})
      → (W → Manager A → W × Manager A × Result Error (Unit {0}))
      → W × Manager A × Result Error (Unit {0})
  then_call (w, m, ok _) f = f w m
  then_call (w, m, err e) f = (w, m, err e)

  -- A call on a slot that was written before.
  on_slot-put_slot :
      (body : W → ManagedSlot A → Call W A (Unit {0})) (identity : Identity) (id : ℤ) (w : W)
      (m : Manager A) (c : ManagedSlot A)
      → validate_identity identity ≡ ok tt
      → IsOk (body w c).2
      → on_slot body identity id w (put_slot m id c)
        ≡ ((body w c).0, put_slot m id (body w c).1, ok tt)
  unfolding put_slot
  on_slot-put_slot body identity id w m c p k =
      let at =
        on_slot-at body identity id w (put_slot m id c) c p
          (ground (arith, lookup-insert id id c m.slots)) in
      let again = insert-insert id (body w c).1 c m.slots in
      let good = ok-of_IsOk (body w c).2 k in ground arith

module _ {W A : Type 0} (env : Env W A) where
  -- The life of a sandbox in a slot.
  abbrev pub one_life :
      SlotRef → StartRequest → W → Manager A → W × Manager A × Result Error (Unit {0})
  one_life ref req w m =
      then_call
        (then_call (then_call (reserve ref w m) (start_sandbox env req)) (stop_sandbox env ref))
        (release env ref)

  -- Where the runtime succeeds, ReserveSlot, StartSandbox, StopSandbox and ReleaseSlot for a free slot
  -- all succeed, and the manager is then what it was before.
  pub one_life_lem :
      (ref : SlotRef) (req : StartRequest) (w : W) (m : Manager A) (c : ManagedSlot A)
      → Succeeds env
      → IsSound m.slots
      → lookup ref.slot_id m.slots ≡ some c
      → c.state ≡ free
      → validate_identity ref.identity ≡ ok tt
      → req.slot_id ≡ ref.slot_id
      → req.identity ≡ ref.identity
      → IsOk (container_config req.container)
      → ((one_life ref req w m).1 ≡ m) × ((one_life ref req w m).2 ≡ ok tt)
  one_life_lem ref req w m c s sound e f p q r config =
      let named : ref.identity.uid ≢ "" = uid-validate_identity ref.identity p in
      let v = sound.well ref.slot_id c e in
      let taken = record c { state = reserved; sandbox = ref.identity } in
      let sc = start_slot env req w taken in
      let tc = stop_slot env ref.identity sc.0 sc.1 in
      let rc = release_slot env ref.identity tc.0 tc.1 in
      let e1 : reserve ref w m ≡ (w, put_slot m ref.slot_id taken, ok tt) =
        unfold reserve in
        ground (
          arith,
          on_slot-at (λ w' d. let (d', t) = reserve_slot d ref.identity in (w', d', t)) ref.identity
              ref.slot_id w m c p e,
          reserve_slot-free c ref.identity f,
        ) in
      let e2 : start_sandbox env req w (put_slot m ref.slot_id taken)
          ≡ (sc.0, put_slot m ref.slot_id sc.1, ok tt) =
        unfold start_sandbox in
        ground (
          arith,
          on_slot-put_slot (start_slot env req) req.identity ref.slot_id w m taken (rw r p)
              (start_call-IsOk env ref.identity req w c r named s config v f),
        ) in
      let e3 : stop_sandbox env ref sc.0 (put_slot m ref.slot_id sc.1)
          ≡ (tc.0, put_slot m ref.slot_id tc.1, ok tt) =
        unfold stop_sandbox in
        on_slot-put_slot (stop_slot env ref.identity) ref.identity ref.slot_id sc.0 m sc.1 p
          (stop_call-IsOk env ref.identity req w c r named s config v f) in
      let e4 : release env ref tc.0 (put_slot m ref.slot_id tc.1)
          ≡ (rc.0, put_slot m ref.slot_id rc.1, ok tt) =
        unfold release in
        on_slot-put_slot (release_slot env ref.identity) ref.identity ref.slot_id tc.0 m tc.1 p
          (release_call-IsOk env ref.identity req w c r named s config v f) in
      let back : put_slot m ref.slot_id rc.1 ≡ m =
        unfold put_slot in
        ground (
          arith,
          release_call-slot env ref.identity req w c r named s config v f,
          insert-lookup ref.slot_id c m.slots e,
        ) in
      let whole : one_life ref req w m ≡ (rc.0, put_slot m ref.slot_id rc.1, ok tt) =
        ap
          (λ x.
            then_call (then_call (then_call x (start_sandbox env req)) (stop_sandbox env ref))
              (release env ref))
          e1
        ∙ ap (λ x. then_call (then_call x (stop_sandbox env ref)) (release env ref)) e2
        ∙ ap (λ x. then_call x (release env ref)) e3
        ∙ e4 in
      ground arith
