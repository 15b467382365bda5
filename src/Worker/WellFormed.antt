-- ===== src/Worker/WellFormed.antt =====
-- internal/worker/manager.go: what a slot is in each of its states, and that StartSandbox keeps it.
use sandbox_fleet.Base.{true, false, ◌≡◌, ◌≢◌, refl, subst, ◌⊎◌, none, ◌==◌, arith, string_key}
use sandbox_fleet.Base.Map.{is_some}
use sandbox_fleet.Base.Result.{Result, ok, err}
use sandbox_fleet.Slot.{
  State, free, reserved, starting, running, stopping, cleaning, failed, state_key,
}
use sandbox_fleet.Worker.Types.{no_identity, Error}
use sandbox_fleet.Worker.Slots.{ManagedSlot}

module _ {A : Type 0} where
  abbrev pub IsIdle : ManagedSlot A → Type 0
  IsIdle c =
      (c.sandbox ≡ no_identity)
      × (c.runtime_ref ≡ none)
      × (c.restored ≡ false)
      × (c.restore_dir ≡ "")

  -- A free slot is empty, any other has an owner; a reserved slot has no runtime, and a starting or
  -- running one has one. No call leaves a slot in the state Cleaning.
  abbrev pub WellAs : State → ManagedSlot A → Type 0
  WellAs free c = IsIdle c
  WellAs reserved c = (c.sandbox.uid ≢ "") × (c.runtime_ref ≡ none)
  WellAs starting c = (c.sandbox.uid ≢ "") × (is_some c.runtime_ref ≡ true)
  WellAs running c = (c.sandbox.uid ≢ "") × (is_some c.runtime_ref ≡ true)
  WellAs stopping c = c.sandbox.uid ≢ ""
  WellAs cleaning c = ⊥
  WellAs failed c = c.sandbox.uid ≢ ""

  abbrev pub IsWell : ManagedSlot A → Type 0
  IsWell c = WellAs c.state c

  pub owned-of_IsWell : (c : ManagedSlot A) → IsWell c → c.state ≢ free → c.sandbox.uid ≢ ""
  owned-of_IsWell c w n = go c.state refl
    where
      go : (s : State) → c.state ≡ s → c.sandbox.uid ≢ ""
      go free e = absurd (n e)
      go reserved e = (subst (λ t. WellAs t c) e w).0
      go starting e = (subst (λ t. WellAs t c) e w).0
      go running e = (subst (λ t. WellAs t c) e w).0
      go stopping e = subst (λ t. WellAs t c) e w
      go cleaning e = absurd (subst (λ t. WellAs t c) e w)
      go failed e = subst (λ t. WellAs t c) e w

  -- What no call changes.
  abbrev pub IsSame : ManagedSlot A → ManagedSlot A → Type 0
  IsSame c d = (d.id ≡ c.id) × (d.profile ≡ c.profile) × (d.resources ≡ c.resources)

  -- What StartSandbox leaves of the slot `c`.
  abbrev pub StartedAs : ManagedSlot A → ManagedSlot A → Result Error (Unit {0}) → Type 0
  StartedAs c d (ok _) = d.state ≡ running
  StartedAs c d (err e) = (d ≡ c) ⊎ ((d.state ≡ reserved) ⊎ (d.state ≡ failed))

  pub record StartPost (c d : ManagedSlot A) (r : Result Error (Unit {0})) : Type 0 where
    pub well : IsWell d
    pub same : IsSame c d
    pub sandbox : d.sandbox ≡ c.sandbox
    pub outcome : StartedAs c d r

-- A split on a test of the state that keeps the test's value.
pub State-cases : (s t : State) → ((s ≡ t) × ((s == t) ≡ true)) ⊎ ((s ≢ t) × ((s == t) ≡ false))
State-cases s t = ground arith
