-- ===== src/Base/Action.antt =====
-- Go functions that change a state and may return an error: what was done before the error stays done.
pub mod Keeps
pub mod Ends
use mathlib.Core.Path.{◌≡◌, refl}
use sandbox_fleet.Base.Result.{Result, ok, err}

abbrev pub Action : Type 0 → Type 0 → Type 0 → Type 0
Action S E A = S → S × Result E A

module _ {S E A : Type 0} where
  unfoldable pub pure : A → Action S E A
  pure a s = (s, ok a)

  unfoldable pub fail : E → Action S E A
  fail e s = (s, err e)

  unfoldable pub lift : Result E A → Action S E A
  lift r s = (s, r)

  -- A call whose error the caller looks at.
  unfoldable pub attempt : Action S E A → Action S E (Result E A)
  attempt m s = let (s', r) = m s in (s', ok r)

  -- A call whose result, error and all, is dropped: `_ = f()`.
  unfoldable pub ignore : Action S E A → Action S E (Unit {0})
  ignore m s = let (s', r) = m s in (s', ok tt)

module _ {E F A : Type 0} where
  abbrev pub map_error : (E → F) → Result E A → Result F A
  map_error f (ok a) = ok a
  map_error f (err e) = err (f e)

module _ {S E F A : Type 0} where
  -- `fmt.Errorf("…: %w", err)` around the error of a call.
  unfoldable pub wrap : (E → F) → Action S E A → Action S F A
  wrap f m s = let (s', r) = m s in (s', map_error f r)

module _ {S E A B : Type 0} where
  abbrev pub continue : Result E A → (A → Action S E B) → Action S E B
  continue (ok a) f s = f a s
  continue (err e) f s = (s, err e)

  -- Opening this opens the actions above too.
  infixl 5 ◌>>=◌ ◌>>◌
  unfoldable pub ◌>>=◌ : Action S E A → (A → Action S E B) → Action S E B
  unfolding pure fail lift attempt ignore wrap
  ◌>>=◌ m f s = let (s', r) = m s in continue r f s'

  abbrev pub ◌>>◌ : Action S E A → Action S E B → Action S E B
  m >> n = m >>= λ _. n

  -- A property of a block follows from the rest after each result of its first action.
  pub bind-rule {ℓ} :
      (Q : S × Result E B → Type ℓ) (m : Action S E A) (f : A → Action S E B) (s : S)
      → ((t : S) (a : A) → m s ≡ (t, ok a) → Q (f a t))
      → ((t : S) (e : E) → m s ≡ (t, err e) → Q (t, err e))
      → Q ((m >>= f) s)
  unfolding ◌>>=◌
  bind-rule Q m f s good bad = go (m s) refl
    where
      go : (r : S × Result E A) → m s ≡ r → Q (continue r.1 f r.0)
      go (t, ok a) h = good t a h
      go (t, err e) h = bad t e h
