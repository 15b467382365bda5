-- ===== src/Base/Action/Ends.antt =====
-- Actions that succeed: total correctness of blocks, one rule for each way to build one.
use mathlib.Core.Path.{◌≡◌}
use mathlib.Core.Bool.{Bool, true, false}
use sandbox_fleet.Base.Tests.{if◌then◌else◌}
use sandbox_fleet.Base.Result.{Result, ok, err}
use sandbox_fleet.Base.Action.{Action, attempt, wrap, continue, ◌>>=◌}

-- The action returned, and the property holds of the state and the value.
abbrev pub Ends : {S E A : Type 0} → S × Result E A → (S → A → Type 0) → Type 0
Ends (s, ok a) P = P s a
Ends (s, err e) P = ⊥

module _ {S E A : Type 0} (P Q : S → A → Type 0) where
  pub Ends-weaken : (r : S × Result E A) → Ends r P → ((s : S) (a : A) → P s a → Q s a) → Ends r Q
  Ends-weaken (s, ok a) h f = f s a h
  Ends-weaken (s, err e) h f = h

  pub Ends-if :
      (b : Bool) (m n : Action S E A) (s : S)
      → Ends (m s) P
      → Ends (n s) P
      → Ends ((if b then m else n) s) P
  Ends-if true m n s hm hn = hm
  Ends-if false m n s hm hn = hn

  pub Ends-if_true :
      (b : Bool) (m n : Action S E A) (s : S)
      → b ≡ true
      → Ends (m s) P
      → Ends ((if b then m else n) s) P
  Ends-if_true b m n s e h = rw e h

  pub Ends-if_false :
      (b : Bool) (m n : Action S E A) (s : S)
      → b ≡ false
      → Ends (n s) P
      → Ends ((if b then m else n) s) P
  Ends-if_false b m n s e h = rw e h

module _ {S E F A : Type 0} (P : S → A → Type 0) where
  pub Ends-wrap : (f : E → F) (m : Action S E A) (s : S) → Ends (m s) P → Ends (wrap f m s) P
  unfolding wrap
  Ends-wrap f m s = go (m s)
    where
      go : (r : S × Result E A) → Ends r P → Ends (wrap f (λ _. r) s) P
      go (t, ok a) h = h
      go (t, err e) h = h

module _ {S E A B : Type 0} (P : S → A → Type 0) (Q : S → B → Type 0) where
  pub Ends-bind :
      (m : Action S E A) (f : A → Action S E B) (s : S)
      → Ends (m s) P
      → ((t : S) (a : A) → P t a → Ends (f a t) Q)
      → Ends ((m >>= f) s) Q
  unfolding ◌>>=◌
  Ends-bind m f s h rest = go (m s) h
    where
      go : (r : S × Result E A) → Ends r P → Ends (continue r.1 f r.0) Q
      go (t, ok a) g = rest t a g
      go (t, err e) g = elim g [ ]

  -- A call that is attempted and succeeds.
  pub Ends-attempt :
      (m : Action S E A) (f : Result E A → Action S E B) (s : S)
      → Ends (m s) P
      → ((t : S) (a : A) → P t a → Ends (f (ok a) t) Q)
      → Ends ((attempt m >>= f) s) Q
  unfolding ◌>>=◌
  Ends-attempt m f s h rest = go (m s) h
    where
      go : (r : S × Result E A) → Ends r P → Ends (f r.1 r.0) Q
      go (t, ok a) g = rest t a g
      go (t, err e) g = elim g [ ]

  -- A call that is attempted, whatever it answers.
  pub Ends-attempt_any :
      (m : Action S E A) (f : Result E A → Action S E B) (s : S)
      → ((t : S) (r : Result E A) → Ends (f r t) Q)
      → Ends ((attempt m >>= f) s) Q
  unfolding attempt ◌>>=◌
  Ends-attempt_any m f s rest = rest (m s).0 (m s).1
