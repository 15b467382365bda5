-- ===== src/Base/Action/Keeps.antt =====
-- Properties of the state that an action keeps, whether it returns or fails: one rule for each way to
-- build an action.
use mathlib.Core.Path.{◌≡◌, refl}
use mathlib.Core.Bool.{Bool, true, false}
use sandbox_fleet.Base.Tests.{if◌then◌else◌}
use sandbox_fleet.Base.Result.{Result, ok, err}
use sandbox_fleet.Base.Action.{Action, pure, fail, lift, attempt, ignore, wrap, continue, ◌>>=◌}

pub record Keeps {S E A : Type 0} (P : S → Type 0) (m : Action S E A) : Type 0 where
  pub at : (s : S) → P s → P (m s).0

module _ {S E A : Type 0} {P : S → Type 0} where
  pub Keeps-pure : (a : A) → Keeps P (pure {E = E} a)
  unfolding pure
  Keeps-pure a = record { at = λ s h. h }

  pub Keeps-fail : (e : E) → Keeps P (fail {A = A} e)
  unfolding fail
  Keeps-fail e = record { at = λ s h. h }

  pub Keeps-lift : (r : Result E A) → Keeps P (lift r)
  unfolding lift
  Keeps-lift r = record { at = λ s h. h }

  pub Keeps-attempt : (m : Action S E A) → Keeps P m → Keeps P (attempt m)
  unfolding attempt
  Keeps-attempt m k = record { at = λ s h. k.at s h }

  pub Keeps-ignore : (m : Action S E A) → Keeps P m → Keeps P (ignore m)
  unfolding ignore
  Keeps-ignore m k = record { at = λ s h. k.at s h }

  pub Keeps-if :
      (b : Bool) (m n : Action S E A) → Keeps P m → Keeps P n → Keeps P (if b then m else n)
  Keeps-if true m n km kn = km
  Keeps-if false m n km kn = kn

module _ {S E F A : Type 0} {P : S → Type 0} where
  pub Keeps-wrap : (f : E → F) (m : Action S E A) → Keeps P m → Keeps P (wrap f m)
  unfolding wrap
  Keeps-wrap f m k = record { at = λ s h. k.at s h }

module _ {S E A B : Type 0} {P : S → Type 0} where
  Keeps-continue :
      (r : Result E A) (f : A → Action S E B) (s : S)
      → ((a : A) → Keeps P (f a))
      → P s
      → P (continue r f s).0
  Keeps-continue (ok a) f s kf h = (kf a).at s h
  Keeps-continue (err e) f s kf h = h

  pub Keeps-bind :
      (m : Action S E A) (f : A → Action S E B)
      → Keeps P m
      → ((a : A) → Keeps P (f a))
      → Keeps P (m >>= f)
  unfolding ◌>>=◌
  Keeps-bind m f km kf = record { at = λ s h. Keeps-continue (m s).1 f (m s).0 kf (km.at s h) }

pub ruleset keeps_rules = (
  Keeps-pure, Keeps-fail, Keeps-lift, Keeps-attempt, Keeps-ignore, Keeps-if, Keeps-wrap, Keeps-bind,
)

-- From a state with the first property, an action leaves one with the second, whether it returns or
-- fails.
pub record Leads {S E A : Type 0} (P Q : S → Type 0) (m : Action S E A) : Type 0 where
  pub to : (s : S) → P s → Q (m s).0

module _ {S E A : Type 0} {P Q : S → Type 0} where
  pub Leads-keep : (m : Action S E A) → ((s : S) → P s → Q s) → Keeps P m → Leads P Q m
  Leads-keep m weaken k = record { to = λ s h. weaken (m s).0 (k.at s h) }

  pub Leads-if :
      (b : Bool) (m n : Action S E A) → Leads P Q m → Leads P Q n → Leads P Q (if b then m else n)
  Leads-if true m n km kn = km
  Leads-if false m n km kn = kn

  pub Leads-ignore : (m : Action S E A) → Leads P Q m → Leads P Q (ignore m)
  unfolding ignore
  Leads-ignore m k = record { to = λ s h. k.to s h }

module _ {S E A B : Type 0} {P Q : S → Type 0} where
  -- The rest may use what the first action promises for its answer.
  pub Leads-attempt :
      (R : A → S → Type 0) (m : Action S E A) (f : Result E A → Action S E B)
      → Keeps P m
      → ((s t : S) (a : A) → P t → m s ≡ (t, ok a) → R a t)
      → ((e : E) → Leads P Q (f (err e)))
      → ((a : A) → Leads (R a) Q (f (ok a)))
      → Leads P Q (attempt m >>= f)
  unfolding attempt ◌>>=◌
  Leads-attempt R m f km promise bad good = record { to = λ s h. go s h (m s) (km.at s h) refl }
    where
      go : (s : S) → P s → (r : S × Result E A) → P r.0 → m s ≡ r → Q (f r.1 r.0).0
      go s h (t, ok a) k e = (good a).to t (promise s t a k e)
      go s h (t, err e') k e = (bad e').to t k

  pub Leads-bind :
      (m : Action S E A) (f : A → Action S E B)
      → ((s : S) → P s → Q s)
      → Keeps P m
      → ((a : A) → Leads P Q (f a))
      → Leads P Q (m >>= f)
  unfolding ◌>>=◌
  Leads-bind m f weaken km kf = record { to = λ s h. go (m s) (km.at s h) }
    where
      go : (r : S × Result E A) → P r.0 → Q (continue r.1 f r.0).0
      go (t, ok a) k = (kf a).to t k
      go (t, err e) k = weaken t k

  pub Leads-then :
      (m : Action S E A) (f : A → Action S E B)
      → Leads P Q m
      → ((a : A) → Keeps Q (f a))
      → Leads P Q (m >>= f)
  unfolding ◌>>=◌
  Leads-then m f km kf = record { to = λ s h. Keeps-continue (m s).1 f (m s).0 kf (km.to s h) }

module _ {S E F A : Type 0} {P Q : S → Type 0} where
  pub Leads-wrap : (f : E → F) (m : Action S E A) → Leads P Q m → Leads P Q (wrap f m)
  unfolding wrap
  Leads-wrap f m k = record { to = λ s h. k.to s h }

module _ {S E A : Type 0} (P P' Q : S → Type 0) where
  pub Leads-from : (m : Action S E A) → ((s : S) → P s → P' s) → Leads P' Q m → Leads P Q m
  Leads-from m weaken k = record { to = λ s h. k.to s (weaken s h) }
