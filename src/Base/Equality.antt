-- ===== src/Base/Equality.antt =====
-- Go's `==` on comparable types, as a decision, so that a split on a test yields the equation.
use Prim.Native.Nat.{ℕ}
use Prim.Native.String.{String}
use mathlib.Core.Logic.{ite, dite}
use mathlib.Core.Bool.{Bool, true, false, Bool-discrete}
use text.Mathlib.Text.{◌==◌ as text_eq}
use text.Mathlib.TextEquality.{eq_iff}
use native.Mathlib.Decide.{ℕ_discrete}

pub record Key {ℓ} (A : Type ℓ) : Type ℓ where
  pub same : Discrete A

module _ {ℓ} {A : Type ℓ} ⦃k : Key A⦄ where
  infix 50 ◌==◌ ◌!=◌
  abbrev pub ◌==◌ : A → A → Bool
  a == b = ite (k.same a b) true false

  abbrev pub ◌!=◌ : A → A → Bool
  a != b = ite (k.same a b) false true

-- Shut in proofs: only tests run it.
instance unfoldable pub string_key : Key String
string_key = record {
  same = λ s t.
      dite (Bool-discrete (text_eq s t) true) (λ equal. yes ((eq_iff s t).0 equal))
        (λ differ. no (λ p. differ ((eq_iff s t).1 p)));
}

instance unfoldable pub nat_key : Key ℕ
unfolding ℕ_discrete
nat_key = record { same = ℕ_discrete }

unfoldable pub String-discrete : Discrete String
unfolding string_key
String-discrete = string_key.same

instance unfoldable pub bool_key : Key Bool
bool_key = record { same = Bool-discrete }
