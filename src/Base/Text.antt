-- ===== src/Base/Text.antt =====
-- Go's `<` on strings: the order of the bytes, which is that of the code points.
use Prim.Native.Nat.{Ordering, ℕ, zero, suc, ◌/◌, ◌%◌}
use Prim.Native.String.{String, [], ◌∷◌, ◌++◌, compare}
use Prim.Native.String.compare
use mathlib.Core.Path.{◌≡◌}
use mathlib.Core.Option.{some, none}
use mathlib.Core.List.{◌∷◌, []}
use sandbox_fleet.Base.Lists.{get_elem?}
use sandbox_fleet.Base.Tests.{ltb, if◌then◌else◌}
use sandbox_fleet.Base.Int.{ℤ, pos, negsuc}
use mathlib.Core.Bool.{Bool, true, false}
use text.Mathlib.TextEquality.{path_by_compare}
use text.Mathlib.TextPositions.{compare_refl}
use native.Mathlib.Omega.{arith}

abbrev is_lt : Ordering → Bool
is_lt Ordering.lt = true
is_lt _ = false

-- s < t
unfoldable pub str_ltb : String → String → Bool
str_ltb s t = is_lt (compare s t)

pub str_ltb_irrefl : (s : String) → str_ltb s s ≡ false
unfolding str_ltb
str_ltb_irrefl s = rw compare_refl

lt_trans :
    (s t u : String)
    → compare s t ≡ Ordering.lt
    → compare t u ≡ Ordering.lt
    → compare s u ≡ Ordering.lt
lt_trans [] [] u p q = q
lt_trans [] (d ∷ t) [] p q = ground (arith, compare.cons-nil d t)
lt_trans [] (d ∷ t) (e ∷ u) p q = compare.nil-cons e u
lt_trans (c ∷ s) [] u p q = ground (arith, compare.cons-nil c s)
lt_trans (c ∷ s) (d ∷ t) [] p q = ground (arith, compare.cons-nil d t)
lt_trans (c ∷ s) (d ∷ t) (e ∷ u) p q = ground (
  arith,
  compare.cons-cons c d s t,
  compare.cons-cons d e t u,
  compare.cons-cons c e s u,
  lt_trans s t u,
)

gt_lt : (s t : String) → compare s t ≡ Ordering.gt → compare t s ≡ Ordering.lt
gt_lt [] [] p = ground (arith, compare.nil-nil)
gt_lt [] (d ∷ t) p = ground (arith, compare.nil-cons d t)
gt_lt (c ∷ s) [] p = compare.nil-cons c s
gt_lt (c ∷ s) (d ∷ t) p =
    ground (arith, compare.cons-cons c d s t, compare.cons-cons d c t s, gt_lt s t)

pub str_ltb_trans : (s t u : String) → str_ltb s t ≡ true → str_ltb t u ≡ true → str_ltb s u ≡ true
unfolding str_ltb
str_ltb_trans s t u p q = ground (arith, lt_trans s t u)

-- Of two different strings one is below the other.
pub str_ltb_connex : (s t : String) → str_ltb s t ≡ false → str_ltb t s ≡ false → s ≡ t
unfolding str_ltb
str_ltb_connex s t p q = ground (arith, path_by_compare s t, gt_lt s t)

-- A decimal digit.
abbrev pub digit : ℕ → String
digit n =
    elim (get_elem? {A = String} ("0" ∷ "1" ∷ "2" ∷ "3" ∷ "4" ∷ "5" ∷ "6" ∷ "7" ∷ "8" ∷ "9" ∷ [])
      n) [ some text ↦ text | none ↦ "" ]

-- `%d` of a number that has at most as many digits as the first argument says.
unfoldable pub decimal_within : ℕ → ℕ → String
decimal_within zero n = ""
decimal_within (suc digits) n =
    let rest = decimal_within digits (n / 10) in
    if ltb n 10 then digit n else rest ++ digit (n % 10)

-- `%d` of a number: a number has at most as many digits as it counts, and one.
unfoldable pub decimal : ℕ → String
unfolding decimal_within
decimal n = decimal_within (suc n) n

-- `%d` of an int32.
unfoldable pub decimal_int : ℤ → String
unfolding decimal
decimal_int (pos n) = decimal n
decimal_int (negsuc n) = "-" ++ decimal (suc n)
