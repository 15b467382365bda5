-- ===== src/Base/Count.antt =====
-- How many elements of a list pass a test.
use Prim.Native.Nat.{ℕ, zero, suc, ◌+◌, ◌≤◌}
use mathlib.Core.Path.{◌≡◌, refl}
use mathlib.Core.Logic.{inl, inr}
use mathlib.Core.Bool.{Bool, true, false}
use mathlib.Core.List.{List, [], ◌∷◌, ◌++◌}
use native.Mathlib.Omega.{arith}
use sandbox_fleet.Base.Tests.{if◌then◌else◌}
use sandbox_fleet.Base.Lists.{take, drop, length, Elem, keep_if}
use sandbox_fleet.Base.Sort.{sort, insert_sorted}

module _ {ℓ} {A : Type ℓ} where
  unfoldable pub count : (A → Bool) → List A → ℕ
  count p [] = 0
  count p (x ∷ xs) = let rest = count p xs in if p x then suc rest else rest

module _ {ℓ} {A : Type ℓ} (p : A → Bool) where
  pub count_one : (x : A) → count p (x ∷ []) ≡ (if p x then 1 else 0)
  unfolding count
  count_one x = refl

  pub count-append : (xs ys : List A) → count p (xs ++ ys) ≡ count p xs + count p ys
  unfolding count
  count-append [] ys = omega arith
  count-append (x ∷ xs) ys = ground (arith, count-append xs ys)

  pub count_split : (n : ℕ) (xs : List A) → count p (take n xs) + count p (drop n xs) ≡ count p xs
  unfolding count
  count_split zero xs = omega arith
  count_split (suc n) [] = omega arith
  count_split (suc n) (x ∷ xs) = ground (arith, count_split n xs)

  count-insert_sorted :
      (less : A → A → Bool) (x : A) (xs : List A)
      → count p (insert_sorted less x xs) ≡ count p (x ∷ xs)
  unfolding count insert_sorted
  count-insert_sorted less x [] = refl
  count-insert_sorted less x (y ∷ ys) = ground (arith, count-insert_sorted less x ys)

  pub count-sort : (less : A → A → Bool) (xs : List A) → count p (sort less xs) ≡ count p xs
  unfolding count sort
  count-sort less [] = refl
  count-sort less (x ∷ xs) =
      ground (arith, count-insert_sorted less x (sort less xs), count-sort less xs)

  pub count-keep_if : (q : A → Bool) (xs : List A) → count p (keep_if q xs) ≤ count p xs
  unfolding count keep_if
  count-keep_if q [] = omega arith
  count-keep_if q (x ∷ xs) = ground (arith, count-keep_if q xs)

  -- Where all elements pass, the count is the length; where none does, it is zero.
  pub count-all : (xs : List A) → ((a : A) → Elem a xs → p a ≡ true) → count p xs ≡ length xs
  unfolding count
  count-all [] h = refl
  count-all (x ∷ xs) h = ground (arith, h x (inl refl), count-all xs (λ a m. h a (inr m)))

  pub count-none : (xs : List A) → ((a : A) → Elem a xs → p a ≡ false) → count p xs ≡ 0
  unfolding count
  count-none [] h = refl
  count-none (x ∷ xs) h = ground (arith, h x (inl refl), count-none xs (λ a m. h a (inr m)))

  pub Elem-count : (a : A) (xs : List A) → Elem a xs → p a ≡ true → 1 ≤ count p xs
  unfolding count
  Elem-count a [] h e = elim h [ ]
  Elem-count a (x ∷ xs) h e = ground (arith, Elem-count a xs)
