-- ===== src/Base/Lists.antt =====
-- Go's slices as lists: lengths and indices by native numbers, membership by recursion.
use Prim.Native.Nat.{ℕ, zero, suc, ◌+◌, min}
use mathlib.Core.Path.{◌≡◌, refl}
use mathlib.Core.Logic.{◌⊎◌, inl, inr}
use mathlib.Core.Bool.{Bool, true}
use mathlib.Core.Option.{Option, none, some}
use mathlib.Core.List.{List, [], ◌∷◌, ◌++◌}
use native.Mathlib.Omega.{arith}
use sandbox_fleet.Base.Tests.{if◌then◌else◌}

-- No value: what membership in an empty list means, at every level.
pub data Never {ℓ} : Type ℓ where

module _ {ℓ} {A : Type ℓ} where
  abbrev pub length : List A → ℕ
  length [] = 0
  length (x ∷ xs) = suc (length xs)

  abbrev pub get_elem? : List A → ℕ → Option A
  get_elem? [] i = none
  get_elem? (x ∷ xs) zero = some x
  get_elem? (x ∷ xs) (suc i) = get_elem? xs i

  -- s[:n] and s[n:]
  abbrev pub take : ℕ → List A → List A
  take zero xs = []
  take (suc n) [] = []
  take (suc n) (x ∷ xs) = x ∷ take n xs

  abbrev pub drop : ℕ → List A → List A
  drop zero xs = xs
  drop (suc n) [] = []
  drop (suc n) (x ∷ xs) = drop n xs

  abbrev pub Elem : A → List A → Type ℓ
  Elem a [] = Never
  Elem a (x ∷ xs) = (a ≡ x) ⊎ Elem a xs

  pub not-Elem-nil : (a : A) → ¬ Elem a []
  not-Elem-nil a h = elim h [ ]

  -- The elements that pass a test, in order.
  unfoldable pub keep_if : (A → Bool) → List A → List A
  keep_if p [] = []
  keep_if p (x ∷ xs) = let rest = keep_if p xs in if p x then x ∷ rest else rest

  abbrev pub All {κ} : (A → Type κ) → List A → Type κ
  All P [] = Unit
  All P (x ∷ xs) = P x × All P xs

  pub length-append : (xs ys : List A) → length (xs ++ ys) ≡ length xs + length ys
  length-append [] ys = omega arith
  length-append (x ∷ xs) ys = omega (arith, length-append xs ys)

  pub Elem-append_left : (a : A) (xs ys : List A) → Elem a xs → Elem a (xs ++ ys)
  Elem-append_left a [] ys h = elim h [ ]
  Elem-append_left a (x ∷ xs) ys (inl e) = inl e
  Elem-append_left a (x ∷ xs) ys (inr h) = inr (Elem-append_left a xs ys h)

  pub Elem-append_right : (a : A) (xs ys : List A) → Elem a ys → Elem a (xs ++ ys)
  Elem-append_right a [] ys h = h
  Elem-append_right a (x ∷ xs) ys h = inr (Elem-append_right a xs ys h)

  pub Elem-append : (a : A) (xs ys : List A) → Elem a (xs ++ ys) → Elem a xs ⊎ Elem a ys
  Elem-append a [] ys h = inr h
  Elem-append a (x ∷ xs) ys (inl e) = inl (inl e)
  Elem-append a (x ∷ xs) ys (inr h) = elim (Elem-append a xs ys h) [
    | inl m ↦ inl (inr m)
    | inr m ↦ inr m
  ]

  pub Elem-take : (a : A) (n : ℕ) (xs : List A) → Elem a (take n xs) → Elem a xs
  Elem-take a zero xs h = elim h [ ]
  Elem-take a (suc n) [] h = elim h [ ]
  Elem-take a (suc n) (x ∷ xs) (inl e) = inl e
  Elem-take a (suc n) (x ∷ xs) (inr h) = inr (Elem-take a n xs h)

  pub Elem-drop : (a : A) (n : ℕ) (xs : List A) → Elem a (drop n xs) → Elem a xs
  Elem-drop a zero xs h = h
  Elem-drop a (suc n) [] h = elim h [ ]
  Elem-drop a (suc n) (x ∷ xs) h = inr (Elem-drop a n xs h)

  pub Elem-take_or_drop :
      (a : A) (n : ℕ) (xs : List A) → Elem a xs → Elem a (take n xs) ⊎ Elem a (drop n xs)
  Elem-take_or_drop a zero xs h = inr h
  Elem-take_or_drop a (suc n) [] h = elim h [ ]
  Elem-take_or_drop a (suc n) (x ∷ xs) (inl e) = inl (inl e)
  Elem-take_or_drop a (suc n) (x ∷ xs) (inr h) = elim (Elem-take_or_drop a n xs h) [
    | inl m ↦ inl (inr m)
    | inr m ↦ inr m
  ]

  pub length-take : (n : ℕ) (xs : List A) → length (take n xs) ≡ min n (length xs)
  length-take zero xs = omega arith
  length-take (suc n) [] = omega arith
  length-take (suc n) (x ∷ xs) = omega (arith, length-take n xs)

  pub Elem-keep_if :
      (p : A → Bool) (a : A) (xs : List A) → Elem a (keep_if p xs) → Elem a xs × (p a ≡ true)
  unfolding keep_if
  Elem-keep_if p a [] h = elim h [ ]
  Elem-keep_if p a (x ∷ xs) h = ground (arith, Elem-keep_if p a xs)

  pub Elem-keep_if_of :
      (p : A → Bool) (a : A) (xs : List A) → Elem a xs → p a ≡ true → Elem a (keep_if p xs)
  unfolding keep_if
  Elem-keep_if_of p a [] h e = h
  Elem-keep_if_of p a (x ∷ xs) h e = ground (arith, Elem-keep_if_of p a xs)

  pub All-Elem {κ} : (P : A → Type κ) (a : A) (xs : List A) → All P xs → Elem a xs → P a
  All-Elem P a [] all h = elim h [ ]
  All-Elem P a (x ∷ xs) all (inl e) = rw e all.0
  All-Elem P a (x ∷ xs) all (inr h) = All-Elem P a xs all.1 h

  pub All-of {κ} : (P : A → Type κ) (xs : List A) → ((a : A) → Elem a xs → P a) → All P xs
  All-of P [] f = tt
  All-of P (x ∷ xs) f = (f x (inl refl), All-of P xs (λ a h. f a (inr h)))
