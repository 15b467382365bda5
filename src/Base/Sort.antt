-- ===== src/Base/Sort.antt =====
-- sort.Slice, as an insertion sort over the `less` function: its result is in order and holds the
-- elements of its argument.
use Prim.Native.Nat.{suc}
use mathlib.Core.Path.{◌≡◌, refl}
use mathlib.Core.Logic.{◌⊎◌, inl, inr}
use mathlib.Core.Bool.{Bool, true, false}
use mathlib.Core.List.{List, [], ◌∷◌}
use native.Mathlib.Omega.{arith}
use sandbox_fleet.Base.Tests.{if◌then◌else◌, Bool-cases}
use sandbox_fleet.Base.Lists.{length, Elem, All, All-Elem, All-of}

-- What makes `less` fit to sort by.
pub record IsOrder {ℓ} {A : Type ℓ} (less : A → A → Bool) : Type ℓ where
  pub asym : (a b : A) → less a b ≡ true → less b a ≡ false
  pub negtrans : (a b c : A) → less b a ≡ false → less c b ≡ false → less c a ≡ false

module _ {ℓ} {A : Type ℓ} (less : A → A → Bool) where
  unfoldable pub insert_sorted : A → List A → List A
  insert_sorted x [] = x ∷ []
  insert_sorted x (y ∷ ys) = if less y x then y ∷ insert_sorted x ys else x ∷ y ∷ ys

  unfoldable pub sort : List A → List A
  unfolding insert_sorted
  sort [] = []
  sort (x ∷ xs) = insert_sorted x (sort xs)

  -- No later element is less than an earlier one.
  abbrev pub IsSorted : List A → Type 0
  IsSorted [] = Unit
  IsSorted (x ∷ xs) = All (λ y. less y x ≡ false) xs × IsSorted xs

  Elem-insert_sorted : (a x : A) (xs : List A) → Elem a (insert_sorted x xs) → (a ≡ x) ⊎ Elem a xs
  unfolding insert_sorted
  Elem-insert_sorted a x [] h = h
  Elem-insert_sorted a x (y ∷ ys) h = ground (arith, Elem-insert_sorted a x ys)

  insert_sorted-Elem : (a x : A) (xs : List A) → (a ≡ x) ⊎ Elem a xs → Elem a (insert_sorted x xs)
  unfolding insert_sorted
  insert_sorted-Elem a x [] h = h
  insert_sorted-Elem a x (y ∷ ys) h = ground (arith, insert_sorted-Elem a x ys)

  pub Elem-sort : (a : A) (xs : List A) → Elem a (sort xs) → Elem a xs
  unfolding sort
  Elem-sort a [] h = h
  Elem-sort a (x ∷ xs) h = ground (arith, Elem-insert_sorted a x (sort xs), Elem-sort a xs)

  pub sort-Elem : (a : A) (xs : List A) → Elem a xs → Elem a (sort xs)
  unfolding sort
  sort-Elem a [] h = h
  sort-Elem a (x ∷ xs) h = ground (arith, insert_sorted-Elem a x (sort xs), sort-Elem a xs)

  length-insert_sorted : (x : A) (xs : List A) → length (insert_sorted x xs) ≡ suc (length xs)
  unfolding insert_sorted
  length-insert_sorted x [] = refl
  length-insert_sorted x (y ∷ ys) = ground (arith, length-insert_sorted x ys)

  pub length-sort : (xs : List A) → length (sort xs) ≡ length xs
  unfolding sort
  length-sort [] = refl
  length-sort (x ∷ xs) = ground (arith, length-insert_sorted x (sort xs), length-sort xs)

  module _ (order : IsOrder less) where
    insert_sorted-IsSorted : (x : A) (xs : List A) → IsSorted xs → IsSorted (insert_sorted x xs)
    unfolding insert_sorted
    insert_sorted-IsSorted x [] s = (tt, tt)
    insert_sorted-IsSorted x (y ∷ ys) (below, s) = elim (Bool-cases (less y x)) [
      | inl e ↦
          rw (e, insert_sorted)
            (
              All-of _ (insert_sorted x ys) (λ a m. bound e a (Elem-insert_sorted a x ys m)),
              insert_sorted-IsSorted x ys s,
            )
      | inr e ↦
          rw (e, insert_sorted)
            ((e, All-of _ ys (λ a m. order.negtrans x y a e (All-Elem _ a ys below m))), (below, s))
    ]
      where
        bound : less y x ≡ true → (a : A) → (a ≡ x) ⊎ Elem a ys → less a y ≡ false
        bound e a (inl p) = rw p (order.asym y x e)
        bound e a (inr m) = All-Elem _ a ys below m

    pub sort-IsSorted : (xs : List A) → IsSorted (sort xs)
    unfolding sort
    sort-IsSorted [] = tt
    sort-IsSorted (x ∷ xs) = insert_sorted-IsSorted x (sort xs) (sort-IsSorted xs)

-- The order of a key that is irreflexive, transitive and connected is fit to sort by.
pub IsOrder-key {ℓ κ} :
    {A : Type ℓ} {K : Type κ} (below : K → K → Bool) (key : A → K)
    → ((a : K) → below a a ≡ false)
    → ((a b c : K) → below a b ≡ true → below b c ≡ true → below a c ≡ true)
    → ((a b : K) → below a b ≡ false → below b a ≡ false → a ≡ b)
    → IsOrder (λ x y. below (key x) (key y))
IsOrder-key below key irrefl trans connex = record {
  asym = λ x y p. ground (arith, trans (key x) (key y) (key x), irrefl (key x));
  negtrans = λ x y z p q. ground (arith, trans (key z) (key x) (key y), connex (key x) (key y));
}
