-- ===== src/Base/Map.antt =====
-- Go's maps as association lists. Iteration goes in the order of the list; a written key keeps its
-- place and a new key goes to the end.
use mathlib.Core.Path.{◌≡◌, refl}
use mathlib.Core.Logic.{inl, inr}
use mathlib.Core.Bool.{Bool, true, false}
use mathlib.Core.Option.{Option, none, some}
use mathlib.Core.List.{List, [], ◌∷◌}
use native.Mathlib.Omega.{arith}
use sandbox_fleet.Base.Tests.{if◌then◌else◌}
use sandbox_fleet.Base.Equality.{Key, ◌==◌}
use sandbox_fleet.Base.Lists.{Elem}

abbrev pub Map {ℓ κ} : Type ℓ → Type κ → Type (ℓ ⊔ κ)
Map K V = List (K × V)

abbrev pub is_some {ℓ} : {V : Type ℓ} → Option V → Bool
is_some none = false
is_some (some v) = true

module _ {ℓ κ} {K : Type ℓ} {V : Type κ} where
  unfoldable pub keys : Map K V → List K
  keys [] = []
  keys ((k, v) ∷ m) = k ∷ keys m

module _ {ℓ κ} {K : Type ℓ} {V : Type κ} ⦃e : Key K⦄ where
  -- v, found := m[k]
  unfoldable pub lookup : K → Map K V → Option V
  lookup k [] = none
  lookup k ((j, v) ∷ m) = if j == k then some v else lookup k m

  -- m[k] = v
  unfoldable pub insert : K → V → Map K V → Map K V
  insert k v [] = (k, v) ∷ []
  insert k v ((j, w) ∷ m) = if j == k then (k, v) ∷ m else (j, w) ∷ insert k v m

  -- delete(m, k)
  unfoldable pub delete : K → Map K V → Map K V
  delete k [] = []
  delete k ((j, w) ∷ m) = let rest = delete k m in if j == k then rest else (j, w) ∷ rest

  pub lookup-insert :
      (j k : K) (v : V) (m : Map K V)
      → lookup j (insert k v m) ≡ (if k == j then some v else lookup j m)
  unfolding lookup insert
  lookup-insert j k v [] = refl
  lookup-insert j k v ((i, w) ∷ m) = ground (arith, lookup-insert j k v m)

  pub lookup-delete :
      (j k : K) (m : Map K V) → lookup j (delete k m) ≡ (if k == j then none else lookup j m)
  unfolding lookup delete
  lookup-delete j k [] = ground arith
  lookup-delete j k ((i, w) ∷ m) = ground (arith, lookup-delete j k m)

  pub Elem-lookup : (k : K) (v : V) (m : Map K V) → lookup k m ≡ some v → Elem (k, v) m
  unfolding lookup
  Elem-lookup k v [] h = cc
  Elem-lookup k v ((j, w) ∷ m) h = ground (arith, Elem-lookup k v m)

  pub Elem-keys : (k : K) (m : Map K V) → Elem k (keys m) → (v : V) × (lookup k m ≡ some v)
  unfolding lookup keys
  Elem-keys k [] h = elim h [ ]
  Elem-keys k ((j, w) ∷ m) (inl p) = (w, ground arith)
  Elem-keys k ((j, w) ∷ m) (inr h) =
      let (v, found) = Elem-keys k m h in (if j == k then w else v, ground arith)

  pub keys-lookup : (k : K) (v : V) (m : Map K V) → lookup k m ≡ some v → Elem k (keys m)
  unfolding lookup keys
  keys-lookup k v [] h = cc
  keys-lookup k v ((j, w) ∷ m) h = ground (arith, keys-lookup k v m)

  -- No key stands twice: the list is a map.
  abbrev pub IsMap : Map K V → Type κ
  IsMap [] = Unit
  IsMap ((k, v) ∷ m) = (lookup k m ≡ none) × IsMap m

  pub insert-IsMap : (k : K) (v : V) (m : Map K V) → IsMap m → IsMap (insert k v m)
  unfolding insert
  insert-IsMap k v [] u = (unfold lookup in refl, tt)
  insert-IsMap k v ((j, w) ∷ m) u = ground (arith, insert-IsMap k v m u.1, lookup-insert j k v m)

  pub delete-IsMap : (k : K) (m : Map K V) → IsMap m → IsMap (delete k m)
  unfolding delete
  delete-IsMap k [] u = tt
  delete-IsMap k ((j, w) ∷ m) u = ground (arith, delete-IsMap k m u.1, lookup-delete j k m)

  pub lookup-Elem : (k : K) (v : V) (m : Map K V) → IsMap m → Elem (k, v) m → lookup k m ≡ some v
  unfolding lookup
  lookup-Elem k v [] u h = elim h [ ]
  lookup-Elem k v ((j, w) ∷ m) u h = ground (arith, lookup-Elem k v m u.1)

  -- Writing what is there already changes nothing.
  pub insert-lookup : (k : K) (v : V) (m : Map K V) → lookup k m ≡ some v → insert k v m ≡ m
  unfolding insert lookup
  insert-lookup k v [] h = cc
  insert-lookup k v ((j, w) ∷ m) h = ground (arith, insert-lookup k v m)

  -- The last write of a key counts.
  pub insert-insert : (k : K) (v w : V) (m : Map K V) → insert k v (insert k w m) ≡ insert k v m
  unfolding insert
  insert-insert k v w [] = ground arith
  insert-insert k v w ((j, u) ∷ m) = ground (arith, insert-insert k v w m)
