-- ===== src/Slot/Plan/Ids.antt =====
-- internal/slot/config.go: nextFreeID returns the least id that is not in use.
use sandbox_fleet.Base.{
  ℕ, zero, suc, ◌+◌, ◌≤◌, ◌<◌, true, ◌≡◌, refl, subst, inl, inr, Option, none, some, Option-cases,
  arith,
}
use sandbox_fleet.Base.Int.{ℤ, pos, negsuc, int_key, ◌≤ℤ◌, ◌<ℤ◌, pos_part, incr32, max_int32}
use sandbox_fleet.Base.Map.{lookup, is_some}
use sandbox_fleet.Slot.Plan.{Set, first_hole, next_free_id}

-- The first hole, if there is one: unused, and all ids from `id` to it are used.
abbrev HoleAt : Set ℤ → ℕ → ℕ → Option ℕ → Type 0
HoleAt used rounds id none =
    (n : ℕ) → id ≤ n → n < id + rounds → is_some (lookup (pos n) used) ≡ true
HoleAt used rounds id (some h) =
    (lookup (pos h) used ≡ none)
    × (id ≤ h)
    × (h < id + rounds)
    × ((n : ℕ) → id ≤ n → n < h → is_some (lookup (pos n) used) ≡ true)

first_hole_lem : (used : Set ℤ) (rounds id : ℕ) → HoleAt used rounds id (first_hole used rounds id)
unfolding first_hole
first_hole_lem used zero id = λ n p q. ground arith
first_hole_lem used (suc rounds) id = elim (Option-cases (lookup (pos id) used)) [
  | inl e ↦ rw (e, first_hole) (e, omega arith, omega arith, λ n p q. absurd (omega arith))
  | inr (u, e) ↦ go u e (first_hole used rounds (suc id)) refl (first_hole_lem used rounds (suc id))
]
  where
    go :
        (u : Unit)
        → lookup (pos id) used ≡ some u
        → (r : Option ℕ) → first_hole used rounds (suc id) ≡ r
        → HoleAt used rounds (suc id) r
        → HoleAt used (suc rounds) id (first_hole used (suc rounds) id)
    go u e none p h =
        rw (e, p, first_hole)
          (λ n q r. elim (int_key.same (pos id) (pos n)) [
            | yes f ↦ ground arith
            | no f ↦ h n (ground arith) (ground arith)
          ])
    go u e (some x) p h =
        rw (e, p, first_hole)
          (
            h.0,
            omega (arith, h.1),
            omega (arith, h.2),
            λ n q r. elim (int_key.same (pos id) (pos n)) [
              | yes f ↦ ground arith
              | no f ↦ h.3 n (ground arith) (ground arith)
            ],
          )

-- Every id in use is at most the largest one.
abbrev pub IsBound : Set ℤ → ℤ → Type 0
IsBound used max_id = (id : ℤ) → is_some (lookup id used) ≡ true → id ≤ℤ max_id

unused_above :
    (used : Set ℤ) (max_id id : ℤ) → IsBound used max_id → max_id <ℤ id → lookup id used ≡ none
unused_above used max_id id bound above = elim (Option-cases (lookup id used)) [
  | inl e ↦ e
  | inr (u, e) ↦ absurd (ground (arith, bound id))
]

-- What nextFreeID returns: the id, and the largest id then.
pub record IsFresh (used : Set ℤ) (max_id : ℤ) (r : ℤ × ℤ) : Type 0 where
  pub unused : lookup r.0 used ≡ none
  pub least : (n : ℕ) → pos n <ℤ r.0 → is_some (lookup (pos n) used) ≡ true
  pub below : r.0 ≤ℤ r.1
  pub grows : max_id ≤ℤ r.1
  pub slowly : pos_part r.1 ≤ suc (pos_part max_id)
  pub positive : pos 0 ≤ℤ r.0

-- nextFreeID, where the largest id bounds the ids in use, is at least -1 and can be increased, returns
-- the least id from 0 that is not in use, and the new largest id bounds it and grows by one at most.
pub next_free_id-IsFresh :
    (used : Set ℤ) (max_id : ℤ)
    → IsBound used max_id
    → negsuc 0 ≤ℤ max_id
    → pos_part max_id < max_int32
    → IsFresh used max_id (next_free_id used max_id)
unfolding next_free_id incr32
next_free_id-IsFresh used (negsuc zero) bound low room = record {
  unused = unused_above used (negsuc 0) (pos 0) bound (omega arith);
  least = λ n h. absurd (omega (arith, h));
  below = omega arith;
  grows = omega arith;
  slowly = omega arith;
  positive = omega arith;
}
next_free_id-IsFresh used (negsuc (suc n)) bound low room = absurd (omega (arith, low))
next_free_id-IsFresh used (pos m) bound low room =
    go (first_hole used (suc m) 0) refl (first_hole_lem used (suc m) 0)
  where
    go :
        (r : Option ℕ)
        → first_hole used (suc m) 0 ≡ r
        → HoleAt used (suc m) 0 r
        → IsFresh used (pos m) (next_free_id used (pos m))
    go none p h =
        let here : (pos (suc m), pos (suc m)) ≡ next_free_id used (pos m) = ground arith in
        subst (IsFresh used (pos m)) here (record {
          unused = unused_above used (pos m) (pos (suc m)) bound (omega arith);
          least = λ n q. h n (omega arith) (omega (arith, q));
          below = omega arith;
          grows = omega arith;
          slowly = omega arith;
          positive = omega arith;
        })
    go (some x) p h =
        let here : (pos x, pos m) ≡ next_free_id used (pos m) = ground arith in
        subst (IsFresh used (pos m)) here (record {
          unused = h.0;
          least = λ n q. h.3 n (omega arith) (omega (arith, q));
          below = omega (arith, h.2);
          grows = omega arith;
          slowly = omega arith;
          positive = omega arith;
        })
