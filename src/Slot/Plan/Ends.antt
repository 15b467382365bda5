-- ===== src/Slot/Plan/Ends.antt =====
-- internal/slot/config.go: the loop of nextFreeID as it is written, on an int32, and that it ends.
use sandbox_fleet.Base.{
  ℕ, zero, suc, ◌+◌, ◌<◌, true, ◌≡◌, refl, ap, ◌∙◌, inl, inr, Option, none, some, Option-cases,
  arith, ltb, if◌then◌else◌,
}
use sandbox_fleet.Base.Int.{ℤ, pos, negsuc, int_key, ltb_ℤ, ◌≤ℤ◌, pos_part, incr32, max_int32}
use sandbox_fleet.Base.Map.{lookup, is_some}
use sandbox_fleet.Slot.Plan.{Set, first_hole, rounds_to, next_free_id}
use sandbox_fleet.Slot.Plan.Ids.{IsBound, IsFresh, next_free_id-IsFresh}

-- The loop from an id on, and what follows it: with no fuel left there is no answer.
unfoldable pub free_id_loop : Set ℤ → ℤ → ℕ → ℤ → Option (ℤ × ℤ)
unfolding incr32
free_id_loop used max_id zero id = none
free_id_loop used max_id (suc fuel) id =
    let rest = free_id_loop used max_id fuel (incr32 id) in
    if ltb_ℤ max_id id
    then some (incr32 max_id, incr32 max_id)
    else if is_some (lookup id used)
    then rest
    else some (id, max_id)

-- The answer that a search among a number of ids gives.
abbrev found : ℤ → Option ℕ → ℤ × ℤ
found max_id (some id) = (pos id, max_id)
found max_id none = (incr32 max_id, incr32 max_id)

free_id_loop-first_hole :
    (used : Set ℤ) (m rounds fuel id : ℕ)
    → m < max_int32
    → id + rounds ≡ suc m
    → rounds < fuel
    → free_id_loop used (pos m) fuel (pos id) ≡ some (found (pos m) (first_hole used rounds id))
unfolding free_id_loop first_hole
free_id_loop-first_hole used m rounds zero id room e enough = absurd (omega (arith, enough))
free_id_loop-first_hole used m zero (suc fuel) id room e enough =
    let past : ltb (m + 0) (id + 0) ≡ true = ground arith in rw (past, free_id_loop) refl
free_id_loop-first_hole used m (suc rounds) (suc fuel) id room e enough =
    let later =
      free_id_loop-first_hole used m rounds fuel (suc id) room (omega arith)
        (omega (arith, enough)) in
    ground (arith, later)

-- Without a slot the guard fails at once.
free_id_loop-empty :
    (used : Set ℤ) (fuel : ℕ)
    → 0 < fuel
    → free_id_loop used (negsuc 0) fuel (pos 0) ≡ some (next_free_id used (negsuc 0))
unfolding free_id_loop next_free_id
free_id_loop-empty used zero enough = absurd (omega (arith, enough))
free_id_loop-empty used (suc fuel) enough = refl

next_free_id-found :
    (used : Set ℤ) (max_id : ℤ)
    → found max_id (first_hole used (rounds_to max_id) 0) ≡ next_free_id used max_id
unfolding next_free_id
next_free_id-found used max_id = elim (Option-cases (first_hole used (rounds_to max_id) 0)) [
  | inl e ↦ rw (e, next_free_id) refl
  | inr (h, e) ↦ rw (e, next_free_id) refl
]

free_id_loop-answer :
    (used : Set ℤ) (max_id : ℤ) (fuel : ℕ)
    → negsuc 0 ≤ℤ max_id
    → pos_part max_id < max_int32
    → rounds_to max_id < fuel
    → free_id_loop used max_id fuel (pos 0) ≡ some (next_free_id used max_id)
free_id_loop-answer used (pos m) fuel low room enough =
    free_id_loop-first_hole used m (suc m) fuel 0 room (omega arith) enough
    ∙ ap some (next_free_id-found used (pos m))
free_id_loop-answer used (negsuc zero) fuel low room enough = free_id_loop-empty used fuel enough
free_id_loop-answer used (negsuc (suc n)) fuel low room enough = absurd (omega (arith, low))

-- The loop of nextFreeID on an int32 ends, where the largest id bounds the ids in use, is at least -1
-- and can be increased: with more fuel than maxID + 1 it gives an answer, and this is the least id from
-- 0 that is not in use, with a largest id that bounds it and has grown by one at most.
pub free_id_loop-ends :
    (used : Set ℤ) (max_id : ℤ) (fuel : ℕ)
    → IsBound used max_id
    → negsuc 0 ≤ℤ max_id
    → pos_part max_id < max_int32
    → rounds_to max_id < fuel
    → (r : ℤ × ℤ) × ((free_id_loop used max_id fuel (pos 0) ≡ some r) × IsFresh used max_id r)
free_id_loop-ends used max_id fuel bound low room enough = (
  next_free_id used max_id,
  (
    free_id_loop-answer used max_id fuel low room enough,
    next_free_id-IsFresh used max_id bound low room,
  ),
)
