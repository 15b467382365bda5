-- ===== src/Scheduler/Strategies.antt =====
-- internal/scheduler/{binpack,random,stable}.go: the strategies that choose a candidate.
use sandbox_fleet.Base.{
  ℕ, zero, suc, ◌<◌, ◌≤◌, String, Bool, false, ◌&&◌, ◌≡◌, ◌⊎◌, refl, inl, inr, List, [], ◌∷◌,
  Option, none, some, if◌then◌else◌, ◌!=◌, string_key, bool_key, nat_key, ltb, length, get_elem?,
  Elem, arith,
}
use sandbox_fleet.Base.Int.{ltb_ℤ, ◌≤ℤ◌}
use sandbox_fleet.Base.Text.{str_ltb, str_ltb_irrefl, str_ltb_trans, str_ltb_connex}
use sandbox_fleet.Base.Sort.{IsOrder}
use sandbox_fleet.Base.Result.{Result, ok, err, or_fail}
use sandbox_fleet.Scheduler.Types.{
  Error, no_capacity, runtime_panic, AssignRequest, Candidate, Strategy,
}

unfoldable pub bin_pack_better : Candidate → Candidate → Bool
bin_pack_better a b =
    let a_busy = ltb 0 a.busy_slots in
    let b_busy = ltb 0 b.busy_slots in
    if a_busy != b_busy
    then a_busy
    else if a_busy && a.free_slots != b.free_slots
    then ltb a.free_slots b.free_slots
    else if a.worker.name != b.worker.name
    then str_ltb a.worker.name b.worker.name
    else ltb_ℤ a.slot_id b.slot_id

-- The loop over `candidates[1:]`.
unfoldable pub best_of : Candidate → List Candidate → Candidate
best_of best [] = best
best_of best (c ∷ cs) = best_of (if bin_pack_better c best then c else best) cs

unfoldable pub bin_pack_select : AssignRequest → List Candidate → Result Error Candidate
unfolding best_of bin_pack_better
bin_pack_select req [] = err no_capacity
bin_pack_select req (c ∷ cs) = ok (best_of c cs)

unfoldable pub bin_pack : Strategy
unfolding bin_pack_select
bin_pack = record { name = "binpack"; select = bin_pack_select }

unfoldable pub stable_select : AssignRequest → List Candidate → Result Error Candidate
stable_select req [] = err no_capacity
stable_select req (c ∷ cs) = ok c

unfoldable pub stable : Strategy
unfolding stable_select
stable = record { name = "stable"; select = stable_select }

-- `intn` is the answer of `rand.Intn` at this call.
unfoldable pub random_select : (ℕ → ℕ) → AssignRequest → List Candidate → Result Error Candidate
random_select intn req [] = err no_capacity
random_select intn req (c ∷ cs) =
    or_fail (get_elem? (c ∷ cs) (intn (length (c ∷ cs)))) runtime_panic

unfoldable pub random : (ℕ → ℕ) → Strategy
unfolding random_select
random intn = record { name = "random"; select = random_select intn }

-- New: no strategy stands for bin packing.
unfoldable pub strategy_or_default : Option Strategy → Strategy
strategy_or_default none = bin_pack
strategy_or_default (some s) = s

-- What the interface asks for: a choice among the candidates.
abbrev pub IsHonest : Strategy → Type 0
IsHonest s =
    (req : AssignRequest) (cs : List Candidate) (c : Candidate) → s.select req cs ≡ ok c → Elem c cs

Elem-best_of : (best : Candidate) (cs : List Candidate) → Elem (best_of best cs) (best ∷ cs)
unfolding best_of
Elem-best_of best [] = inl refl
Elem-best_of best (c ∷ cs) =
    ground (arith, Elem-best_of (if bin_pack_better c best then c else best) cs)

pub bin_pack-IsHonest : IsHonest bin_pack
unfolding bin_pack_select bin_pack
bin_pack-IsHonest req [] c e = cc
bin_pack-IsHonest req (x ∷ xs) c e = ground (arith, Elem-best_of x xs)

pub stable-IsHonest : IsHonest stable
unfolding stable
stable-IsHonest req [] c e = cc
stable-IsHonest req (x ∷ xs) c e = ground arith

Elem-get_elem? : (cs : List Candidate) (i : ℕ) (c : Candidate) → get_elem? cs i ≡ some c → Elem c cs
Elem-get_elem? [] i c e = cc
Elem-get_elem? (x ∷ xs) zero c e = ground arith
Elem-get_elem? (x ∷ xs) (suc i) c e = inr (Elem-get_elem? xs i c e)

pub random-IsHonest : (intn : ℕ → ℕ) → IsHonest (random intn)
unfolding random random_select
random-IsHonest intn req [] c e = cc
random-IsHonest intn req (x ∷ xs) c e =
    ground (arith, Elem-get_elem? (x ∷ xs) (intn (length (x ∷ xs))) c)

-- The order of names, as bin_pack_better reads it: not below goes through a third name.
name_order :
    (a b c : String)
    → str_ltb b a ≡ false
    → str_ltb c b ≡ false
    → (str_ltb c a ≡ false) × (c ≡ a → (b ≡ a))
name_order a b c p q =
    ground (arith, str_ltb_trans c a b, str_ltb_connex c a, str_ltb_connex a b, str_ltb_connex b a)

bin_pack-negtrans :
    (a b c : Candidate)
    → bin_pack_better b a ≡ false
    → bin_pack_better c b ≡ false
    → bin_pack_better c a ≡ false
unfolding bin_pack_better
bin_pack-negtrans a b c p q = ground (arith, name_order a.worker.name b.worker.name c.worker.name)

bin_pack-IsOrder : IsOrder bin_pack_better
unfolding bin_pack_better
bin_pack-IsOrder = record {
  asym = λ a b p. ground (
    arith,
    str_ltb_trans a.worker.name b.worker.name a.worker.name,
    str_ltb_irrefl a.worker.name,
  );
  negtrans = bin_pack-negtrans;
}

-- Nothing among those seen is better than the result of the loop.
best_of-best :
    (best : Candidate) (cs : List Candidate) (x : Candidate)
    → Elem x (best ∷ cs)
    → bin_pack_better x (best_of best cs) ≡ false
unfolding best_of
best_of-best best [] x h = ground (arith, bin_pack-IsOrder.asym best best)
best_of-best best (c ∷ cs) x h =
    let b = if bin_pack_better c best then c else best in
    ground (
      arith,
      best_of-best b cs x,
      best_of-best b cs b (inl refl),
      bin_pack-IsOrder.asym c best,
      bin_pack-negtrans (best_of b cs) b x,
    )

-- Two candidates between which the slots of their workers do not decide: both workers are empty, or
-- both are in use with equally many free slots.
abbrev pub AreTied : Candidate → Candidate → Type 0
AreTied c x =
    ((c.busy_slots ≡ 0) × (x.busy_slots ≡ 0))
    ⊎ ((0 < c.busy_slots) × (0 < x.busy_slots) × (c.free_slots ≡ x.free_slots))

-- What packing asks of the chosen candidate `c` against another, `x`: no worker in use is passed over
-- for an empty one, none in use for one in use with more free slots, and then the name of the worker
-- decides, and then the id of the slot.
pub record GoesFirst (c x : Candidate) : Type 0 where
  pub in_use : 0 < x.busy_slots → 0 < c.busy_slots
  pub tighter : 0 < x.busy_slots → c.free_slots ≤ x.free_slots
  pub first_name : AreTied c x → str_ltb x.worker.name c.worker.name ≡ false
  pub first_id : AreTied c x → c.worker.name ≡ x.worker.name → c.slot_id ≤ℤ x.slot_id

GoesFirst-bin_pack_better : (c x : Candidate) → bin_pack_better x c ≡ false → GoesFirst c x
unfolding bin_pack_better
GoesFirst-bin_pack_better c x e = record {
  in_use = λ h. ground arith;
  tighter = λ h. ground arith;
  first_name = λ t. elim t [
    | inl both ↦ ground (arith, str_ltb_irrefl c.worker.name)
    | inr both ↦ ground (arith, str_ltb_irrefl c.worker.name)
  ];
  first_id = λ t same. elim t [ inl both ↦ ground arith | inr both ↦ ground arith ];
}

-- Bin packing chooses a candidate of the list that goes first against every candidate of the list: it
-- is of a worker in use if any is, of one with the fewest free slots among those in use, and ties are
-- decided by the name of the worker and then by the id of the slot.
pub bin_pack_best :
    (req : AssignRequest) (cs : List Candidate) (c : Candidate)
    → bin_pack.select req cs ≡ ok c
    → Elem c cs × ((x : Candidate) → Elem x cs → GoesFirst c x)
unfolding bin_pack_select bin_pack
bin_pack_best req [] c e = cc
bin_pack_best req (b ∷ cs) c e = (
  bin_pack-IsHonest req (b ∷ cs) c e,
  λ x h. GoesFirst-bin_pack_better c x (ground (arith, best_of-best b cs x)),
)

-- Each strategy of the package returns one of the candidates that it is given. `intn` may be any
-- function: an index that `rand.Intn` may not return is a panic.
pub strategies-IsHonest :
    IsHonest bin_pack × IsHonest stable × ((intn : ℕ → ℕ) → IsHonest (random intn))
strategies-IsHonest = (bin_pack-IsHonest, stable-IsHonest, random-IsHonest)
