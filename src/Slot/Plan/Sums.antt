-- ===== src/Slot/Plan/Sums.antt =====
-- Sums over the profiles that are named once, for PlanTopology of internal/slot/config.go.
use sandbox_fleet.Base.{
  ℕ, ◌+◌, ◌≤◌, String, Bool, ◌≡◌, refl, List, [], ◌∷◌, ◌==◌, if◌then◌else◌, arith, string_key,
}
use sandbox_fleet.Base.Count.{count}
use sandbox_fleet.Slot.Config.{Config}
use sandbox_fleet.Slot.Plan.Groups.{in_profile}
use sandbox_fleet.Slot.Plan.Names.{named}

unfoldable pub sum : (String → ℕ) → List String → ℕ
sum f [] = 0
sum f (n ∷ ns) = f n + sum f ns

pub sum-cong :
    (f g : String → ℕ) (ns : List String) → ((n : String) → f n ≡ g n) → sum f ns ≡ sum g ns
unfolding sum
sum-cong f g [] h = refl
sum-cong f g (n ∷ ns) h = omega (arith, h n, sum-cong f g ns h)

sum-add : (f g : String → ℕ) (ns : List String) → sum (λ n. f n + g n) ns ≡ sum f ns + sum g ns
unfolding sum
sum-add f g [] = omega arith
sum-add f g (n ∷ ns) = omega (arith, sum-add f g ns)

sum-zero : (ns : List String) → sum (λ n. 0) ns ≡ 0
unfolding sum
sum-zero [] = refl
sum-zero (n ∷ ns) = omega (arith, sum-zero ns)

-- A profile that is not named contributes nothing, and one that is named once contributes once.
pub sum-absent :
    (f : String → ℕ) (n : String) (ns : List String)
    → count (named n) ns ≡ 0
    → sum (λ m. if m == n then f m else 0) ns ≡ 0
unfolding sum count
sum-absent f n [] e = refl
sum-absent f n (m ∷ ms) e = ground (arith, sum-absent f n ms)

pub sum-once :
    (f : String → ℕ) (n : String) (ns : List String)
    → count (named n) ns ≡ 1
    → sum (λ m. if m == n then f m else 0) ns ≡ f n
unfolding sum count
sum-once f n [] e = absurd (omega (arith, e))
sum-once f n (m ∷ ms) e = ground (arith, sum-once f n ms, sum-absent f n ms)

module _ {A : Type 0} (t : Config A → Bool) (names : List String)
    (once : (n : String) → count (named n) names ≤ 1) where
  -- The slots of all profiles together are no more than there are.
  pub sum-profiles :
      (cs : List (Config A)) → sum (λ n. count (in_profile n t) cs) names ≤ count t cs
  unfolding count
  sum-profiles [] = omega (arith, sum-zero names)
  sum-profiles (c ∷ cs) =
      let one : ℕ = if t c then 1 else 0 in
      let split =
        sum-cong (λ n. count (in_profile n t) (c ∷ cs))
          (λ n. (if n == c.profile then one else 0) + count (in_profile n t) cs) names
          (λ n. ground arith) in
      let added =
        sum-add (λ n. if n == c.profile then one else 0) (λ n. count (in_profile n t) cs) names in
      let rest = sum-profiles cs in
      let single : sum (λ n. if n == c.profile then one else 0) names ≤ one = ground (
        arith,
        once c.profile,
        sum-absent (λ n. one) c.profile names,
        sum-once (λ n. one) c.profile names,
      ) in
      ground arith
