-- ===== src/Slot/Config.antt =====
-- internal/slot/config.go: the configuration of a slot and its resources. A quantity of a resource is
-- a type of the Kubernetes library with its operations, so it is a parameter. `ResourceClaims` are
-- not read by the program and are left out; nil and an empty resource list are both the empty map.
pub mod Kept
pub mod Amounts
use sandbox_fleet.Base.{
  ℕ, suc, String, Bool, false, true, List, [], ◌∷◌, none, some, if◌then◌else◌, string_key, ◌==◌,
  ◌&&◌,
}
use sandbox_fleet.Base.Int.{ℤ, int_key}
use sandbox_fleet.Base.Map.{Map, lookup, insert}

-- resource.Quantity: `less a b` is `a.Cmp(b) < 0`.
pub record Quantity : Type 1 where
  pub Amount : Type 0
  pub zero : Amount
  pub add : Amount → Amount → Amount
  pub less : Amount → Amount → Bool
  pub is_zero : Amount → Bool

abbrev pub ResourceList : Type 0 → Type 0
ResourceList A = Map String A

pub record ResourceRequirements (A : Type 0) : Type 0 where
  pub requests : ResourceList A
  pub limits : ResourceList A

pub record Config (A : Type 0) : Type 0 where
  pub id : ℤ
  pub profile : String
  pub resources : ResourceRequirements A

module _ {A : Type 0} where
  -- The copy is deep: `DeepCopy` of each quantity is the quantity.
  unfoldable pub clone_resource_list : ResourceList A → ResourceList A
  clone_resource_list [] = []
  clone_resource_list ((name, q) ∷ rest) = insert name q (clone_resource_list rest)

  unfoldable pub clone_resources : ResourceRequirements A → ResourceRequirements A
  unfolding clone_resource_list
  clone_resources r = record {
    requests = clone_resource_list r.requests;
    limits = clone_resource_list r.limits;
  }

  -- Whether an id is one of the configurations', as the map `existing` answers it.
  unfoldable pub has_id : ℤ → List (Config A) → Bool
  has_id id [] = false
  has_id id (c ∷ cs) = if c.id == id then true else has_id id cs

  unfoldable pub keep_existing_slots : List (Config A) → List (Config A) → List (Config A)
  unfolding has_id
  keep_existing_slots current [] = []
  keep_existing_slots current (c ∷ cs) =
      let rest = keep_existing_slots current cs in if has_id c.id current then c ∷ rest else rest

  unfoldable pub count_new_slots : List (Config A) → List (Config A) → ℕ
  unfolding has_id
  count_new_slots current [] = 0
  count_new_slots current (c ∷ cs) =
      let rest = count_new_slots current cs in if has_id c.id current then rest else suc rest

module _ (q : Quantity) where
  -- The loop over `add`: the base was copied before it.
  unfoldable pub add_all : ResourceList q.Amount → ResourceList q.Amount → ResourceList q.Amount
  add_all result [] = result
  add_all result ((name, amount) ∷ rest) =
      add_all
        (elim (lookup name result) [
          | none ↦ insert name amount result
          | some current ↦ insert name (q.add current amount) result
        ])
        rest

  unfoldable pub add_resource_list :
      ResourceList q.Amount → ResourceList q.Amount → ResourceList q.Amount
  unfolding add_all
  add_resource_list base [] = base
  add_resource_list base (x ∷ xs) = add_all base (x ∷ xs)

  unfoldable pub sum_from :
      ResourceRequirements q.Amount → List (Config q.Amount) → ResourceRequirements q.Amount
  unfolding add_resource_list
  sum_from sum [] = sum
  sum_from sum (c ∷ cs) =
      sum_from
        (record {
          requests = add_resource_list sum.requests c.resources.requests;
          limits = add_resource_list sum.limits c.resources.limits;
        })
        cs

  unfoldable pub sum_resources : List (Config q.Amount) → ResourceRequirements q.Amount
  unfolding sum_from
  sum_resources configs = sum_from (record { requests = []; limits = [] }) configs

  unfoldable pub resource_list_covers : ResourceList q.Amount → ResourceList q.Amount → Bool
  resource_list_covers have [] = true
  resource_list_covers have ((name, required) ∷ rest) =
      let covered = resource_list_covers have rest in
      elim (lookup name have) [
        | none ↦ if q.is_zero required then covered else false
        | some available ↦ if q.less available required then false else covered
      ]

  unfoldable pub resources_enough :
      ResourceRequirements q.Amount → ResourceRequirements q.Amount → Bool
  unfolding resource_list_covers
  resources_enough have need =
      resource_list_covers have.requests need.requests
      && resource_list_covers have.limits need.limits
