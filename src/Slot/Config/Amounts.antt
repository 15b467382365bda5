-- ===== src/Slot/Config/Amounts.antt =====
-- internal/slot/config.go: ResourcesEnough and SumResources, resource by resource.
use sandbox_fleet.Base.{
  String, true, false, ◌≡◌, ◌↔◌, refl, ap, ◌∙◌, inl, inr, List, [], ◌∷◌, Option, none, some,
  Option-cases, arith, string_key, Elem,
}
use sandbox_fleet.Base.Map.{lookup, insert, lookup-insert, IsMap}
use sandbox_fleet.Slot.Config.{
  Quantity, ResourceList, ResourceRequirements, Config, add_all, add_resource_list, sum_from,
  sum_resources, resource_list_covers, resources_enough,
}

module _ (q : Quantity) where
  -- Whether an amount that there is covers a required one.
  abbrev pub CoversAmount : Option q.Amount → q.Amount → Type 0
  CoversAmount none required = q.is_zero required ≡ true
  CoversAmount (some available) required = q.less available required ≡ false

  -- Every required amount is there.
  abbrev pub Covers : ResourceList q.Amount → ResourceList q.Amount → Type 0
  Covers have need =
      (name : String) (required : q.Amount)
      → Elem (name, required) need
      → CoversAmount (lookup name have) required

  resource_list_covers-CoversAmount :
      (have need : ResourceList q.Amount) (n : String) (r : q.Amount)
      → resource_list_covers q have need ≡ true
      → Elem (n, r) need
      → CoversAmount (lookup n have) r
  unfolding resource_list_covers
  resource_list_covers-CoversAmount have [] n r e h = elim h [ ]
  resource_list_covers-CoversAmount have ((name, required) ∷ rest) n r e h =
      elim (Option-cases (lookup name have)) [
        | inl f ↦ ground (arith, resource_list_covers-CoversAmount have rest n r)
        | inr (available, f) ↦ ground (arith, resource_list_covers-CoversAmount have rest n r)
      ]

  Covers-resource_list_covers :
      (have need : ResourceList q.Amount)
      → Covers have need
      → resource_list_covers q have need ≡ true
  unfolding resource_list_covers
  Covers-resource_list_covers have [] c = refl
  Covers-resource_list_covers have ((name, required) ∷ rest) c =
      let here = c name required (inl refl) in
      let later = Covers-resource_list_covers have rest (λ n r h. c n r (inr h)) in
      elim (Option-cases (lookup name have)) [
        | inl f ↦ ground arith
        | inr (available, f) ↦ ground arith
      ]

  -- ResourcesEnough answers true exactly when every required request and limit is covered: by an amount
  -- that is not less, or by none where it is zero.
  pub resources_enough_iff :
      (have need : ResourceRequirements q.Amount)
      → (resources_enough q have need ≡ true)
        ↔ (Covers have.requests need.requests × Covers have.limits need.limits)
  unfolding resources_enough
  resources_enough_iff have need = (
    λ e. (
      λ n r h. resource_list_covers-CoversAmount have.requests need.requests n r (ground arith) h,
      λ n r h. resource_list_covers-CoversAmount have.limits need.limits n r (ground arith) h,
    ),
    λ c.
        let requests = Covers-resource_list_covers have.requests need.requests c.0 in
        let limits = Covers-resource_list_covers have.limits need.limits c.1 in ground arith,
  )

  -- The amount of a resource after another one is added.
  abbrev pub plus_amount : Option q.Amount → Option q.Amount → Option q.Amount
  plus_amount base none = base
  plus_amount none (some b) = some b
  plus_amount (some a) (some b) = some (q.add a b)

  -- addResourceList adds resource by resource.
  pub lookup-add_all :
      (name : String) (base added : ResourceList q.Amount)
      → IsMap added
      → lookup name (add_all q base added) ≡ plus_amount (lookup name base) (lookup name added)
  unfolding add_all lookup
  lookup-add_all name base [] u = refl
  lookup-add_all name base ((n, amount) ∷ rest) u = elim (Option-cases (lookup n base)) [
    | inl e ↦ ground (
      arith,
      lookup-add_all name (insert n amount base) rest u.1,
      lookup-insert name n amount base,
      u.0,
    )
    | inr (current, e) ↦ ground (
      arith,
      lookup-add_all name (insert n (q.add current amount) base) rest u.1,
      lookup-insert name n (q.add current amount) base,
      u.0,
    )
  ]

  -- The amount of a resource in the slots together, added from the left.
  abbrev pub amount_of :
      (ResourceRequirements q.Amount → ResourceList q.Amount)
      → String
      → Option q.Amount
      → List (Config q.Amount)
      → Option q.Amount
  amount_of list name base [] = base
  amount_of list name base (c ∷ cs) =
      amount_of list name (plus_amount base (lookup name (list c.resources))) cs

  -- The resources of the slots are maps.
  abbrev pub AreMaps : List (Config q.Amount) → Type 0
  AreMaps [] = Unit
  AreMaps (c ∷ cs) = IsMap c.resources.requests × IsMap c.resources.limits × AreMaps cs

  lookup-add_resource_list :
      (name : String) (base added : ResourceList q.Amount)
      → IsMap added
      → lookup name (add_resource_list q base added)
        ≡ plus_amount (lookup name base) (lookup name added)
  unfolding add_resource_list
  lookup-add_resource_list name base [] u = unfold lookup in refl
  lookup-add_resource_list name base (x ∷ xs) u = lookup-add_all name base (x ∷ xs) u

  lookup-sum_from :
      (name : String) (sum : ResourceRequirements q.Amount) (cs : List (Config q.Amount))
      → AreMaps cs
      → (lookup name (sum_from q sum cs).requests
          ≡ amount_of (λ r. r.requests) name (lookup name sum.requests) cs)
        × (lookup name (sum_from q sum cs).limits
            ≡ amount_of (λ r. r.limits) name (lookup name sum.limits) cs)
  unfolding sum_from
  lookup-sum_from name sum [] u = (refl, refl)
  lookup-sum_from name sum (c ∷ cs) (u, v, w) =
      let next : ResourceRequirements q.Amount = record {
        requests = add_resource_list q sum.requests c.resources.requests;
        limits = add_resource_list q sum.limits c.resources.limits;
      } in
      let (a, b) = lookup-sum_from name next cs w in
      (
        a
            ∙ ap (λ o. amount_of (λ r. r.requests) name o cs)
                (lookup-add_resource_list name sum.requests c.resources.requests u),
        b
            ∙ ap (λ o. amount_of (λ r. r.limits) name o cs)
                (lookup-add_resource_list name sum.limits c.resources.limits v),
      )

  -- SumResources adds the amounts of each resource in the order of the slots, whatever the order of
  -- the maps; a resource that no slot names is missing in the sum.
  lookup-sum_resources :
      (name : String) (cs : List (Config q.Amount))
      → AreMaps cs
      → (lookup name (sum_resources q cs).requests ≡ amount_of (λ r. r.requests) name none cs)
        × (lookup name (sum_resources q cs).limits ≡ amount_of (λ r. r.limits) name none cs)
  unfolding sum_resources
  lookup-sum_resources name cs u =
      let (a, b) = lookup-sum_from name (record { requests = []; limits = [] }) cs u in
      unfold lookup in (a, b)
