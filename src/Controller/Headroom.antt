-- ===== src/Controller/Headroom.antt =====
-- internal/controller/worker_dependencies.go: the workers that Build makes for the slots of a template
-- have room for those slots.
use sandbox_fleet.Base.{
  ℕ, String, true, false, ◌≡◌, refl, subst, ◌∙◌, List, [], ◌∷◌, Option, none, some, if◌then◌else◌,
  ◌==◌, ◌!=◌, ◌||◌, not, zero, suc, string_key, inl, inr, Bool-cases, Option-cases, arith, All,
  Elem,
}
use sandbox_fleet.Base.Map.{lookup, insert, lookup-insert, IsMap, insert-IsMap, lookup-Elem}
use sandbox_fleet.Base.Result.{ok}
use sandbox_fleet.Slot.Config.{
  Quantity, ResourceList, ResourceRequirements, Config, add_all, add_resource_list, sum_from,
  sum_resources, resources_enough,
}
use sandbox_fleet.Slot.Config.Amounts.{CoversAmount, plus_amount, resources_enough_iff}
use sandbox_fleet.Store.Paths.{has_prefix}
use sandbox_fleet.Worker.Files.Paths.{clean}
use sandbox_fleet.Controller.Objects.{WorkerTemplate, Pool, Pod}
use sandbox_fleet.Controller.Topology.{Workloads, all_fit}
use sandbox_fleet.Base.Action.{wrap, pure, ◌>>=◌}
use sandbox_fleet.Controller.Inventory.{Printer}
use sandbox_fleet.Controller.Pool.{worker_labels}
use sandbox_fleet.Controller.Refreshing.{workers_can_fit}
use sandbox_fleet.Controller.Workload.{
  PodTemplate, PodSpec, Container, VolumeMount, mount_first, mount_device, mount_from,
  mount_volumes, mount_host_devices, larger_limit, plain_pod_spec, devices_of, StatefulSetBuilder,
  runtime_backend_cri, resource_memory, clone_list, max_from, max_slot_memory_limit, add_memory,
  with_memory_overhead, worker_pod_resources, worker_container, pod_spec, build,
}

module _ {A : Type 0} where
  abbrev first_resources : List (Container A) → Option (ResourceRequirements A)
  first_resources [] = none
  first_resources (c ∷ cs) = some c.resources

  abbrev first_of : List (ResourceRequirements A) → Option (ResourceRequirements A)
  first_of [] = none
  first_of (r ∷ rs) = some r

  -- The first container of the pod has the resources of the template's.
  abbrev pub IsMadeOf : PodTemplate A → Pod A → Type 0
  IsMadeOf template pod = first_of pod.containers ≡ first_resources template.spec.containers

  first_of-cons :
      (r : ResourceRequirements A) (rs : List (ResourceRequirements A))
      → first_of rs ≡ some r
      → (more : List (ResourceRequirements A)) × (rs ≡ r ∷ more)
  first_of-cons r [] e = cc
  first_of-cons r (s ∷ rs) e = (rs, cc)

  first_resources-mount_first :
      (mounts : List VolumeMount) (cs : List (Container A))
      → first_resources (mount_first mounts cs) ≡ first_resources cs
  unfolding mount_first
  first_resources-mount_first mounts [] = refl
  first_resources-mount_first mounts (c ∷ cs) = refl

  first_resources-mount_device :
      (spec : PodSpec A) (i : ℕ) (device : String)
      → first_resources (mount_device spec i device).containers ≡ first_resources spec.containers
  unfolding mount_device
  first_resources-mount_device spec i device =
      elim (Bool-cases
        (clean device == "." || clean device == "/" || not (has_prefix (clean device) "/"))) [
          | inl e ↦ rw e refl
          | inr e ↦ rw e (first_resources-mount_first _ spec.containers)
        ]

  first_resources-mount_from :
      (spec : PodSpec A) (i : ℕ) (devices : List String)
      → first_resources (mount_from spec i devices).containers ≡ first_resources spec.containers
  unfolding mount_from
  first_resources-mount_from spec i [] = refl
  first_resources-mount_from spec i (device ∷ devices) =
      first_resources-mount_from (mount_device spec i device) (suc i) devices
      ∙ first_resources-mount_device spec i device

  first_resources-mount_volumes :
      (spec : PodSpec A) (devices : List String)
      → first_resources (mount_volumes spec devices).containers ≡ first_resources spec.containers
  unfolding mount_volumes mount_host_devices
  first_resources-mount_volumes spec devices =
      first_resources-mount_from _ zero devices ∙ first_resources-mount_first _ spec.containers

module _ (q : Quantity) where
  -- How Cmp and Add of resource.Quantity behave: an amount is not below itself, the order is transitive
  -- and antisymmetric, and to add an amount that is not negative makes no amount smaller.
  pub record IsOrdered : Type 0 where
    pub less_irrefl : (a : q.Amount) → q.less a a ≡ false
    pub less_asym : (a b : q.Amount) → q.less a b ≡ true → q.less b a ≡ false
    pub at_least_trans :
        (a b c : q.Amount) → q.less a b ≡ false → q.less b c ≡ false → q.less a c ≡ false
    pub add_grows : (a b : q.Amount) → q.less b q.zero ≡ false → q.less (q.add a b) a ≡ false

  add_all-IsMap : (base added : ResourceList q.Amount) → IsMap base → IsMap (add_all q base added)
  unfolding add_all
  add_all-IsMap base [] u = u
  add_all-IsMap base ((name, amount) ∷ rest) u = elim (Option-cases (lookup name base)) [
    | inl e ↦ rw e (add_all-IsMap (insert name amount base) rest (insert-IsMap name amount base u))
    | inr (current, e) ↦ rw e (
        add_all-IsMap (insert name (q.add current amount) base) rest
          (insert-IsMap name (q.add current amount) base u))
  ]

  add_resource_list-IsMap :
      (base added : ResourceList q.Amount) → IsMap base → IsMap (add_resource_list q base added)
  unfolding add_resource_list
  add_resource_list-IsMap base [] u = u
  add_resource_list-IsMap base (x ∷ xs) u = add_all-IsMap base (x ∷ xs) u

  abbrev AreMaps : ResourceRequirements q.Amount → Type 0
  AreMaps r = IsMap r.requests × IsMap r.limits

  sum_from-AreMaps :
      (sum : ResourceRequirements q.Amount) (cs : List (Config q.Amount))
      → AreMaps sum
      → AreMaps (sum_from q sum cs)
  unfolding sum_from
  sum_from-AreMaps sum [] u = u
  sum_from-AreMaps sum (c ∷ cs) (r, l) =
      sum_from-AreMaps
        (record {
          requests = add_resource_list q sum.requests c.resources.requests;
          limits = add_resource_list q sum.limits c.resources.limits;
        })
        cs
        (
          add_resource_list-IsMap sum.requests c.resources.requests r,
          add_resource_list-IsMap sum.limits c.resources.limits l,
        )

  sum_resources-AreMaps : (cs : List (Config q.Amount)) → AreMaps (sum_resources q cs)
  unfolding sum_resources
  sum_resources-AreMaps cs = sum_from-AreMaps (record { requests = []; limits = [] }) cs (tt, tt)

  lookup-clone_list :
      (name : String) (l : ResourceList q.Amount) → lookup name (clone_list l) ≡ lookup name l
  unfolding clone_list lookup
  lookup-clone_list name [] = refl
  lookup-clone_list name ((n, amount) ∷ rest) =
      ground (arith, lookup-insert name n amount (clone_list rest), lookup-clone_list name rest)

  lookup-add_memory :
      (name : String) (l : ResourceList q.Amount) (extra : q.Amount)
      → lookup name (add_memory q l extra) ≡ (
          if resource_memory == name
          then plus_amount q (lookup resource_memory l) (some extra)
          else lookup name l)
  unfolding add_memory
  lookup-add_memory name l extra = elim (Option-cases (lookup resource_memory l)) [
    | inl e ↦ ground (arith, lookup-insert name resource_memory extra l)
    | inr (current, e) ↦ ground (arith, lookup-insert name resource_memory (q.add current extra) l)
  ]

  -- Every amount of a list is there, no smaller.
  abbrev Holds : ResourceList q.Amount → ResourceList q.Amount → Type 0
  Holds have need =
      (name : String) (required : q.Amount)
      → lookup name need ≡ some required
      → (available : q.Amount) × (lookup name have ≡ some available)
        × (q.less available required ≡ false)

  Holds-CoversAmount :
      (have need : ResourceList q.Amount)
      → IsMap need
      → Holds have need
      → (name : String) (required : q.Amount) → Elem (name, required) need
      → CoversAmount q (lookup name have) required
  Holds-CoversAmount have need u holds name required h =
      let (available, found, enough) = holds name required (lookup-Elem name required need u h) in
      rw found enough

  module _ (laws : IsOrdered) where
    Holds-refl : (need : ResourceList q.Amount) → Holds need need
    Holds-refl need name required e = (required, e, laws.less_irrefl required)

    add_memory-Holds :
        (have need : ResourceList q.Amount) (extra : q.Amount)
        → q.less extra q.zero ≡ false
        → Holds have need
        → Holds (add_memory q (clone_list have) extra) need
    add_memory-Holds have need extra positive holds name required e =
        let (available, found, enough) = holds name required e in
        let more = lookup-add_memory name (clone_list have) extra in
        let copied = lookup-clone_list name have in
        let grown =
          laws.at_least_trans (q.add available extra) available required
            (laws.add_grows available extra positive) enough in
        elim (Bool-cases (resource_memory == name)) [
          | inl m ↦ (q.add available extra, ground (arith, copied, found, m), grown)
          | inr m ↦ (available, ground (arith, copied, found, m), enough)
        ]

    abbrev HoldsAll : ResourceRequirements q.Amount → ResourceRequirements q.Amount → Type 0
    HoldsAll have need = Holds have.requests need.requests × Holds have.limits need.limits

    with_memory_overhead-HoldsAll :
        (have need : ResourceRequirements q.Amount) (extra : q.Amount)
        → q.less extra q.zero ≡ false
        → HoldsAll have need
        → HoldsAll (with_memory_overhead q have extra) need
    unfolding with_memory_overhead
    with_memory_overhead-HoldsAll have need extra positive (r, l) =
        elim (Bool-cases (q.is_zero extra)) [
          | inl e ↦ rw e (r, l)
          | inr e ↦ rw e (
            add_memory-Holds have.requests need.requests extra positive r,
            add_memory-Holds have.limits need.limits extra positive l,
          )
        ]

    larger_limit-positive :
        (max : q.Amount) (limit : Option q.Amount)
        → q.less max q.zero ≡ false
        → q.less (larger_limit q max limit) q.zero ≡ false
    unfolding larger_limit
    larger_limit-positive max none p = p
    larger_limit-positive max (some amount) p = elim (Bool-cases (q.less max amount)) [
      | inl e ↦ rw e (laws.at_least_trans amount max q.zero (laws.less_asym max amount e) p)
      | inr e ↦ rw e p
    ]

    max_from-positive :
        (max : q.Amount) (cs : List (Config q.Amount))
        → q.less max q.zero ≡ false
        → q.less (max_from q max cs) q.zero ≡ false
    unfolding max_from
    max_from-positive max [] p = p
    max_from-positive max (c ∷ cs) p =
        max_from-positive (larger_limit q max (lookup resource_memory c.resources.limits)) cs
          (larger_limit-positive max (lookup resource_memory c.resources.limits) p)

    max_slot_memory_limit-positive :
        (cs : List (Config q.Amount)) → q.less (max_slot_memory_limit q cs) q.zero ≡ false
    unfolding max_slot_memory_limit
    max_slot_memory_limit-positive cs = max_from-positive q.zero cs (laws.less_irrefl q.zero)

    module _ (parse : String → q.Amount) (positive : q.less (parse "2Gi") q.zero ≡ false)
        (b : StatefulSetBuilder) (pool : Pool q.Amount) where
      worker_pod_resources-HoldsAll :
          (configs : List (Config q.Amount))
          → HoldsAll (worker_pod_resources q parse pool configs) (sum_resources q configs)
      unfolding worker_pod_resources
      worker_pod_resources-HoldsAll configs =
          let sum = sum_resources q configs in
          let plain : HoldsAll sum sum = (Holds-refl sum.requests, Holds-refl sum.limits) in
          elim (Bool-cases (pool.spec.runtime.backend != runtime_backend_cri)) [
            | inl e ↦ rw e plain
            | inr e ↦ rw e (
                with_memory_overhead-HoldsAll
                  (with_memory_overhead q sum (max_slot_memory_limit q configs)) sum (parse "2Gi")
                  positive
                  (with_memory_overhead-HoldsAll sum sum (max_slot_memory_limit q configs)
                    (max_slot_memory_limit-positive configs) plain))
          ]

      resources_enough-built :
          (configs : List (Config q.Amount))
          → resources_enough q (worker_pod_resources q parse pool configs) (sum_resources q configs)
            ≡ true
      resources_enough-built configs =
          let have = worker_pod_resources q parse pool configs in
          let sum = sum_resources q configs in
          let maps = sum_resources-AreMaps configs in
          let holds = worker_pod_resources-HoldsAll configs in
          (resources_enough_iff q have sum).1 (
            Holds-CoversAmount have.requests sum.requests maps.0 holds.0,
            Holds-CoversAmount have.limits sum.limits maps.1 holds.1,
          )

      first_resources-built :
          (template : WorkerTemplate) (configs : List (Config q.Amount))
          → first_resources (build q parse b pool template configs).template.spec.containers
            ≡ some (worker_pod_resources q parse pool configs)
      unfolding build pod_spec plain_pod_spec worker_container
      first_resources-built template configs =
          elim (Bool-cases (pool.spec.runtime.backend == runtime_backend_cri)) [
            | inl e ↦ rw e (
                first_resources-mount_volumes (plain_pod_spec q parse b pool configs)
                  (devices_of pool.spec.runtime.cri))
            | inr e ↦ rw e refl
          ]

      all_fit-made :
          (need : ResourceRequirements q.Amount) (r : ResourceRequirements q.Amount)
          (pods : List (Pod q.Amount))
          → resources_enough q r need ≡ true
          → All (λ pod. first_of pod.containers ≡ some r) pods
          → all_fit q pods need ≡ true
      unfolding all_fit
      all_fit-made need r [] enough made = refl
      all_fit-made need r (pod ∷ pods) enough (m, made) =
          let (more, e) = first_of-cons r pod.containers m in
          ground (arith, all_fit-made need r pods enough made)

      all_fit-built :
          (template : WorkerTemplate) (configs : List (Config q.Amount))
          (pods : List (Pod q.Amount))
          → All (IsMadeOf (build q parse b pool template configs).template) pods
          → all_fit q pods (sum_resources q configs) ≡ true
      all_fit-built template configs pods made =
          all_fit-made (sum_resources q configs) (worker_pod_resources q parse pool configs) pods
            (resources_enough-built configs)
            (subst
              (λ (o : Option (ResourceRequirements q.Amount)).
                All (λ (pod : Pod q.Amount). first_of pod.containers ≡ o) pods)
              (first_resources-built template configs) made)

      -- Where the pods that are listed for a template are made from the StatefulSet that Build makes for
      -- some configurations, workersCanFit answers that the slots of these configurations fit, whatever
      -- the backend and the template.
      pub workers_can_fit-built :
          {W T : Type 0} (workloads : Workloads W q.Amount T) (printer : Printer)
          (template : WorkerTemplate) (configs : List (Config q.Amount))
          (pods : List (Pod q.Amount)) (w w' : W)
          → workloads.clients.kube.list_pods pool.meta.namespace
              (worker_labels pool.meta.name template.name)
              w
            ≡ (w', ok pods)
          → All (IsMadeOf (build q parse b pool template configs).template) pods
          → workers_can_fit q workloads printer pool template.name (sum_resources q configs) w
            ≡ (w', ok true)
      unfolding workers_can_fit wrap pure ◌>>=◌
      workers_can_fit-built workloads printer template configs pods w w' listed made =
          rw listed (rw (all_fit-built template configs pods made) refl)
