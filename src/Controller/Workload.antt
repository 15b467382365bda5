-- ===== src/Controller/Workload.antt =====
-- internal/controller/worker_dependencies.go: the StatefulSet that StatefulSetBuilder makes of a pool, a
-- template and the configurations of its slots. The types of the Kubernetes library have the fields that
-- the builder sets.
use Prim.Native.String.{◌++◌ as join_text}
use sandbox_fleet.Base.{
  ℕ, suc, String, Bool, not, ◌||◌, List, [], ◌∷◌, ◌++◌, Option, none, some, if◌then◌else◌, ◌==◌,
  ◌!=◌, string_key,
}
use sandbox_fleet.Base.Map.{Map, lookup, insert}
use sandbox_fleet.Base.Text.{decimal}
use sandbox_fleet.Slot.Config.{Quantity, ResourceList, ResourceRequirements, Config, sum_resources}
use sandbox_fleet.Store.Paths.{has_prefix}
use sandbox_fleet.Worker.Files.Paths.{clean}
use sandbox_fleet.Controller.Objects.{CriRuntimeConfig, WorkerTemplate, Pool}
use sandbox_fleet.Controller.Pool.{worker_labels, worker_service_name, worker_set_name}
use sandbox_fleet.Controller.Topology.{StatefulSet}

-- corev1.VolumeSource: an empty directory, or a path of the node with its type.
pub data VolumeSource : Type 0 where
  empty_dir : VolumeSource
  host_path : String → String → VolumeSource

pub record Volume : Type 0 where
  pub name : String
  pub source : VolumeSource

pub record VolumeMount : Type 0 where
  pub name : String
  pub mount_path : String

-- corev1.Container. A variable of the environment has the path of a field of the pod; the probe has a
-- path and the name of a port.
pub record Container (A : Type 0) : Type 0 where
  pub name : String
  pub image : String
  pub image_pull_policy : String
  pub args : List String
  pub env : List (String × String)
  pub ports : List (String × ℕ)
  pub resources : ResourceRequirements A
  pub readiness_probe : String × String
  pub privileged : Bool
  pub volume_mounts : List VolumeMount

pub record PodSpec (A : Type 0) : Type 0 where
  pub containers : List (Container A)
  pub volumes : List Volume

pub record PodTemplate (A : Type 0) : Type 0 where
  pub labels : Map String String
  pub spec : PodSpec A

pub record WorkerProfile : Type 0 where
  pub image : String
  pub privileged : Bool

pub record StatefulSetBuilder : Type 0 where
  pub port : ℕ
  pub default_image : String
  pub profiles : Map String WorkerProfile

abbrev pub runtime_backend_cri : String
runtime_backend_cri = "cri"

abbrev pub resource_memory : String
resource_memory = "memory"

unfoldable pub profile_for : {A : Type 0} → StatefulSetBuilder → Pool A → WorkerProfile
profile_for b pool = elim (lookup pool.spec.runtime.backend b.profiles) [
  | some override ↦ record {
    image = if override.image == "" then b.default_image else override.image;
    privileged = override.privileged;
  }
  | none ↦ record {
    image = b.default_image;
    privileged = pool.spec.runtime.backend == runtime_backend_cri;
  }
]

-- cloneResourceList: the copy of a quantity is the quantity.
unfoldable pub clone_list : {A : Type 0} → ResourceList A → ResourceList A
clone_list [] = []
clone_list ((name, amount) ∷ rest) = insert name amount (clone_list rest)

module _ (q : Quantity) where
  -- One round of maxSlotMemoryLimit, for a slot with a limit or without one.
  unfoldable pub larger_limit : q.Amount → Option q.Amount → q.Amount
  larger_limit max none = max
  larger_limit max (some amount) = if q.less max amount then amount else max

  unfoldable pub max_from : q.Amount → List (Config q.Amount) → q.Amount
  unfolding larger_limit
  max_from max [] = max
  max_from max (c ∷ cs) = max_from (larger_limit max (lookup resource_memory c.resources.limits)) cs

  unfoldable pub max_slot_memory_limit : List (Config q.Amount) → q.Amount
  unfolding max_from
  max_slot_memory_limit configs = max_from q.zero configs

  unfoldable pub add_memory : ResourceList q.Amount → q.Amount → ResourceList q.Amount
  add_memory list extra = elim (lookup resource_memory list) [
    | none ↦ insert resource_memory extra list
    | some current ↦ insert resource_memory (q.add current extra) list
  ]

  unfoldable pub with_memory_overhead :
      ResourceRequirements q.Amount → q.Amount → ResourceRequirements q.Amount
  unfolding clone_list add_memory
  with_memory_overhead requirements extra = if q.is_zero extra then requirements else record {
    requests = add_memory (clone_list requirements.requests) extra;
    limits = add_memory (clone_list requirements.limits) extra;
  }

  module _ (parse : String → q.Amount) where
    -- `parse` is resource.MustParse, and the pool is never nil.
    unfoldable pub worker_pod_resources :
        Pool q.Amount → List (Config q.Amount) → ResourceRequirements q.Amount
    unfolding sum_resources with_memory_overhead max_slot_memory_limit
    worker_pod_resources pool configs =
        let sum = sum_resources q configs in
        if pool.spec.runtime.backend != runtime_backend_cri
        then sum
        else with_memory_overhead (with_memory_overhead sum (max_slot_memory_limit configs))
            (parse "2Gi")

module _ {A : Type 0} where
  -- `Containers[0].VolumeMounts = append(…)`, where there is a container.
  unfoldable pub mount_first : List VolumeMount → List (Container A) → List (Container A)
  mount_first mounts [] = []
  mount_first mounts (c ∷ cs) = record c { volume_mounts = c.volume_mounts ++ mounts } ∷ cs

  -- One round of mountHostDevices, with the index of the device.
  unfoldable pub mount_device : PodSpec A → ℕ → String → PodSpec A
  unfolding clean has_prefix decimal mount_first
  mount_device spec i device =
      let path = clean device in
      let name = join_text "host-device-" (decimal i) in
      if path == "." || path == "/" || not (has_prefix path "/") then spec else record {
        containers = mount_first (record { name = name; mount_path = path } ∷ []) spec.containers;
        volumes = spec.volumes ++ record { name = name; source = host_path path "CharDevice" } ∷ [];
      }

  unfoldable pub mount_from : PodSpec A → ℕ → List String → PodSpec A
  unfolding mount_device
  mount_from spec i [] = spec
  mount_from spec i (device ∷ devices) = mount_from (mount_device spec i device) (suc i) devices

  unfoldable pub mount_host_devices : PodSpec A → List String → PodSpec A
  unfolding mount_from
  mount_host_devices spec devices = mount_from spec 0 devices

  -- The directories of containerd and of the worker, then the devices.
  unfoldable pub mount_volumes : PodSpec A → List String → PodSpec A
  unfolding mount_host_devices mount_first
  mount_volumes spec devices =
      mount_host_devices
        (record {
          containers =
              mount_first
                (record { name = "containerd-root"; mount_path = "/var/lib/containerd" }
                  ∷ record { name = "containerd-state"; mount_path = "/run/containerd" }
                  ∷ record { name = "sandboxfleet-data"; mount_path = "/var/lib/sandboxfleet" }
                  ∷ [])
                spec.containers;
          volumes =
              record { name = "containerd-root"; source = empty_dir }
              ∷ record { name = "containerd-state"; source = empty_dir }
              ∷ record { name = "sandboxfleet-data"; source = empty_dir }
              ∷ [];
        })
        devices

abbrev handler_of : Option CriRuntimeConfig → String
handler_of none = ""
handler_of (some cri) = cri.runtime_handler

abbrev snapshotter_of : Option CriRuntimeConfig → String
snapshotter_of none = ""
snapshotter_of (some cri) = cri.snapshotter

abbrev pub devices_of : Option CriRuntimeConfig → List String
devices_of none = []
devices_of (some cri) = cri.host_devices

module _ (q : Quantity) (parse : String → q.Amount) (b : StatefulSetBuilder)
    (pool : Pool q.Amount) where
  unfoldable pub worker_container : List (Config q.Amount) → Container q.Amount
  unfolding profile_for worker_pod_resources decimal
  worker_container configs = record {
    name = "worker";
    image = (profile_for b pool).image;
    image_pull_policy = "IfNotPresent";
    args =
        "--name=$(WORKER_NAME)"
        ∷ "--namespace=$(WORKER_NAMESPACE)"
        ∷ join_text "--pool=" pool.meta.name
        ∷ join_text "--runtime-handler=" (handler_of pool.spec.runtime.cri)
        ∷ join_text "--snapshotter=" (snapshotter_of pool.spec.runtime.cri)
        ∷ join_text "--listen=:" (decimal b.port)
        ∷ [];
    env = ("WORKER_NAME", "metadata.name") ∷ ("WORKER_NAMESPACE", "metadata.namespace") ∷ [];
    ports = ("http", b.port) ∷ [];
    resources = worker_pod_resources q parse pool configs;
    readiness_probe = ("/healthz", "http");
    privileged = (profile_for b pool).privileged;
    volume_mounts = [];
  }

  -- The pod before its volumes.
  unfoldable pub plain_pod_spec : List (Config q.Amount) → PodSpec q.Amount
  unfolding worker_container
  plain_pod_spec configs = record { containers = worker_container configs ∷ []; volumes = [] }

  unfoldable pub pod_spec : List (Config q.Amount) → PodSpec q.Amount
  unfolding plain_pod_spec mount_volumes
  pod_spec configs =
      if pool.spec.runtime.backend == runtime_backend_cri
      then mount_volumes (plain_pod_spec configs) (devices_of pool.spec.runtime.cri)
      else plain_pod_spec configs

  -- StatefulSetBuilder.Build
  unfoldable pub build :
      WorkerTemplate → List (Config q.Amount) → StatefulSet (PodTemplate q.Amount)
  unfolding pod_spec worker_labels worker_service_name worker_set_name
  build template configs =
      let labels = worker_labels pool.meta.name template.name in
      record {
        namespace = pool.meta.namespace;
        name = worker_set_name pool.meta.name template.name;
        labels = labels;
        service_name = worker_service_name pool.meta.name;
        replicas = some template.replicas;
        selector = labels;
        update_strategy = "OnDelete";
        template = record { labels = labels; spec = pod_spec configs };
      }
