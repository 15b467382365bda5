-- ===== src/Controller/Topology.antt =====
-- internal/controller/pool_controller.go: how PoolReconciler plans the slots of a template, pushes them
-- to its workers and sizes its StatefulSet.
use sandbox_fleet.Base.{
  ℕ, zero, suc, ◌-◌, String, Bool, true, false, not, ◌||◌, List, [], ◌∷◌, ◌++◌, Option, none, some,
  if◌then◌else◌, ◌!=◌, ltb, string_key, nat_key,
}
use sandbox_fleet.Base.Int.{ℤ, int_key}
use sandbox_fleet.Base.Map.{Map, insert}
use sandbox_fleet.Base.Result.{Result, ok, err}
use sandbox_fleet.Base.Action.{Action, pure, fail, lift, attempt, wrap, ◌>>=◌, ◌>>◌}
use sandbox_fleet.Slot.{Info, free, state_key}
use sandbox_fleet.Slot.Config.{Quantity, Config, ResourceRequirements, resources_enough}
use sandbox_fleet.Controller.Objects.{Error, missing, context, WorkerTemplate, Pool, Pod}
use sandbox_fleet.Controller.Clients.{Clients}
use sandbox_fleet.Controller.Pool.{
  Pending, push_failed, worker_labels, worker_name, pod_ready, set_applied_slots,
}

-- appsv1.StatefulSet, with its template as a type of its own.
pub record StatefulSet (T : Type 0) : Type 0 where
  pub namespace : String
  pub name : String
  pub labels : Map String String
  pub service_name : String
  pub replicas : Option ℕ
  pub selector : Map String String
  pub update_strategy : String
  pub template : T

-- corev1.Service: a headless one with a selector and a port.
pub record Service : Type 0 where
  pub namespace : String
  pub name : String
  pub selector : Map String String
  pub port : ℕ

-- What a PoolReconciler has beside the clients: the calls for the workloads that it owns, with
-- SetControllerReference, and the builder of a StatefulSet. `same_template` is reflect.DeepEqual.
pub record Workloads (W A T : Type 0) : Type 0 where
  pub clients : Clients W A
  pub own_service : Pool A → Service → Result Error Service
  pub get_service : String → String → Action W Error Service
  pub create_service : Service → Action W Error Service
  pub own_set : Pool A → StatefulSet T → Result Error (StatefulSet T)
  pub get_set : String → String → Action W Error (StatefulSet T)
  pub create_set : StatefulSet T → Action W Error (StatefulSet T)
  pub update_set : StatefulSet T → Action W Error (StatefulSet T)
  pub build : Pool A → WorkerTemplate → List (Config A) → StatefulSet T
  pub same_template : T → T → Bool
  pub worker_port : ℕ
  pub now : W → ℕ

-- The ids of the slots that are not free, added to the map.
unfoldable pub occupied_from : Map ℤ Bool → List Info → Map ℤ Bool
occupied_from m [] = m
occupied_from m (info ∷ rest) =
    occupied_from (if info.state != free then insert info.id true m else m) rest

-- The loop over the slots of a worker in workersStillBusy.
unfoldable pub some_busy : List Info → Bool
some_busy [] = false
some_busy (info ∷ rest) = if info.state != free then true else some_busy rest

-- A pointer to a count that is missing, or another count.
unfoldable pub replicas_differ : Option ℕ → Option ℕ → Bool
replicas_differ (some a) (some b) = a != b
replicas_differ none _ = true
replicas_differ _ none = true

module _ (q : Quantity) where
  -- The loop of workersCanFit.
  unfoldable pub all_fit : List (Pod q.Amount) → ResourceRequirements q.Amount → Bool
  unfolding resources_enough
  all_fit [] need = true
  all_fit (pod ∷ pods) need = elim pod.containers [
    | [] ↦ false
    | c ∷ cs ↦ if not (resources_enough q c need) then false else all_fit pods need
  ]

module _ {W A T : Type 0} (workloads : Workloads W A T) where
  abbrev list_template_pods : Pool A → String → Action W Error (List (Pod A))
  list_template_pods pool template =
      wrap (context "list Worker Pods") (
        workloads.clients.kube.list_pods pool.meta.namespace
          (worker_labels pool.meta.name template))

  unfoldable pub slots_of : Result Error String → Action W Error (List Info)
  slots_of (err e) = fail e
  slots_of (ok endpoint) = workloads.clients.workers.list_slots endpoint

  -- The map with the slots that a worker reports; a worker that does not answer adds none.
  unfoldable pub add_occupied : Map ℤ Bool → Result Error (List Info) → Map ℤ Bool
  unfolding occupied_from
  add_occupied m (err e) = m
  add_occupied m (ok slots) = occupied_from m slots

  -- The loop of occupiedSlots.
  unfoldable pub occupied_on : List (Pod A) → Map ℤ Bool → Action W Error (Map ℤ Bool)
  unfolding slots_of add_occupied ◌>>=◌
  occupied_on [] m = pure m
  occupied_on (pod ∷ pods) m = do
    answer ← attempt (slots_of (workloads.clients.endpoint pod))
    occupied_on pods (add_occupied m answer)

  unfoldable pub occupied_slots : Pool A → String → Action W Error (Map ℤ Bool)
  unfolding occupied_on ◌>>=◌
  occupied_slots pool template = do pods ← list_template_pods pool template; occupied_on pods []

  unfoldable pub apply_at : List (Config A) → Result Error String → Action W Error (Unit {0})
  apply_at configs (err e) = fail e
  apply_at configs (ok endpoint) = workloads.clients.workers.apply_topology endpoint configs

  unfoldable pub failed_push : String → Result Error (Unit {0}) → List String → List String
  failed_push name (ok _) failed = failed
  failed_push name (err e) failed = failed ++ name ∷ []

  -- The loop of syncTopology: the names of the ready workers that did not take the configurations.
  unfoldable pub push_to :
      List (Config A) → List (Pod A) → List String → Action W Error (List String)
  unfolding pod_ready apply_at failed_push ◌>>=◌
  push_to configs [] failed = pure failed
  push_to configs (pod ∷ pods) failed =
      if not (pod_ready pod) then push_to configs pods failed else (do
        answer ← attempt (apply_at configs (workloads.clients.endpoint pod))
        push_to configs pods (failed_push pod.name answer failed))

  -- The end of syncTopology.
  unfoldable pub pushed : Pool A → String → List (Config A) → List String → Pool A × List Pending
  unfolding set_applied_slots
  pushed pool template configs [] = (set_applied_slots pool template configs, [])
  pushed pool template configs (name ∷ names) = (pool, push_failed template (name ∷ names) ∷ [])

  -- The pool with its new status, and the reason if some workers failed.
  unfoldable pub sync_topology :
      Pool A → String → List (Config A) → Action W Error (Pool A × List Pending)
  unfolding push_to pushed ◌>>=◌
  sync_topology pool template configs = do
    pods ← list_template_pods pool template
    failed ← push_to configs pods []
    pure (pushed pool template configs failed)

  -- Where a worker that is to go was looked up, and its slots were asked for.
  unfoldable pub is_still_busy : Result Error (List Info) → Bool
  unfolding some_busy
  is_still_busy (err e) = true
  is_still_busy (ok slots) = some_busy slots

  -- Where the pod of a worker that is to go was found or not: whether it is busy.
  unfoldable pub busy_pod : Result Error (Pod A) → Action W Error Bool
  unfolding slots_of is_still_busy ◌>>=◌
  busy_pod (err missing) = pure false
  busy_pod (err e) = fail (context "get Worker" e)
  busy_pod (ok pod) = do
    answer ← attempt (slots_of (workloads.clients.endpoint pod))
    pure (is_still_busy answer)

  -- The loop of workersStillBusy from an ordinal, with the number of ordinals.
  unfoldable pub still_busy_from : Pool A → String → ℕ → ℕ → Action W Error Bool
  unfolding busy_pod worker_name ◌>>=◌
  still_busy_from pool template zero ordinal = pure false
  still_busy_from pool template (suc rounds) ordinal = do
    pod ← attempt (
        workloads.clients.kube.get_pod pool.meta.namespace
          (worker_name pool.meta.name template ordinal))
    busy ← busy_pod pod
    if busy then pure true else still_busy_from pool template rounds (suc ordinal)

  unfoldable pub workers_still_busy : Pool A → String → ℕ → ℕ → Action W Error Bool
  unfolding still_busy_from
  workers_still_busy pool template keep have = still_busy_from pool template (have - keep) keep

  -- Whether a smaller count has to wait. A count that is missing never does.
  unfoldable pub scale_down_waits : Pool A → String → Option ℕ → Option ℕ → Action W Error Bool
  unfolding workers_still_busy
  scale_down_waits pool template (some have) (some want) =
      if ltb want have then workers_still_busy pool template want have else pure false
  scale_down_waits pool template _ _ = pure false

  unfoldable pub update_workers :
      StatefulSet T → StatefulSet T → Option ℕ → Action W Error (Unit {0})
  unfolding replicas_differ ◌>>=◌
  update_workers current desired replicas =
      if not (workloads.same_template current.template desired.template)
        || replicas_differ current.replicas replicas
      then (do
        wrap (context "update Worker StatefulSet") (
            workloads.update_set
              (record current { template = desired.template; replicas = replicas }))
        pure tt)
      else pure tt

  -- Where the StatefulSet was found or not.
  unfoldable pub sync_set :
      Pool A → String → StatefulSet T → Result Error (StatefulSet T) → Action W Error Bool
  unfolding scale_down_waits update_workers ◌>>=◌
  sync_set pool template desired (err missing) = do
    wrap (context "create Worker StatefulSet") (workloads.create_set desired)
    pure false
  sync_set pool template desired (err e) = fail (context "get Worker StatefulSet" e)
  sync_set pool template desired (ok current) = do
    busy ← scale_down_waits pool template current.replicas desired.replicas
    update_workers current desired (if busy then current.replicas else desired.replicas)
    pure busy

  unfoldable pub sync_workers : Pool A → WorkerTemplate → List (Config A) → Action W Error Bool
  unfolding sync_set ◌>>=◌
  sync_workers pool template configs = do
    desired ←
        wrap (context "set Worker StatefulSet owner")
          (lift (workloads.own_set pool (workloads.build pool template configs)))
    current ← attempt (workloads.get_set pool.meta.namespace desired.name)
    sync_set pool template.name desired current
