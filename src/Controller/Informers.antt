-- ===== src/Controller/Informers.antt =====
-- pkg/controller/informers.go, and enqueue and the registration of the handlers in controller.go: which
-- resources an event of the cluster enqueues. The caches, the matching of labels and the keys of
-- objects are parameters.
use kubervisor.Prelude.{
  Bool, true, false, not, ◌&&◌, Option, none, some, List, [], ◌∷◌, String, Outcome, ok, err, panic,
  is_some, str_eq, if◌then◌else◌,
}
use kubervisor.Prelude.Dict
use kubervisor.Prelude.Dict.{Dict}
use kubervisor.Kube.{Pod, read}
use kubervisor.Labeling.{label_traffic_key, label_breaker_name_key}
use kubervisor.Api.{KubervisorServiceStatus, KubervisorService}
use kubervisor.Controller.Env.{Service}

-- What an informer hands over: an object of the kind `A`, the tombstone of a deleted object, which may
-- hold another kind, or an object of another kind.
pub data Object (A : Type 0) : Type 0 where
  typed : A → Object A
  tombstone : Option A → Object A
  unknown : Object A

-- The type assertion, and the one that looks into a tombstone too.
abbrev pub cast : {A : Type 0} → Object A → Option A
cast (typed a) = some a
cast (tombstone a) = none
cast unknown = none

abbrev pub cast_deleted : {A : Type 0} → Object A → Option A
cast_deleted (typed a) = some a
cast_deleted (tombstone a) = a
cast_deleted unknown = none

-- Equality with the empty status.
abbrev pub is_empty_status : KubervisorServiceStatus → Bool
is_empty_status status =
    (elim status.conditions [ [] ↦ true | c ∷ conditions ↦ false ])
    && not (is_some status.start_time)
    && not (is_some status.pod_counts)

-- The caches, the matching of labels, and whether an object has a key.
pub record Caches (F : Type 0) : Type 0 where
  pub get_resource : String → String → Outcome (KubervisorService F)
  pub list_resources : Outcome (List (KubervisorService F))
  pub get_service : String → String → Outcome Service
  pub matches : Dict String → Option (Dict String) → Bool
  pub resource_has_key : Object (KubervisorService F) → Bool
  pub pod_has_key : Object Pod → Bool
  pub service_has_key : Object Service → Bool

-- An event of the informers.
pub data Event (F : Type 0) : Type 0 where
  add_resource update_resource delete_resource : Object (KubervisorService F) → Event F
  add_pod update_pod delete_pod : Object Pod → Event F
  add_service update_service delete_service : Object Service → Event F

-- The test of the loop of serviceAction.
abbrev pub uses : {F : Type 0} → Service → KubervisorService F → Bool
uses svc ks = str_eq svc.namespace ks.namespace && str_eq svc.name ks.spec.service

module _ {F : Type 0} (caches : Caches F) where
  -- The resources that a handler enqueues.
  abbrev Calls : Type 0
  Calls = List (KubervisorService F)

  abbrev pub on_value : {A : Type 0} → (A → Calls) → Option A → Calls
  on_value f none = []
  on_value f (some a) = f a

  unfoldable pub on_add_kubervisor_service : Object (KubervisorService F) → Calls
  on_add_kubervisor_service obj =
      on_value (λ bc. if is_empty_status bc.status then bc ∷ [] else []) (cast obj)

  unfoldable pub on_update_kubervisor_service : Object (KubervisorService F) → Calls
  on_update_kubervisor_service obj = on_value (λ bc. bc ∷ []) (cast obj)

  unfoldable pub on_delete_kubervisor_service : Object (KubervisorService F) → Calls
  on_delete_kubervisor_service obj =
      if caches.resource_has_key obj then on_value (λ bc. bc ∷ []) (cast_deleted obj) else []

  -- The resource that a pod names.
  unfoldable pub named_resource : String → Pod → Calls
  named_resource ks_name pod = elim (caches.get_resource pod.namespace ks_name) [
    | ok ks ↦ ks ∷ []
    | err e ↦ []
    | panic ↦ []
  ]

  -- Whether the service selects the pod, without the labels that the controller adds.
  unfoldable pub selects : Service → Pod → Bool
  selects svc pod =
      caches.matches
        (Dict.remove (Dict.remove svc.selector label_traffic_key) label_breaker_name_key) pod.labels

  -- The rest of the loop of podAction, `rest`, after the lookup of the service of `ks`.
  abbrev pub after_service : KubervisorService F → Pod → Calls → Outcome Service → Calls
  after_service ks pod rest (ok svc) = if selects svc pod then ks ∷ [] else rest
  after_service ks pod rest (err e) = []
  after_service ks pod rest panic = []

  -- The loop of podAction.
  unfoldable pub first_selecting : Pod → List (KubervisorService F) → Calls
  unfolding selects
  first_selecting pod [] = []
  first_selecting pod (ks ∷ kss) =
      let rest = first_selecting pod kss in
      if not (str_eq ks.namespace pod.namespace)
      then rest
      else after_service ks pod rest (caches.get_service ks.namespace ks.spec.service)

  abbrev pub or_nothing :
      (List (KubervisorService F) → Calls) → Outcome (List (KubervisorService F)) → Calls
  or_nothing f (ok kss) = f kss
  or_nothing f (err e) = []
  or_nothing f panic = []

  unfoldable pub pod_action : Pod → Calls
  unfolding named_resource first_selecting
  pod_action pod = elim (read pod.labels label_breaker_name_key) [
    | some ks_name ↦ named_resource ks_name pod
    | none ↦ or_nothing (first_selecting pod) caches.list_resources
  ]

  -- The part of onDeletePod on the deleted pod.
  unfoldable pub deleted_pod : Pod → Calls
  unfolding named_resource
  deleted_pod pod = elim (read pod.labels label_breaker_name_key) [
    | some ks_name ↦ named_resource ks_name pod
    | none ↦ []
  ]

  unfoldable pub on_add_pod : Object Pod → Calls
  unfolding pod_action
  on_add_pod obj = on_value pod_action (cast obj)

  unfoldable pub on_update_pod : Object Pod → Calls
  unfolding pod_action
  on_update_pod obj = on_value pod_action (cast obj)

  unfoldable pub on_delete_pod : Object Pod → Calls
  unfolding deleted_pod
  on_delete_pod obj = if caches.pod_has_key obj then on_value deleted_pod (cast_deleted obj) else []

  -- The loop of serviceAction.
  unfoldable pub first_using : Service → List (KubervisorService F) → Calls
  first_using svc [] = []
  first_using svc (ks ∷ kss) =
      let rest = first_using svc kss in if uses svc ks then ks ∷ [] else rest

  unfoldable pub service_action : Service → Calls
  unfolding first_using
  service_action svc = or_nothing (first_using svc) caches.list_resources

  unfoldable pub on_add_service : Object Service → Calls
  unfolding service_action
  on_add_service obj = on_value service_action (cast obj)

  unfoldable pub on_update_service : Object Service → Calls
  unfolding service_action
  on_update_service obj = on_value service_action (cast obj)

  unfoldable pub on_delete_service : Object Service → Calls
  unfolding service_action
  on_delete_service obj =
      if caches.service_has_key obj then on_value service_action (cast_deleted obj) else []

  -- The handlers that New registers.
  unfoldable pub handle : Event F → Calls
  unfolding on_add_kubervisor_service on_update_kubervisor_service on_delete_kubervisor_service
      on_add_pod on_update_pod on_delete_pod on_add_service on_update_service on_delete_service
  handle (add_resource obj) = on_add_kubervisor_service obj
  handle (update_resource obj) = on_update_kubervisor_service obj
  handle (delete_resource obj) = on_delete_kubervisor_service obj
  handle (add_pod obj) = on_add_pod obj
  handle (update_pod obj) = on_update_pod obj
  handle (delete_pod obj) = on_delete_pod obj
  handle (add_service obj) = on_add_service obj
  handle (update_service obj) = on_update_service obj
  handle (delete_service obj) = on_delete_service obj

-- What Add of the queue does with the key of a resource; without a key, nothing.
unfoldable pub enqueue :
    {F Q : Type 0}
    → (KubervisorService F → Outcome String)
    → (String → Q → Q)
    → KubervisorService F
    → Q
    → Q
enqueue meta_key add bc q = elim (meta_key bc) [ ok key ↦ add key q | err e ↦ q | panic ↦ q ]
