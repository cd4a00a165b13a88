-- ===== src/Controller/InformerLaws.antt =====
-- Which resource an event enqueues.
use kubervisor.Prelude.{
  ◌≤◌, ◌≡◌, refl, arith, eq_iff, Bool, true, false, ◌&&◌, Option, none, some, List, [], ◌∷◌, ◌++◌,
  String, ok, err, panic, Error, length, take, select, All, str_eq, if◌then◌else◌,
}
use kubervisor.Kube.{Pod, read}
use kubervisor.Labeling.{label_breaker_name_key}
use kubervisor.Api.{KubervisorService}
use kubervisor.Controller.Env.{Service}
use kubervisor.Controller.Informers.{
  cast, cast_deleted, is_empty_status, Caches, Event, on_value, on_add_kubervisor_service,
  on_update_kubervisor_service, on_delete_kubervisor_service, named_resource, selects,
  first_selecting, pod_action, deleted_pod, on_add_pod, on_update_pod, on_delete_pod, uses,
  first_using, service_action, on_add_service, on_update_service, on_delete_service, handle,
  add_resource, update_resource, delete_resource, add_pod, update_pod, delete_pod, add_service,
  update_service, delete_service,
}

module _ {F : Type 0} (caches : Caches F) where
  -- Whether the pod is in the namespace of the resource, and its service, if it is known, selects it.
  abbrev pub selected_by : Pod → KubervisorService F → Bool
  selected_by pod ks =
      str_eq ks.namespace pod.namespace && (elim (caches.get_service ks.namespace ks.spec.service) [
        | ok svc ↦ selects caches svc pod
        | err e ↦ false
        | panic ↦ false
      ])

  -- A resource of another namespace, or one whose service is known.
  pub data IsServed (pod : Pod) (ks : KubervisorService F) : Type 0 where
    elsewhere : str_eq ks.namespace pod.namespace ≡ false → IsServed pod ks
    served :
        (svc : Service) → caches.get_service ks.namespace ks.spec.service ≡ ok svc → IsServed pod ks

  -- One round of the loop.
  first_selecting-cons :
      (pod : Pod) (ks : KubervisorService F) (kss : List (KubervisorService F))
      → IsServed pod ks
      → first_selecting caches pod (ks ∷ kss)
        ≡ (if selected_by pod ks then ks ∷ [] else first_selecting caches pod kss)
  unfolding first_selecting
  first_selecting-cons pod ks kss (elsewhere e) = rw e refl
  first_selecting-cons pod ks kss (served svc e) = ground (arith, e)

  first_selecting-select :
      (pod : Pod) (kss : List (KubervisorService F))
      → All (IsServed pod) kss
      → first_selecting caches pod kss ≡ take 1 (select (selected_by pod) kss)
  unfolding first_selecting
  first_selecting-select pod [] h = refl
  first_selecting-select pod (ks ∷ kss) h =
      ground (arith, first_selecting-cons pod ks kss h.0, first_selecting-select pod kss h.1)

  -- An event on a pod that names no resource enqueues the first resource of the pod's namespace whose
  -- service selects the pod, and nothing if there is none, if the service of each resource in that
  -- namespace is known.
  pub pod_action_lem :
      (pod : Pod) (kss : List (KubervisorService F))
      → read pod.labels label_breaker_name_key ≡ none
      → caches.list_resources ≡ ok kss
      → All (IsServed pod) kss
      → pod_action caches pod ≡ take 1 (select (selected_by pod) kss)
  unfolding pod_action
  pod_action_lem pod kss unnamed listed h =
      rw (pod_action, unnamed, listed) (first_selecting-select pod kss h)

  -- A resource of the pod's namespace whose service is not found keeps the resources after it from
  -- being enqueued: an event on a pod that names no resource, and that the services of the resources
  -- before it do not select, enqueues nothing.
  pub pod_action_blocked :
      (pod : Pod) (before after : List (KubervisorService F)) (ks : KubervisorService F) (e : Error)
      → read pod.labels label_breaker_name_key ≡ none
      → caches.list_resources ≡ ok (before ++ (ks ∷ after))
      → All (IsServed pod) before
      → select (selected_by pod) before ≡ []
      → ks.namespace ≡ pod.namespace
      → caches.get_service ks.namespace ks.spec.service ≡ err e
      → pod_action caches pod ≡ []
  unfolding first_selecting pod_action
  pod_action_blocked pod before after ks e unnamed listed h unselected same missing =
      rw (pod_action, unnamed, listed) (go before h unselected)
    where
      go :
          (before : List (KubervisorService F))
          → All (IsServed pod) before
          → select (selected_by pod) before ≡ []
          → first_selecting caches pod (before ++ (ks ∷ after)) ≡ []
      go [] h u = ground (arith, missing, same, eq_iff ks.namespace pod.namespace)
      go (b ∷ before) h u =
          ground (arith, first_selecting-cons pod b (before ++ (ks ∷ after)) h.0, go before h.1)

  -- An event on a service enqueues the first resource of its namespace that names it.
  service_action_lem :
      (svc : Service) (kss : List (KubervisorService F))
      → caches.list_resources ≡ ok kss
      → service_action caches svc ≡ take 1 (select (uses svc) kss)
  unfolding service_action first_using
  service_action_lem svc kss listed = rw listed (go kss)
    where
      go :
          (kss : List (KubervisorService F))
          → first_using caches svc kss ≡ take 1 (select (uses svc) kss)
      go [] = refl
      go (ks ∷ kss) = ground (arith, go kss)

  -- At most one resource.
  AtMostOne : List (KubervisorService F) → Type 0
  AtMostOne calls = length calls ≤ 1

  on_value-AtMostOne :
      {A : Type 0} (f : A → List (KubervisorService F)) (o : Option A)
      → ((a : A) → AtMostOne (f a))
      → AtMostOne (on_value caches f o)
  unfolding AtMostOne
  on_value-AtMostOne f none h = omega arith
  on_value-AtMostOne f (some a) h = h a

  guarded-AtMostOne :
      (b : Bool) (calls : List (KubervisorService F))
      → AtMostOne calls
      → AtMostOne (if b then calls else [])
  unfolding AtMostOne
  guarded-AtMostOne true calls h = h
  guarded-AtMostOne false calls h = omega arith

  named_resource-AtMostOne :
      (name : String) (pod : Pod) → AtMostOne (named_resource caches name pod)
  unfolding AtMostOne named_resource
  named_resource-AtMostOne name pod = ground arith

  first_selecting-AtMostOne :
      (pod : Pod) (kss : List (KubervisorService F)) → AtMostOne (first_selecting caches pod kss)
  unfolding AtMostOne first_selecting
  first_selecting-AtMostOne pod [] = omega arith
  first_selecting-AtMostOne pod (ks ∷ kss) = ground (arith, first_selecting-AtMostOne pod kss)

  first_using-AtMostOne :
      (svc : Service) (kss : List (KubervisorService F)) → AtMostOne (first_using caches svc kss)
  unfolding AtMostOne first_using
  first_using-AtMostOne svc [] = omega arith
  first_using-AtMostOne svc (ks ∷ kss) = ground (arith, first_using-AtMostOne svc kss)

  pod_action-AtMostOne : (pod : Pod) → AtMostOne (pod_action caches pod)
  unfolding pod_action AtMostOne
  pod_action-AtMostOne pod = grind (arith, named_resource-AtMostOne, first_selecting-AtMostOne)

  deleted_pod-AtMostOne : (pod : Pod) → AtMostOne (deleted_pod caches pod)
  unfolding deleted_pod AtMostOne
  deleted_pod-AtMostOne pod = grind (arith, named_resource-AtMostOne)

  service_action-AtMostOne : (svc : Service) → AtMostOne (service_action caches svc)
  unfolding service_action AtMostOne
  service_action-AtMostOne svc = grind (arith, first_using-AtMostOne)

  -- Every event enqueues one resource at most.
  pub length-handle : (e : Event F) → length (handle caches e) ≤ 1
  unfolding handle AtMostOne on_add_kubervisor_service on_update_kubervisor_service
      on_delete_kubervisor_service on_add_pod on_update_pod on_delete_pod on_add_service
      on_update_service on_delete_service
  length-handle (add_resource obj) =
      on_value-AtMostOne _ (cast obj)
        (λ bc. guarded-AtMostOne (is_empty_status bc.status) _ (omega arith))
  length-handle (update_resource obj) = on_value-AtMostOne _ (cast obj) (λ bc. omega arith)
  length-handle (delete_resource obj) =
      guarded-AtMostOne (caches.resource_has_key obj) _
        (on_value-AtMostOne _ (cast_deleted obj) (λ bc. omega arith))
  length-handle (add_pod obj) = on_value-AtMostOne _ (cast obj) pod_action-AtMostOne
  length-handle (update_pod obj) = on_value-AtMostOne _ (cast obj) pod_action-AtMostOne
  length-handle (delete_pod obj) =
      guarded-AtMostOne (caches.pod_has_key obj) _
        (on_value-AtMostOne _ (cast_deleted obj) deleted_pod-AtMostOne)
  length-handle (add_service obj) = on_value-AtMostOne _ (cast obj) service_action-AtMostOne
  length-handle (update_service obj) = on_value-AtMostOne _ (cast obj) service_action-AtMostOne
  length-handle (delete_service obj) =
      guarded-AtMostOne (caches.service_has_key obj) _
        (on_value-AtMostOne _ (cast_deleted obj) service_action-AtMostOne)
