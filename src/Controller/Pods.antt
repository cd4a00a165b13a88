-- ===== src/Controller/Pods.antt =====
-- pkg/controller/controller.go: podsCleaner, searchNewPods and initializePods, which keep the labels of
-- the pods in step with the selector of the service. The listers are parameters.
use kubervisor.Prelude.{
  ◌≡◌, refl, sym, subst, ◌∙◌, ok-injective, arith, Bool, true, false, not, ◌&&◌, ◌==◌, some, List,
  [], ◌∷◌, String, Outcome, ok, err, panic, Error, length, is_some, select, if◌then◌else◌,
}
use kubervisor.Prelude.Dict
use kubervisor.Prelude.Dict.{Dict, dict_laws}
use kubervisor.Kube.{Pod, KubeClient, read}
use kubervisor.Kube.Exec.{Exec, lift, pure, ◌>>=◌}
use kubervisor.Labeling.{label_traffic_key, label_breaker_name_key, or_empty}
use kubervisor.Pod.Tools.{exclude_from_slice, found}
use kubervisor.Pod.FilterLaws.{found-exclude}
use kubervisor.Pod.Requests.{init_request}
use kubervisor.Pod.Control.{
  World, init_breaker_annotation_and_label, remove_breaker_annotation_and_label,
}

-- A loop that acts on each pod and collects the errors.
unfoldable pub each_pod : {W : Type 0} → (Pod → Exec W Pod) → List Pod → Exec W (List Error)
each_pod act [] w = (ok [], w)
each_pod act (p ∷ pods) w =
    let (r, w') = act p w in
    let (errs, w'') = each_pod act pods w' in
    elim r [
      | ok q ↦ (errs, w'')
      | err e ↦ (elim errs [ ok es ↦ ok (e ∷ es) | err x ↦ err x | panic ↦ panic ], w'')
      | panic ↦ (panic, w')
    ]

-- Whether a pod has both labels already.
abbrev pub is_initialized : Pod → Bool
is_initialized p =
    is_some (read p.labels label_traffic_key) && is_some (read p.labels label_breaker_name_key)

-- The loop of searchNewPods.
unfoldable pub new_pods : List Pod → List Pod
new_pods pods = select (λ p. not (is_initialized p)) pods

-- The selector of a service without the traffic label.
unfoldable pub without_traffic_key : Dict String → Dict String
without_traffic_key selector = Dict.remove selector label_traffic_key

module _ {S : Type 0} (client : KubeClient S)
    (list_pods : Dict String → World S → Outcome (List Pod))
    (list_namespace : String → Dict String → World S → Outcome (List Pod)) where
  -- The pods to clean: those with the name of the resource that the service does not select.
  unfoldable pub discarded_pods : String → Dict String → World S → Outcome (List Pod)
  unfolding without_traffic_key
  discarded_pods bci_name selector w =
      elim (list_pods ((label_breaker_name_key, bci_name) ∷ []) w) [
        | ok previous ↦ elim (list_pods (without_traffic_key selector) w) [
          | ok current ↦ ok (exclude_from_slice previous current)
          | err e ↦ err e
          | panic ↦ panic
        ]
        | err e ↦ err e
        | panic ↦ panic
      ]

  -- Whether there was a pod to clean, and the errors.
  unfoldable pub pods_cleaner : String → Dict String → Exec (World S) (Bool × List Error)
  unfolding discarded_pods each_pod
  pods_cleaner bci_name selector w =
      let discarded = discarded_pods bci_name selector w in
      (lift discarded >>= λ pods.
      each_pod (remove_breaker_annotation_and_label client) pods >>= λ errs.
      pure (not (length pods == 0), errs))
        w

  unfoldable pub search_new_pods : String → Dict String → World S → Outcome (List Pod)
  unfolding without_traffic_key new_pods
  search_new_pods namespace selector w =
      elim (list_namespace namespace (without_traffic_key selector) w) [
        | ok pods ↦ ok (new_pods pods)
        | err e ↦ err e
        | panic ↦ panic
      ]

  unfoldable pub initialize_pods :
      String → String → Dict String → Exec (World S) (Bool × List Error)
  unfolding search_new_pods each_pod
  initialize_pods bci_name namespace selector w =
      let searched = search_new_pods namespace selector w in
      (lift searched >>= λ pods.
      if length pods == 0
      then pure (false, [])
      else (each_pod (init_breaker_annotation_and_label client bci_name) pods >>= λ errs.
          pure (true, errs)))
        w

  -- If the lister answers, a pod is cleaned exactly if, by its name and namespace, it is among those
  -- with the name of the resource, and not among those that the service selects, its traffic label
  -- aside.
  pub found-discarded_pods :
      (bci_name : String) (selector : Dict String) (w : World S) (previous current : List Pod)
      → list_pods ((label_breaker_name_key, bci_name) ∷ []) w ≡ ok previous
      → list_pods (Dict.remove selector label_traffic_key) w ≡ ok current
      → (discarded : List Pod) × (discarded_pods bci_name selector w ≡ ok discarded)
        × ((p : Pod) → found p discarded ≡ (found p previous && not (found p current)))
  unfolding discarded_pods
  found-discarded_pods bci_name selector w previous current h k = (
    exclude_from_slice previous current,
    ground (arith, h, k),
    λ p. found-exclude p previous current,
  )

-- The pod that an initialization sends.
abbrev initialized : String → Pod → Pod
initialized bci_name p = record p {
  labels = some (
      Dict.put (Dict.put (or_empty p.labels) label_breaker_name_key bci_name) label_traffic_key
        "yes");
  annotations = some (or_empty p.annotations);
}

init_request-eq :
    (bci_name : String) (p : Pod) → init_request bci_name p ≡ ok (initialized bci_name p)
unfolding init_request
init_request-eq bci_name p = refl

initialized-is_initialized :
    (bci_name : String) (p : Pod) → is_initialized (initialized bci_name p) ≡ true
unfolding read
initialized-is_initialized bci_name p = simp dict_laws

-- A pod that was initialized is not searched for again.
new_pods-init_request :
    (bci_name : String) (p q : Pod) (pods : List Pod)
    → init_request bci_name p ≡ ok q
    → new_pods (q ∷ pods) ≡ new_pods pods
unfolding new_pods
new_pods-init_request bci_name p q pods h =
    let e = ok-injective (sym (init_request-eq bci_name p) ∙ h) in
    let done = subst (λ x. is_initialized x ≡ true) e (initialized-is_initialized bci_name p) in
    ground (arith, done)
