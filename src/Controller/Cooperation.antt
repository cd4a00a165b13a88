-- ===== src/Controller/Cooperation.antt =====
-- When the cluster takes every write and answers every question, the labels of the pods are put right
-- without an error.
use kubervisor.Prelude.{
  ◌≡◌, refl, arith, none, List, [], ◌∷◌, String, Outcome, ok, err, panic, Error, Bool,
}
use kubervisor.Prelude.Dict.{Dict}
use kubervisor.Kube.{Pod}
use kubervisor.Kube.Exec.{Exec, lift}
use kubervisor.Kube.Ensures.{Post, Ensures-if}
use kubervisor.Kube.Gives.{Gives, Gives-pure, Gives-lift, Gives-bind}
use kubervisor.Labeling.{label_breaker_name_key}
use kubervisor.Pod.Requests.{init_request, remove_request}
use kubervisor.Pod.Control.{
  World, update_plain, init_breaker_annotation_and_label, remove_breaker_annotation_and_label,
}
use kubervisor.Pod.Tools.{exclude_from_slice}
use kubervisor.Api.{KubervisorService}
use kubervisor.Controller.Pods.{
  each_pod, new_pods, without_traffic_key, discarded_pods, pods_cleaner, search_new_pods,
  initialize_pods,
}
use kubervisor.Controller.Env.{Env}

-- Every write is taken, every list is answered, and no error aggregates to none.
pub record Cooperates {F L R S St D : Type 0} (env : Env F L R S St D) : Type 0 where
  pub writes : (p : Pod) (s : S) → (q : Pod) × ((env.client.update p s).0 ≡ ok q)
  pub takes :
      (bc : KubervisorService F) (w : World S)
      → (bc' : KubervisorService F) × ((env.update_handler bc w).0 ≡ ok bc')
  pub lists :
      (labels : Dict String) (w : World S) → (pods : List Pod) × (env.list_pods labels w ≡ ok pods)
  pub lists_namespace :
      (namespace : String) (labels : Dict String) (w : World S)
      → (pods : List Pod) × (env.list_namespace namespace labels w ≡ ok pods)
  pub lists_selected :
      (namespace : String) (selector : L) (w : World S)
      → (pods : List Pod) × (env.list_selected namespace selector w ≡ ok pods)
  pub no_error : env.new_aggregate [] ≡ none

abbrev NoErrors : List Error → Type 0
NoErrors errs = errs ≡ []

module _ {W : Type 0} (act : Pod → Exec W Pod)
    (acts : (p : Pod) → Gives (act p) (λ q. Unit {0})) where
  each_pod-Gives : (pods : List Pod) → Gives (each_pod act pods) NoErrors
  unfolding each_pod
  each_pod-Gives [] = record { at = λ w p. refl }
  each_pod-Gives (p ∷ pods) = record {
    at = λ w u.
        go (act p w).0 (act p w).1 ((acts p).at w tt) ((each_pod-Gives pods).at (act p w).1 tt);
  }
    where
      go :
          (r : Outcome Pod) (w' : W)
          → Post {W = W} (λ w. ⊥) (λ a w. Unit) (r, w')
          → Post {W = W} (λ w. ⊥) (λ errs w. NoErrors errs) (each_pod act pods w')
          → Post {W = W}
              (λ w. ⊥)
              (λ errs w. NoErrors errs)
              (let (errs, w'') = each_pod act pods w' in
                elim r [
                  | ok q ↦ (errs, w'')
                  | err e ↦ (elim errs [ ok es ↦ ok (e ∷ es) | err x ↦ err x | panic ↦ panic ], w'')
                  | panic ↦ (panic, w')
                ])
      go (ok q) w' h k = k
      go (err e) w' h k = absurd h
      go panic w' h k = absurd h

module _ {F L R S St D : Type 0} (env : Env F L R S St D) (c : Cooperates env) where
  update_plain-Gives : (p : Pod) → Gives (update_plain env.client p) (λ q. Unit {0})
  unfolding update_plain
  update_plain-Gives p = record { at = λ w u. let (q, taken) = c.writes p w.cluster in rw taken tt }

  remove-Gives :
      (p : Pod) → Gives (remove_breaker_annotation_and_label env.client p) (λ q. Unit {0})
  unfolding remove_breaker_annotation_and_label
  remove-Gives p = update_plain-Gives (remove_request p)

  init-Gives :
      (config : String) (p : Pod)
      → Gives (init_breaker_annotation_and_label env.client config p) (λ q. Unit {0})
  unfolding init_breaker_annotation_and_label init_request lift
  init-Gives config p =
      Gives-bind {R = λ q. Unit {0}} (lift (init_request config p)) (update_plain env.client)
        (record { at = λ w u. tt }) (λ q u. update_plain-Gives q)

  abbrev pub Clean : Bool × List Error → Type 0
  Clean r = NoErrors r.1

  pub pods_cleaner-Gives :
      (name : String) (selector : Dict String)
      → Gives (pods_cleaner env.client env.list_pods env.list_namespace name selector) Clean
  unfolding pods_cleaner discarded_pods
  pods_cleaner-Gives name selector = record {
    at = λ w u.
        let (previous, listed) = c.lists ((label_breaker_name_key, name) ∷ []) w in
        let (current, chosen) = c.lists (without_traffic_key selector) w in
        (Gives-bind {R = λ pods. Unit {0}} _ _
            (Gives-lift (discarded_pods env.client env.list_pods env.list_namespace name selector w)
              (exclude_from_slice previous current) (ground (arith, listed, chosen)) tt)
            (λ pods v.
              Gives-bind _ _ (each_pod-Gives _ remove-Gives pods)
                (λ errs none_failed. Gives-pure _ none_failed))).at
          w tt;
  }

  pub initialize_pods-Gives :
      (name namespace : String) (selector : Dict String)
      → Gives
          (initialize_pods env.client env.list_pods env.list_namespace name namespace selector)
          Clean
  unfolding initialize_pods search_new_pods
  initialize_pods-Gives name namespace selector = record {
    at = λ w u.
        let (pods, listed) = c.lists_namespace namespace (without_traffic_key selector) w in
        (Gives-bind {R = λ pods. Unit {0}} _ _
            (Gives-lift
              (search_new_pods env.client env.list_pods env.list_namespace namespace selector w)
              (new_pods pods) (ground (arith, listed)) tt)
            (λ found v. Ensures-if _ _ _ (Gives-pure _ refl) (
              Gives-bind _ _ (each_pod-Gives _ (init-Gives name) found)
                (λ errs none_failed. Gives-pure _ none_failed)))).at
          w tt;
  }
