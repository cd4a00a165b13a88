-- ===== src/Lifecycle/Steps.antt =====
-- The steps that the program and its environment make on one pod, in any order: each write is made on
-- the pod as the server holds it, since the server refuses one made on an older version.
use kubervisor.Prelude.{ℕ, ◌+◌, ok, ◌≡◌, true, false, Option, some, List, String}
use kubervisor.Prelude.Int.{ℤ}
use kubervisor.Kube.{Pod, KubeClient, TimeText, SelectorOps}
use kubervisor.Kube.Exec.{Exec}
use kubervisor.Pod.FilterLaws.{has_traffic}
use kubervisor.Pod.Requests.{break_request, remove_request}
use kubervisor.Pod.Control.{
  World, init_breaker_annotation_and_label, update_breaker_annotation_and_label,
  remove_breaker_annotation_and_label,
}
use kubervisor.Api.{FloatOps}
use kubervisor.Activate.Strategy.{ActivatorImpl, apply_activator_strategy}
use kubervisor.Controller.Pods.{is_initialized}
use kubervisor.Lifecycle.Visits.{IsBudgeted}

module _ {F L R S : Type 0} (floats : FloatOps F) (ops : SelectorOps L R) (client : KubeClient S)
    (clock : S → ℤ) (time : TimeText) (lister : L → Exec (World S) (List Pod))
    (stored : S → Option Pod) (m : ℕ) where
  -- A step, with the number of cuts that the server stored since the pod was last cleaned.
  pub data Turn : World S → ℕ → World S → ℕ → Type 0 where
    -- A breaker cuts the pod, which is in traffic, and the server stores it.
    cut :
        (config strategy : String) (p q : Pod) (w : World S) (n : ℕ)
        → stored w.cluster ≡ some p
        → has_traffic p ≡ true
        → break_request time (clock w.cluster) config strategy p ≡ ok q
        → stored
            (update_breaker_annotation_and_label client time clock config strategy p w).1.cluster
          ≡ some q
        → Turn w n
            (update_breaker_annotation_and_label client time clock config strategy p w).1
            (n + 1)
    -- An activator visits the pod.
    visit :
        (b : ActivatorImpl F L) (p : Pod) (w : World S) (n : ℕ)
        → IsBudgeted m b
        → stored w.cluster ≡ some p
        → Turn w n (apply_activator_strategy floats ops client clock time lister b p w).1 n
    -- The controller takes the pod in.
    initialise :
        (config : String) (p : Pod) (w : World S) (n : ℕ)
        → stored w.cluster ≡ some p
        → is_initialized p ≡ false
        → Turn w n (init_breaker_annotation_and_label client config p w).1 n
    -- The controller or the collector cleans the pod, and the server stores it.
    clean :
        (p : Pod) (w : World S) (n : ℕ)
        → stored w.cluster ≡ some p
        → stored (remove_breaker_annotation_and_label client p w).1.cluster
          ≡ some (remove_request p)
        → Turn w n (remove_breaker_annotation_and_label client p w).1 0
    -- Whatever else happens leaves the pod as it is; a write that is refused does.
    elsewhere : (w w' : World S) (n : ℕ) → stored w'.cluster ≡ stored w.cluster → Turn w n w' n

  -- The states that steps reach from a state in which the pod had `start` cuts, with the cuts in them.
  pub data Reach (w : World S) (start : ℕ) : World S → ℕ → Type 0 where
    here : Reach w start w start
    next : {v u : World S} {k l : ℕ} → Reach w start v k → Turn v k u l → Reach w start u l
