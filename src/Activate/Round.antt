-- ===== src/Activate/Round.antt =====
-- pkg/activate/activator.go: one round of the loop of Run, and CompareConfig.
use kubervisor.Prelude.{
  ℕ, zero, suc, Outcome, Bool, false, Option, none, some, List, [], ◌∷◌, ok, err, panic,
  if◌then◌else◌,
}
use kubervisor.Prelude.Int.{ℤ}
use kubervisor.Kube.{Pod, KubeClient, TimeText, SelectorOps}
use kubervisor.Kube.Exec.{Exec, pure, ◌>>◌}
use kubervisor.Labeling.{label_traffic_key, selector_with_breaker_name}
use kubervisor.Pod.Control.{World}
use kubervisor.Api.{ActivatorStrategy, FloatOps}
use kubervisor.Activate.Strategy.{ActivatorImpl, apply_activator_strategy}

module _ {F L R S : Type 0} (floats : FloatOps F) (ops : SelectorOps L R) (client : KubeClient S)
    (clock : S → ℤ) (time : TimeText) (lister : L → Exec (World S) (List Pod))
    (b : ActivatorImpl F L) where
  -- The loop over the pods: an error is logged, and the next pod follows.
  unfoldable pub apply_all : List Pod → Exec (World S) (Unit {0})
  apply_all [] w = (ok tt, w)
  apply_all (p ∷ pods) w =
      let (r, w') = apply_activator_strategy floats ops client clock time lister b p w in
      let rest = apply_all pods w' in elim r [ panic ↦ (panic, w') | _ ↦ rest ]

  -- What follows the answer of the lister: the slice of a failed call is nil.
  unfoldable pub apply_answer : Outcome (List Pod) → Exec (World S) (Unit {0})
  unfolding apply_all
  apply_answer (ok pods) w = apply_all pods w
  apply_answer (err e) w = apply_all [] w
  apply_answer panic w = (panic, w)

  -- One tick of the loop, with the requirement on the traffic label, which is made before the loop; if
  -- that fails, Run returns.
  unfoldable pub apply_listed : Outcome R → Exec (World S) (Unit {0})
  unfolding apply_answer
  apply_listed (ok rq_traffic_no) w =
      let (listed, w') = lister (ops.add b.selector rq_traffic_no) w in apply_answer listed w'
  apply_listed (err e) w = (ok tt, w)
  apply_listed panic w = (panic, w)

  unfoldable pub round : Exec (World S) (Unit {0})
  unfolding apply_listed
  round = apply_listed (ops.requirement label_traffic_key "no")

  -- Run, whose channel is closed after a number of ticks.
  unfoldable pub run : ℕ → Exec (World S) (Unit {0})
  unfolding round
  run zero = pure tt
  run (suc ticks) = do round; run ticks

module _ {F L R : Type 0} (ops : SelectorOps L R) where
  -- `equal` is the semantic equality of the Kubernetes libraries.
  unfoldable pub compare_config :
      (ActivatorStrategy F → ActivatorStrategy F → Bool)
      → ActivatorImpl F L
      → ActivatorStrategy F
      → Option L
      → Bool
  compare_config equal b spec_strategy spec_selector =
      if equal b.activator_strategy_config spec_strategy
      then (elim (selector_with_breaker_name ops spec_selector b.kubervisor_name) [
        | ok s ↦ ops.deep_equal (some s) (some b.selector)
        | err e ↦ ops.deep_equal none (some b.selector)
        | panic ↦ false
      ])
      else false
