-- ===== src/Breaker/Round.antt =====
-- pkg/breaker/breaker.go: Run, and CompareConfig. The analysis, the lister of
-- pods and the API server are parameters; an error is logged, and the loop goes on.
use kubervisor.Prelude.{
  ℕ, zero, suc, Bool, false, Option, none, some, List, [], ◌∷◌, String, Outcome, ok, err, panic,
  length, take, ◌==◌, if◌then◌else◌,
}
use kubervisor.Prelude.Int.{ℤ, pos, pos_part, ltb_ℤ}
use kubervisor.Kube.{Pod, KubeClient, TimeText, SelectorOps}
use kubervisor.Kube.Exec.{Exec, pure, lift, ◌>>◌}
use kubervisor.Labeling.{selector_with_breaker_name}
use kubervisor.Pod.Tools.{keep_running_pods, purge_not_ready_pods, keep_with_traffic_yes_pods, Kept}
use kubervisor.Pod.Control.{World, update_breaker_annotation_and_label}
use kubervisor.Api.{FloatOps, BreakerStrategy}
use kubervisor.Activate.Strategy.{times}
use kubervisor.Breaker.Count.{remove_count}

pub record BreakerImpl (F L : Type 0) : Type 0 where
  pub kubervisor_name : String
  pub breaker_strategy_name : String
  pub selector : L
  pub breaker_strategy_config : BreakerStrategy F

-- The three filters of a round; the first error stops them.
abbrev pub then_filter : (List Pod → Kept) → Kept → Kept
then_filter f (pods, none) = f pods
then_filter f (pods, some e) = (pods, some e)

unfoldable pub with_traffic : List Pod → Kept
with_traffic all_pods =
    then_filter keep_with_traffic_yes_pods
      (then_filter purge_not_ready_pods (keep_running_pods all_pods))

-- What the loop does after a call: an error is logged, and a panic goes on.
abbrev pub logged : {W A : Type 0} → Outcome A → Exec W (Unit {0})
logged (ok a) w = (ok tt, w)
logged (err e) w = (ok tt, w)
logged panic w = (panic, w)

-- A call whose error ends the round.
abbrev pub or_skip : {W A : Type 0} → (A → Exec W (Unit {0})) → Outcome A → Exec W (Unit {0})
or_skip f (ok a) w = f a w
or_skip f (err e) w = (ok tt, w)
or_skip f panic w = (panic, w)

module _ {F L R : Type 0} (ops : SelectorOps L R) where
  -- `equal` is the semantic equality of the Kubernetes libraries.
  unfoldable pub compare_config :
      (BreakerStrategy F → BreakerStrategy F → Bool)
      → BreakerImpl F L
      → BreakerStrategy F
      → Option L
      → Bool
  compare_config equal b spec_config spec_selector =
      if equal b.breaker_strategy_config spec_config
      then (elim (selector_with_breaker_name ops spec_selector b.kubervisor_name) [
        | ok s ↦ ops.deep_equal (some s) (some b.selector)
        | err e ↦ ops.deep_equal none (some b.selector)
        | panic ↦ false
      ])
      else false

-- The ticker of Run: a period that is nil is dereferenced, and the ticker of the library panics at one
-- that is not positive.
unfoldable pub new_ticker : {F : Type 0} → FloatOps F → Option F → Outcome (Unit {0})
new_ticker floats none = panic
new_ticker floats (some x) =
    if ltb_ℤ (pos 0) (times (floats.to_millis x) (pos 1000000)) then ok tt else panic

module _ {F L S : Type 0} (client : KubeClient S) (clock : S → ℤ) (time : TimeText) where
  -- The loop over the pods to cut.
  unfoldable pub cut_all : BreakerImpl F L → List Pod → Exec (World S) (Unit {0})
  cut_all b [] w = (ok tt, w)
  cut_all b (p ∷ pods) w =
      let (r, w') =
        update_breaker_annotation_and_label client time clock b.kubervisor_name
          b.breaker_strategy_name p w in
      let rest = cut_all b pods w' in elim r [ panic ↦ (panic, w') | _ ↦ rest ]

  -- The end of a round: the filters, the number of pods to cut, and the loop.
  unfoldable pub cut_round : BreakerImpl F L → List Pod → List Pod → Exec (World S) (Unit {0})
  cut_round b pods_to_cut all_pods w = elim ((with_traffic all_pods).1) [
    | some e ↦ (ok tt, w)
    | none ↦
        let n =
          remove_count b.breaker_strategy_config (length (with_traffic all_pods).0)
            (length pods_to_cut) in
        cut_all b (take (pos_part n) pods_to_cut) w
  ]

  -- A round after the analysis.
  unfoldable pub list_round :
      (L → Exec (World S) (List Pod)) → BreakerImpl F L → List Pod → Exec (World S) (Unit {0})
  list_round lister b pods_to_cut w =
      let (listed, w') = lister b.selector w in
      if length pods_to_cut == 0 then (ok tt, w) else or_skip (cut_round b pods_to_cut) listed w'

  -- One tick of Run, over the analysis and the lister.
  unfoldable pub round :
      Exec (World S) (List Pod)
      → (L → Exec (World S) (List Pod))
      → BreakerImpl F L
      → Exec (World S) (Unit {0})
  unfolding list_round
  round detector lister b w =
      let (detected, w') = detector w in or_skip (list_round lister b) detected w'

  -- The loop of Run, whose channel is closed after a number of ticks.
  unfoldable pub run :
      Exec (World S) (List Pod)
      → (L → Exec (World S) (List Pod))
      → BreakerImpl F L
      → ℕ
      → Exec (World S) (Unit {0})
  unfolding round
  run detector lister b zero = pure tt
  run detector lister b (suc ticks) = do round detector lister b; run detector lister b ticks

  -- Run from its start: the ticker, and then the loop.
  unfoldable pub run_with_ticker :
      FloatOps F
      → Exec (World S) (List Pod)
      → (L → Exec (World S) (List Pod))
      → BreakerImpl F L
      → ℕ
      → Exec (World S) (Unit {0})
  unfolding run new_ticker
  run_with_ticker floats detector lister b ticks =
      lift (new_ticker floats b.breaker_strategy_config.evaluation_period)
      >> run detector lister b ticks
