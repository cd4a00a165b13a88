-- ===== src/Activate/Strategy.antt =====
-- pkg/activate/activator.go, applyActivatorStrategy. The times are counts of nanoseconds without a
-- bound; a duration is an `int` and wraps round. `lister` answers with the pods of a selector.
use kubervisor.Prelude.{
  Option, none, some, List, String, Outcome, ok, err, errorf, wrapping, length, str_eq,
  if◌then◌else◌,
}
use kubervisor.Prelude.Int.{ℤ, pos, ltb_ℤ, ◌+ℤ◌, ◌*ℤ◌, wrap64, int_of_uint}
use kubervisor.Kube.{Pod, KubeClient, TimeText, SelectorOps, deref}
use kubervisor.Kube.Exec.{wrap_error, Exec, lift, pure, gets, ◌>>=◌}
use kubervisor.Labeling.{get_break_at, get_retry_count, label_traffic_key}
use kubervisor.Pod.Control.{
  World, kill_pod, update_activation_labels_and_annotations, update_pause_labels_and_annotations,
}
use kubervisor.Api.{ActivatorStrategy, FloatOps}

pub record ActivatorImpl (F L : Type 0) : Type 0 where
  pub kubervisor_name : String
  pub breaker_strategy_name : String
  pub selector : L
  pub activator_strategy_config : ActivatorStrategy F

-- `if _, err := …; err != nil { return err }`.
unfoldable pub only_error : {W A : Type 0} → Exec W A → Exec W (Unit {0})
only_error m = m >>= λ _. pure tt

-- A duration times a count.
unfoldable pub times : ℤ → ℤ → ℤ
times n d = wrap64 (n *ℤ d)

module _ {F L R S : Type 0} (floats : FloatOps F) (ops : SelectorOps L R) (client : KubeClient S)
    (clock : S → ℤ) (time : TimeText) (lister : L → Exec (World S) (List Pod))
    (b : ActivatorImpl F L) where
  -- Reactivation, once the time for it lies before `now`.
  unfoldable pub activate_after : ℤ → ℤ → Pod → Exec (World S) (Unit {0})
  activate_after retrytime now p =
      if ltb_ℤ retrytime now
      then only_error (update_activation_labels_and_annotations client b.kubervisor_name p)
      else pure tt

  unfoldable pub apply_periodic : Pod → ℤ → ℤ → ℤ → Exec (World S) (Unit {0})
  apply_periodic p break_at period now = activate_after (break_at +ℤ period) now p

  unfoldable pub apply_retry_and_kill : Pod → ℤ → ℤ → ℤ → ℤ → Exec (World S) (Unit {0})
  apply_retry_and_kill p break_at retry_count period now = do
    max_retry_count ← lift (deref b.activator_strategy_config.max_retry_count)
    if ltb_ℤ (int_of_uint max_retry_count) retry_count
        then kill_pod client b.kubervisor_name p
        else activate_after (break_at +ℤ times retry_count period) now p

  -- The branch of a pod that used up its retries: pause it, or kill it if enough pods are in pause.
  unfoldable pub pause_or_kill : Pod → Exec (World S) (Unit {0})
  pause_or_kill p = do
    rq_traffic_pause ←
        lift (
          wrapping "unable to create labels.Requirement"
            (ops.requirement label_traffic_key "pause"))
    list ← wrap_error "can't list paused pods" (lister (ops.add b.selector rq_traffic_pause))
    max_pause_count ← lift (deref b.activator_strategy_config.max_pause_count)
    if ltb_ℤ (pos (length list)) (int_of_uint max_pause_count)
        then only_error (
            wrap_error "can't set 'pause' on pod"
              (update_pause_labels_and_annotations client b.kubervisor_name p))
        else kill_pod client b.kubervisor_name p

  unfoldable pub apply_retry_and_pause : Pod → ℤ → ℤ → ℤ → ℤ → Exec (World S) (Unit {0})
  apply_retry_and_pause p break_at retry_count period now = do
    max_retry_count ← lift (deref b.activator_strategy_config.max_retry_count)
    if ltb_ℤ (int_of_uint max_retry_count) retry_count
        then pause_or_kill p
        else wrap_error "can't apply activator strategy on pod"
            (activate_after (break_at +ℤ times retry_count period) now p)

  -- The `switch` on the mode; a mode that it does not name does nothing.
  unfoldable pub apply_mode : Pod → ℤ → ℤ → ℤ → ℤ → Exec (World S) (Unit {0})
  apply_mode p break_at retry_count period now =
      let mode = b.activator_strategy_config.mode in
      if str_eq mode "periodic"
      then apply_periodic p break_at period now
      else if str_eq mode "retryAndKill"
      then apply_retry_and_kill p break_at retry_count period now
      else if str_eq mode "retryAndPause"
      then apply_retry_and_pause p break_at retry_count period now
      else pure tt

  -- What is read before the `switch`: the annotations, and the period.
  abbrev period_of : Option F → Outcome ℤ
  period_of none = err (errorf "b.activatorStrategyConfig.Period is nil")
  period_of (some x) = ok (times (floats.to_millis x) (pos 1000000))

  unfoldable pub apply_activator_strategy : Pod → Exec (World S) (Unit {0})
  apply_activator_strategy p = do
    break_at ← lift (get_break_at time p)
    retry_count ← lift (get_retry_count p)
    period ← lift (period_of b.activator_strategy_config.period)
    now ← gets (λ w. clock w.cluster)
    apply_mode p break_at retry_count period now
