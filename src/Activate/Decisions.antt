-- ===== src/Activate/Decisions.antt =====
-- What applyActivatorStrategy decides in each mode, over plain numbers.
use kubervisor.Prelude.{
  ℕ, ◌+◌, ◌*◌, ◌^◌, ◌<◌, ◌≡◌, some, List, ok, length, ltb, Bool-cases, inl, inr, if◌then◌else◌, ◌∙◌,
}
use kubervisor.Prelude.Int.{ℤ, pos, wrap64-pos, *ℤ-pos, +ℤ-pos, ltb_ℤ-pos, int_of_uint-pos}
use kubervisor.Kube.{Pod, KubeClient, TimeText, SelectorOps}
use kubervisor.Kube.Exec.{Exec, pure, ◌>>=◌}
use kubervisor.Labeling.{get_break_at, get_retry_count, label_traffic_key}
use kubervisor.Pod.Control.{
  World, kill_pod, update_activation_labels_and_annotations, update_pause_labels_and_annotations,
}
use kubervisor.Api.{FloatOps}
use kubervisor.Kube.Exec.{wrap_error}
use kubervisor.Activate.Strategy.{
  ActivatorImpl, only_error, times, activate_after, apply_periodic, apply_retry_and_kill,
  pause_or_kill, apply_retry_and_pause, apply_mode, apply_activator_strategy,
}

pub times-pos : (a b : ℕ) → a * b < 2 ^ 63 → times (pos a) (pos b) ≡ pos (a * b)
unfolding times
times-pos a b h = rw *ℤ-pos (wrap64-pos (a * b) h)

module _ {F L R S : Type 0} (floats : FloatOps F) (ops : SelectorOps L R) (client : KubeClient S)
    (clock : S → ℤ) (time : TimeText) (lister : L → Exec (World S) (List Pod))
    (b : ActivatorImpl F L) (p : Pod) (w : World S) (x : F) (t r now ms : ℕ) where
  -- The pod was cut at the time `t` and `r` times in all, the period is of `ms` milliseconds, and the
  -- clock shows `now`. No product leaves the range of `int`.
  pub record Reads : Type 0 where
    pub break_at : get_break_at time p ≡ ok (pos t)
    pub retry_count : get_retry_count p ≡ ok (pos r)
    pub period : b.activator_strategy_config.period ≡ some x
    pub millis : floats.to_millis x ≡ pos ms
    pub clock_shows : clock w.cluster ≡ pos now
    pub period_fits : ms * 1000000 < 2 ^ 63
    pub delay_fits : r * (ms * 1000000) < 2 ^ 63

  -- Reactivation if the time `at` is past, and else nothing.
  abbrev pub activated_if_past : ℕ → Exec (World S) (Unit {0})
  activated_if_past at =
      if ltb at now
      then only_error (update_activation_labels_and_annotations client b.kubervisor_name p)
      else pure tt

  apply-mode :
      Reads
      → apply_activator_strategy floats ops client clock time lister b p w
        ≡ apply_mode floats ops client clock time lister b p
            (pos t)
            (pos r)
            (pos (ms * 1000000))
            (pos now)
            w
  unfolding apply_activator_strategy ◌>>=◌
  apply-mode h = rw (
    h.break_at,
    h.retry_count,
    h.period,
    h.millis,
    h.clock_shows,
    times-pos ms 1000000 h.period_fits,
  )

  activate_after-pos :
      (at : ℕ)
      → activate_after floats ops client clock time lister b (pos at) (pos now) p w
        ≡ activated_if_past at w
  unfolding activate_after pure
  activate_after-pos at = simp ltb_ℤ-pos

  -- In the mode `periodic` a pod comes back once a period has passed since it was cut.
  apply_periodic_lem :
      Reads
      → b.activator_strategy_config.mode ≡ "periodic"
      → apply_activator_strategy floats ops client clock time lister b p w
        ≡ activated_if_past (t + ms * 1000000) w
  unfolding apply_mode apply_periodic
  apply_periodic_lem h mode =
      apply-mode h ∙ simp (mode, +ℤ-pos t (ms * 1000000)) (activate_after-pos (t + ms * 1000000))

  -- In the mode `retryAndKill` a pod whose retry count is above the maximum is killed, and any
  -- other pod comes back once as many periods have passed since the last cut as it was cut.
  pub apply_retry_and_kill_lem :
      (m : ℕ)
      → Reads
      → b.activator_strategy_config.mode ≡ "retryAndKill"
      → b.activator_strategy_config.max_retry_count ≡ some m
      → m < 2 ^ 63
      → apply_activator_strategy floats ops client clock time lister b p w
        ≡ (if ltb m r
              then kill_pod client b.kubervisor_name p
              else activated_if_past (t + r * (ms * 1000000)))
            w
  unfolding apply_mode apply_retry_and_kill ◌>>=◌
  apply_retry_and_kill_lem m h mode max small =
      apply-mode h
      ∙ simp
          (
            mode,
            max,
            int_of_uint-pos m small,
            ltb_ℤ-pos,
            times-pos r (ms * 1000000) h.delay_fits,
            +ℤ-pos,
          )
          (elim (Bool-cases (ltb m r)) [
            | inl e ↦ rw e
            | inr e ↦ rw e (activate_after-pos (t + r * (ms * 1000000)))
          ])

  -- In the mode `retryAndPause` a pod whose retry count is above the maximum is paused while fewer
  -- pods than the limit are in pause, and else killed; any other pod comes back as in the mode
  -- `retryAndKill`.
  pub apply_retry_and_pause_lem :
      (m limit : ℕ) (rq : R) (paused : List Pod) (w' : World S)
      → Reads
      → b.activator_strategy_config.mode ≡ "retryAndPause"
      → b.activator_strategy_config.max_retry_count ≡ some m
      → m < 2 ^ 63
      → b.activator_strategy_config.max_pause_count ≡ some limit
      → limit < 2 ^ 63
      → ops.requirement label_traffic_key "pause" ≡ ok rq
      → lister (ops.add b.selector rq) w ≡ (ok paused, w')
      → apply_activator_strategy floats ops client clock time lister b p w ≡ (
          if ltb m r
          then (if ltb (length paused) limit
                then only_error (
                    wrap_error "can't set 'pause' on pod"
                      (update_pause_labels_and_annotations client b.kubervisor_name p))
                else kill_pod client b.kubervisor_name p)
              w'
          else wrap_error "can't apply activator strategy on pod"
              (activated_if_past (t + r * (ms * 1000000)))
              w)
  unfolding apply_mode apply_retry_and_pause pause_or_kill wrap_error ◌>>=◌
  apply_retry_and_pause_lem m limit rq paused w' h mode max small max_pause small' made listed =
      apply-mode h
      ∙ simp
          (
            mode,
            max,
            int_of_uint-pos m small,
            ltb_ℤ-pos,
            times-pos r (ms * 1000000) h.delay_fits,
            +ℤ-pos,
          )
          (elim (Bool-cases (ltb m r)) [
            | inl e ↦ simp (e, made, listed, max_pause, int_of_uint-pos limit small', ltb_ℤ-pos)
            | inr e ↦ rw (e, activate_after-pos (t + r * (ms * 1000000)))
          ])
