-- ===== src/Activate/Panics.antt =====
-- The panics of applyActivatorStrategy, and the test for defaults of the resource.
use kubervisor.Prelude.{
  ℕ, ◌≡◌, refl, arith, inl, inr, Option-cases, true, false, some, List, String, ok,
}
use kubervisor.Prelude.Int.{ℤ, ◌+ℤ◌}
use kubervisor.Kube.{Pod, KubeClient, TimeText, SelectorOps, read}
use kubervisor.Kube.Exec.{Exec}
use kubervisor.Kube.Returns.{
  panics, Returns, Returns-pure, Returns-gets, Returns-lift, Returns-if, Returns-bind,
  wrapping_returns, returns_rules,
}
use kubervisor.Labeling.{get_break_at, get_retry_count, label_traffic_key, annotation_break_at_key}
use kubervisor.Pod.Control.{
  World, kill_pod, update_counted, update_activation_labels_and_annotations,
  update_pause_labels_and_annotations,
}
use kubervisor.Pod.RequestLaws.{get_retry_count_ne_panic}
use kubervisor.Pod.RelabelLaws.{request-IsRelabelled}
use kubervisor.Api.{ActivatorStrategy, FloatOps}
use kubervisor.Api.Defaults.{is_activator_strategy_defaulted}
use kubervisor.Kube.Exec.{wrap_error}
use kubervisor.Activate.Strategy.{
  ActivatorImpl, only_error, activate_after, apply_periodic, apply_retry_and_kill, pause_or_kill,
  apply_retry_and_pause, apply_mode, apply_activator_strategy,
}

only_error-Returns : {W A : Type 0} (m : Exec W A) → Returns m → Returns (only_error m)
unfolding only_error
only_error-Returns m h = Returns-bind m _ h (λ a. Returns-pure tt)

wrap_error-Returns :
    {W A : Type 0} (text : String) (m : Exec W A) → Returns m → Returns (wrap_error text m)
unfolding wrap_error
wrap_error-Returns text m h = record { at = λ w. wrapping_returns text (m w).0 (h.at w) }

ruleset act_rules = (returns_rules, only_error-Returns, wrap_error-Returns)

module _ {F L R S : Type 0} (floats : FloatOps F) (ops : SelectorOps L R) (client : KubeClient S)
    (clock : S → ℤ) (time : TimeText) (lister : L → Exec (World S) (List Pod))
    (b : ActivatorImpl F L)
    (update_returns : (q : Pod) (s : S) → panics (client.update q s).0 ≡ false)
    (list_returns : (l : L) (w : World S) → panics (lister l w).0 ≡ false)
    (requirement_returns : (k v : String) → panics (ops.requirement k v) ≡ false)
    (parse_returns : (s : String) → panics (time.parse s) ≡ false) where
  break_at_returns : (p : Pod) → panics (get_break_at time p) ≡ false
  unfolding get_break_at
  break_at_returns p = elim (Option-cases (read p.annotations annotation_break_at_key)) [
    | inl e ↦ rw (e, get_break_at)
    | inr (s, e) ↦ rw (e, get_break_at) (parse_returns s)
  ]

  retry_count_returns : (p : Pod) → panics (get_retry_count p) ≡ false
  retry_count_returns p = ground (arith, get_retry_count_ne_panic p)

  counted-Returns :
      (kind : String) (q : Pod) → Returns (update_counted client b.kubervisor_name kind q)
  unfolding update_counted
  counted-Returns kind q = record { at = λ w. ground (arith, update_returns q w.cluster) }

  activation-Returns :
      (p : Pod) → Returns (update_activation_labels_and_annotations client b.kubervisor_name p)
  unfolding update_activation_labels_and_annotations
  activation-Returns p =
      let (q, e, same) = (request-IsRelabelled p).0 in
      rw e (Returns-bind _ _ (Returns-lift (ok q) refl) (counted-Returns "activate"))

  pause-Returns :
      (p : Pod) → Returns (update_pause_labels_and_annotations client b.kubervisor_name p)
  unfolding update_pause_labels_and_annotations
  pause-Returns p =
      let (q, e, same) = (request-IsRelabelled p).1 in
      rw e (Returns-bind _ _ (Returns-lift (ok q) refl) (counted-Returns "pause"))

  kill-Returns : (p : Pod) → Returns (kill_pod client b.kubervisor_name p)
  unfolding kill_pod
  kill-Returns p = record { at = λ w. ground arith }

  list-Returns : (l : L) → Returns (lister l)
  list-Returns l = record { at = list_returns l }

  activate_after-Returns :
      (at now : ℤ) (p : Pod)
      → Returns (activate_after floats ops client clock time lister b at now p)
  unfolding activate_after
  activate_after-Returns at now p = search (act_rules, activation-Returns)

  retry_and_kill-Returns :
      (m : ℕ) (p : Pod) (t r d now : ℤ)
      → b.activator_strategy_config.max_retry_count ≡ some m
      → Returns (apply_retry_and_kill floats ops client clock time lister b p t r d now)
  unfolding apply_retry_and_kill
  retry_and_kill-Returns m p t r d now e = simp e (
      Returns-bind _ _ (Returns-lift (ok m) refl)
        λ k. Returns-if _ _ _ (kill-Returns p) (activate_after-Returns _ now p))

  pause_or_kill-Returns :
      (k : ℕ) (p : Pod)
      → b.activator_strategy_config.max_pause_count ≡ some k
      → Returns (pause_or_kill floats ops client clock time lister b p)
  unfolding pause_or_kill
  pause_or_kill-Returns k p e = simp e (
      Returns-bind _ _
        (Returns-lift _ (wrapping_returns _ _ (requirement_returns label_traffic_key "pause")))
        λ rq. Returns-bind _ _ (wrap_error-Returns _ _ (list-Returns _)) λ list.
          Returns-bind _ _ (Returns-lift (ok k) refl) λ n.
            Returns-if _ _ _ (only_error-Returns _ (wrap_error-Returns _ _ (pause-Returns p)))
              (kill-Returns p))

  retry_and_pause-Returns :
      (m k : ℕ) (p : Pod) (t r d now : ℤ)
      → b.activator_strategy_config.max_retry_count ≡ some m
      → b.activator_strategy_config.max_pause_count ≡ some k
      → Returns (apply_retry_and_pause floats ops client clock time lister b p t r d now)
  unfolding apply_retry_and_pause
  retry_and_pause-Returns m k p t r d now e f = simp e (
      Returns-bind _ _ (Returns-lift (ok m) refl) λ n.
        Returns-if _ _ _ (pause_or_kill-Returns k p f)
          (wrap_error-Returns _ _ (activate_after-Returns _ now p)))

  mode-Returns :
      (m k : ℕ) (p : Pod) (t r d now : ℤ)
      → b.activator_strategy_config.max_retry_count ≡ some m
      → b.activator_strategy_config.max_pause_count ≡ some k
      → Returns (apply_mode floats ops client clock time lister b p t r d now)
  unfolding apply_mode apply_periodic
  mode-Returns m k p t r d now e f = Returns-if _ _ _ (activate_after-Returns (t +ℤ d) now p) (
      Returns-if _ _ _ (retry_and_kill-Returns m p t r d now e)
        (Returns-if _ _ _ (retry_and_pause-Returns m k p t r d now e f) (Returns-pure tt)))

  defaulted_fields :
      (a : ActivatorStrategy F)
      → is_activator_strategy_defaulted a ≡ true
      → (m : ℕ) × (k : ℕ) × (x : F) × (a.max_retry_count ≡ some m)
        × (a.max_pause_count ≡ some k)
        × (a.period ≡ some x)
  unfolding is_activator_strategy_defaulted
  defaulted_fields a h = ground arith

  -- An activator whose strategy passes the test for defaults never panics, as long as the API
  -- server, the lister, the requirement and the parser of times return.
  pub defaulted-Returns :
      (p : Pod)
      → is_activator_strategy_defaulted b.activator_strategy_config ≡ true
      → Returns (apply_activator_strategy floats ops client clock time lister b p)
  unfolding apply_activator_strategy
  defaulted-Returns p h =
      let (m, k, x, e, f, g) = defaulted_fields b.activator_strategy_config h in
      simp g (
        Returns-bind _ _ (Returns-lift _ (break_at_returns p)) λ t.
          Returns-bind _ _ (Returns-lift _ (retry_count_returns p)) λ r.
            Returns-bind _ _ (Returns-lift (ok _) refl)
              λ d. Returns-bind _ _ (Returns-gets _) λ now. mode-Returns m k p t r d now e f)
