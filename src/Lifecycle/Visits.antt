-- ===== src/Lifecycle/Visits.antt =====
-- What a visit of an activator (pkg/activate/activator.go) leaves of a pod within its budget.
use kubervisor.Prelude.{
  ℕ, ◌^◌, ◌<◌, ◌≤◌, ◌≡◌, ◌⊎◌, inl, inr, arith, false, Option, none, some, List, String, ok, sym,
  subst, ◌∙◌, ok-injective, wrapping, length, ltb,
}
use kubervisor.Prelude.Int.{ℤ, pos, ltb_ℤ, ltb_ℤ-pos, int_of_uint, int_of_uint-pos}
use kubervisor.Kube.{Pod, KubeClient, TimeText, SelectorOps, deref}
use kubervisor.Kube.Exec.{Exec, wrap_error}
use kubervisor.Kube.Ensures.{
  Ensures, Ensures-pure, Ensures-gets, Ensures-split, Ensures-wrap, Ensures-bind, Ensures-lifted,
  Ensures-always, Ensures-leaves, Ensures-if,
}
use kubervisor.Labeling.{get_break_at, get_retry_count, label_traffic_key}
use kubervisor.Pod.Requests.{activation_request, pause_request}
use kubervisor.Pod.Control.{
  World, update_counted, kill_pod, update_activation_labels_and_annotations,
  update_pause_labels_and_annotations,
}
use kubervisor.Pod.ControlLaws.{cluster-update_counted, cluster-kill_pod}
use kubervisor.Api.{FloatOps}
use kubervisor.Activate.Strategy.{
  ActivatorImpl, only_error, activate_after, apply_retry_and_kill, pause_or_kill,
  apply_retry_and_pause, apply_mode, apply_activator_strategy,
}
use kubervisor.Lifecycle.{IsServer}
use kubervisor.Lifecycle.Budget.{IsWithin, IsWithin-activation, IsWithin-pause}

-- A pod that is there is within its budget.
abbrev pub InBudget : ℕ → ℕ → Option Pod → Type 0
InBudget m n none = Unit
InBudget m n (some p) = IsWithin m n p

-- The activator gives up on a pod after `m` cuts at most.
pub record IsBudgeted {F L : Type 0} (m : ℕ) (b : ActivatorImpl F L) : Type 0 where
  pub limit : ℕ
  pub limited : b.activator_strategy_config.max_retry_count ≡ some limit
  pub small : limit < 2 ^ 63
  pub within : limit ≤ m
  pub mode :
      (b.activator_strategy_config.mode ≡ "retryAndKill")
      ⊎ (b.activator_strategy_config.mode ≡ "retryAndPause")

module _ {S : Type 0} {client : KubeClient S} {stored : S → Option Pod}
    (server : IsServer client stored) (m n : ℕ) where
  abbrev pub Sound : World S → Type 0
  Sound w = InBudget m n (stored w.cluster)

  -- A write of a pod within its budget, or a deletion.
  pub update-Sound :
      (config kind : String) (q : Pod) (w : World S)
      → Sound w
      → IsWithin m n q
      → Sound (update_counted client config kind q w).1
  update-Sound config kind q w h within =
      rw (cluster-update_counted client config q w kind)
        (elim (server.updated q w.cluster) [ inl e ↦ rw e h | inr e ↦ rw e within ])

  pub kill-Sound :
      (config : String) (p : Pod) (w : World S) → Sound w → Sound (kill_pod client config p w).1
  kill-Sound config p w h =
      rw (cluster-kill_pod client config p w)
        (elim (server.deleted p.namespace p.name w.cluster) [ inl e ↦ rw e h | inr e ↦ rw e tt ])

  module _ (p : Pod) (within : IsWithin m n p) where
    -- The server holds the pod that is visited.
    abbrev Holds : World S → Type 0
    Holds w = stored w.cluster ≡ some p

    abbrev Keeps : {A : Type 0} → Exec (World S) A → Type 0
    Keeps x = Ensures Sound Holds x (λ _. Sound)

    sound : (w : World S) → Holds w → Sound w
    sound w h = rw h within

    update-Keeps :
        (config kind : String) (q : Pod)
        → IsWithin m n q
        → Keeps (update_counted client config kind q)
    update-Keeps config kind q h =
        Ensures-always (λ w e. update-Sound config kind q w (sound w e) h)

    kill-Keeps : (config : String) → Keeps (kill_pod client config p)
    kill-Keeps config = Ensures-always (λ w e. kill-Sound config p w (sound w e))

    only_error-Keeps : {A : Type 0} (x : Exec (World S) A) → Keeps x → Keeps (only_error x)
    unfolding only_error
    only_error-Keeps x h = Ensures-bind (λ _. Sound) x _ h (λ a. Ensures-pure tt (λ w k. k))

    activation-Keeps :
        (config : String) → n ≤ m → Keeps (update_activation_labels_and_annotations client config p)
    unfolding update_activation_labels_and_annotations
    activation-Keeps config h =
        Ensures-lifted (activation_request p) _ sound
          (λ q e. update-Keeps config "activate" q (IsWithin-activation m n p q within h e))

    pause-Keeps : (config : String) → Keeps (update_pause_labels_and_annotations client config p)
    unfolding update_pause_labels_and_annotations
    pause-Keeps config =
        Ensures-lifted (pause_request p) _ sound
          (λ q e. update-Keeps config "pause" q (IsWithin-pause m n p q within e))

-- A retry count that is not above the limit is not above what the limit allows.
le_of_limit :
    (limit m n : ℕ) → limit < 2 ^ 63 → limit ≤ m → ltb_ℤ (int_of_uint limit) (pos n) ≡ false → n ≤ m
le_of_limit limit m n small h e =
    let below : ltb limit n ≡ false = rw (int_of_uint-pos limit small, ltb_ℤ-pos limit n) at e in
    ground arith

module _ {F L R S : Type 0} (floats : FloatOps F) (ops : SelectorOps L R) {client : KubeClient S}
    (clock : S → ℤ) (time : TimeText) (lister : L → Exec (World S) (List Pod))
    {stored : S → Option Pod} (server : IsServer client stored)
    (reads : (l : L) (w : World S) → stored (lister l w).1.cluster ≡ stored w.cluster) (m n : ℕ)
    (b : ActivatorImpl F L) (budgeted : IsBudgeted m b) (p : Pod) (within : IsWithin m n p) where
  abbrev Visits : {A : Type 0} → Exec (World S) A → Type 0
  Visits x = Ensures (Sound server m n) (λ w. stored w.cluster ≡ some p) x (λ _. Sound server m n)

  holds : (w : World S) → stored w.cluster ≡ some p → Sound server m n w
  holds w h = rw h within

  activate_after-Visits :
      (at now : ℤ) → n ≤ m → Visits (activate_after floats ops client clock time lister b at now p)
  unfolding activate_after
  activate_after-Visits at now h =
      Ensures-if (ltb_ℤ at now) _ _
        (only_error-Keeps server m n p within _
          (activation-Keeps server m n p within b.kubervisor_name h))
        (Ensures-pure tt holds)

  -- The retries are not used up.
  retries_left :
      (mx : ℕ)
      → deref b.activator_strategy_config.max_retry_count ≡ ok mx
      → ltb_ℤ (int_of_uint mx) (pos n) ≡ false
      → n ≤ m
  retries_left mx e below =
      let same : budgeted.limit ≡ mx = ok-injective (rw budgeted.limited at e) in
      le_of_limit budgeted.limit m n budgeted.small budgeted.within (rw same below)

  kill_or_wait :
      (break_at period now : ℤ)
      → Visits
          (apply_retry_and_kill floats ops client clock time lister b p break_at (pos n) period now)
  unfolding apply_retry_and_kill
  kill_or_wait break_at period now =
      Ensures-lifted (deref b.activator_strategy_config.max_retry_count) _ holds (λ mx e.
        Ensures-split (ltb_ℤ (int_of_uint mx) (pos n)) _ _
          (λ _. kill-Keeps server m n p within b.kubervisor_name)
          (λ below. activate_after-Visits _ now (retries_left mx e below)))

  list-Visits :
      (l : L)
      → Ensures
          (Sound server m n)
          (λ w. stored w.cluster ≡ some p)
          (wrap_error "can't list paused pods" (lister l))
          (λ _ w. stored w.cluster ≡ some p)
  list-Visits l = Ensures-wrap _ (lister l) (Ensures-leaves (λ w h. reads l w ∙ h) holds)

  pause_or_kill-Visits : Visits (pause_or_kill floats ops client clock time lister b p)
  unfolding pause_or_kill
  pause_or_kill-Visits =
      Ensures-lifted
        (wrapping "unable to create labels.Requirement" (ops.requirement label_traffic_key "pause"))
        _ holds
        (λ rq _. Ensures-bind _ _ _ (list-Visits (ops.add b.selector rq)) (λ list.
          Ensures-lifted (deref b.activator_strategy_config.max_pause_count) _ holds (λ mx _.
            Ensures-if (ltb_ℤ (pos (length list)) (int_of_uint mx)) _ _
              (only_error-Keeps server m n p within _
                (Ensures-wrap _ _ (pause-Keeps server m n p within b.kubervisor_name)))
              (kill-Keeps server m n p within b.kubervisor_name))))

  pause_or_wait :
      (break_at period now : ℤ)
      → Visits (
          apply_retry_and_pause floats ops client clock time lister b p break_at (pos n) period now)
  unfolding apply_retry_and_pause
  pause_or_wait break_at period now =
      Ensures-lifted (deref b.activator_strategy_config.max_retry_count) _ holds (λ mx e.
        Ensures-split (ltb_ℤ (int_of_uint mx) (pos n)) _ _ (λ _. pause_or_kill-Visits)
          (λ below. Ensures-wrap _ _ (activate_after-Visits _ now (retries_left mx e below))))

  mode-Visits :
      (break_at period now : ℤ)
      → Visits (apply_mode floats ops client clock time lister b p break_at (pos n) period now)
  unfolding apply_mode
  mode-Visits break_at period now = elim budgeted.mode [
    | inl e ↦ simp e (kill_or_wait break_at period now)
    | inr e ↦ simp e (pause_or_wait break_at period now)
  ]

  -- A visit of a pod that the server holds leaves it within its budget, if it is still there.
  pub apply_activator_strategy-Visits :
      Visits (apply_activator_strategy floats ops client clock time lister b p)
  unfolding apply_activator_strategy
  apply_activator_strategy-Visits = Ensures-lifted (get_break_at time p) _ holds (λ break_at _.
      Ensures-lifted (get_retry_count p) _ holds (λ retry_count counted.
        Ensures-lifted _ _ holds (λ period _.
          Ensures-bind (λ _ w. stored w.cluster ≡ some p) _ _
            (Ensures-gets (λ w. clock w.cluster) (λ w h. h))
            (λ now.
              subst
                (λ r.
                  Visits (apply_mode floats ops client clock time lister b p break_at r period now))
                (ok-injective (sym within.counted ∙ counted)) (mode-Visits break_at period now)))))
