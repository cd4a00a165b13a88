-- ===== src/Lifecycle/Progress.antt =====
-- A pod that was cut does not stay out of traffic: what the visit of an activator makes of it in time.
use kubervisor.Prelude.{
  ℕ, ◌+◌, ◌*◌, ◌^◌, ◌<◌, ◌≤◌, ◌≡◌, ◌⊎◌, inl, inr, refl, arith, true, Option, none, some, List,
  String, length, false, Outcome, ok, err, panic, ap, ltb, Bool-cases,
}
use kubervisor.Prelude.Int.{ℤ}
use kubervisor.Kube.{Pod, KubeClient, TimeText, SelectorOps}
use kubervisor.Kube.Exec.{Exec, lift, pure, continue, wrap_error, ◌>>=◌}
use kubervisor.Labeling.{label_traffic_key, is_pod_traffic_label_ok_or_pause}
use kubervisor.Pod.FilterLaws.{has_traffic}
use kubervisor.Pod.RelabelLaws.{request-IsRelabelled}
use kubervisor.Pod.Control.{
  World, kill_pod, update_activation_labels_and_annotations, update_pause_labels_and_annotations,
}
use kubervisor.Pod.ControlLaws.{cluster-update_counted, cluster-kill_pod}
use kubervisor.Api.{FloatOps}
use kubervisor.Activate.Strategy.{ActivatorImpl, only_error, apply_activator_strategy}
use kubervisor.Activate.Decisions.{Reads, apply_retry_and_kill_lem, apply_retry_and_pause_lem}

-- The server takes the writes on one pod, while it holds the pod as it was read: it stores what is sent
-- under the name of the pod, and deletes the pod by its name.
pub record IsWilling {S : Type 0} (client : KubeClient S) (stored : S → Option Pod) (p : Pod)
    : Type 0 where
  pub updates :
      (q : Pod) (s : S)
      → stored s ≡ some p
      → q.namespace ≡ p.namespace
      → q.name ≡ p.name
      → stored (client.update q s).1 ≡ some q
  pub deletes : (s : S) → stored s ≡ some p → stored (client.delete p.namespace p.name s).1 ≡ none

module _ {W A : Type 0} where
  continued : (r : Outcome A) (w : W) → (continue (λ _. pure tt) r w).1 ≡ w
  unfolding pure
  continued (ok a) w = refl
  continued (err e) w = refl
  continued panic w = refl

  left_by-only_error : (m : Exec W A) (w : W) → (only_error m w).1 ≡ (m w).1
  unfolding only_error ◌>>=◌
  left_by-only_error m w = continued (m w).0 (m w).1

left_by-wrap_error :
    {W A : Type 0} (text : String) (m : Exec W A) (w : W) → (wrap_error text m w).1 ≡ (m w).1
unfolding wrap_error
left_by-wrap_error text m w = refl

-- The pod is there, and in traffic.
abbrev pub IsServing : {S : Type 0} → (S → Option Pod) → World S → Type 0
IsServing stored v = (q : Pod) × (stored v.cluster ≡ some q) × (has_traffic q ≡ true)

module _ {F L R S : Type 0} (floats : FloatOps F) (ops : SelectorOps L R) (client : KubeClient S)
    (clock : S → ℤ) (time : TimeText) (lister : L → Exec (World S) (List Pod))
    (stored : S → Option Pod) (b : ActivatorImpl F L) (p : Pod) (w : World S)
    (willing : IsWilling client stored p) (held : stored w.cluster ≡ some p) where
  killed : stored (kill_pod client b.kubervisor_name p w).1.cluster ≡ none
  killed = rw (cluster-kill_pod client b.kubervisor_name p w) (willing.deletes w.cluster held)

  activated :
      IsServing stored
        (only_error (update_activation_labels_and_annotations client b.kubervisor_name p) w).1
  unfolding update_activation_labels_and_annotations ◌>>=◌ lift
  activated =
      let (q, sent, relabelled) = (request-IsRelabelled p).0 in
      (
        q,
        rw
            (
              left_by-only_error
                  (update_activation_labels_and_annotations client b.kubervisor_name p) w,
              sent,
              cluster-update_counted client b.kubervisor_name q w "activate",
            )
            (willing.updates q w.cluster held relabelled.namespace relabelled.name),
        ap (λ t. t.0) relabelled.traffic,
      )

  -- In the mode `retryAndKill`, on a server that holds the pod as the activator reads it and takes the
  -- writes on this pod, and with a period, a clock and annotations that can be read and a maximum that is
  -- an `int`: once as many periods have passed since the last cut of the pod as its retry count says, the
  -- visit of the activator ends the time of the pod out of traffic. If the count is above the maximum
  -- the pod is deleted, and else it is back in traffic.
  pub visit_ends_rest :
      (x : F) (t r now ms m : ℕ)
      → Reads floats ops client clock time lister b p w x t r now ms
      → b.activator_strategy_config.mode ≡ "retryAndKill"
      → b.activator_strategy_config.max_retry_count ≡ some m
      → m < 2 ^ 63
      → t + r * (ms * 1000000) < now
      → (let v = (apply_activator_strategy floats ops client clock time lister b p w).1 in
          ((m < r) × (stored v.cluster ≡ none)) ⊎ ((r ≤ m) × IsServing stored v))
  visit_ends_rest x t r now ms m reads mode max small past =
      rw
        (apply_retry_and_kill_lem floats ops client clock time lister b p w x t r now ms m reads
          mode max small)
        (elim (Bool-cases (ltb m r)) [
          | inl e ↦ rw e (inl (ground arith, killed))
          | inr e ↦ rw (e, due) (inr (ground arith, activated))
        ])
    where
      due : ltb (t + r * (ms * 1000000)) now ≡ true
      due = ground arith

-- The pod is there, and in pause.
abbrev pub IsPaused : {S : Type 0} → (S → Option Pod) → World S → Type 0
IsPaused stored v =
    (q : Pod) × (stored v.cluster ≡ some q)
    × (is_pod_traffic_label_ok_or_pause q ≡ (false, true, none))

module _ {F L R S : Type 0} (floats : FloatOps F) (ops : SelectorOps L R) (client : KubeClient S)
    (clock : S → ℤ) (time : TimeText) (lister : L → Exec (World S) (List Pod))
    (stored : S → Option Pod) (b : ActivatorImpl F L) (p : Pod) (w : World S)
    (willing : IsWilling client stored p) (held : stored w.cluster ≡ some p) where
  put_in_pause :
      (w' : World S)
      → stored w'.cluster ≡ some p
      → IsPaused stored
          (only_error
            (wrap_error "can't set 'pause' on pod"
              (update_pause_labels_and_annotations client b.kubervisor_name p))
            w').1
  unfolding update_pause_labels_and_annotations ◌>>=◌ lift
  put_in_pause w' held' =
      let (q, sent, relabelled) = (request-IsRelabelled p).1 in
      (
        q,
        rw
            (
              left_by-only_error
                  (wrap_error "can't set 'pause' on pod"
                    (update_pause_labels_and_annotations client b.kubervisor_name p))
                  w',
              left_by-wrap_error "can't set 'pause' on pod"
                  (update_pause_labels_and_annotations client b.kubervisor_name p) w',
              sent,
              cluster-update_counted client b.kubervisor_name q w' "pause",
            )
            (willing.updates q w'.cluster held' relabelled.namespace relabelled.name),
        relabelled.traffic,
      )

  -- In the mode `retryAndPause`, on a server that holds the pod as the activator reads it and takes
  -- the writes on this pod, with a period, a clock and annotations that can be read, limits that
  -- are `int`s, and a lister that lists the paused pods and leaves the pod: once as many periods
  -- have passed since the last cut of the pod as its retry count says, the visit of the activator
  -- ends the rest of the pod. If the count is above the maximum the pod is in pause where fewer
  -- pods than the limit are, and deleted where they are as many; and else it is back in traffic.
  pub visit_ends_rest_pausing :
      (x : F) (t r now ms m limit : ℕ) (rq : R) (paused : List Pod) (w' : World S)
      → Reads floats ops client clock time lister b p w x t r now ms
      → b.activator_strategy_config.mode ≡ "retryAndPause"
      → b.activator_strategy_config.max_retry_count ≡ some m
      → m < 2 ^ 63
      → b.activator_strategy_config.max_pause_count ≡ some limit
      → limit < 2 ^ 63
      → ops.requirement label_traffic_key "pause" ≡ ok rq
      → lister (ops.add b.selector rq) w ≡ (ok paused, w')
      → stored w'.cluster ≡ some p
      → t + r * (ms * 1000000) < now
      → (let v = (apply_activator_strategy floats ops client clock time lister b p w).1 in
          ((m < r) × (length paused < limit) × IsPaused stored v)
          ⊎ ((m < r) × (limit ≤ length paused) × (stored v.cluster ≡ none))
          ⊎ ((r ≤ m) × IsServing stored v))
  visit_ends_rest_pausing x t r now ms m limit rq paused w' reads mode max small max_pause small'
        made listed left past =
      rw
        (apply_retry_and_pause_lem floats ops client clock time lister b p w x t r now ms m limit rq
          paused w' reads mode max small max_pause small' made listed)
        (elim (Bool-cases (ltb m r)) [
          | inl e ↦ elim (Bool-cases (ltb (length paused) limit)) [
            | inl few ↦ rw (e, few) (inl (ground arith, ground arith, put_in_pause w' left))
            | inr many ↦
                rw (e, many)
                  (inr (
                    inl (
                      ground arith,
                      ground arith,
                      killed floats ops client clock time lister stored b p w' willing left,
                    )))
          ]
          | inr e ↦
              rw
                (
                  e,
                  due,
                  left_by-wrap_error "can't apply activator strategy on pod"
                      (only_error
                        (update_activation_labels_and_annotations client b.kubervisor_name p))
                      w,
                )
                (inr (
                  inr (
                    ground arith,
                    activated floats ops client clock time lister stored b p w willing held,
                  )))
        ])
    where
      due : ltb (t + r * (ms * 1000000)) now ≡ true
      due = ground arith
