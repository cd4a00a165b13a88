-- ===== src/Lifecycle/Budget.antt =====
-- How often a pod may be cut: what the requests of pkg/pod/control.go make of a pod within its budget.
use kubervisor.Prelude.{
  ℕ, ◌+◌, ◌^◌, ◌<◌, ◌≤◌, ◌≡◌, ◌⊎◌, inl, inr, refl, arith, Bool, true, false, not, ◌&&◌, some,
  String, ok, ◌∙◌, is_some,
}
use kubervisor.Prelude.Int.{ℤ, pos}
use kubervisor.Kube.{Pod, TimeText}
use kubervisor.Labeling.{
  get_retry_count, label_traffic_key, annotation_retry_count_key, LabelTraffic, label_traffic_no,
  label_traffic_pause, text_of, is_yes, label_breaker_name_key,
}
use kubervisor.Pod.FilterLaws.{has_traffic}
use kubervisor.Pod.Requests.{
  init_request, break_request, activation_request, pause_request, remove_request,
}
use kubervisor.Pod.RequestLaws.{
  label, label-break, traffic_of, retry_count_none, get_retry_count-request, get_retry_count-break,
}
use kubervisor.Pod.RelabelLaws.{remove_request_keeps, IsRelabelled-pause}
use kubervisor.Controller.Pods.{is_initialized}

-- A pod of the resource that gets no traffic.
abbrev pub rests : Pod → Bool
rests p = is_initialized p && not (has_traffic p)

-- The retry count of the pod is `n`, which is `m + 1` at most, and `m` at most unless the pod gets no
-- traffic.
pub record IsWithin (m n : ℕ) (p : Pod) : Type 0 where
  pub counted : get_retry_count p ≡ ok (pos n)
  pub bounded : n ≤ m + 1
  pub rested : (n ≤ m) ⊎ (rests p ≡ true)

rests_of :
    (q : Pod) (l : LabelTraffic)
    → label q label_traffic_key ≡ some (text_of l)
    → is_some (label q label_breaker_name_key) ≡ true
    → is_yes l ≡ false
    → rests q ≡ true
rests_of q l traffic named out =
    rw (traffic, named) ((λ i. not (traffic_of q l traffic i).0) ∙ rw out)

module _ (m n : ℕ) (p q : Pod) (within : IsWithin m n p) where
  -- A cut of a pod in traffic.
  pub IsWithin-break :
      (time : TimeText) (now : ℤ) (config strategy : String)
      → m + 1 < 2 ^ 63
      → has_traffic p ≡ true
      → break_request time now config strategy p ≡ ok q
      → IsWithin m (n + 1) q
  IsWithin-break time now config strategy small serving e =
      let before : n ≤ m = elim within.rested [ inl h ↦ h | inr r ↦ absurd (ground (arith, r)) ] in
      let labels = label-break time now config strategy p q (pos n) within.counted e in
      record {
        counted =
            get_retry_count-break time now config strategy p q n within.counted (omega arith) e;
        bounded = omega arith;
        rested = inr (
            rests_of q label_traffic_no (labels label_traffic_key)
              (rw (labels label_breaker_name_key)) refl);
      }

  pub IsWithin-activation : n ≤ m → activation_request p ≡ ok q → IsWithin m n q
  IsWithin-activation h e = record {
    counted = get_retry_count-request "" p q (inr (inl e)) ∙ within.counted;
    bounded = within.bounded;
    rested = inl h;
  }

  pub IsWithin-pause : pause_request p ≡ ok q → IsWithin m n q
  IsWithin-pause e = record {
    counted = get_retry_count-request "" p q (inr (inr e)) ∙ within.counted;
    bounded = within.bounded;
    rested = elim within.rested [
      | inl h ↦ inl h
      | inr r ↦
          let relabelled = IsRelabelled-pause p q e in
          inr (
            rests_of q label_traffic_pause (relabelled.labels label_traffic_key)
              (rw (relabelled.labels label_breaker_name_key) (ground (arith, r))) refl)
    ];
  }

  pub IsWithin-init :
      (config : String) → is_initialized p ≡ false → init_request config p ≡ ok q → IsWithin m n q
  IsWithin-init config fresh e = record {
    counted = get_retry_count-request config p q (inl e) ∙ within.counted;
    bounded = within.bounded;
    rested = elim within.rested [ inl h ↦ inl h | inr r ↦ absurd (ground (arith, r)) ];
  }

pub IsWithin-remove : (m : ℕ) (p : Pod) → IsWithin m 0 (remove_request p)
IsWithin-remove m p = record {
  counted =
      retry_count_none (remove_request p) ((remove_request_keeps p).1 annotation_retry_count_key);
  bounded = omega arith;
  rested = inl (omega arith);
}
