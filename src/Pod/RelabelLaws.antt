-- ===== src/Pod/RelabelLaws.antt =====
-- What activation, pause and removal change on a pod, and what they leave.
use kubervisor.Prelude.{
  ◌≡◌, refl, sym, ◌∙◌, subst, ok-injective, none, some, String, ok, str_eq, if◌then◌else◌,
}
use kubervisor.Prelude.Dict
use kubervisor.Prelude.Dict.{Dict}
use kubervisor.Kube.{Pod, read}
use kubervisor.Labeling.{
  label_traffic_key, label_breaker_name_key, annotation_break_at_key, annotation_retry_count_key,
  is_pod_traffic_label_ok_or_pause, or_empty, LabelTraffic, label_traffic_yes, label_traffic_pause,
  text_of, is_yes, is_pause,
}
use kubervisor.Pod.Requests.{copy_and_default, activation_request, pause_request, remove_request}
use kubervisor.Pod.RequestLaws.{label, annotation, get-or_empty, read-or_empty, traffic_of}

-- What it means that `q` is `p` with its traffic label set to `v` and nothing else changed.
pub record IsRelabelled (v : LabelTraffic) (p q : Pod) : Type 0 where
  pub traffic : is_pod_traffic_label_ok_or_pause q ≡ (is_yes v, is_pause v, none)
  pub labels :
      (k : String)
      → label q k ≡ (if str_eq label_traffic_key k then some (text_of v) else label p k)
  pub annotations : (k : String) → annotation q k ≡ annotation p k
  pub name : q.name ≡ p.name
  pub namespace : q.namespace ≡ p.namespace

relabelled : LabelTraffic → Pod → Pod
unfolding copy_and_default
relabelled v p = record (copy_and_default p) {
  labels = some (Dict.put (or_empty p.labels) label_traffic_key (text_of v));
}

relabelled-IsRelabelled : (v : LabelTraffic) (p : Pod) → IsRelabelled v p (relabelled v p)
unfolding relabelled read
relabelled-IsRelabelled v p = record {
  traffic = traffic_of (relabelled v p) v (rw Dict.get-put);
  labels = λ k. simp (Dict.get-put, get-or_empty);
  annotations = λ k. read-or_empty p.annotations k;
  name = refl;
  namespace = refl;
}

activation_request-eq : (p : Pod) → activation_request p ≡ ok (relabelled label_traffic_yes p)
unfolding activation_request relabelled
activation_request-eq p = refl

pause_request-eq : (p : Pod) → pause_request p ≡ ok (relabelled label_traffic_pause p)
unfolding pause_request relabelled
pause_request-eq p = refl

-- A pause that succeeds changes the traffic label alone.
pub IsRelabelled-pause : (p q : Pod) → pause_request p ≡ ok q → IsRelabelled label_traffic_pause p q
IsRelabelled-pause p q e =
    subst (IsRelabelled label_traffic_pause p) (ok-injective (sym (pause_request-eq p) ∙ e))
      (relabelled-IsRelabelled label_traffic_pause p)

pub IsRelabelled-activation :
    (p q : Pod) → activation_request p ≡ ok q → IsRelabelled label_traffic_yes p q
IsRelabelled-activation p q e =
    subst (IsRelabelled label_traffic_yes p) (ok-injective (sym (activation_request-eq p) ∙ e))
      (relabelled-IsRelabelled label_traffic_yes p)

-- Activation sends the pod with the traffic label `yes`, and a pause sends it with `pause`; no other
-- label, no annotation and no name changes, the retry count in particular.
pub request-IsRelabelled :
    (p : Pod)
    → ((q : Pod) × (activation_request p ≡ ok q) × IsRelabelled label_traffic_yes p q)
      × ((q : Pod) × (pause_request p ≡ ok q) × IsRelabelled label_traffic_pause p q)
request-IsRelabelled p = (
  (
    relabelled label_traffic_yes p,
    activation_request-eq p,
    relabelled-IsRelabelled label_traffic_yes p,
  ),
  (
    relabelled label_traffic_pause p,
    pause_request-eq p,
    relabelled-IsRelabelled label_traffic_pause p,
  ),
)

-- The removal deletes the name label and the two annotations, and leaves every other label and
-- annotation: the traffic label and the strategy label stay as they were.
pub remove_request_keeps :
    (p : Pod)
    → ((k : String)
        → label (remove_request p) k
          ≡ (if str_eq label_breaker_name_key k then none else label p k))
      × ((k : String)
          → annotation (remove_request p) k ≡ (
              if str_eq annotation_retry_count_key k
              then none
              else if str_eq annotation_break_at_key k
              then none
              else annotation p k))
unfolding remove_request read
remove_request_keeps p =
    (λ k. simp (Dict.get-remove, get-or_empty), λ k. simp (Dict.get-remove, get-or_empty))
