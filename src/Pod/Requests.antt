-- ===== src/Pod/Requests.antt =====
-- pkg/pod/control.go: the pods that its operations send to the API server.
use kubervisor.Prelude.{some, String, Outcome, ok, ◌>>=◌}
use kubervisor.Prelude.Int.{ℤ, pos, ◌+ℤ◌, wrap64}
use kubervisor.Prelude.Decimal.{itoa}
use kubervisor.Kube.{Pod, TimeText, set_label, set_annotation, delete_entry}
use kubervisor.Labeling.{
  label_traffic_yes, label_traffic_no, label_traffic_pause, text_of, label_traffic_key,
  label_breaker_name_key, label_breaker_strategy_key, annotation_break_at_key,
  annotation_retry_count_key, or_empty, set_traffic_label, get_retry_count,
}

unfoldable pub copy_and_default : Pod → Pod
copy_and_default input = record input {
  labels = some (or_empty input.labels);
  annotations = some (or_empty input.annotations);
}

unfoldable pub init_request : String → Pod → Outcome Pod
unfolding set_label copy_and_default set_traffic_label
init_request config input = do
  p ← set_label label_breaker_name_key config (copy_and_default input)
  ok (set_traffic_label label_traffic_yes p)

unfoldable pub break_request : TimeText → ℤ → String → String → Pod → Outcome Pod
unfolding set_label set_annotation copy_and_default
break_request time now config strategy input = do
  p ← set_label label_breaker_name_key config (copy_and_default input)
  p₁ ← set_label label_breaker_strategy_key strategy p
  p₂ ← set_label label_traffic_key (text_of label_traffic_no) p₁
  retry_count ← get_retry_count p₂
  p₃ ← set_annotation annotation_break_at_key (time.format now) p₂
  set_annotation annotation_retry_count_key (itoa (wrap64 (retry_count +ℤ pos 1))) p₃

unfoldable pub activation_request : Pod → Outcome Pod
unfolding set_label copy_and_default
activation_request input =
    set_label label_traffic_key (text_of label_traffic_yes) (copy_and_default input)

unfoldable pub pause_request : Pod → Outcome Pod
unfolding set_label copy_and_default
pause_request input =
    set_label label_traffic_key (text_of label_traffic_pause) (copy_and_default input)

unfoldable pub remove_request : Pod → Pod
unfolding copy_and_default delete_entry
remove_request input =
    let p = copy_and_default input in
    record p {
      labels = delete_entry label_breaker_name_key p.labels;
      annotations =
          delete_entry annotation_retry_count_key
            (delete_entry annotation_break_at_key p.annotations);
    }
