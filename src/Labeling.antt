-- ===== src/Labeling.antt =====
-- pkg/labeling/traffic.go and pkg/labeling/breaker.go: what the program writes on a pod, and how it
-- reads it back.
use kubervisor.Prelude.{
  Bool, true, false, Option, none, some, [], String, Outcome, ok, err, panic, Error, errorf, str_eq,
  if◌then◌else◌, ◌>>=◌,
}
use kubervisor.Prelude.Int.{ℤ, pos}
use kubervisor.Prelude.Dict
use kubervisor.Prelude.Dict.{Dict}
use kubervisor.Prelude.Decimal.{atoi}
use kubervisor.Kube.{Pod, TimeText, SelectorOps, read}

-- The values of the traffic label.
pub data LabelTraffic : Type 0 where
  label_traffic_yes label_traffic_no label_traffic_pause : LabelTraffic

-- The conversion `string(l)`.
abbrev pub text_of : LabelTraffic → String
text_of label_traffic_yes = "yes"
text_of label_traffic_no = "no"
text_of label_traffic_pause = "pause"

abbrev pub label_traffic_key : String
label_traffic_key = "kubervisor/traffic"

abbrev pub label_breaker_name_key : String
label_breaker_name_key = "kubervisor/name"

abbrev pub label_breaker_strategy_key : String
label_breaker_strategy_key = "kubervisor/strategy"

abbrev pub annotation_break_at_key : String
annotation_break_at_key = "breaker/breakAt"

abbrev pub annotation_retry_count_key : String
annotation_retry_count_key = "breaker/retryCount"

-- The map to write to: a new one in place of a nil one.
abbrev pub or_empty : Option (Dict String) → Dict String
or_empty none = []
or_empty (some m) = m

unfoldable pub set_traffic_label : LabelTraffic → Pod → Pod
set_traffic_label l p = record p {
  labels = some (Dict.put (or_empty p.labels) label_traffic_key (text_of l));
}

unfoldable pub to_label_traffic : String → Outcome LabelTraffic
to_label_traffic value =
    if str_eq value "yes"
    then ok label_traffic_yes
    else if str_eq value "no"
    then ok label_traffic_no
    else if str_eq value "pause"
    then ok label_traffic_pause
    else err (errorf "Unknown value for LabelTraffic")

-- The tests `l == LabelTrafficYes` and `l == LabelTrafficPause`.
abbrev pub is_yes : LabelTraffic → Bool
is_yes label_traffic_yes = true
is_yes _ = false

abbrev pub is_pause : LabelTraffic → Bool
is_pause label_traffic_pause = true
is_pause _ = false

-- Whether the pod is marked for traffic, whether it is in pause, and the error.
unfoldable pub is_pod_traffic_label_ok_or_pause : Pod → Bool × Bool × Option Error
is_pod_traffic_label_ok_or_pause p = elim (read p.labels label_traffic_key) [
  | none ↦ (false, false, some (errorf "no traffic label"))
  | some value ↦ elim (to_label_traffic value) [
    | ok l ↦ (is_yes l, is_pause l, none)
    | err e ↦ (false, false, some e)
    | panic ↦ (false, false, none)
  ]
]

unfoldable pub get_break_at : TimeText → Pod → Outcome ℤ
get_break_at time p = elim (read p.annotations annotation_break_at_key) [
  | none ↦ err (errorf "No breakAt annotation")
  | some s ↦ time.parse s
]

unfoldable pub get_retry_count : Pod → Outcome ℤ
get_retry_count p = elim (read p.annotations annotation_retry_count_key) [
  | none ↦ ok (pos 0)
  | some s ↦ atoi s
]

-- The selector, or all pods if it is nil, with the name of the breaker's resource.
unfoldable pub selector_with_breaker_name :
    {L R : Type 0} → SelectorOps L R → Option L → String → Outcome L
selector_with_breaker_name ops input name = do
  rq ← ops.requirement label_breaker_name_key name
  ok (ops.add (elim input [ none ↦ ops.everything | some l ↦ l ]) rq)
