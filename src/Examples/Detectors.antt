-- ===== src/Examples/Detectors.antt =====
-- The theorems about the analyses at concrete samples.
use kubervisor.Prelude.{
  ℕ, ◌*◌, ◌≡◌, refl, arith, true, ◌&&◌, ◌==◌, none, some, List, [], ◌∷◌, String, ok, select,
}
use kubervisor.Prelude.Dict
use kubervisor.Kube.{Pod}
use kubervisor.Kube
use kubervisor.Kube.Returns.{panics}
use kubervisor.Pod.Tools.{is_ready}
use kubervisor.Labeling
use kubervisor.Api.{DiscreteValueOutOfList, BreakerStrategy}
use kubervisor.Api.Validation
use kubervisor.Detector.Samples
use kubervisor.Detector.Samples.{
  OkkoCount, Sample, build_counters, counters_of, side, total, build_counters-total,
  read_deviations,
}
use kubervisor.Detector.Index.{last_named, without_traffic, no_pods}
use kubervisor.Detector.Discrete.{vector, get_pods_out_of_bounds, judge_all}
use kubervisor.Detector.DiscreteLaws.{
  out_of_bounds, get_pods-out_of_bounds, any_idle, panics-judge_all,
}
use kubervisor.Detector.Factory.{Detector, new_detector, IsDetectorOf, new_detector-IsDetectorOf}
use kubervisor.Examples.Fixtures.{pod_with, millionths}

-- Codes of answers: 200 is good; at most half of the answers may be bad.
abbrev by_code : DiscreteValueOutOfList
by_code = record {
  prometheus_service = "prometheus:9090";
  prom_ql = "rpc_count";
  key = "code";
  pod_name_key = "pod";
  good_values = some ("200" ∷ []);
  bad_values = none;
  tolerance_percent = some 50;
  minimum_activity_count = some 1;
}

abbrev sample : String → String → ℕ → Sample ℕ
sample pod code n = record { metric = ("pod", pod) ∷ ("code", code) ∷ []; value = n * 1000000 }

abbrev samples : List (Sample ℕ)
samples = sample "a" "200" 3 ∷ sample "a" "500" 7 ∷ sample "b" "200" 4 ∷ []

abbrev two_pods : List Pod
two_pods = pod_with "a" "yes" "0" ∷ pod_with "b" "yes" "0" ∷ []

build_counters-total_example :
    side true (counters_of (build_counters millionths by_code samples) "a")
    ≡ total millionths by_code true "a" samples
unfolding Samples.value_checker Samples.label_of Samples.contains_string Dict.get
build_counters-total_example =
    build_counters-total millionths by_code true "a" samples (omega arith)

abbrev strategy : BreakerStrategy ℕ
strategy = record {
  name = "errors";
  evaluation_period = none;
  min_pods_available_count = some 1;
  min_pods_available_ratio = none;
  discrete_value_out_of_list = some by_code;
  continuous_value_deviation = none;
  custom_service = "";
  activator = none;
}

get_pods-out_of_bounds_example :
    get_pods_out_of_bounds millionths by_code (ok two_pods) (ok (vector samples))
    ≡ ok (
        out_of_bounds 1 50
          (λ name. last_named name (without_traffic (select is_ready two_pods)) none)
          (λ name. last_named name (select is_ready two_pods) none)
          (build_counters millionths by_code samples))
unfolding build_counters Samples.value_checker Samples.label_of Samples.contains_string
    Samples.counters_of Dict.get Dict.put is_ready Labeling.is_pod_traffic_label_ok_or_pause
    Kube.read Labeling.to_label_traffic
get_pods-out_of_bounds_example =
    get_pods-out_of_bounds by_code 1 50 refl refl millionths two_pods samples (omega arith)
      ((omega arith, omega arith), ((omega arith, omega arith), tt)) refl

-- With a minimal activity of zero.
abbrev no_minimum : DiscreteValueOutOfList
no_minimum = record by_code { minimum_activity_count = some 0 }

abbrev idle : Dict.Dict OkkoCount
idle = ("a", record { ok_count = 0; ko_count = 0 }) ∷ []

panics-judge_all_example :
    panics (judge_all no_minimum no_pods idle) ≡ (0 == 0 && any_idle no_pods idle)
panics-judge_all_example =
    panics-judge_all no_minimum 0 50 refl refl no_pods idle ((omega arith, omega arith), tt)

new_detector-IsDetectorOf_example :
    (x : Detector ℕ ℕ) × (new_detector (λ service. ok tt) none strategy ≡ ok x)
    × IsDetectorOf (λ service. ok tt) strategy x
unfolding Validation.validate_breaker_strategy Validation.validate_discrete_value_out_of_list
new_detector-IsDetectorOf_example =
    new_detector-IsDetectorOf (λ service. ok tt) none strategy (λ service. refl) millionths
      (λ name. []) refl
