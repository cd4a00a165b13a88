-- ===== src/Examples/Breakers.antt =====
-- The theorems about the breaker at a concrete breaker.
use kubervisor.Prelude.{ℕ, ◌≡◌, refl, arith, none, some, [], ◌∷◌, List, String, ok}
use kubervisor.Prelude.Int.{pos, ℤ}
use kubervisor.Prelude.Dict
use kubervisor.Kube.{Pod}
use kubervisor.Kube
use kubervisor.Kube.Exec.{Exec}
use kubervisor.Labeling.{is_pod_traffic_label_ok_or_pause, to_label_traffic}
use kubervisor.Pod.Tools.{is_ready}
use kubervisor.Pod.Control.{World}
use kubervisor.Api.{BreakerStrategy}
use kubervisor.Breaker.Round.{BreakerImpl, cut_all, round}
use kubervisor.Breaker.RoundLaws.{allowed, round_cuts}
use kubervisor.Examples.Fixtures.{pod_with, accepting, unix_seconds}

-- At least one pod and 70 % of the pods stay in traffic.
abbrev pub most_stay : BreakerStrategy ℕ
most_stay = record {
  name = "errors";
  evaluation_period = some 5000000;
  min_pods_available_count = some 1;
  min_pods_available_ratio = some 70;
  discrete_value_out_of_list = none;
  continuous_value_deviation = none;
  custom_service = "judge";
  activator = none;
}

abbrev pub breaker : BreakerImpl ℕ String
breaker = record {
  kubervisor_name = "svc";
  breaker_strategy_name = "errors";
  selector = "app=shop";
  breaker_strategy_config = most_stay;
}

abbrev fleet : List Pod
fleet = pod_with "a" "yes" "0" ∷ pod_with "b" "yes" "0" ∷ pod_with "c" "yes" "0" ∷ []

abbrev Store : Type 0
Store = List Pod × List String

abbrev empty_world : World Store
empty_world = record { cluster = ([], []); counters = [] }

abbrev at_five : Store → ℤ
at_five s = pos 5000000000

abbrev report : List Pod → Exec (World Store) (List Pod)
report pods w = (ok pods, w)

-- Of the three pods two are reported, and one of these is cut.
round_cuts_example :
    round accepting at_five unix_seconds
      (report (pod_with "a" "yes" "0" ∷ pod_with "b" "yes" "0" ∷ []))
      (λ l. report fleet)
      breaker
      empty_world
    ≡ cut_all accepting at_five unix_seconds breaker
        (allowed most_stay (pod_with "a" "yes" "0" ∷ pod_with "b" "yes" "0" ∷ []) fleet)
        empty_world
unfolding is_ready is_pod_traffic_label_ok_or_pause to_label_traffic Kube.read Dict.get
round_cuts_example =
    round_cuts accepting at_five unix_seconds
      (report (pod_with "a" "yes" "0" ∷ pod_with "b" "yes" "0" ∷ [])) (λ l. report fleet) breaker
      empty_world empty_world empty_world (pod_with "a" "yes" "0") (pod_with "b" "yes" "0" ∷ [])
      fleet refl refl refl (omega arith, omega arith, omega arith, omega arith) (omega arith)

one_is_cut :
    allowed most_stay (pod_with "a" "yes" "0" ∷ pod_with "b" "yes" "0" ∷ []) fleet
    ≡ pod_with "a" "yes" "0" ∷ []
unfolding is_ready is_pod_traffic_label_ok_or_pause to_label_traffic Kube.read Dict.get
one_is_cut = refl
