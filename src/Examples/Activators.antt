-- ===== src/Examples/Activators.antt =====
-- The theorems about the activator and about the retry count at concrete pods.
use kubervisor.Prelude.{ℕ, ◌≡◌, refl, arith, false, some, [], ◌∷◌, List, String, ok, Outcome}
use kubervisor.Prelude.Int.{pos, ℤ, wrap64, ◌+ℤ◌}
use kubervisor.Prelude.Dict
use kubervisor.Prelude.Decimal.{atoi, atoi_ne_panic, itoa}
use kubervisor.Kube.{Pod, SelectorOps}
use kubervisor.Kube
use kubervisor.Kube.Exec.{Exec}
use kubervisor.Kube.Returns.{Returns, panics}
use kubervisor.Labeling.{get_break_at, get_retry_count}
use kubervisor.Pod.Control.{World}
use kubervisor.Pod.Requests.{break_request, activation_request}
use kubervisor.Pod.History.{History, unmarked, cut, activated}
use kubervisor.Api.{ActivatorStrategy}
use kubervisor.Api.Defaults.{is_activator_strategy_defaulted}
use kubervisor.Activate.Strategy.{ActivatorImpl}
use kubervisor.Activate.Decisions.{Reads}
use kubervisor.Activate.Round
use kubervisor.Activate.RunLaws.{run-Returns}
use kubervisor.Examples.Fixtures.{pod_with, bare_pod, accepting, unix_seconds, millionths, by_text}

abbrev pub strategy : String → ActivatorStrategy ℕ
strategy mode = record {
  mode = mode;
  period = some 10000000;
  max_retry_count = some 3;
  max_pause_count = some 1;
}

abbrev pub activator : String → ActivatorImpl ℕ (List String)
activator mode = record {
  kubervisor_name = "svc";
  breaker_strategy_name = "errors";
  selector = [];
  activator_strategy_config = strategy mode;
}

abbrev Store : Type 0
Store = List Pod × List String

abbrev empty_world : World Store
empty_world = record { cluster = ([], []); counters = [] }

abbrev at_two_hundred : Store → ℤ
at_two_hundred s = pos 200000000000

abbrev nobody : List String → Exec (World Store) (List Pod)
nobody l w = (ok [], w)

-- A pod cut five times, the last time at second 100; the period is of 10 s, and it is second 200.
reads :
    (mode : String)
    → Reads millionths by_text accepting at_two_hundred unix_seconds nobody
        (activator mode)
        (pod_with "a" "no" "5")
        empty_world
        10000000
        100000000000
        5
        200000000000
        10000
unfolding get_break_at get_retry_count Kube.read Dict.get atoi
reads mode = record {
  break_at = refl;
  retry_count = refl;
  period = refl;
  millis = refl;
  clock_shows = refl;
  period_fits = omega arith;
  delay_fits = omega arith;
}

seconds_return : (s : String) → panics (unix_seconds.parse s) ≡ false
seconds_return s = ground (arith, atoi_ne_panic s)

run-Returns_example : Returns (
    Round.run millionths by_text accepting at_two_hundred unix_seconds nobody
      (activator "retryAndPause")
      3)
unfolding is_activator_strategy_defaulted
run-Returns_example =
    run-Returns millionths by_text accepting at_two_hundred unix_seconds nobody
      (activator "retryAndPause") (λ q s. refl) (λ l w. refl) (λ k v. refl) seconds_return refl 3

-- The bare pod after a cut, and after it came back.
abbrev cut_pod : Pod
cut_pod = record bare_pod {
  labels = some (
      ("kubervisor/name", "svc")
      ∷ ("kubervisor/strategy", "errors")
      ∷ ("kubervisor/traffic", "no")
      ∷ []);
  annotations = some (("breaker/breakAt", "200") ∷ ("breaker/retryCount", "1") ∷ []);
}

abbrev back_pod : Pod
back_pod = record cut_pod {
  labels = some (
      ("kubervisor/name", "svc")
      ∷ ("kubervisor/strategy", "errors")
      ∷ ("kubervisor/traffic", "yes")
      ∷ []);
}

one_cut : History unix_seconds back_pod 1
unfolding break_request activation_request get_retry_count Kube.read Dict.get Dict.put atoi itoa
    wrap64 ◌+ℤ◌
one_cut =
    activated
      (cut (pos 200000000000) "svc" "errors" (unmarked bare_pod refl)
        (refl {A = Outcome Pod} {a = ok cut_pod}))
      (refl {A = Outcome Pod} {a = ok back_pod})
