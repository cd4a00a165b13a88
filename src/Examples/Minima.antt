-- ===== src/Examples/Minima.antt =====
-- The theorem about the minimum in traffic at a concrete cluster of two pods.
use kubervisor.Prelude.{
  ℕ, ◌<◌, ◌/◌, suc, some, count, ◌+◌, ◌≤◌, ◌≡◌, refl, sym, ap, ◌∙◌, ok-injective, arith, Bool, true,
  false, List, [], ◌∷◌, String, Outcome, ok, err, str_eq, not_found, if◌then◌else◌,
}
use kubervisor.Kube
use kubervisor.Prelude.Int.{ℤ, pos}
use kubervisor.Kube.{Pod, KubeClient}
use kubervisor.Kube.Exec.{Exec}
use kubervisor.Prelude.Dict
use kubervisor.Labeling.{is_pod_traffic_label_ok_or_pause, to_label_traffic}
use kubervisor.Pod.Tools.{is_ready}
use kubervisor.Pod.Control.{World}
use kubervisor.Breaker.Count.{FitsInt}
use kubervisor.Breaker.Round.{BreakerImpl, run, run_with_ticker}
use kubervisor.Breaker.RoundLaws.{in_traffic}
use kubervisor.Breaker.MinimumLaws.{IsCounting, IsSmall, run_keeps_minimum}
use kubervisor.Examples.Fixtures.{pod_with, unix_seconds, millionths}
use kubervisor.Breaker.TickerLaws.{HasMillis, run_with_ticker-run}
use kubervisor.Api.Validation.{validate_breaker_strategy}
use kubervisor.Api.Defaults.{is_breaker_strategy_defaulted}
use kubervisor.Examples.Breakers.{breaker, most_stay}

-- Which of the two pods are in traffic.
abbrev pub Switches : Type 0
Switches = Bool × Bool

abbrev label : Bool → String
label true = "yes"
label false = "no"

abbrev pub pods_of : Switches → List Pod
pods_of (a, b) = pod_with "a" (label a) "0" ∷ pod_with "b" (label b) "0" ∷ []

abbrev bit : Bool → ℕ
bit true = 1
bit false = 0

abbrev pub traffic : Switches → ℕ
traffic (a, b) = bit a + bit b

-- The answer to a write of a pod, by whether it is the first or the second, and in traffic.
abbrev switched : Bool → Bool → Bool → Pod → Switches → Outcome Pod × Switches
switched first second now p (a, b) =
    if first then (ok p, (now, b)) else if second then (ok p, (a, now)) else (err not_found, (a, b))

abbrev pub switching : KubeClient Switches
switching = record {
  update = λ p. switched (str_eq p.name "a") (str_eq p.name "b") (in_traffic p) p;
  delete = λ namespace name s. (some not_found, s);
}

-- The analysis and the lister know both pods.
abbrev pub seen : Exec (World Switches) (List Pod)
seen w = (ok (pods_of w.cluster), w)

abbrev pub at_five : Switches → ℤ
at_five s = pos 5000000000

-- The pods that are listed are counted.
counted : (s : Switches) → count in_traffic (pods_of s) ≡ traffic s
unfolding is_ready is_pod_traffic_label_ok_or_pause to_label_traffic Kube.read Dict.get
counted (true, true) = refl
counted (true, false) = refl
counted (false, true) = refl
counted (false, false) = refl

lowers :
    (first second now : Bool) (p : Pod) (s : Switches)
    → traffic s ≤ suc (traffic (switched first second now p s).1)
lowers first second now p (true, true) = ground arith
lowers first second now p (true, false) = ground arith
lowers first second now p (false, true) = ground arith
lowers first second now p (false, false) = ground arith

pub counting :
    {F L : Type 0} (b : BreakerImpl F L) → IsCounting switching seen (λ l. seen) b traffic
counting b = record {
  update_lowers = λ p s. lowers (str_eq p.name "a") (str_eq p.name "b") (in_traffic p) p s;
  detector_keeps = λ w. refl;
  lister_keeps = λ w. refl;
  lister_counts =
      λ w all h. sym (ap (λ pods. count in_traffic pods) (ok-injective h)) ∙ counted w.cluster;
}

fits : (s : Switches) → FitsInt most_stay (traffic s) 0
fits (true, true) = (omega arith, omega arith, omega arith, omega arith)
fits (true, false) = (omega arith, omega arith, omega arith, omega arith)
fits (false, true) = (omega arith, omega arith, omega arith, omega arith)
fits (false, false) = (omega arith, omega arith, omega arith, omega arith)

small : IsSmall seen breaker traffic
small = record { fits = fits; reports = λ w cut h. rw (sym (ok-injective h)) (omega arith) }

abbrev pub both : World Switches
both = record { cluster = (true, true); counters = [] }

run_keeps_minimum_example :
    1 ≤ traffic (run switching at_five unix_seconds seen (λ l. seen) breaker 3 both).1.cluster
run_keeps_minimum_example =
    run_keeps_minimum switching at_five unix_seconds seen (λ l. seen) breaker traffic
      (counting breaker) small 3 both (omega arith)

-- A period that is a count of millionths.
millis : (x : ℕ) → HasMillis millionths x
millis x = record {
  converts = λ low high.
      let above : 10000 < x = ground arith in
      let below : x ≤ 86400000000 = ground arith in (x / 1000, refl, omega arith, omega arith);
}

run_with_ticker-run_example :
    run_with_ticker switching at_five unix_seconds millionths seen (λ l. seen) breaker 3 both
    ≡ run switching at_five unix_seconds seen (λ l. seen) breaker 3 both
unfolding validate_breaker_strategy is_breaker_strategy_defaulted
run_with_ticker-run_example =
    run_with_ticker-run millionths switching at_five unix_seconds seen (λ l. seen) breaker (λ s. [])
      3 both refl refl (λ x e. millis x)
