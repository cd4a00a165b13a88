-- ===== src/Examples/Turns.antt =====
-- Two breakers of one item over two pods.
use mathlib.Core.List.{Memᴰ}
use mathlib.Core.List.Memᴰ
use kubervisor.Prelude.Dict.{put}
use kubervisor.Prelude.Decimal.{atoi}
use kubervisor.Labeling.{get_retry_count}
use kubervisor.Pod.Requests.{break_request}
use kubervisor.Pod.Control.{update_breaker_annotation_and_label}
use kubervisor.Prelude.Int.{◌*ℤ◌}
use kubervisor.Prelude.Int.{quot}
use kubervisor.Prelude.Int.{int_of_uint}
use kubervisor.Breaker.Count.{compute_min_available_pods}
use kubervisor.Prelude.Int.{◌-ℤ◌}
use kubervisor.Prelude.Int.{wrap64}
use kubervisor.Prelude.Int.{ltb_ℤ}
use kubervisor.Breaker.Count.{remove_count}
use kubervisor.Breaker.Round.{cut_all}
use kubervisor.Labeling.{to_label_traffic}
use kubervisor.Prelude.Dict.{get}
use kubervisor.Kube.{read}
use kubervisor.Labeling.{is_pod_traffic_label_ok_or_pause}
use kubervisor.Pod.Tools.{keep_with_traffic_yes_pods}
use kubervisor.Pod.Tools.{is_ready}
use kubervisor.Pod.Tools.{purge_not_ready_pods}
use kubervisor.Pod.Tools.{keep_running_pods}
use kubervisor.Breaker.Round.{with_traffic}
use kubervisor.Prelude.{
  ℕ, ◌≤◌, ◌≡◌, refl, sym, subst, arith, true, false, some, List, [], ◌∷◌, String, ok, ok-injective,
  inl, inr,
}
use kubervisor.Kube.{Pod}
use kubervisor.Kube.Exec.{Exec}
use kubervisor.Pod.Control.{World}
use kubervisor.Labeling.{selector_with_breaker_name}
use kubervisor.Detector.Factory.{Detector, new_detector}
use kubervisor.Breaker.Count.{FitsInt}
use kubervisor.Breaker.Round.{round, cut_round}
use kubervisor.Breaker.MinimumLaws.{IsSmall}
use kubervisor.Controller.Item.{BreakerActivatorPair, pair_of, item_of, new_item}
use kubervisor.Controller.Turns.{breaker_turn, other_turn, no_turn, next_turn, Turns}
use kubervisor.Controller.TurnLaws.{rounds_keep_minimum}
use kubervisor.Examples.Fixtures.{pod_with, by_text, unix_seconds}
use kubervisor.Examples.Items.{external, external_pair, resource, built}
use kubervisor.Examples.Minima.{
  pods_of, Switches, traffic, switching, seen, at_five, both, counting,
}

abbrev Pair : Type 0
Pair = BreakerActivatorPair ℕ (List String) ℕ

abbrev analyse : Detector ℕ ℕ → Exec (World Switches) (List Pod)
analyse d = seen

abbrev lister : List String → Exec (World Switches) (List Pod)
lister l = seen

abbrev pair : String → Pair
pair name = external_pair name

abbrev turn_of : String → World Switches → World Switches
turn_of name w = (round switching at_five unix_seconds seen lister (pair name).breaker w).1

-- What else happens takes no pod out of traffic.
abbrev Others : World Switches → World Switches → Type 0
Others w v = traffic w.cluster ≤ traffic v.cluster

fits : (name : String) (s : Switches) → FitsInt (external name) (traffic s) 0
fits name (true, true) = (omega arith, omega arith, omega arith, omega arith)
fits name (true, false) = (omega arith, omega arith, omega arith, omega arith)
fits name (false, true) = (omega arith, omega arith, omega arith, omega arith)
fits name (false, false) = (omega arith, omega arith, omega arith, omega arith)

small_of : (name : String) → IsSmall seen (pair name).breaker traffic
unfolding pair_of
small_of name = record {
  fits = fits name;
  reports = λ w cut h. rw (sym (ok-injective h)) (omega arith);
}

small : (p : Pair) → Memᴰ p built.breakers → IsSmall (analyse p.detector) p.breaker traffic
unfolding item_of
small p m = elim (Memᴰ.cases_cons m) [
  | inl e ↦ subst (λ q. IsSmall seen q.breaker traffic) (sym e) (small_of "errors")
  | inr n ↦ elim (Memᴰ.cases_cons n) [
    | inl e ↦ subst (λ q. IsSmall seen q.breaker traffic) (sym e) (small_of "latency")
    | inr o ↦ absurd (Memᴰ.not-nil o)
  ]
]

interleaved :
    Turns switching at_five unix_seconds analyse lister Others built both
      (turn_of "latency" (turn_of "errors" both))
unfolding item_of pair_of
interleaved =
    next_turn (turn_of "errors" both) _
      (next_turn (turn_of "errors" both) _
        (next_turn both _ no_turn (breaker_turn (pair "errors") (Memᴰ.head refl)))
        (other_turn _ (omega arith)))
      (breaker_turn (pair "latency") (Memᴰ.tail (Memᴰ.head refl)))

-- A round that lists the pods before another one writes counts a pod that the other takes away.
overlapping_rounds :
    traffic
      (cut_round switching at_five unix_seconds
        (pair "latency").breaker
        (pod_with "b" "yes" "0" ∷ [])
        (pods_of (true, true))
        (cut_round switching at_five unix_seconds
          (pair "errors").breaker
          (pod_with "a" "yes" "0" ∷ [])
          (pods_of (true, true))
          both).1).1.cluster
    ≡ 0
unfolding cut_round with_traffic keep_running_pods purge_not_ready_pods is_ready
    keep_with_traffic_yes_pods is_pod_traffic_label_ok_or_pause read get to_label_traffic cut_all
    remove_count ltb_ℤ wrap64 ◌-ℤ◌ compute_min_available_pods pair_of int_of_uint quot ◌*ℤ◌
    update_breaker_annotation_and_label break_request get_retry_count atoi put
overlapping_rounds = refl

rounds_keep_minimum_example : 1 ≤ traffic (turn_of "latency" (turn_of "errors" both)).cluster
unfolding new_item selector_with_breaker_name new_detector
rounds_keep_minimum_example =
    rounds_keep_minimum by_text (λ service. ok tt) resource (some []) switching at_five unix_seconds
      analyse lister Others built traffic 1 both (turn_of "latency" (turn_of "errors" both)) refl
      (omega arith, (omega arith, tt)) (λ p m. counting p.breaker) small (λ w v h. h) interleaved
      (omega arith)
