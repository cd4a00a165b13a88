-- ===== src/Breaker/RoundLaws.antt =====
-- What one round of a breaker does, on every branch.
use Prim.Native.Nat.{min}
use kubervisor.Prelude.{
  ℕ, suc, ◌==◌, ◌-◌, ◌^◌, ◌<◌, ◌≡◌, refl, ◌∙◌, arith, Bool, false, ◌&&◌, none, some, List, [], ◌∷◌,
  ok, err, length, take, count, select, Error,
}
use kubervisor.Prelude.Int.{ℤ}
use kubervisor.Kube.{Pod, KubeClient, TimeText}
use kubervisor.Kube.Exec.{Exec}
use kubervisor.Pod.Tools.{is_ready, keep_with_traffic_yes_pods}
use kubervisor.Pod.FilterLaws.{
  is_running, has_traffic, first_error, status_filters, keep_with_traffic_yes_pods_lem,
  readable_all,
}
use kubervisor.Pod.Control.{World}
use kubervisor.Api.{BreakerStrategy}
use kubervisor.Breaker.Count.{remove_count-min, FitsInt, floor}
use kubervisor.Breaker.Round.{BreakerImpl, with_traffic, cut_all, cut_round, round}

-- A pod that counts for the minimum: running, ready and marked for traffic.
abbrev pub in_traffic : Pod → Bool
in_traffic p = is_running p && (is_ready p && has_traffic p)

select-select :
    (f g h : Pod → Bool) (pods : List Pod)
    → length (select h (select g (select f pods))) ≡ count (λ p. f p && (g p && h p)) pods
select-select f g h [] = refl
select-select f g h (p ∷ pods) = ground (arith, select-select f g h pods)

abbrev pub serving : List Pod → List Pod
serving pods = select is_ready (select is_running pods)

with_traffic-serving :
    (pods : List Pod) → with_traffic pods ≡ keep_with_traffic_yes_pods (serving pods)
unfolding with_traffic
with_traffic-serving pods =
    rw ((status_filters pods).1, (status_filters (select is_running pods)).0)

with_traffic_error : (pods : List Pod) → (with_traffic pods).1 ≡ first_error (serving pods)
with_traffic_error pods =
    rw (with_traffic-serving pods, keep_with_traffic_yes_pods_lem (serving pods))

length-with_traffic :
    (pods : List Pod)
    → first_error (serving pods) ≡ none
    → length (with_traffic pods).0 ≡ count in_traffic pods
length-with_traffic pods h =
    rw
      (
        with_traffic-serving pods,
        keep_with_traffic_yes_pods_lem (serving pods),
        readable_all (serving pods) h,
      )
      (select-select is_running is_ready has_traffic pods)

-- As many pods as the minimum in traffic allows, from the front of the reported ones.
abbrev pub allowed : {F : Type 0} → BreakerStrategy F → List Pod → List Pod → List Pod
allowed config cut all =
    let n = count in_traffic all in take (min (length cut) (n - floor config n (length cut))) cut

module _ {F L S : Type 0} (client : KubeClient S) (clock : S → ℤ) (time : TimeText)
    (b : BreakerImpl F L) where
  pub cut_round-allowed :
      (cut all : List Pod) (w : World S)
      → first_error (serving all) ≡ none
      → FitsInt b.breaker_strategy_config (count in_traffic all) (length cut)
      → length cut < 2 ^ 62
      → cut_round client clock time b cut all w
        ≡ cut_all client clock time b (allowed b.breaker_strategy_config cut all) w
  unfolding cut_round
  cut_round-allowed cut all w readable fits small = rw (
    with_traffic_error all ∙ readable,
    length-with_traffic all readable,
    remove_count-min b.breaker_strategy_config (count in_traffic all) (length cut) fits small,
    cut_round,
  )

  pub cut_round-error :
      (cut all : List Pod) (w : World S) (e : Error)
      → first_error (serving all) ≡ some e
      → cut_round client clock time b cut all w ≡ (ok tt, w)
  unfolding cut_round
  cut_round-error cut all w e bad = rw (with_traffic_error all ∙ bad, cut_round)

suc-ne-zero : (n : ℕ) → (suc n == 0) ≡ false
suc-ne-zero n = ground arith

module _ {F L S : Type 0} (client : KubeClient S) (clock : S → ℤ) (time : TimeText)
    (detector : Exec (World S) (List Pod)) (lister : L → Exec (World S) (List Pod))
    (b : BreakerImpl F L) (w w₁ w₂ : World S) where
  -- A round whose analysis reports pods, and whose lister answers with pods that all have readable
  -- labels, cuts the reported pods from the front, as many as the minimum in traffic allows.
  pub round_cuts :
      (p : Pod) (cut all : List Pod)
      → detector w ≡ (ok (p ∷ cut), w₁)
      → lister b.selector w₁ ≡ (ok all, w₂)
      → first_error (serving all) ≡ none
      → FitsInt b.breaker_strategy_config (count in_traffic all) (length (p ∷ cut))
      → length (p ∷ cut) < 2 ^ 62
      → round client clock time detector lister b w
        ≡ cut_all client clock time b (allowed b.breaker_strategy_config (p ∷ cut) all) w₂
  unfolding round
  round_cuts p cut all found listed readable fits small =
      rw (found, listed, suc-ne-zero (length cut), round)
        (cut_round-allowed client clock time b (p ∷ cut) all w₂ readable fits small)

  -- Why a round may end early, with the world that it leaves.
  pub data Skip : World S → Type 0 where
    detection_failed : (e : Error) → detector w ≡ (err e, w₁) → Skip w₁
    nothing_detected : detector w ≡ (ok [], w₁) → Skip w₁
    listing_failed :
        (p : Pod) (cut : List Pod) (e : Error)
        → detector w ≡ (ok (p ∷ cut), w₁)
        → lister b.selector w₁ ≡ (err e, w₂)
        → Skip w₂
    label_unreadable :
        (p : Pod) (cut all : List Pod) (e : Error)
        → detector w ≡ (ok (p ∷ cut), w₁)
        → lister b.selector w₁ ≡ (ok all, w₂)
        → first_error (serving all) ≡ some e
        → Skip w₂

  -- A round writes to no pod if the analysis fails, or reports none, or if the lister fails, or if a
  -- ready pod has no readable traffic label: it leaves what the analysis and the lister left.
  pub round_skips :
      (v : World S) → Skip v → round client clock time detector lister b w ≡ (ok tt, v)
  unfolding round
  round_skips v (detection_failed e found) = rw (found, round)
  round_skips v (nothing_detected found) = rw (found, round)
  round_skips v (listing_failed p cut e found listed) =
      rw (found, listed, suc-ne-zero (length cut), round)
  round_skips v (label_unreadable p cut all e found listed bad) =
      rw (found, listed, suc-ne-zero (length cut), round)
        (cut_round-error client clock time b (p ∷ cut) all w₂ e bad)
