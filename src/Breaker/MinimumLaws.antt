-- ===== src/Breaker/MinimumLaws.antt =====
-- Over its ticks a breaker leaves the minimum in traffic.
use Prim.Native.Nat.{min}
use kubervisor.Prelude.{
  ℕ, zero, suc, ◌+◌, ◌-◌, ◌^◌, ◌<◌, ◌≤◌, ◌≡◌, refl, sym, ◌∙◌, ◌==◌, Bool-cases, inl, inr, subst,
  arith, Option, none, some, List, [], ◌∷◌, Outcome, ok, err, panic, Error, length, take, count,
}
use kubervisor.Prelude.Int.{ℤ}
use kubervisor.Kube.{Pod, KubeClient, TimeText}
use kubervisor.Kube.Exec.{Exec, pure, continue, ◌>>=◌}
use kubervisor.Pod.Requests.{break_request}
use kubervisor.Pod.Control.{World, update_counted, update_breaker_annotation_and_label}
use kubervisor.Pod.ControlLaws.{cluster-update_counted}
use kubervisor.Pod.FilterLaws.{first_error}
use kubervisor.Api.{BreakerStrategy}
use kubervisor.Breaker.Count.{FitsInt, floor, or_zero}
use kubervisor.Breaker.Round.{BreakerImpl, or_skip, cut_all, cut_round, list_round, round, run}
use kubervisor.Breaker.RoundLaws.{in_traffic, serving, allowed, cut_round-allowed, cut_round-error}

length-take : {A : Type 0} (n : ℕ) (xs : List A) → length (take n xs) ≤ n
length-take zero xs = omega arith
length-take (suc n) [] = omega arith
length-take (suc n) (x ∷ xs) = let rest = length-take n xs in omega arith

length-allowed :
    {F : Type 0} (config : BreakerStrategy F) (cut all : List Pod)
    → length (allowed config cut all) ≤ count in_traffic all - floor config (count in_traffic all) 0
length-allowed config cut all =
    let n = count in_traffic all - floor config (count in_traffic all) 0 in
    min_le (length cut) n (length-take (min (length cut) n) cut)
  where
    min_le : {l : ℕ} (a n : ℕ) → l ≤ min a n → l ≤ n
    min_le a n h = omega arith

-- What is left of `n` after `l`, which leave `f`.
stays : (n f l a : ℕ) → l ≤ n - f → n ≤ l + a → min n f ≤ a
stays n f l a h k = omega arith

module _ {F L S : Type 0} (client : KubeClient S) (detector : Exec (World S) (List Pod))
    (lister : L → Exec (World S) (List Pod)) (b : BreakerImpl F L) (traffic : S → ℕ) where
  -- `traffic` counts the pods of the breaker in traffic: a write to a pod takes one out at most, the
  -- analysis and the lister read only, and the lister's pods are the ones that are counted.
  pub record IsCounting : Type 0 where
    pub update_lowers : (p : Pod) (s : S) → traffic s ≤ suc (traffic (client.update p s).1)
    pub detector_keeps : (w : World S) → traffic (detector w).1.cluster ≡ traffic w.cluster
    pub lister_keeps : (w : World S) → traffic (lister b.selector w).1.cluster ≡ traffic w.cluster
    pub lister_counts :
        (w : World S) (all : List Pod)
        → (lister b.selector w).0 ≡ ok all
        → count in_traffic all ≡ traffic w.cluster

module _ {F L S : Type 0} (detector : Exec (World S) (List Pod)) (b : BreakerImpl F L)
    (traffic : S → ℕ) where
  -- No number that a round computes leaves the range of `int`.
  pub record IsSmall : Type 0 where
    pub fits : (s : S) → FitsInt b.breaker_strategy_config (traffic s) 0
    pub reports : (w : World S) (cut : List Pod) → (detector w).0 ≡ ok cut → length cut < 2 ^ 62

module _ {F L S : Type 0} (client : KubeClient S) (clock : S → ℤ) (time : TimeText)
    (detector : Exec (World S) (List Pod)) (lister : L → Exec (World S) (List Pod))
    (b : BreakerImpl F L) (traffic : S → ℕ) (counting : IsCounting client detector lister b traffic)
    (small : IsSmall detector b traffic) where
  written : Outcome Pod → World S → World S
  written r w = (continue (update_counted client b.kubervisor_name "break") r w).1

  written-lowers :
      (r : Outcome Pod) (w : World S) → traffic w.cluster ≤ suc (traffic (written r w).cluster)
  unfolding written
  written-lowers (ok p) w =
      rw (cluster-update_counted client b.kubervisor_name p w "break")
        (counting.update_lowers p w.cluster)
  written-lowers (err e) w = omega arith
  written-lowers panic w = omega arith

  -- Cutting a pod takes one out of traffic at most.
  write-lowers :
      (p : Pod) (w : World S)
      → traffic w.cluster
        ≤ suc (
            traffic
              (update_breaker_annotation_and_label client time clock b.kubervisor_name
                b.breaker_strategy_name p w).1.cluster)
  unfolding update_breaker_annotation_and_label written
  write-lowers p w =
      written-lowers
        (break_request time (clock w.cluster) b.kubervisor_name b.breaker_strategy_name p) w

  cut_all-lowers :
      (cut : List Pod) (w : World S)
      → traffic w.cluster ≤ length cut + traffic (cut_all client clock time b cut w).1.cluster
  unfolding cut_all
  cut_all-lowers [] w = omega arith
  cut_all-lowers (p ∷ cut) w =
      let w' =
        (update_breaker_annotation_and_label client time clock b.kubervisor_name
          b.breaker_strategy_name p w).1 in
      ground (arith, write-lowers p w, cut_all-lowers cut w')

  -- The pods that stay in traffic whatever is reported.
  abbrev kept : ℕ → ℕ
  kept n = min n (floor b.breaker_strategy_config n 0)

  cut_round-keeps :
      (cut all : List Pod) (w : World S)
      → count in_traffic all ≡ traffic w.cluster
      → length cut < 2 ^ 62
      → kept (traffic w.cluster) ≤ traffic (cut_round client clock time b cut all w).1.cluster
  cut_round-keeps cut all w same few = go (first_error (serving all)) refl
    where
      go :
          (r : Option Error)
          → first_error (serving all) ≡ r
          → kept (traffic w.cluster) ≤ traffic (cut_round client clock time b cut all w).1.cluster
      go (some e) h = rw (cut_round-error client clock time b cut all w e h) (omega arith)
      go none h =
          let fits = small.fits w.cluster in
          let cuts = cut_all-lowers (allowed b.breaker_strategy_config cut all) w in
          rw (cut_round-allowed client clock time b cut all w h (rw same fits) few) (
            stays (traffic w.cluster) (floor b.breaker_strategy_config (traffic w.cluster) 0) _ _
              (subst
                (λ n.
                  length (allowed b.breaker_strategy_config cut all)
                  ≤ n - floor b.breaker_strategy_config n 0)
                same (length-allowed b.breaker_strategy_config cut all))
              cuts)

  -- A call whose error ends the round.
  or_skip-keeps :
      {A : Type 0} (n : ℕ) (f : A → Exec (World S) (Unit {0})) (r : Outcome A) (w : World S)
      → n ≤ traffic w.cluster
      → ((a : A) → r ≡ ok a → n ≤ traffic (f a w).1.cluster)
      → n ≤ traffic (or_skip f r w).1.cluster
  or_skip-keeps n f (ok a) w h k = k a refl
  or_skip-keeps n f (err e) w h k = h
  or_skip-keeps n f panic w h k = h

  kept_le : (n : ℕ) → kept n ≤ n
  kept_le n = omega arith

  list_round-keeps :
      (cut : List Pod) (w : World S)
      → length cut < 2 ^ 62
      → kept (traffic w.cluster) ≤ traffic (list_round client clock time lister b cut w).1.cluster
  unfolding list_round
  list_round-keeps cut w few = elim (Bool-cases (length cut == 0)) [
    | inl e ↦ rw e (kept_le (traffic w.cluster))
    | inr e ↦
        let v = (lister b.selector w).1 in
        let same = counting.lister_keeps w in
        rw e (
          subst
            (λ n.
              kept n
              ≤ traffic
                  (or_skip (cut_round client clock time b cut) (lister b.selector w).0 v).1.cluster)
            same
            (or_skip-keeps (kept (traffic v.cluster)) (cut_round client clock time b cut)
              (lister b.selector w).0 v (kept_le (traffic v.cluster))
              (λ all h. cut_round-keeps cut all v (counting.lister_counts w all h ∙ sym same) few)))
  ]

  -- A round leaves in traffic what was there, or the minimum of the settings for what was there.
  round-keeps :
      (w : World S)
      → kept (traffic w.cluster) ≤ traffic (round client clock time detector lister b w).1.cluster
  unfolding round
  round-keeps w =
      let v = (detector w).1 in
      subst
        (λ n.
          kept n
          ≤ traffic (or_skip (list_round client clock time lister b) (detector w).0 v).1.cluster)
        (counting.detector_keeps w)
        (or_skip-keeps (kept (traffic v.cluster)) (list_round client clock time lister b)
          (detector w).0 v (kept_le (traffic v.cluster))
          (λ cut h. list_round-keeps cut v (small.reports w cut h)))

  -- The minimal count, as a condition on the cluster.
  abbrev Enough : World S → Type 0
  Enough w = or_zero b.breaker_strategy_config.min_pods_available_count ≤ traffic w.cluster

  enough_kept :
      (k n m : ℕ)
      → k ≤ or_zero b.breaker_strategy_config.min_pods_available_count
      → k ≤ n
      → kept n ≤ m
      → k ≤ m
  enough_kept k n m few h kept_n = omega arith

  -- A round keeps every number that the minimal count covers.
  pub round-keeps_enough :
      (k : ℕ) (w : World S)
      → k ≤ or_zero b.breaker_strategy_config.min_pods_available_count
      → k ≤ traffic w.cluster
      → k ≤ traffic (round client clock time detector lister b w).1.cluster
  round-keeps_enough k w few h = enough_kept k (traffic w.cluster) _ few h (round-keeps w)

  after-continue :
      (r : Outcome (Unit {0})) (f : Unit {0} → Exec (World S) (Unit {0})) (w : World S)
      → Enough w
      → ((v : World S) → Enough v → Enough (f tt v).1)
      → Enough (continue f r w).1
  after-continue (ok u) f w h k = k w h
  after-continue (err e) f w h k = h
  after-continue panic f w h k = h

  -- If each write takes one pod out of traffic at most, the analysis and the lister only read, the
  -- lister's pods are up to date, and no number leaves the range of `int`, then over any number of
  -- ticks a breaker never takes the pods in traffic below its minimal count, if they were not below it
  -- before.
  pub run_keeps_minimum :
      (ticks : ℕ) (w : World S)
      → or_zero b.breaker_strategy_config.min_pods_available_count ≤ traffic w.cluster
      → or_zero b.breaker_strategy_config.min_pods_available_count
        ≤ traffic (run client clock time detector lister b ticks w).1.cluster
  unfolding run pure ◌>>=◌
  run_keeps_minimum zero w h = h
  run_keeps_minimum (suc ticks) w h =
      let (r, v) = round client clock time detector lister b w in
      after-continue r (λ u. run client clock time detector lister b ticks) v
        (round-keeps_enough (or_zero b.breaker_strategy_config.min_pods_available_count) w
          (omega arith) h)
        (run_keeps_minimum ticks)
