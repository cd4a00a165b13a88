-- ===== src/Controller/TurnLaws.antt =====
-- All the breakers of an item together leave the minimum in traffic.
use mathlib.Core.List.{Memᴰ}
use kubervisor.Prelude.{
  ℕ, ◌≤◌, ◌≡◌, subst, sym, ap, ◌∙◌, arith, Option, List, [], ◌∷◌, String, Outcome, ok, All,
}
use kubervisor.Prelude.Int.{ℤ}
use kubervisor.Kube.{SelectorOps, Pod, KubeClient, TimeText}
use kubervisor.Kube.Exec.{Exec}
use kubervisor.Pod.Control.{World}
use kubervisor.Api.{BreakerStrategy, KubervisorService}
use kubervisor.Detector.Factory.{Detector}
use kubervisor.Breaker.Count.{or_zero}
use kubervisor.Breaker.MinimumLaws.{IsCounting, IsSmall, round-keeps_enough}
use kubervisor.Controller.Item.{BreakerActivatorPair, KubervisorServiceItem, new_item, item_of}
use kubervisor.Controller.ItemParts.{new_item_inv}
use kubervisor.Controller.ItemLaws.{ArePairsOf, new_pairs-ArePairsOf}
use kubervisor.Controller.Turns.{Turn, breaker_turn, other_turn, Turns, no_turn, next_turn}

module _ {F L D : Type 0} (P : BreakerStrategy F → Type 0) (name : String) (selector : L) where
  -- What holds of every strategy holds of the configuration of every pair.
  pairs-All :
      (specs : List (BreakerStrategy F)) (pairs : List (BreakerActivatorPair F L D))
      → All P specs
      → ArePairsOf name selector specs pairs
      → (p : BreakerActivatorPair F L D) → Memᴰ p pairs
      → P p.breaker.breaker_strategy_config
  pairs-All [] [] h are p m = elim m [ ]
  pairs-All [] (q ∷ pairs) h are p m = elim are [ ]
  pairs-All (s ∷ specs) [] h are p m = elim m [ ]
  pairs-All (s ∷ specs) (q ∷ pairs) h are p (Memᴰ.head e) =
      subst P
        (sym (
          ap (λ b. b.breaker.breaker_strategy_config) e
          ∙ ap (λ b. b.breaker_strategy_config) are.0.breaker))
        h.0
  pairs-All (s ∷ specs) (q ∷ pairs) h are p (Memᴰ.tail m) = pairs-All specs pairs h.1 are.1 p m

module _ {F L R D : Type 0} (ops : SelectorOps L R) (new_client : String → Outcome (Unit {0}))
    (P : BreakerStrategy F → Type 0) (bc : KubervisorService F) (selector : Option L)
    (item : KubervisorServiceItem F L D) where
  new_item-All :
      All P bc.spec.breakers
      → new_item ops new_client bc selector ≡ ok item
      → (p : BreakerActivatorPair F L D) → Memᴰ p item.breakers
      → P p.breaker.breaker_strategy_config
  unfolding item_of
  new_item-All h built =
      let (own, pairs, made, all, same) = new_item_inv ops new_client bc selector item built in
      let are = new_pairs-ArePairsOf ops new_client bc.name own bc.spec.breakers pairs all in
      subst
        (λ x.
          (p : BreakerActivatorPair F L D)
          → Memᴰ p x.breakers
          → P p.breaker.breaker_strategy_config)
        {x = item_of bc own pairs} same (pairs-All P bc.name own bc.spec.breakers pairs h are)

-- The minimum that every breaker of a resource asks for.
abbrev AsksFor : {F : Type 0} → ℕ → BreakerStrategy F → Type 0
AsksFor k s = k ≤ or_zero s.min_pods_available_count

module _ {F L D S : Type 0} (client : KubeClient S) (clock : S → ℤ) (time : TimeText)
    (analyse : Detector F D → Exec (World S) (List Pod)) (lister : L → Exec (World S) (List Pod))
    (others : World S → World S → Type 0) (item : KubervisorServiceItem F L D) (traffic : S → ℕ)
    (k : ℕ)
    (few : (p : BreakerActivatorPair F L D)
      → Memᴰ p item.breakers
      → AsksFor k p.breaker.breaker_strategy_config)
    (counting : (p : BreakerActivatorPair F L D)
      → Memᴰ p item.breakers
      → IsCounting client (analyse p.detector) lister p.breaker traffic)
    (small : (p : BreakerActivatorPair F L D)
      → Memᴰ p item.breakers
      → IsSmall (analyse p.detector) p.breaker traffic)
    (spare : (w v : World S) → others w v → traffic w.cluster ≤ traffic v.cluster) where
  round_keeps :
      (w v : World S)
      → Turn client clock time analyse lister others item w v
      → k ≤ traffic w.cluster
      → k ≤ traffic v.cluster
  round_keeps w v (breaker_turn p m) h =
      round-keeps_enough client clock time (analyse p.detector) lister p.breaker traffic
        (counting p m) (small p m) k w (few p m) h
  round_keeps w v (other_turn _ o) h = omega (arith, spare w v o)

  rounds_keep :
      (w v : World S)
      → Turns client clock time analyse lister others item w v
      → k ≤ traffic w.cluster
      → k ≤ traffic v.cluster
  rounds_keep w v no_turn h = h
  rounds_keep w v (next_turn u _ turns turn) h = round_keeps u v turn (rounds_keep w u turns h)

-- If every breaker of a resource asks for at least `k` pods, then the breakers of the item that is
-- built from it, in whatever order they take whole rounds, and whatever else happens in between that
-- takes no pod out of traffic, never leave fewer than `k` pods in traffic, if there were as many; on
-- the conditions that each write takes one pod out of traffic at most, the analyses and the lister
-- only read, the lister's pods are up to date, and no number leaves the range of `int`.
pub rounds_keep_minimum :
    {F L R D S : Type 0} (ops : SelectorOps L R) (new_client : String → Outcome (Unit {0}))
    (bc : KubervisorService F) (selector : Option L) (client : KubeClient S) (clock : S → ℤ)
    (time : TimeText) (analyse : Detector F D → Exec (World S) (List Pod))
    (lister : L → Exec (World S) (List Pod)) (others : World S → World S → Type 0)
    (item : KubervisorServiceItem F L D) (traffic : S → ℕ) (k : ℕ) (w v : World S)
    → new_item ops new_client bc selector ≡ ok item
    → All (AsksFor k) bc.spec.breakers
    → ((p : BreakerActivatorPair F L D)
        → Memᴰ p item.breakers
        → IsCounting client (analyse p.detector) lister p.breaker traffic)
    → ((p : BreakerActivatorPair F L D)
        → Memᴰ p item.breakers
        → IsSmall (analyse p.detector) p.breaker traffic)
    → ((w v : World S) → others w v → traffic w.cluster ≤ traffic v.cluster)
    → Turns client clock time analyse lister others item w v
    → k ≤ traffic w.cluster
    → k ≤ traffic v.cluster
rounds_keep_minimum ops new_client bc selector client clock time analyse lister others item traffic
      k w v built asked counting small spare turns h =
    rounds_keep client clock time analyse lister others item traffic k
      (new_item-All ops new_client (AsksFor k) bc selector item asked built) counting small spare w
      v turns h
