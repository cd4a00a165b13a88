-- ===== src/Controller/Turns.antt =====
-- pkg/controller/item/types.go: the goroutines of an item take turns. A turn is a whole round of one of
-- the item's breakers, in any order, or a move of anything else in the cluster.
use mathlib.Core.List.{Memᴰ}
use kubervisor.Prelude.{List}
use kubervisor.Prelude.Int.{ℤ}
use kubervisor.Kube.{Pod, KubeClient, TimeText}
use kubervisor.Kube.Exec.{Exec}
use kubervisor.Pod.Control.{World}
use kubervisor.Detector.Factory.{Detector}
use kubervisor.Breaker.Round.{round}
use kubervisor.Controller.Item.{BreakerActivatorPair, KubervisorServiceItem}

-- `analyse` runs a detector, and `others` are the moves of the activators, of the controller and of
-- whatever else there is in the cluster.
module _ {F L D S : Type 0} (client : KubeClient S) (clock : S → ℤ) (time : TimeText)
    (analyse : Detector F D → Exec (World S) (List Pod)) (lister : L → Exec (World S) (List Pod))
    (others : World S → World S → Type 0) where
  pub data Turn (item : KubervisorServiceItem F L D) (w : World S) : World S → Type 0 where
    breaker_turn :
        (p : BreakerActivatorPair F L D)
        → Memᴰ p item.breakers
        → Turn item w (round client clock time (analyse p.detector) lister p.breaker w).1
    other_turn : (v : World S) → others w v → Turn item w v

  pub data Turns (item : KubervisorServiceItem F L D) (w : World S) : World S → Type 0 where
    no_turn : Turns item w w
    next_turn : (u v : World S) → Turns item w u → Turn item u v → Turns item w v
