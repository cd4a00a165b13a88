-- ===== src/Controller/Item.antt =====
-- pkg/controller/item: the item that runs the breakers and activators of a resource, built by
-- factory.go (with the factories of pkg/breaker and pkg/activate), and its comparison with a
-- specification in types.go.
use kubervisor.Prelude.{
  Bool, true, false, not, ◌||◌, Option, none, some, List, [], ◌∷◌, String, Outcome, ok, wrapping,
  str_eq, ◌==◌, length, if◌then◌else◌, ◌>>=◌,
}
use kubervisor.Kube.{SelectorOps}
use kubervisor.Labeling.{selector_with_breaker_name}
use kubervisor.Api.{ActivatorStrategy, BreakerStrategy, KubervisorServiceSpec, KubervisorService}
use kubervisor.Detector.Factory.{Detector, new_detector}
use kubervisor.Breaker.Round.{BreakerImpl}
use kubervisor.Breaker.Round as Breaker
use kubervisor.Activate.Strategy.{ActivatorImpl}
use kubervisor.Activate.Round as Activate

pub record BreakerActivatorPair (F L D : Type 0) : Type 0 where
  pub activator : Option (ActivatorImpl F L)
  pub breaker : BreakerImpl F L
  pub detector : Detector F D

pub record KubervisorServiceItem (F L D : Type 0) : Type 0 where
  pub name : String
  pub namespace : String
  pub default_activator : ActivatorImpl F L
  pub breakers : List (BreakerActivatorPair F L D)
  pub selector : L

-- The factory of pkg/activate.
unfoldable pub new_activator :
    {F L : Type 0} → String → String → L → ActivatorStrategy F → ActivatorImpl F L
new_activator kubervisor_name breaker_strategy_name selector strategy = record {
  kubervisor_name = kubervisor_name;
  breaker_strategy_name = breaker_strategy_name;
  selector = selector;
  activator_strategy_config = strategy;
}

-- The activator of a breaker's own, if it has one.
abbrev pub own_activator :
    {F L : Type 0} → String → String → L → Option (ActivatorStrategy F) → Option (ActivatorImpl F L)
own_activator kubervisor_name breaker_strategy_name selector none = none
own_activator kubervisor_name breaker_strategy_name selector (some s) =
    some (new_activator kubervisor_name breaker_strategy_name selector s)

-- The breaker of a strategy.
abbrev pub breaker_of : {F L : Type 0} → String → L → BreakerStrategy F → BreakerImpl F L
breaker_of kubervisor_name selector bspec = record {
  kubervisor_name = kubervisor_name;
  breaker_strategy_name = bspec.name;
  selector = selector;
  breaker_strategy_config = bspec;
}

module _ {F L D : Type 0} where
  -- The pair of a breaker, with its detector.
  unfoldable pub pair_of :
      String → L → BreakerStrategy F → BreakerImpl F L × Detector F D → BreakerActivatorPair F L D
  unfolding new_activator
  pair_of kubervisor_name selector bspec made = record {
    activator = own_activator kubervisor_name bspec.name selector bspec.activator;
    breaker = made.0;
    detector = made.1;
  }

  -- The item of a resource, with its pairs.
  unfoldable pub item_of :
      KubervisorService F → L → List (BreakerActivatorPair F L D) → KubervisorServiceItem F L D
  unfolding new_activator
  item_of bc augmented pairs = record {
    name = bc.name;
    namespace = bc.namespace;
    default_activator = new_activator bc.name "" augmented bc.spec.default_activator;
    breakers = pairs;
    selector = augmented;
  }

module _ {F L R D : Type 0} (ops : SelectorOps L R) (new_client : String → Outcome (Unit {0})) where
  -- The factory of pkg/breaker, over the factory of tests.
  unfoldable pub new_breaker :
      Option (Outcome (BreakerImpl F L × Detector F D))
      → String
      → L
      → BreakerStrategy F
      → Outcome (BreakerImpl F L × Detector F D)
  new_breaker (some made) kubervisor_name selector bspec = made
  new_breaker none kubervisor_name selector bspec = do
    detector ← wrapping "can't create breaker" (new_detector new_client none bspec)
    ok (breaker_of kubervisor_name selector bspec, detector)

  -- One round of the loop over the breakers.
  unfoldable pub new_pair : String → L → BreakerStrategy F → Outcome (BreakerActivatorPair F L D)
  unfolding pair_of new_breaker
  new_pair kubervisor_name selector bspec = do
    made ← new_breaker none kubervisor_name selector bspec
    ok (pair_of kubervisor_name selector bspec made)

  unfoldable pub new_pairs :
      String → L → List (BreakerStrategy F) → Outcome (List (BreakerActivatorPair F L D))
  unfolding new_pair
  new_pairs kubervisor_name selector [] = ok []
  new_pairs kubervisor_name selector (bspec ∷ breakers) = do
    pair ← new_pair kubervisor_name selector bspec
    pairs ← new_pairs kubervisor_name selector breakers
    ok (pair ∷ pairs)

  unfoldable pub new_item : KubervisorService F → Option L → Outcome (KubervisorServiceItem F L D)
  unfolding new_pairs item_of
  new_item bc selector = do
    augmented ← wrapping "Can't build activator" (selector_with_breaker_name ops selector bc.name)
    pairs ← new_pairs bc.name augmented bc.spec.breakers
    ok (item_of bc augmented pairs)

-- `equal_activator` is the semantic equality of the Kubernetes libraries.
module _ {F L R : Type 0} (ops : SelectorOps L R)
    (equal_activator : ActivatorStrategy F → ActivatorStrategy F → Bool) where
  -- The part of the pair's comparison that is about the activator.
  abbrev pub same_activator :
      Option (ActivatorImpl F L) → Option (ActivatorStrategy F) → Option L → Bool
  same_activator none none selector = true
  same_activator none (some s) selector = false
  same_activator (some a) none selector = false
  same_activator (some a) (some s) selector =
      Activate.compare_config ops equal_activator a s selector

module _ {F L D : Type 0} where
  unfoldable pub get_breaker_by_strategy_name :
      List (BreakerActivatorPair F L D) → String → Option (BreakerActivatorPair F L D)
  get_breaker_by_strategy_name [] strategy_name = none
  get_breaker_by_strategy_name (p ∷ breakers) strategy_name =
      if str_eq p.breaker.breaker_strategy_name strategy_name
      then some p
      else get_breaker_by_strategy_name breakers strategy_name

-- `equal_breaker` is that equality on breakers.
module _ {F L R D : Type 0} (ops : SelectorOps L R)
    (equal_activator : ActivatorStrategy F → ActivatorStrategy F → Bool)
    (equal_breaker : BreakerStrategy F → BreakerStrategy F → Bool) where
  -- The pair's CompareConfig.
  unfoldable pub compare_pair : BreakerActivatorPair F L D → BreakerStrategy F → Option L → Bool
  compare_pair p spec_breaker selector =
      if same_activator ops equal_activator p.activator spec_breaker.activator selector
      then Breaker.compare_config ops equal_breaker p.breaker spec_breaker selector
      else false

  -- Whether the breaker of a name is missing, or differs.
  abbrev pub pair_differs :
      Option (BreakerActivatorPair F L D) → BreakerStrategy F → Option L → Bool
  pair_differs none spec_breaker selector = true
  pair_differs (some p) spec_breaker selector = not (compare_pair p spec_breaker selector)

  -- The loop over the breakers of the specification.
  unfoldable pub any_differs :
      List (BreakerActivatorPair F L D) → List (BreakerStrategy F) → Option L → Bool
  unfolding get_breaker_by_strategy_name
  any_differs breakers [] selector = false
  any_differs breakers (s ∷ specs) selector =
      pair_differs (get_breaker_by_strategy_name breakers s.name) s selector
      || any_differs breakers specs selector

  -- Whether the item differs from the specification.
  unfoldable pub compare_with_spec :
      KubervisorServiceItem F L D → KubervisorServiceSpec F → Option L → Bool
  compare_with_spec b spec selector =
      if not (
        Activate.compare_config ops equal_activator b.default_activator spec.default_activator
          selector)
      then true
      else if not (length spec.breakers == length b.breakers)
      then true
      else any_differs b.breakers spec.breakers selector
