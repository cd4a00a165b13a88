-- ===== src/Controller/ItemLaws.antt =====
-- An item agrees with the specification that it was built from.
use kubervisor.Prelude.{
  ℕ, subst, bind_inv, ok-injective, ◌≡◌, ◌∙◌, refl, sym, ap, arith, eq_iff, Bool, true, false, ◌||◌,
  Option, none, some, List, [], ◌∷◌, String, Outcome, ok, str_eq, ◌==◌, length, wrapping, ◌>>=◌,
}
use kubervisor.Kube.{SelectorOps}
use kubervisor.Labeling.{selector_with_breaker_name}
use kubervisor.Api.{ActivatorStrategy, BreakerStrategy, KubervisorService}
use kubervisor.Detector.Factory.{Detector, new_detector}
use kubervisor.Breaker.Round.{BreakerImpl}
use kubervisor.Breaker.Round as Breaker
use kubervisor.Activate.Round as Activate
use kubervisor.Controller.Item.{
  BreakerActivatorPair, KubervisorServiceItem, new_activator, own_activator, breaker_of,
  new_breaker, new_pair, new_pairs, pair_of, item_of, new_item, same_activator, compare_pair,
  any_differs, compare_with_spec,
}
use kubervisor.Controller.ItemParts.{new_item_inv}

module _ {F : Type 0} where
  -- Whether a breaker of the specification has a name.
  abbrev pub has_name : String → List (BreakerStrategy F) → Bool
  has_name name [] = false
  has_name name (s ∷ specs) = str_eq name s.name || has_name name specs

  -- No two breakers of the specification share a name.
  abbrev pub AreDistinct : List (BreakerStrategy F) → Type 0
  AreDistinct [] = Unit
  AreDistinct (s ∷ specs) = (has_name s.name specs ≡ false) × AreDistinct specs

module _ {F L D : Type 0} (kubervisor_name : String) (selector : L) where
  -- That a pair was built from a strategy.
  pub record IsPairOf (s : BreakerStrategy F) (p : BreakerActivatorPair F L D) : Type 0 where
    pub activator : p.activator ≡ own_activator kubervisor_name s.name selector s.activator
    pub breaker : p.breaker ≡ breaker_of kubervisor_name selector s

  abbrev pub ArePairsOf : List (BreakerStrategy F) → List (BreakerActivatorPair F L D) → Type 0
  ArePairsOf [] [] = Unit
  ArePairsOf (s ∷ specs) (p ∷ pairs) = IsPairOf s p × ArePairsOf specs pairs
  ArePairsOf _ _ = ⊥

  length-ArePairsOf :
      (specs : List (BreakerStrategy F)) (pairs : List (BreakerActivatorPair F L D))
      → ArePairsOf specs pairs
      → length specs ≡ length pairs
  length-ArePairsOf [] [] h = refl
  length-ArePairsOf [] (p ∷ pairs) h = elim h [ ]
  length-ArePairsOf (s ∷ specs) [] h = elim h [ ]
  length-ArePairsOf (s ∷ specs) (p ∷ pairs) h = omega (arith, length-ArePairsOf specs pairs h.1)

module _ {F L R : Type 0} (ops : SelectorOps L R)
    (equal_activator : ActivatorStrategy F → ActivatorStrategy F → Bool)
    (equal_breaker : BreakerStrategy F → BreakerStrategy F → Bool)
    (activators_same : (s : ActivatorStrategy F) → equal_activator s s ≡ true)
    (breakers_same : (s : BreakerStrategy F) → equal_breaker s s ≡ true)
    (selectors_same : (l : Option L) → ops.deep_equal l l ≡ true) (input : Option L) (name : String)
    (selector : L) (augmented : selector_with_breaker_name ops input name ≡ ok selector) where
  same_default :
      (strategy_name : String) (s : ActivatorStrategy F)
      → Activate.compare_config ops equal_activator
          (new_activator name strategy_name selector s)
          s
          input
        ≡ true
  unfolding Activate.compare_config new_activator
  same_default strategy_name s =
      rw (activators_same s, augmented, selectors_same (some selector)) refl

  same_own :
      (strategy_name : String) (s : Option (ActivatorStrategy F))
      → same_activator ops equal_activator (own_activator name strategy_name selector s) s input
        ≡ true
  same_own strategy_name none = refl
  same_own strategy_name (some s) = same_default strategy_name s

  same_breaker :
      (s : BreakerStrategy F)
      → Breaker.compare_config ops equal_breaker (breaker_of name selector s) s input ≡ true
  unfolding Breaker.compare_config
  same_breaker s = rw (breakers_same s, augmented, selectors_same (some selector)) refl

  compare_pair-IsPairOf :
      {D : Type 0} (s : BreakerStrategy F) (p : BreakerActivatorPair F L D)
      → IsPairOf name selector s p
      → compare_pair ops equal_activator equal_breaker p s input ≡ true
  unfolding compare_pair
  compare_pair-IsPairOf s p h =
      rw (h.activator, h.breaker, same_own s.name s.activator, same_breaker s) refl

  get_breaker-skip :
      {D : Type 0} (p : BreakerActivatorPair F L D) (pairs : List (BreakerActivatorPair F L D))
      (specs : List (BreakerStrategy F))
      → has_name p.breaker.breaker_strategy_name specs ≡ false
      → any_differs ops equal_activator equal_breaker (p ∷ pairs) specs input
        ≡ any_differs ops equal_activator equal_breaker pairs specs input
  unfolding any_differs
  get_breaker-skip p pairs [] h = refl
  get_breaker-skip p pairs (s ∷ specs) h =
      let e : str_eq p.breaker.breaker_strategy_name s.name ≡ false = ground arith in
      rw (e, get_breaker-skip p pairs specs (ground arith)) refl

  any_differs-ArePairsOf :
      {D : Type 0} (specs : List (BreakerStrategy F)) (pairs : List (BreakerActivatorPair F L D))
      → AreDistinct specs
      → ArePairsOf name selector specs pairs
      → any_differs ops equal_activator equal_breaker pairs specs input ≡ false
  unfolding any_differs
  any_differs-ArePairsOf [] pairs d h = refl
  any_differs-ArePairsOf (s ∷ specs) [] d h = elim h [ ]
  any_differs-ArePairsOf (s ∷ specs) (p ∷ pairs) d h =
      let e = ap (λ b. b.breaker_strategy_name) h.0.breaker in
      rw
        (
          (eq_iff p.breaker.breaker_strategy_name s.name).1 e,
          compare_pair-IsPairOf s p h.0,
          get_breaker-skip p pairs specs (rw e d.0),
        )
        (any_differs-ArePairsOf specs pairs d.1 h.1)

module _ {F L R D : Type 0} (ops : SelectorOps L R) (new_client : String → Outcome (Unit {0})) where
  new_breaker-eq :
      (name : String) (selector : L) (s : BreakerStrategy F) (made : BreakerImpl F L × Detector F D)
      → new_breaker ops new_client none name selector s ≡ ok made
      → made.0 ≡ breaker_of name selector s
  unfolding new_breaker
  new_breaker-eq name selector s made h =
      let (detector, found, same) =
        bind_inv (wrapping "can't create breaker" (new_detector new_client none s))
          (λ d. ok (breaker_of name selector s, d)) made h in
      sym (ap (λ x. x.0) (ok-injective same))

  new_pair-IsPairOf :
      (name : String) (selector : L) (s : BreakerStrategy F) (p : BreakerActivatorPair F L D)
      → new_pair ops new_client name selector s ≡ ok p
      → IsPairOf name selector s p
  unfolding new_pair
  new_pair-IsPairOf name selector s p h =
      let (made, built, same) =
        bind_inv (new_breaker ops new_client none name selector s)
          (λ x. ok (pair_of name selector s x)) p h in
      record {
        activator = sym (ap (λ q. q.activator) (ok-injective same));
        breaker =
            sym (ap (λ q. q.breaker) (ok-injective same))
            ∙ new_breaker-eq name selector s made built;
      }

  pub new_pairs-ArePairsOf :
      (name : String) (selector : L) (specs : List (BreakerStrategy F))
      (pairs : List (BreakerActivatorPair F L D))
      → new_pairs ops new_client name selector specs ≡ ok pairs
      → ArePairsOf name selector specs pairs
  unfolding new_pairs
  new_pairs-ArePairsOf name selector [] [] h = tt
  new_pairs-ArePairsOf name selector [] (p ∷ pairs) h = absurd (ground arith)
  new_pairs-ArePairsOf name selector (s ∷ specs) pairs h =
      let later = new_pairs ops new_client name selector specs in
      let (p, made, rest) =
        bind_inv (new_pair ops new_client name selector s) (λ q. later >>= λ qs. ok (q ∷ qs)) pairs
          h in
      let (ps, all, same) = bind_inv later (λ qs. ok (p ∷ qs)) pairs rest in
      subst (ArePairsOf name selector (s ∷ specs)) {x = p ∷ ps} (ok-injective same)
        (new_pair-IsPairOf name selector s p made, new_pairs-ArePairsOf name selector specs ps all)

equal_lengths : (a b : ℕ) → a ≡ b → (a == b) ≡ true
equal_lengths a b e = ground arith

item_of-agrees :
    {F L R D : Type 0} (ops : SelectorOps L R)
    (equal_activator : ActivatorStrategy F → ActivatorStrategy F → Bool)
    (equal_breaker : BreakerStrategy F → BreakerStrategy F → Bool)
    (h : (s : ActivatorStrategy F) → equal_activator s s ≡ true)
    (k : (s : BreakerStrategy F) → equal_breaker s s ≡ true)
    (l : (x : Option L) → ops.deep_equal x x ≡ true) (input : Option L) (bc : KubervisorService F)
    (selector : L) (made : selector_with_breaker_name ops input bc.name ≡ ok selector)
    (pairs : List (BreakerActivatorPair F L D))
    → AreDistinct bc.spec.breakers
    → ArePairsOf bc.name selector bc.spec.breakers pairs
    → compare_with_spec ops equal_activator equal_breaker (item_of bc selector pairs) bc.spec input
      ≡ false
unfolding compare_with_spec item_of
item_of-agrees ops equal_activator equal_breaker h k l input bc selector made pairs d are =
    rw
      (
        same_default ops equal_activator equal_breaker h k l input bc.name selector made ""
            bc.spec.default_activator,
        equal_lengths (length bc.spec.breakers) (length pairs)
            (length-ArePairsOf bc.name selector bc.spec.breakers pairs are),
      )
      (any_differs-ArePairsOf ops equal_activator equal_breaker h k l input bc.name selector made
        bc.spec.breakers pairs d are)

-- An item that was just built does not differ from the specification that it was built from, at the
-- same selector, if no two of its breakers share a name and the equality tests are reflexive.
pub new_item-compare_with_spec :
    {F L R D : Type 0} (ops : SelectorOps L R) (new_client : String → Outcome (Unit {0}))
    (equal_activator : ActivatorStrategy F → ActivatorStrategy F → Bool)
    (equal_breaker : BreakerStrategy F → BreakerStrategy F → Bool) (bc : KubervisorService F)
    (selector : Option L) (item : KubervisorServiceItem F L D)
    → ((s : ActivatorStrategy F) → equal_activator s s ≡ true)
    → ((s : BreakerStrategy F) → equal_breaker s s ≡ true)
    → ((l : Option L) → ops.deep_equal l l ≡ true)
    → AreDistinct bc.spec.breakers
    → new_item ops new_client bc selector ≡ ok item
    → compare_with_spec ops equal_activator equal_breaker item bc.spec selector ≡ false
unfolding compare_with_spec
new_item-compare_with_spec ops new_client equal_activator equal_breaker bc selector item h k l d
      built =
    let (augmented, pairs, made, all, same) = new_item_inv ops new_client bc selector item built in
    let are = new_pairs-ArePairsOf ops new_client bc.name augmented bc.spec.breakers pairs all in
    subst (λ x. compare_with_spec ops equal_activator equal_breaker x bc.spec selector ≡ false)
      {x = item_of bc augmented pairs} same
      (item_of-agrees ops equal_activator equal_breaker h k l selector bc augmented made pairs d
        are)
