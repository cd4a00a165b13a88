-- ===== src/Controller/ItemParts.antt =====
-- What an item is made of.
use kubervisor.Prelude.{
  subst, bind_inv, ◌∙◌, wrapping_inv, ok-injective, ◌≡◌, refl, sym, Option, List, String, Outcome,
  ok, wrapping, ◌>>=◌,
}
use kubervisor.Kube.{SelectorOps}
use kubervisor.Labeling.{selector_with_breaker_name}
use kubervisor.Api.{KubervisorService}
use kubervisor.Controller.Item.{
  BreakerActivatorPair, KubervisorServiceItem, new_activator, new_pairs, item_of, new_item,
}

module _ {F L R D : Type 0} (ops : SelectorOps L R) (new_client : String → Outcome (Unit {0}))
    (bc : KubervisorService F) (selector : Option L) (item : KubervisorServiceItem F L D) where
  -- An item comes from its resource, a selector and its pairs.
  pub new_item_inv :
      new_item ops new_client bc selector ≡ ok item
      → (own : L) × (pairs : List (BreakerActivatorPair F L D)) × (selector_with_breaker_name ops
            selector bc.name
          ≡ ok own)
        × (new_pairs ops new_client bc.name own bc.spec.breakers ≡ ok pairs)
        × (item_of bc own pairs ≡ item)
  unfolding new_item
  new_item_inv built =
      let (augmented, made, rest) =
        bind_inv
          (wrapping "Can't build activator" (selector_with_breaker_name ops selector bc.name))
          (λ a. new_pairs ops new_client bc.name a bc.spec.breakers >>= λ ps. ok (item_of bc a ps))
          item built in
      let (pairs, all, same) =
        bind_inv (new_pairs ops new_client bc.name augmented bc.spec.breakers)
          (λ ps. ok (item_of bc augmented ps)) item rest in
      (
        augmented,
        pairs,
        wrapping_inv "Can't build activator" _ augmented made,
        all,
        ok-injective same,
      )

  -- An item has the name of its resource, and so has its activator.
  pub new_item-named :
      new_item ops new_client bc selector ≡ ok item
      → (item.namespace ≡ bc.namespace) × (item.name ≡ bc.name)
  unfolding item_of
  new_item-named built =
      let (own, pairs, made, all, same) = new_item_inv built in
      subst (λ x. (x.namespace ≡ bc.namespace) × (x.name ≡ bc.name)) {x = item_of bc own pairs} same
        (refl, refl)

  pub new_item-activator :
      (own : L)
      → selector_with_breaker_name ops selector bc.name ≡ ok own
      → new_item ops new_client bc selector ≡ ok item
      → (item.default_activator.kubervisor_name ≡ bc.name) × (item.default_activator.selector ≡ own)
  unfolding item_of new_activator
  new_item-activator own h built =
      let (chosen, pairs, made, all, same) = new_item_inv built in
      subst
        (λ x.
          (x.default_activator.kubervisor_name ≡ bc.name) × (x.default_activator.selector ≡ own))
        {x = item_of bc chosen pairs} same (refl, ok-injective (sym made ∙ h))
