-- ===== src/Controller/Making.antt =====
-- pkg/controller/controller.go: the item that createItem returns is the one that was built.
use kubervisor.Prelude.{ℕ, ◌≡◌, refl, ap, ok, err, panic, Outcome, arith}
use kubervisor.Prelude.Int.{ℤ}
use kubervisor.Kube.Exec.{Exec, ◌>>=◌}
use kubervisor.Kube.Ensures.{
  Ensures, Ensures-pure, Ensures-lift, Ensures-leaves, Ensures-bind, Ensures-and, Ensures-then,
}
use kubervisor.Api.{KubervisorService}
use kubervisor.Controller.Item.{KubervisorServiceItem}
use kubervisor.Controller.Store.{Handle, Ctrl, key_of, allocate}
use kubervisor.Controller.Env.{Service, Env}
use kubervisor.Controller.Reconcile.{
  new_kubervisor_service_item, register_item, with_item, create_item,
}
use kubervisor.Controller.StoreRules.{View}
use kubervisor.Controller.Tracking.{StoreLaws}
use kubervisor.Controller.Phases.{resource_key, Kept, Free, Ready}
use kubervisor.Controller.Steps.{create_item-Ensures}

module _ {F L R S St D : Type 0} (env : Env F L R S St D) (bc : KubervisorService F) where
  abbrev Made : Type 0
  Made = KubervisorService F × Handle F L D

  abbrev Whatever : Ctrl S St → Type 0
  Whatever c = Unit {0}

  -- A step that tells nothing new.
  Ensures-skip :
      {A : Type 0} (P : Type 0) (m : Exec (Ctrl S St) A) → Ensures Whatever (λ c. P) m (λ a c. P)
  Ensures-skip P m = Ensures-leaves (λ c p. p) (λ c p. tt)

  allocate-item :
      (item : KubervisorServiceItem F L D)
      → Ensures {W = Ctrl S St} Whatever Whatever (allocate item) (λ bci c. item ≡ bci.item)
  unfolding allocate
  allocate-item item = record { at = λ c p. refl }

  register_item-item :
      (now : ℤ) (item : KubervisorServiceItem F L D)
      → Ensures Whatever Whatever (register_item env bc now item) (λ made c. item ≡ made.1.item)
  unfolding register_item
  register_item-item now item =
      Ensures-bind (λ bci c. item ≡ bci.item) _ _ (allocate-item item)
        (λ bci.
          Ensures-bind (λ a c. item ≡ bci.item) _ _ (Ensures-skip (item ≡ bci.item) _)
            (λ updated.
              Ensures-bind (λ a c. item ≡ bci.item) _ _ (Ensures-skip (item ≡ bci.item) _)
                (λ _.
                  Ensures-bind (λ a c. item ≡ bci.item) _ _ (Ensures-skip (item ≡ bci.item) _)
                    (λ _. Ensures-pure _ (λ c p. p)))))

  with_item-item :
      (now : ℤ) (r : Outcome (KubervisorServiceItem F L D))
      → Ensures Whatever Whatever (with_item env bc now r) (λ made c. r ≡ ok made.1.item)
  unfolding with_item
  with_item-item now (ok item) = Ensures-then (λ made c e. ap ok e) (register_item-item now item)
  with_item-item now (err e) =
      Ensures-bind (λ a. Whatever) _ _ (Ensures-skip (Unit {0}) _)
        (λ _. Ensures-lift _ (λ c p. tt) (λ a x. absurd (ground arith)))
  with_item-item now panic = Ensures-lift _ (λ c p. tt) (λ a x. absurd (ground arith))

  create_item-item :
      (svc : Service) (now : ℤ)
      → Ensures Whatever Whatever
          (create_item env bc svc now)
          (λ made c. new_kubervisor_service_item env bc svc ≡ ok made.1.item)
  unfolding create_item
  create_item-item svc now = with_item-item now _

  -- What follows the creation knows where the item comes from.
  pub create_item_then :
      {A : Type 0} (laws : StoreLaws env.store key_of) (Leaked : ℕ → Type 0) (before : St)
      (svc : Service) (now : ℤ) (next : Made → Exec (Ctrl S St) A) (Q : A → Ctrl S St → Type 0)
      → ((made : Made)
          → new_kubervisor_service_item env bc svc ≡ ok made.1.item
          → Ensures
              (View (Kept env Leaked before (resource_key bc)))
              (View (Ready env Leaked before (resource_key bc) made.1))
              (next made)
              Q)
      → Ensures
          (View (Kept env Leaked before (resource_key bc)))
          (View (Free env Leaked before (resource_key bc)))
          (create_item env bc svc now >>= next)
          Q
  create_item_then laws Leaked before svc now next Q h =
      Ensures-bind
        (λ made c.
          View (Ready env Leaked before (resource_key bc) made.1) c
          × (new_kubervisor_service_item env bc svc ≡ ok made.1.item))
        _ _
        (Ensures-and (create_item-Ensures env laws Leaked before bc svc now)
          (record { at = λ c p. (create_item-item svc now).at c tt }))
        (λ made. record { at = λ c p. (h made p.1).at c p.0 })
