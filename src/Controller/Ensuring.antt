-- ===== src/Controller/Ensuring.antt =====
-- pkg/controller/controller.go: the item of a resource is looked for, and then removed, made or kept.
use kubervisor.Prelude.{ℕ, ◌≡◌, Bool, true, Option, none, some, ok}
use kubervisor.Prelude.Int.{ℤ}
use kubervisor.Kube.Exec.{pure, ◌>>=◌}
use kubervisor.Kube.Ensures.{Ensures, Ensures-pure, Ensures-split, Ensures-bind}
use kubervisor.Api.{KubervisorService}
use kubervisor.Controller.Store.{Handle, key_of, set_runs, start_item}
use kubervisor.Controller.Env.{Service, Env}
use kubervisor.Controller.Reconcile.{
  update_resource_status, service_missing, ensure_item, new_kubervisor_service_item,
}
use kubervisor.Controller.StoreRules.{View, send-Ensures, Ensures-on_store}
use kubervisor.Controller.Phases.{
  resource_key, IsCurrent, unchanged, rebuilt, Kept, Free, Held, Ready,
}
use kubervisor.Controller.Making.{create_item_then}
use kubervisor.Controller.Steps.{Ready-add, start_item-Ensures, remove-Ensures}
use kubervisor.Controller.Tracking.{StoreLaws}

module _ {F L R S St D : Type 0} (env : Env F L R S St D) (laws : StoreLaws env.store key_of)
    (Leaked : ℕ → Type 0) (before : St) where
  module _ (bc : KubervisorService F) where
    -- What the lookup of the item tells.
    unfoldable pub Found : Option (Handle F L D) → St → (ℕ → Bool) → ℕ → Type 0
    unfolding Free Held
    Found none = Free env Leaked before (resource_key bc)
    Found (some bci) = Held env Leaked before (resource_key bc) bci

    pub service_missing-Ensures :
        (found : Option (Handle F L D)) (now : ℤ)
        → Ensures
            (View (Free env Leaked before (resource_key bc)))
            (View (Found found))
            (service_missing env bc found now)
            (λ _. View (Free env Leaked before (resource_key bc)))
    unfolding service_missing update_resource_status Found
    service_missing-Ensures none now =
        Ensures-bind (λ _. View (Free env Leaked before (resource_key bc))) _ _
          (send-Ensures (Free env Leaked before (resource_key bc))
            (Free env Leaked before (resource_key bc)) _ _ (λ t runs n p. p))
          (λ _. Ensures-pure _ (λ c p. p))
    service_missing-Ensures (some bci) now =
        remove-Ensures env laws Leaked before bc Bool _ bci _ _ (
          Ensures-bind (λ _. View (Free env Leaked before (resource_key bc))) _ _
            (send-Ensures (Free env Leaked before (resource_key bc))
              (Free env Leaked before (resource_key bc)) _ _ (λ t runs n p. p))
            (λ _. Ensures-pure _ (λ c p. p)))

    -- The item is in the store, and was built from the resource or does not differ from it.
    unfoldable pub Serves : Service → Handle F L D → St → (ℕ → Bool) → ℕ → Type 0
    unfolding Held
    Serves svc bci t runs n =
        Held env Leaked before (resource_key bc) bci t runs n × IsCurrent env bc svc bci

    Ready-stored :
        (svc : Service) (bci : Handle F L D)
        → new_kubervisor_service_item env bc svc ≡ ok bci.item
        → (t : St) (runs : ℕ → Bool) (n : ℕ)
        → Ready env Leaked before (resource_key bc) bci t runs n
        → Serves svc bci t (set_runs bci.id true runs) n
    unfolding Ready Serves Held
    Ready-stored svc bci built t runs n (kept, key, stored) = ((kept, stored), rebuilt built)

    -- An item that was made is started.
    start_made-Ensures :
        (svc : Service) (made : KubervisorService F × Handle F L D)
        → new_kubervisor_service_item env bc svc ≡ ok made.1.item
        → Ensures
            (View {S = S} (Kept env Leaked before (resource_key bc)))
            (View (Ready env Leaked before (resource_key bc) made.1))
            (start_item made.1 >>= λ _. pure made)
            (λ made. View (Serves svc made.1))
    start_made-Ensures svc made built =
        Ensures-bind (λ _. View (Serves svc made.1)) _ _
          (start_item-Ensures env laws Leaked before bc made.1 (Serves svc made.1)
            (Ready-stored svc made.1 built))
          (λ _. Ensures-pure _ (λ c p. p))

    pub ensure_item-Ensures :
        (svc : Service) (found : Option (Handle F L D)) (now : ℤ)
        → Ensures
            (View (Kept env Leaked before (resource_key bc)))
            (View (Found found))
            (ensure_item env bc svc found now)
            (λ made. View (Serves svc made.1))
    unfolding ensure_item Found Serves
    ensure_item-Ensures svc none now =
        create_item_then env bc laws Leaked before svc now _ _ (λ made built.
          Ensures-bind (λ _. View (Ready env Leaked before (resource_key bc) made.1)) _ _
            (Ensures-on_store (Ready env Leaked before (resource_key bc) made.1) _
              (Ready env Leaked before (resource_key bc) made.1) (laws.add_ok made.1)
              (Ready-add env laws Leaked before (resource_key bc) made.1))
            (λ _. start_made-Ensures svc made built))
    ensure_item-Ensures svc (some bci) now =
        Ensures-split _ _ _
          (λ outdated.
            remove-Ensures env laws Leaked before bc _ _ bci _ _
              (create_item_then env bc laws Leaked before svc now _ _ (start_made-Ensures svc)))
          (λ same. Ensures-pure _ (λ c p. (p, unchanged same)))

    pub Found-Kept :
        (found : Option (Handle F L D)) (t : St) (runs : ℕ → Bool) (n : ℕ)
        → Found found t runs n
        → Kept env Leaked before (resource_key bc) t runs n
    unfolding Found Free Held
    Found-Kept none t runs n p = p.0
    Found-Kept (some bci) t runs n p = p.0
