-- ===== src/Controller/Keeping.antt =====
-- pkg/controller/controller.go: how a synchronisation goes through the phases of its item.
use kubervisor.Prelude.{
  ℕ, ◌≡◌, refl, ◌∙◌, arith, Bool, true, Option, none, some, Outcome, String, ok, err, panic,
}
use kubervisor.Prelude.Int.{ℤ}
use kubervisor.Kube.Ensures.{
  Ensures, Ensures-gets, Ensures-lift, Ensures-if, Ensures-bind, Ensures-weaken, Ensures-then,
}
use kubervisor.Api.{KubervisorService}
use kubervisor.Controller.Store.{Handle, Ctrl, key_of, get_key}
use kubervisor.Controller.Env.{Service, Env}
use kubervisor.Controller.Reconcile.{
  with_service, init_start_time, sync_started, sync_kubervisor_service,
}
use kubervisor.Controller.StoreRules.{View, send-Ensures}
use kubervisor.Controller.Phases.{resource_key, Kept, Free, Held, IsCurrent}
use kubervisor.Controller.Ensuring.{
  Found, Found-Kept, Serves, service_missing-Ensures, ensure_item-Ensures,
}
use kubervisor.Controller.Maintaining.{maintain-Ensures}
use kubervisor.Controller.Steps.{Free-Kept}
use kubervisor.Controller.Tracking.{StoreLaws, Accounted}

module _ {F L R S St D : Type 0} (env : Env F L R S St D) (laws : StoreLaws env.store key_of)
    (Leaked : ℕ → Type 0) (before : St) where
  -- Some item serves.
  unfoldable pub Served : KubervisorService F → Service → St → (ℕ → Bool) → ℕ → Type 0
  unfolding Serves
  Served bc svc t runs n = (bci : Handle F L D) × Serves env laws Leaked before bc svc bci t runs n

  Serves-Kept :
      (bc : KubervisorService F) (svc : Service) (bci : Handle F L D) (t : St) (runs : ℕ → Bool)
      (n : ℕ)
      → Serves env laws Leaked before bc svc bci t runs n
      → Kept env Leaked before (resource_key bc) t runs n
  unfolding Serves Held
  Serves-Kept bc svc bci t runs n s = s.0.0

  Served-Kept :
      (bc : KubervisorService F) (svc : Service) (t : St) (runs : ℕ → Bool) (n : ℕ)
      → Served bc svc t runs n
      → Kept env Leaked before (resource_key bc) t runs n
  unfolding Served
  Served-Kept bc svc t runs n s = Serves-Kept bc svc s.0 t runs n s.1

  pub with_service_ok-Ensures :
      (bc : KubervisorService F) (svc : Service) (found : Option (Handle F L D)) (now : ℤ)
      → Ensures
          (View (Kept env Leaked before (resource_key bc)))
          (View (Found env laws Leaked before bc found))
          (with_service env bc found now (ok svc))
          (λ r. View (Served bc svc))
  unfolding with_service Served
  with_service_ok-Ensures bc svc found now =
      Ensures-bind (λ made. View (Serves env laws Leaked before bc svc made.1)) _ _
        (ensure_item-Ensures env laws Leaked before bc svc found now)
        (λ made.
          Ensures-then (λ r c s. (made.1, s))
            (maintain-Ensures env (Serves env laws Leaked before bc svc made.1)
              (Kept env Leaked before (resource_key bc)) (Serves-Kept bc svc made.1) made.0 made.1
              svc now))

  with_service-Ensures :
      (bc : KubervisorService F) (found : Option (Handle F L D)) (now : ℤ) (r : Outcome Service)
      → Ensures
          (View (Kept env Leaked before (resource_key bc)))
          (View (Found env laws Leaked before bc found))
          (with_service env bc found now r)
          (λ _. View (Kept env Leaked before (resource_key bc)))
  unfolding with_service
  with_service-Ensures bc found now (ok svc) =
      Ensures-then (λ r c s. Served-Kept bc svc _ _ _ s) (with_service_ok-Ensures bc svc found now)
  with_service-Ensures bc found now (err e) =
      Ensures-if _ _ _
        (Ensures-weaken (service_missing-Ensures env laws Leaked before bc found now)
          (λ c p. Free-Kept env laws Leaked before (resource_key bc) _ _ _ p))
        (Ensures-lift _ (λ c p. Found-Kept env laws Leaked before bc found _ _ _ p)
          (λ a e. absurd (ground arith)))
  with_service-Ensures bc found now panic =
      Ensures-lift _ (λ c p. Found-Kept env laws Leaked before bc found _ _ _ p)
        (λ a e. absurd (ground arith))

  pub Found-of :
      (bc : KubervisorService F) (found : Option (Handle F L D)) (t : St) (runs : ℕ → Bool) (n : ℕ)
      → Kept env Leaked before (resource_key bc) t runs n
      → env.store.get_by_key (get_key bc.namespace bc.name) t ≡ ok found
      → Found env laws Leaked before bc found t runs n
  unfolding Found Free Held
  Found-of bc none t runs n p e = (p, e)
  Found-of bc (some bci) t runs n p e = (p, e)

  sync_started-Ensures :
      (bc : KubervisorService F) (now : ℤ)
      → Ensures
          (View (Kept env Leaked before (resource_key bc)))
          (View (Kept env Leaked before (resource_key bc)))
          (sync_started env bc now)
          (λ _. View (Kept env Leaked before (resource_key bc)))
  unfolding sync_started
  sync_started-Ensures bc now =
      Ensures-bind
        (λ r c.
          View (Kept env Leaked before (resource_key bc)) c
          × (env.store.get_by_key (get_key bc.namespace bc.name) c.items ≡ r))
        _ _ (Ensures-gets _ (λ c p. (p, refl)))
        (λ looked_up.
          Ensures-bind (λ found. View (Found env laws Leaked before bc found)) _ _
            (Ensures-lift _ (λ c p. p.0) (λ found e c p. Found-of bc found _ _ _ p.0 (p.1 ∙ e)))
            (λ found.
              Ensures-bind (λ _. View (Found env laws Leaked before bc found)) _ _
                (Ensures-gets _ (λ c p. p)) (λ r. with_service-Ensures bc found now r)))

  pub sync_kubervisor_service-Ensures :
      (bc : KubervisorService F)
      → Ensures
          (View (Kept env Leaked before (resource_key bc)))
          (View (Kept env Leaked before (resource_key bc)))
          (sync_kubervisor_service env bc)
          (λ _. View (Kept env Leaked before (resource_key bc)))
  unfolding sync_kubervisor_service init_start_time
  sync_kubervisor_service-Ensures bc =
      Ensures-bind (λ _. View (Kept env Leaked before (resource_key bc))) _ _
        (Ensures-gets _ (λ c p. p))
        (λ now. Ensures-if _ _ _ (sync_started-Ensures bc now) (
          send-Ensures (Kept env Leaked before (resource_key bc))
            (Kept env Leaked before (resource_key bc)) _ _ (λ t runs n p. p)))

  pub item_runs :
      (bc : KubervisorService F) (svc : Service) (c : Ctrl S St)
      → View (Served bc svc) c
      → (bci : Handle F L D) × (env.store.get_by_key (get_key bc.namespace bc.name) c.items
          ≡ ok (some bci))
        × (c.runs bci.id ≡ true)
        × IsCurrent env bc svc bci
  unfolding Served Serves Held
  item_runs bc svc c (bci, ((kept, stored), current)) =
      (bci, stored, kept.tracked.running (get_key bc.namespace bc.name) bci stored, current)

module _ {F L R S St D : Type 0} (env : Env F L R S St D) (Leaked : ℕ → Type 0) (before : St)
    (own : String) where
  pub Free-Accounted :
      (t : St) (runs : ℕ → Bool) (n : ℕ)
      → Free env Leaked before own t runs n
      → Accounted Leaked env.store t runs n × (env.store.get_by_key own t ≡ ok none)
  unfolding Free
  Free-Accounted t runs n f = (f.0.tracked, f.1)
