-- ===== src/Controller/Maintaining.antt =====
-- pkg/controller/controller.go: the last part of a synchronisation, which leaves the store and the
-- objects that run alone.
use kubervisor.Prelude.{ℕ, Bool, Option, none, some, Error, arith}
use kubervisor.Prelude.Int.{ℤ}
use kubervisor.Kube.Exec.{Exec}
use kubervisor.Kube.Ensures.{
  Ensures, Ensures-pure, Ensures-gets, Ensures-lift, Ensures-if, Ensures-bind,
}
use kubervisor.Pod.Control.{World}
use kubervisor.Api.{KubervisorService, PodCountStatus}
use kubervisor.Controller.Store.{Handle, on_world}
use kubervisor.Controller.Env.{Service, Env}
use kubervisor.Controller.Reconcile.{
  update_resource_status, reject_with, no_errors, write_counts, maintain,
}
use kubervisor.Controller.StoreRules.{View, send-Ensures, Ensures-on_world, Ensures-update_gauge}

module _ {F L R S St D : Type 0} (env : Env F L R S St D) (P K : St → (ℕ → Bool) → ℕ → Type 0)
    (weaker : (t : St) (runs : ℕ → Bool) (n : ℕ) → P t runs n → K t runs n) where
  reject_with-Ensures :
      (e : Option Error) → Ensures (View K) (View P) (reject_with env e) (λ _. View P)
  unfolding reject_with
  reject_with-Ensures none = Ensures-pure _ (λ c p. p)
  reject_with-Ensures (some e) =
      Ensures-lift _ (λ c p. weaker c.items c.runs c.created p) (λ a x. absurd (ground arith))

  on_world-Kept :
      {A : Type 0} (m : Exec (World S) A) → Ensures (View K) (View P) (on_world m) (λ _. View P)
  on_world-Kept m = Ensures-on_world P K m weaker

  write_counts-Ensures :
      (bc : KubervisorService F) (status : PodCountStatus) (now : ℤ)
      → Ensures (View K) (View P) (write_counts env bc status now) (λ _. View P)
  unfolding write_counts update_resource_status
  write_counts-Ensures bc status now =
      Ensures-if _ _ _
        (Ensures-bind (λ _. View P) _ _ (send-Ensures P K _ _ weaker)
          (λ _. Ensures-pure _ (λ c p. p)))
        (Ensures-pure _ (λ c p. p))

  pub maintain-Ensures :
      (bc : KubervisorService F) (bci : Handle F L D) (svc : Service) (now : ℤ)
      → Ensures (View K) (View P) (maintain env bc bci svc now) (λ _. View P)
  unfolding maintain no_errors
  maintain-Ensures bc bci svc now =
      Ensures-bind (λ _. View P) _ _ (on_world-Kept _)
        (λ cleaned.
          Ensures-bind (λ _. View P) _ _ (reject_with-Ensures _)
            (λ _.
              Ensures-bind (λ _. View P) _ _ (on_world-Kept _)
                (λ labelled.
                  Ensures-bind (λ _. View P) _ _ (reject_with-Ensures _)
                    (λ _.
                      Ensures-bind (λ _. View P) _ _ (Ensures-gets _ (λ c p. p))
                        (λ listed.
                          Ensures-bind (λ _. View P) _ _
                            (Ensures-lift _ (λ c p. weaker c.items c.runs c.created p)
                              (λ a e c p. p))
                            (λ status.
                              Ensures-bind (λ _. View P) _ _ (Ensures-update_gauge P _ _ _)
                                (λ _. write_counts-Ensures bc status now)))))))
