-- ===== src/Controller/SuccessLaws.antt =====
-- A synchronisation on a cluster that cooperates succeeds.
use kubervisor.Prelude.{◌≡◌, Bool, false}
use kubervisor.Kube.{Pod}
use kubervisor.Kube.Exec.{Exec}
use kubervisor.Kube.Gives.{Gives}
use kubervisor.Controller.Env.{Env}
use kubervisor.Controller.Store.{key_of}
use kubervisor.Controller.Tracking.{StoreLaws}
use kubervisor.Controller.Cooperation.{Cooperates}

abbrev Anything : {A : Type 0} → A → Type 0
Anything a = Unit {0}

module _ {F L R S St D : Type 0} (env : Env F L R S St D) (laws : StoreLaws env.store key_of)
    (cooperates : Cooperates env) where
  IsFalse : Bool → Type 0
  IsFalse r = r ≡ false
