-- ===== src/Lifecycle.antt =====
-- The life of one pod under the whole program: the writes of the breakers (pkg/breaker), of the
-- activators (pkg/activate) and of the controller (pkg/controller), in any order, on one API server.
pub mod Budget
pub mod Visits
pub mod Steps
pub mod BudgetLaws
pub mod Progress
use kubervisor.Prelude.{◌≡◌, ◌⊎◌, none, some, Option, String, not, false, true}
use kubervisor.Prelude.Int.{ℤ}
use kubervisor.Kube.{Pod, KubeClient}

-- `stored` is the pod that the server holds, if it was not deleted. A write stores what was sent, or is
-- refused and changes nothing.
pub record IsServer {S : Type 0} (client : KubeClient S) (stored : S → Option Pod) : Type 0 where
  pub updated :
      (q : Pod) (s : S)
      → (stored (client.update q s).1 ≡ stored s) ⊎ (stored (client.update q s).1 ≡ some q)
  pub deleted :
      (namespace name : String) (s : S)
      → (stored (client.delete namespace name s).1 ≡ stored s)
        ⊎ (stored (client.delete namespace name s).1 ≡ none)
