-- ===== src/Controller/Env.antt =====
-- What the controller uses of the Kubernetes libraries and of its clients, as a record of parameters.
use kubervisor.Prelude.{Bool, Option, List, String, Outcome, Error}
use kubervisor.Prelude.Int.{ℤ}
use kubervisor.Prelude.Dict.{Dict}
use kubervisor.Kube.{Pod, KubeClient, SelectorOps}
use kubervisor.Kube.Exec.{Exec}
use kubervisor.Pod.Control.{World}
use kubervisor.Api.{ActivatorStrategy, BreakerStrategy, KubervisorService}
use kubervisor.Controller.Store.{Handle, ItemStore}

-- A service of the cluster.
pub record Service : Type 0 where
  pub name : String
  pub namespace : String
  pub selector : Dict String

-- The clients, the listers, the selectors and the texts that the controller uses.
pub record Env (F L R S St : Type 0) (D : Type 0) : Type 0 where
  pub ops : SelectorOps L R
  pub selector_of : Dict String → L  -- AsSelectorPreValidated
  pub new_selector : L
  pub requirements : L → List R
  pub requirement_key : R → String
  pub new_client : String → Outcome (Unit {0})
  pub equal_activator : ActivatorStrategy F → ActivatorStrategy F → Bool
  pub equal_breaker : BreakerStrategy F → BreakerStrategy F → Bool
  pub client : KubeClient S
  pub now : S → ℤ
  pub get_service : String → String → World S → Outcome Service
  pub list_pods : Dict String → World S → Outcome (List Pod)
  pub list_namespace : String → Dict String → World S → Outcome (List Pod)
  pub list_selected : String → L → World S → Outcome (List Pod)
  pub update_handler : KubervisorService F → Exec (World S) (KubervisorService F)
  pub store : ItemStore St (Handle F L D)
  pub new_aggregate : List Error → Option Error
  pub error_text : Error → String
