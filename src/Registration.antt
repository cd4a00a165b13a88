-- ===== src/Registration.antt =====
-- pkg/client/client.go: DefineKubervisorResources, and the end of RegisterAPI of pkg/controller/config.go,
-- which calls it. The server of resource definitions, the polling of the wait package, the aggregate of
-- two errors and the test of an error are parameters.
use kubervisor.Prelude.{
  Bool, true, false, ◌&&◌, List, [], ◌∷◌, String, Outcome, ok, err, panic, Error, if◌then◌else◌,
}
use kubervisor.Kube.Exec.{Exec}
pub mod Laws
pub mod Connection

pub data CrdConditionKind : Type 0 where
  established names_accepted terminating : CrdConditionKind

pub data CrdStatus : Type 0 where
  crd_true crd_false crd_unknown : CrdStatus

pub record CrdCondition : Type 0 where
  pub kind : CrdConditionKind
  pub status : CrdStatus

-- A definition of a resource, with what the code sets and reads of it.
pub record Crd : Type 0 where
  pub name : String
  pub group : String
  pub version : String
  pub namespaced : Bool
  pub plural : String
  pub singular : String
  pub kind : String
  pub short_names : List String
  pub conditions : List CrdCondition

abbrev pub cluster_resource_name : String
cluster_resource_name = "kubervisorservices.kubervisor.k8s.io"

abbrev pub definition : Crd
definition = record {
  name = cluster_resource_name;
  group = "kubervisor.k8s.io";
  version = "v1alpha1";
  namespaced = true;
  plural = "kubervisorservices";
  singular = "kubervisorservice";
  kind = "KubervisorService";
  short_names = "rdc" ∷ [];
  conditions = [];
}

-- The server, and the variable that the polled function sets.
pub record Polling (S : Type 0) : Type 0 where
  pub cluster : S
  pub crd : Crd

pub record CrdApi (S : Type 0) : Type 0 where
  pub create : Crd → Exec S Crd
  pub get : String → Exec S Crd
  pub delete : String → Exec S (Unit {0})
  pub poll : Exec (Polling S) Bool → Exec (Polling S) (Unit {0})
  pub new_aggregate : Error → Error → Error
  pub is_already_exists : Error → Bool

abbrev pub holds : CrdCondition → Bool
holds cond = elim cond.kind [
  | established ↦ elim cond.status [ crd_true ↦ true | crd_false ↦ false | crd_unknown ↦ false ]
  | names_accepted ↦ false
  | terminating ↦ false
]

-- The loop over the conditions, which ends at the first that says that the definition is established.
unfoldable pub is_established : List CrdCondition → Bool
is_established [] = false
is_established (cond ∷ conditions) = if holds cond then true else is_established conditions

module _ {S : Type 0} (api : CrdApi S) where
  -- The polled function, over the answer of Get. What Get returns beside an error is never read.
  unfoldable pub checked : Polling S → Outcome Crd × S → Outcome Bool × Polling S
  checked w (ok crd, s) = (ok (is_established crd.conditions), record { cluster = s; crd = crd })
  checked w (err e, s) = (err e, record w { cluster = s })
  checked w (panic, s) = (panic, record w { cluster = s })

  unfoldable pub check : Exec (Polling S) Bool
  unfolding checked
  check w = checked w (api.get cluster_resource_name w.cluster)

  -- The error that is returned, after the deletion.
  unfoldable pub after_delete : Error → Outcome (Unit {0}) × S → Outcome Crd × S
  after_delete e (ok u, s) = (err e, s)
  after_delete e (err delete_err, s) = (err (api.new_aggregate e delete_err), s)
  after_delete e (panic, s) = (panic, s)

  unfoldable pub after_poll : Outcome (Unit {0}) × Polling S → Outcome Crd × S
  unfolding after_delete
  after_poll (ok u, w) = (ok w.crd, w.cluster)
  after_poll (err e, w) = after_delete e (api.delete cluster_resource_name w.cluster)
  after_poll (panic, w) = (panic, w.cluster)

  unfoldable pub after_create : Outcome Crd × S → Outcome Crd × S
  unfolding after_poll check
  after_create (ok created, s) =
      after_poll (api.poll check (record { cluster = s; crd = definition }))
  after_create (err e, s) = (err e, s)
  after_create (panic, s) = (panic, s)

  unfoldable pub define_kubervisor_resources : Exec S Crd
  unfolding after_create
  define_kubervisor_resources s = after_create (api.create definition s)

  -- A definition that exists already is accepted.
  unfoldable pub accept_existing : Outcome Crd × S → Outcome (Unit {0}) × S
  accept_existing (ok crd, s) = (ok tt, s)
  accept_existing (err e, s) = (if api.is_already_exists e then ok tt else err e, s)
  accept_existing (panic, s) = (panic, s)

  unfoldable pub register_api : Exec S (Unit {0})
  unfolding accept_existing define_kubervisor_resources
  register_api s = accept_existing (define_kubervisor_resources s)
