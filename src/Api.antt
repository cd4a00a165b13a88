-- ===== src/Api.antt =====
-- pkg/api/kubervisor/v1alpha1/types.go: the KubervisorService resource. A pointer is an option, and
-- so is a slice whose being nil the program looks at; other slices are lists.
-- `F` stands for float64, with the operations of `FloatOps`: floats are a parameter.
pub mod Defaults
pub mod Validation
pub mod DefaultLaws
pub mod BreakerLaws
pub mod ValidationLaws
use kubervisor.Prelude.{ℕ, Bool, Option, List, String}
use kubervisor.Prelude.Int.{ℤ}

pub record FloatOps (F : Type 0) : Type 0 where
  pub decimal : ℕ → ℕ → F  -- `decimal n k` is n / 10^k
  pub less : F → F → Bool
  pub less_eq : F → F → Bool
  pub equal : F → F → Bool
  pub sub : F → F → F
  pub abs : F → F
  pub div : F → F → F
  pub to_uint : F → ℕ  -- uint(x)
  pub to_millis : F → ℤ  -- time.Duration(x * 1000)

pub record ActivatorStrategy (F : Type 0) : Type 0 where
  pub mode : String
  pub period : Option F
  pub max_retry_count : Option ℕ
  pub max_pause_count : Option ℕ

pub record DiscreteValueOutOfList : Type 0 where
  pub prometheus_service : String
  pub prom_ql : String
  pub key : String
  pub pod_name_key : String
  pub good_values : Option (List String)
  pub bad_values : Option (List String)
  pub tolerance_percent : Option ℕ
  pub minimum_activity_count : Option ℕ

pub record ContinuousValueDeviation (F : Type 0) : Type 0 where
  pub prometheus_service : String
  pub prom_ql : String
  pub pod_name_key : String
  pub max_deviation_percent : Option F

pub record BreakerStrategy (F : Type 0) : Type 0 where
  pub name : String
  pub evaluation_period : Option F
  pub min_pods_available_count : Option ℕ
  pub min_pods_available_ratio : Option ℕ
  pub discrete_value_out_of_list : Option DiscreteValueOutOfList
  pub continuous_value_deviation : Option (ContinuousValueDeviation F)
  pub custom_service : String
  pub activator : Option (ActivatorStrategy F)

pub record KubervisorServiceSpec (F : Type 0) : Type 0 where
  pub breakers : List (BreakerStrategy F)
  pub default_activator : ActivatorStrategy F
  pub service : String

pub data KubervisorServiceConditionType : Type 0 where
  init_failed running service_not_available failed : KubervisorServiceConditionType

pub data ConditionStatus : Type 0 where
  condition_true condition_false condition_unknown : ConditionStatus

pub record KubervisorServiceCondition : Type 0 where
  pub kind : KubervisorServiceConditionType
  pub status : ConditionStatus
  pub last_probe_time : ℤ
  pub last_transition_time : Option ℤ
  pub reason : String
  pub message : String

-- The counts are of type uint32.
pub record PodCountStatus : Type 0 where
  pub nb_pods_managed : ℕ
  pub nb_pods_breaked : ℕ
  pub nb_pods_paused : ℕ
  pub nb_pods_unknown : ℕ
  pub last_probe_time : Option ℤ

pub record KubervisorServiceStatus : Type 0 where
  pub conditions : List KubervisorServiceCondition
  pub start_time : Option ℤ
  pub pod_counts : Option PodCountStatus

pub record KubervisorService (F : Type 0) : Type 0 where
  pub name : String
  pub namespace : String
  pub deletion_timestamp : Option ℤ
  pub spec : KubervisorServiceSpec F
  pub status : KubervisorServiceStatus
