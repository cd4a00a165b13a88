-- ===== src/Controller/Conditions.antt =====
-- pkg/controller/utils.go: the conditions in the status of a resource.
use kubervisor.Prelude.{
  ℕ, Bool, false, ◌||◌, ◌==◌, none, List, [], ◌∷◌, ◌++◌, String, if◌then◌else◌,
}
use kubervisor.Prelude.Int.{ℤ}
use kubervisor.Api.{
  KubervisorServiceConditionType, init_failed, running, service_not_available, failed,
  ConditionStatus, condition_true, condition_false, KubervisorServiceCondition,
  KubervisorServiceStatus,
}

abbrev code : KubervisorServiceConditionType → ℕ
code init_failed = 0
code running = 1
code service_not_available = 2
code failed = 3

-- The test `a == b`.
abbrev pub same_kind : KubervisorServiceConditionType → KubervisorServiceConditionType → Bool
same_kind a b = code a == code b

unfoldable pub new_status_condition :
    KubervisorServiceConditionType
    → ConditionStatus
    → String
    → String
    → ℤ
    → KubervisorServiceCondition
new_status_condition kind status msg reason creation_time = record {
  kind = kind;
  status = status;
  last_probe_time = creation_time;
  last_transition_time = none;
  reason = reason;
  message = msg;
}

-- The unexported updateStatusCondition.
unfoldable pub updated_condition :
    KubervisorServiceCondition → ConditionStatus → ℤ → KubervisorServiceCondition
updated_condition old status update_time = record old {
  last_probe_time = update_time;
  status = status;
}

-- The loop over the conditions.
unfoldable pub update_conditions :
    KubervisorServiceConditionType
    → ℤ
    → (KubervisorServiceCondition → KubervisorServiceCondition)
    → List KubervisorServiceCondition
    → List KubervisorServiceCondition
unfolding updated_condition
update_conditions kind update_time update [] = []
update_conditions kind update_time update (c ∷ conditions) =
    let rest = update_conditions kind update_time update conditions in
    (if same_kind c.kind kind then update c else updated_condition c condition_false update_time)
    ∷ rest

-- `found` after the loop.
unfoldable pub has_kind : KubervisorServiceConditionType → List KubervisorServiceCondition → Bool
has_kind kind [] = false
has_kind kind (c ∷ conditions) = same_kind c.kind kind || has_kind kind conditions

unfoldable pub update_status_condition :
    KubervisorServiceStatus
    → KubervisorServiceConditionType
    → ℤ
    → KubervisorServiceCondition
    → (KubervisorServiceCondition → KubervisorServiceCondition)
    → KubervisorServiceStatus
unfolding update_conditions has_kind
update_status_condition status kind update_time new update =
    let conditions = update_conditions kind update_time update status.conditions in
    record status {
      conditions = if has_kind kind status.conditions then conditions else conditions ++ (new ∷ []);
    }

-- What the three exported updates share, the reason of a new condition apart.
unfoldable pub set_condition :
    KubervisorServiceConditionType
    → String
    → KubervisorServiceStatus
    → String
    → ℤ
    → KubervisorServiceStatus
unfolding update_status_condition new_status_condition
set_condition kind reason status msg update_time =
    update_status_condition status kind update_time
      (new_status_condition kind condition_true msg reason update_time)
      (λ old. updated_condition old condition_true update_time)

unfoldable pub update_status_condition_service_error :
    KubervisorServiceStatus → String → ℤ → KubervisorServiceStatus
unfolding set_condition
update_status_condition_service_error =
    set_condition service_not_available "Kubernetes service not found"

unfoldable pub update_status_condition_init_failure :
    KubervisorServiceStatus → String → ℤ → KubervisorServiceStatus
unfolding set_condition
update_status_condition_init_failure =
    set_condition init_failed "KubervisorService initialization failed"

unfoldable pub update_status_condition_running :
    KubervisorServiceStatus → String → ℤ → KubervisorServiceStatus
unfolding set_condition
update_status_condition_running = set_condition running "KubervisorService running"
