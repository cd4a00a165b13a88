-- ===== src/Plugin/Laws.antt =====
-- What the table shows of what the controller wrote.
use kubervisor.Prelude.{◌≡◌, refl, arith, true, ◌&&◌, List, [], ◌∷◌, String, All, if◌then◌else◌}
use kubervisor.Prelude.Int.{ℤ}
use kubervisor.Api.{
  KubervisorServiceConditionType, init_failed, running, service_not_available, failed,
  condition_true, condition_false, KubervisorServiceCondition, KubervisorServiceStatus,
}
use kubervisor.Controller.Conditions.{same_kind, has_kind, set_condition}
use kubervisor.Controller.ConditionLaws.{IsSettled, set_condition-IsSettled}
use kubervisor.Plugin.{has_status, build_cluster_status, kind_text}

-- Among conditions of which exactly those of one kind are true, a kind is true if it is that one.
has_status-decided :
    (kind k : KubervisorServiceConditionType) (conditions : List KubervisorServiceCondition)
    → All
        (λ c. c.status ≡ (if same_kind c.kind kind then condition_true else condition_false))
        conditions
    → has_status conditions k condition_true ≡ (same_kind kind k && has_kind kind conditions)
unfolding has_status has_kind
has_status-decided kind k [] h = ground arith
has_status-decided kind k (c ∷ conditions) h =
    ground (arith, h.0, has_status-decided kind k conditions h.1)

build_cluster_status-IsSettled :
    (kind : KubervisorServiceConditionType) (time : ℤ)
    (conditions : List KubervisorServiceCondition)
    → IsSettled kind time conditions
    → build_cluster_status conditions ≡ kind_text kind
unfolding build_cluster_status
build_cluster_status-IsSettled kind time conditions h =
    let k₁ = has_status-decided kind running conditions h.decided in
    let k₂ = has_status-decided kind init_failed conditions h.decided in
    let k₃ = has_status-decided kind service_not_available conditions h.decided in
    let k₄ = has_status-decided kind failed conditions h.decided in
    rw (k₁, k₂, k₃, k₄, h.present) (by_kind kind)
  where
    by_kind :
        (kind : KubervisorServiceConditionType)
        → (if same_kind kind running && true
            then "Running"
            else if same_kind kind init_failed && true
            then "InitFailed"
            else if same_kind kind service_not_available && true
            then "ServiceNotAvailable"
            else if same_kind kind failed && true
            then "Failed"
            else "")
          ≡ kind_text kind
    by_kind init_failed = refl
    by_kind running = refl
    by_kind service_not_available = refl
    by_kind failed = refl

-- The table shows the condition that the controller set last, whatever conditions were there before.
pub build_cluster_status-set_condition :
    (kind : KubervisorServiceConditionType) (reason : String) (status : KubervisorServiceStatus)
    (msg : String) (time : ℤ)
    → build_cluster_status (set_condition kind reason status msg time).conditions ≡ kind_text kind
build_cluster_status-set_condition kind reason status msg time =
    build_cluster_status-IsSettled kind time _ (set_condition-IsSettled kind reason status msg time)
