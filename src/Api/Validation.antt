-- ===== src/Api/Validation.antt =====
-- pkg/api/kubervisor/v1alpha1/validation.go: the checks of a specification. `dns` stands for
-- `NameIsDNS1035Label(name, false)` of the Kubernetes libraries, the list of the faults of a name.
use kubervisor.Prelude.{
  ℕ, ◌*◌, Bool, true, false, not, ◌&&◌, ◌||◌, Option, none, some, List, [], ◌∷◌, ◌++◌, String,
  Outcome, ok, err, errorf, reject_if, wrapping, ◌>>◌, str_eq, ltb, ◌==◌, length, is_some,
  if◌then◌else◌,
}
use kubervisor.Prelude.Dict
use kubervisor.Prelude.Dict.{Dict}
use kubervisor.Api.{
  FloatOps, ActivatorStrategy, DiscreteValueOutOfList, ContinuousValueDeviation, BreakerStrategy,
  KubervisorServiceSpec,
}

-- The length of a slice that may be nil.
abbrev pub size {ℓ} : {A : Type ℓ} → Option (List A) → ℕ
size none = 0
size (some xs) = length xs

abbrev pub is_empty : String → Bool
is_empty s = str_eq s ""

-- The `switch` that ends the validation of either analysis.
abbrev pub check_source : String → String → Outcome (Unit {0})
check_source prom_ql service =
    if not (is_empty prom_ql) || not (is_empty service)
    then (reject_if (is_empty service) (errorf "missing Prometheus service")
        >> reject_if (is_empty prom_ql) (errorf "missing PromQL"))
    else err (errorf "missing parameter to create DiscreteValueOutOfListAnalyser")

unfoldable pub validate_discrete_value_out_of_list : DiscreteValueOutOfList → Outcome (Unit {0})
validate_discrete_value_out_of_list d = do
  reject_if (size d.good_values == 0 && size d.bad_values == 0)
      (errorf "no good nor bad value defined")
  reject_if (not (size d.good_values == 0) && not (size d.bad_values == 0))
      (errorf "good and bad value defined, only good values will be used to do inclusion")
  reject_if (is_empty d.key) (errorf "missing metric Key definition")
  reject_if (is_empty d.pod_name_key) (errorf "missing PodName Key definition")
  check_source d.prom_ql d.prometheus_service

-- A validation of what a pointer shows, if it is not nil.
abbrev pub if_some {ℓ} :
    {A : Type ℓ} → Option A → String → (A → Outcome (Unit {0})) → Outcome (Unit {0})
if_some none text check = ok tt
if_some (some a) text check = wrapping text (check a)

-- The name of an analysis, if it is configured.
abbrev pub named : Bool → String → List String
named true s = s ∷ []
named false s = []

module _ {F : Type 0} where
  unfoldable pub validate_continuous_value_deviation :
      ContinuousValueDeviation F → Outcome (Unit {0})
  validate_continuous_value_deviation d = do
    reject_if (is_empty d.pod_name_key) (errorf "missing PodName Key definition")
    reject_if (not (is_some d.max_deviation_percent)) (errorf "missing Max Deviation percent")
    check_source d.prom_ql d.prometheus_service

  unfoldable pub validate_activator_strategy : ActivatorStrategy F → Outcome (Unit {0})
  validate_activator_strategy s = ok tt

  -- `strategies`: the names that are appended.
  abbrev pub strategies : BreakerStrategy F → List String
  strategies s =
      named (is_some s.discrete_value_out_of_list) "DiscreteValueOutOfList"
      ++ (named (is_some s.continuous_value_deviation) "ContinuousValueDeviation"
          ++ named (not (is_empty s.custom_service)) "CustomService")

module _ {F : Type 0} (floats : FloatOps F) where
  abbrev pub too_small : Option F → Bool
  too_small none = false
  too_small (some t) = floats.less_eq t (floats.decimal 1 2)

  abbrev pub too_big : Option F → Bool
  too_big none = false
  too_big (some t) = floats.less (floats.decimal (24 * 3600) 0) t

module _ {F : Type 0} (floats : FloatOps F) (dns : String → List String) where
  unfoldable pub validate_breaker_strategy : BreakerStrategy F → Outcome (Unit {0})
  validate_breaker_strategy s = do
    reject_if (not (length (dns s.name) == 0)) (errorf "bad strategy name")
    if_some s.discrete_value_out_of_list "Validation of strategy DiscreteValueOutOfList failed"
        validate_discrete_value_out_of_list
    if_some s.continuous_value_deviation "Validation of strategy ContinuousValueDeviation failed"
        validate_continuous_value_deviation
    reject_if (length (strategies s) == 0)
        (errorf "BreakerStrategy is missing anomaly detection specification")
    reject_if (ltb 1 (length (strategies s)))
        (errorf "BreakerStrategy is defining multiple anomalies")
    reject_if (too_small floats s.evaluation_period)
        (errorf "BreakerStrategy evaluation period undefined or too small (less than 10 ms)")
    reject_if (too_big floats s.evaluation_period)
        (errorf "BreakerStrategy evaluation period undefined or too big (more than 1 day)")
    if_some s.activator "BreakerStrategy activator is invalid" validate_activator_strategy

  -- The loop over the breakers, with the set of the names so far.
  unfoldable pub validate_breakers : Dict (Unit {0}) → List (BreakerStrategy F) → Outcome (Unit {0})
  validate_breakers names [] = ok tt
  validate_breakers names (b ∷ bs) =
      let rest = validate_breakers (Dict.put names b.name tt) bs in
      wrapping "Validation of kubervisor service specification failed for breaker strategy"
        (validate_breaker_strategy b)
      >> (reject_if (is_some (Dict.get names b.name)) (errorf "breaker strategy name not unique")
          >> rest)

  unfoldable pub validate_kubervisor_service_spec : KubervisorServiceSpec F → Outcome (Unit {0})
  validate_kubervisor_service_spec s = do
    reject_if (not (length (dns s.service) == 0))
        (errorf "Validation of kubervisor service specification, service")
    reject_if (length s.breakers == 0)
        (errorf "Validation of kubervisor service specification failed: no BreakerStrategy defined")
    validate_breakers [] s.breakers
    wrapping "Validation of kubervisor service specification failed for default activator strategy"
        (validate_activator_strategy s.default_activator)
