-- ===== src/Detector/Factory.antt =====
-- pkg/anomalydetector/factory.go: which analysis a breaker gets. The factory of tests is a
-- parameter, and so is `new_client service`, which makes a client of Prometheus at `http://service`.
use kubervisor.Prelude.{
  ◌≡◌, ◌≢◌, inl, inr, arith, eq_iff, Option, none, some, String, Outcome, ok, err, errorf, List,
  if◌then◌else◌, ◌>>=◌, ◌>>◌,
}
use kubervisor.Api.{FloatOps, DiscreteValueOutOfList, ContinuousValueDeviation, BreakerStrategy}
use kubervisor.Api.Validation.{
  is_empty, validate_discrete_value_out_of_list, validate_continuous_value_deviation,
  validate_breaker_strategy,
}
use kubervisor.Api.BreakerLaws.{
  IsValidDiscrete, IsValidContinuous, HasOneAnalysis, discrete_complete, continuous_complete,
  breaker_sound,
}

-- The kinds of detectors; `made` is one of the factory of tests.
pub data Detector (F D : Type 0) : Type 0 where
  discrete_detector : DiscreteValueOutOfList → Detector F D
  continuous_detector : ContinuousValueDeviation F → Detector F D
  custom_detector : String → Detector F D
  made : D → Detector F D

-- The `switch` on the query, with the client of the service.
unfoldable pub with_client :
    {A : Type 0} → (String → Outcome (Unit {0})) → String → String → String → A → Outcome A
with_client new_client prom_ql service text a =
    if is_empty prom_ql then err (errorf text) else (new_client service >> ok a)

with_client_lem :
    {A : Type 0} (new_client : String → Outcome (Unit {0})) (prom_ql service text : String) (a : A)
    → new_client service ≡ ok tt
    → prom_ql ≢ ""
    → with_client new_client prom_ql service text a ≡ ok a
unfolding with_client
with_client_lem new_client prom_ql service text a h k = ground (arith, eq_iff prom_ql "")

module _ {F D : Type 0} (new_client : String → Outcome (Unit {0})) where
  unfoldable pub new_discrete_value_out_of_list_analyser :
      DiscreteValueOutOfList → Outcome (Detector F D)
  new_discrete_value_out_of_list_analyser d =
      validate_discrete_value_out_of_list d
      >> with_client new_client d.prom_ql d.prometheus_service
          "missing parameter to create DiscreteValueOutOfListAnalyser" (discrete_detector d)

  unfoldable pub new_continuous_value_deviation :
      ContinuousValueDeviation F → Outcome (Detector F D)
  new_continuous_value_deviation d =
      validate_continuous_value_deviation d
      >> with_client new_client d.prom_ql d.prometheus_service
          "missing parameter to create DiscreteValueOutOfListAnalyser" (continuous_detector d)

  unfoldable pub new_detector : Option (Outcome D) → BreakerStrategy F → Outcome (Detector F D)
  new_detector custom_factory s = elim s.discrete_value_out_of_list [
    | some d ↦ new_discrete_value_out_of_list_analyser d
    | none ↦ elim s.continuous_value_deviation [
      | some c ↦ new_continuous_value_deviation c
      | none ↦
          if is_empty s.custom_service
          then (elim custom_factory [
            | some made_here ↦ made_here >>= (λ a. ok (made a))
            | none ↦ err (errorf "no anomaly detection could be built, missing definition")
          ])
          else ok (custom_detector s.custom_service)
    ]
  ]

  -- That a detector is of the kind that a strategy configures, with its configuration: the custom one
  -- only if neither of the other two is configured.
  pub data IsDetectorOf (s : BreakerStrategy F) : Detector F D → Type 0 where
    of_discrete :
        (d : DiscreteValueOutOfList)
        → s.discrete_value_out_of_list ≡ some d
        → IsDetectorOf s (discrete_detector d)
    of_continuous :
        (c : ContinuousValueDeviation F)
        → s.discrete_value_out_of_list ≡ none
        → s.continuous_value_deviation ≡ some c
        → IsDetectorOf s (continuous_detector c)
    of_custom :
        s.discrete_value_out_of_list ≡ none
        → s.continuous_value_deviation ≡ none
        → s.custom_service ≢ ""
        → IsDetectorOf s (custom_detector s.custom_service)

  module _ (custom_factory : Option (Outcome D)) (s : BreakerStrategy F)
      (connects : (service : String) → new_client service ≡ ok tt) where
    new_discrete-valid :
        (d : DiscreteValueOutOfList)
        → IsValidDiscrete d
        → new_discrete_value_out_of_list_analyser d ≡ ok (discrete_detector d)
    unfolding new_discrete_value_out_of_list_analyser
    new_discrete-valid d v = rw (discrete_complete d v) (
        with_client_lem new_client d.prom_ql d.prometheus_service
          "missing parameter to create DiscreteValueOutOfListAnalyser" (discrete_detector d)
          (connects d.prometheus_service) v.has_query)

    new_continuous-valid :
        (c : ContinuousValueDeviation F)
        → IsValidContinuous c
        → new_continuous_value_deviation c ≡ ok (continuous_detector c)
    unfolding new_continuous_value_deviation
    new_continuous-valid c v = rw (continuous_complete c v) (
        with_client_lem new_client c.prom_ql c.prometheus_service
          "missing parameter to create DiscreteValueOutOfListAnalyser" (continuous_detector c)
          (connects c.prometheus_service) v.has_query)

    configured_lem :
        HasOneAnalysis s
        → (x : Detector F D) × (new_detector custom_factory s ≡ ok x) × IsDetectorOf s x
    unfolding new_detector
    configured_lem (inl (d, e, v, f, g)) =
        (discrete_detector d, ground (arith, new_discrete-valid d v), of_discrete d e)
    configured_lem (inr (inl (c, e, v, f, g))) =
        (continuous_detector c, ground (arith, new_continuous-valid c v), of_continuous c f e)
    configured_lem (inr (inr (e, f, g))) = (
      custom_detector s.custom_service,
      ground (arith, eq_iff s.custom_service ""),
      of_custom e f g,
    )

    -- The factory builds for every strategy that the validation accepts the detector that the strategy
    -- configures, as long as a client of Prometheus can be made.
    pub new_detector-IsDetectorOf :
        (floats : FloatOps F) (dns : String → List String)
        → validate_breaker_strategy floats dns s ≡ ok tt
        → (x : Detector F D) × (new_detector custom_factory s ≡ ok x) × IsDetectorOf s x
    new_detector-IsDetectorOf floats dns valid =
        configured_lem (breaker_sound floats dns s valid).one_analysis
