-- ===== src/Api/BreakerLaws.antt =====
-- Which breakers validation.go accepts, said without its code.
use kubervisor.Prelude.{
  ◌*◌, true, false, Option, none, some, List, [], String, Outcome, ok, ◌≡◌, ◌≢◌, ◌⊎◌, inl, inr,
  refl, arith, eq_iff, length, is_some,
}
use kubervisor.Api.{FloatOps, DiscreteValueOutOfList, ContinuousValueDeviation, BreakerStrategy}
use kubervisor.Api.Validation.{
  size, validate_discrete_value_out_of_list, validate_continuous_value_deviation,
  validate_breaker_strategy, if_some, strategies, validate_activator_strategy,
}

-- Values of one kind only, and every text is there.
pub record IsValidDiscrete (d : DiscreteValueOutOfList) : Type 0 where
  pub one_kind :
      ((size d.good_values ≡ 0) × (size d.bad_values ≢ 0))
      ⊎ ((size d.good_values ≢ 0) × (size d.bad_values ≡ 0))
  pub has_key : d.key ≢ ""
  pub has_pod_name_key : d.pod_name_key ≢ ""
  pub has_query : d.prom_ql ≢ ""
  pub has_service : d.prometheus_service ≢ ""

discrete_sound :
    (d : DiscreteValueOutOfList) → validate_discrete_value_out_of_list d ≡ ok tt → IsValidDiscrete d
unfolding validate_discrete_value_out_of_list
discrete_sound d h = ground (
  arith,
  eq_iff d.key "",
  eq_iff d.pod_name_key "",
  eq_iff d.prom_ql "",
  eq_iff d.prometheus_service "",
)

pub discrete_complete :
    (d : DiscreteValueOutOfList) → IsValidDiscrete d → validate_discrete_value_out_of_list d ≡ ok tt
unfolding validate_discrete_value_out_of_list
discrete_complete d h = ground (
  arith,
  eq_iff d.key "",
  eq_iff d.pod_name_key "",
  eq_iff d.prom_ql "",
  eq_iff d.prometheus_service "",
)

pub record IsValidContinuous {F : Type 0} (d : ContinuousValueDeviation F) : Type 0 where
  pub has_pod_name_key : d.pod_name_key ≢ ""
  pub has_deviation : is_some d.max_deviation_percent ≡ true
  pub has_query : d.prom_ql ≢ ""
  pub has_service : d.prometheus_service ≢ ""

if_some_inv :
    {A : Type 0} (o : Option A) (text : String) (check : A → Outcome (Unit {0}))
    → if_some o text check ≡ ok tt
    → (o ≡ none) ⊎ ((a : A) × (o ≡ some a) × (check a ≡ ok tt))
if_some_inv none text check h = inl refl
if_some_inv (some a) text check h = inr (a, refl, ground arith)

module _ {F : Type 0} where
  continuous_sound :
      (d : ContinuousValueDeviation F)
      → validate_continuous_value_deviation d ≡ ok tt
      → IsValidContinuous d
  unfolding validate_continuous_value_deviation
  continuous_sound d h =
      ground (arith, eq_iff d.pod_name_key "", eq_iff d.prom_ql "", eq_iff d.prometheus_service "")

  pub continuous_complete :
      (d : ContinuousValueDeviation F)
      → IsValidContinuous d
      → validate_continuous_value_deviation d ≡ ok tt
  unfolding validate_continuous_value_deviation
  continuous_complete d h =
      ground (arith, eq_iff d.pod_name_key "", eq_iff d.prom_ql "", eq_iff d.prometheus_service "")

  -- Exactly one of the three analyses is configured, and its configuration is valid.
  abbrev pub HasOneAnalysis : BreakerStrategy F → Type 0
  HasOneAnalysis b =
      ((d : DiscreteValueOutOfList) × (b.discrete_value_out_of_list ≡ some d)
        × IsValidDiscrete d
        × (b.continuous_value_deviation ≡ none)
        × (b.custom_service ≡ ""))
      ⊎ ((c : ContinuousValueDeviation F) × (b.continuous_value_deviation ≡ some c)
          × IsValidContinuous c
          × (b.discrete_value_out_of_list ≡ none)
          × (b.custom_service ≡ ""))
      ⊎ ((b.discrete_value_out_of_list ≡ none)
          × (b.continuous_value_deviation ≡ none)
          × (b.custom_service ≢ ""))

module _ {F : Type 0} (floats : FloatOps F) (dns : String → List String) where
  -- The period, where there is one, lies above 0.01 and is at most a day.
  abbrev pub HasPeriodInRange : BreakerStrategy F → Type 0
  HasPeriodInRange b =
      (b.evaluation_period ≡ none)
      ⊎ ((t : F) × (b.evaluation_period ≡ some t)
          × (floats.less_eq t (floats.decimal 1 2) ≡ false)
          × (floats.less (floats.decimal (24 * 3600) 0) t ≡ false))

  pub record IsValidBreaker (b : BreakerStrategy F) : Type 0 where
    pub good_name : dns b.name ≡ []
    pub one_analysis : HasOneAnalysis b
    pub period_in_range : HasPeriodInRange b

  breaker_parts :
      (b : BreakerStrategy F)
      → validate_breaker_strategy floats dns b ≡ ok tt
      → (dns b.name ≡ [])
        × (if_some b.discrete_value_out_of_list
              "Validation of strategy DiscreteValueOutOfList failed"
              validate_discrete_value_out_of_list
            ≡ ok tt)
        × (if_some b.continuous_value_deviation
              "Validation of strategy ContinuousValueDeviation failed"
              validate_continuous_value_deviation
            ≡ ok tt)
        × (length (strategies b) ≡ 1)
        × HasPeriodInRange b
  unfolding validate_breaker_strategy
  breaker_parts b h = ground arith

  one_analysis_of :
      (b : BreakerStrategy F)
      → (b.discrete_value_out_of_list ≡ none)
        ⊎ ((d : DiscreteValueOutOfList) × (b.discrete_value_out_of_list ≡ some d)
            × (validate_discrete_value_out_of_list d ≡ ok tt))
      → (b.continuous_value_deviation ≡ none)
        ⊎ ((c : ContinuousValueDeviation F) × (b.continuous_value_deviation ≡ some c)
            × (validate_continuous_value_deviation c ≡ ok tt))
      → length (strategies b) ≡ 1
      → HasOneAnalysis b
  one_analysis_of b (inl e) (inl f) h = inr (inr (e, f, ground (arith, eq_iff b.custom_service "")))
  one_analysis_of b (inr (d, e, v)) (inl f) h =
      inl (d, e, discrete_sound d v, f, ground (arith, eq_iff b.custom_service ""))
  one_analysis_of b (inl e) (inr (c, f, v)) h =
      inr (inl (c, f, continuous_sound c v, e, ground (arith, eq_iff b.custom_service "")))
  one_analysis_of b (inr (d, e, v)) (inr (c, f, w)) h = absurd (ground arith)

  pub breaker_sound :
      (b : BreakerStrategy F) → validate_breaker_strategy floats dns b ≡ ok tt → IsValidBreaker b
  breaker_sound b h =
      let (name, discrete, continuous, one, period) = breaker_parts b h in
      record {
        good_name = name;
        one_analysis =
            one_analysis_of b (if_some_inv _ _ _ discrete) (if_some_inv _ _ _ continuous) one;
        period_in_range = period;
      }

  breaker_of_parts :
      (b : BreakerStrategy F)
      → dns b.name ≡ []
      → if_some b.discrete_value_out_of_list "Validation of strategy DiscreteValueOutOfList failed"
          validate_discrete_value_out_of_list
        ≡ ok tt
      → if_some b.continuous_value_deviation
          "Validation of strategy ContinuousValueDeviation failed"
          validate_continuous_value_deviation
        ≡ ok tt
      → length (strategies b) ≡ 1
      → HasPeriodInRange b
      → validate_breaker_strategy floats dns b ≡ ok tt
  unfolding validate_breaker_strategy validate_activator_strategy
  breaker_of_parts b name discrete continuous one period = ground arith

  pub breaker_complete :
      (b : BreakerStrategy F) → IsValidBreaker b → validate_breaker_strategy floats dns b ≡ ok tt
  breaker_complete b h = elim h.one_analysis [
    | inl (d, e, v, f, g) ↦
        breaker_of_parts b h.good_name (ground (arith, discrete_complete d v)) (ground arith)
          (ground (arith, eq_iff b.custom_service "")) h.period_in_range
    | inr (inl (c, e, v, f, g)) ↦
        breaker_of_parts b h.good_name (ground arith) (ground (arith, continuous_complete c v))
          (ground (arith, eq_iff b.custom_service "")) h.period_in_range
    | inr (inr (e, f, g)) ↦
        breaker_of_parts b h.good_name (ground arith) (ground arith)
          (ground (arith, eq_iff b.custom_service "")) h.period_in_range
  ]
