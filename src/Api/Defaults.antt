-- ===== src/Api/Defaults.antt =====
-- pkg/api/kubervisor/v1alpha1/default.go: the defaults, and the test for them.
use kubervisor.Prelude.{
  ℕ, Bool, true, false, ◌&&◌, Option, none, some, List, [], ◌∷◌, map, str_eq, if◌then◌else◌,
  is_some,
}
use kubervisor.Api.{
  FloatOps, ActivatorStrategy, DiscreteValueOutOfList, ContinuousValueDeviation, BreakerStrategy,
  KubervisorService,
}

-- `if x == nil { x = … }`
abbrev pub or_default {ℓ} : {A : Type ℓ} → A → Option A → Option A
or_default a none = some a
or_default a (some b) = some b

unfoldable pub default_discrete_value_out_of_list : DiscreteValueOutOfList → DiscreteValueOutOfList
default_discrete_value_out_of_list item = record item {
  bad_values = or_default [] item.bad_values;
  good_values = or_default [] item.good_values;
  minimum_activity_count = or_default 2 item.minimum_activity_count;
  tolerance_percent = or_default 50 item.tolerance_percent;
}

unfoldable pub is_discrete_value_out_of_list_defaulted : DiscreteValueOutOfList → Bool
is_discrete_value_out_of_list_defaulted item =
    is_some item.minimum_activity_count && is_some item.tolerance_percent

-- The test of the discrete analysis, which only a failure ends.
abbrev pub discrete_part : Option DiscreteValueOutOfList → Bool
discrete_part none = true
discrete_part (some d) = is_discrete_value_out_of_list_defaulted d

abbrev pub neither : Option ℕ → Option ℕ → Bool
neither none none = true
neither _ _ = false

module _ {F : Type 0} where
  unfoldable pub is_activator_strategy_defaulted : ActivatorStrategy F → Bool
  is_activator_strategy_defaulted item =
      if is_some item.max_pause_count
      then if is_some item.max_retry_count
        then if str_eq item.mode "" then false else is_some item.period
        else false
      else false

  unfoldable pub is_continuous_value_deviation_defaulted : ContinuousValueDeviation F → Bool
  is_continuous_value_deviation_defaulted item = is_some item.max_deviation_percent

  -- The last two tests: each of them returns.
  abbrev pub last_part : Option (ContinuousValueDeviation F) → Option (ActivatorStrategy F) → Bool
  last_part (some c) activator = is_continuous_value_deviation_defaulted c
  last_part none (some a) = is_activator_strategy_defaulted a
  last_part none none = true

  unfoldable pub is_breaker_strategy_defaulted : BreakerStrategy F → Bool
  is_breaker_strategy_defaulted item =
      if is_some item.evaluation_period
      then if neither item.min_pods_available_count item.min_pods_available_ratio
        then false
        else if discrete_part item.discrete_value_out_of_list
        then last_part item.continuous_value_deviation item.activator
        else false
      else false

  unfoldable pub all_breakers : (BreakerStrategy F → Bool) → List (BreakerStrategy F) → Bool
  all_breakers p [] = true
  all_breakers p (b ∷ bs) = if p b then all_breakers p bs else false

  unfoldable pub is_kubervisor_service_defaulted : KubervisorService F → Bool
  unfolding all_breakers
  is_kubervisor_service_defaulted bc =
      if is_activator_strategy_defaulted bc.spec.default_activator
      then all_breakers is_breaker_strategy_defaulted bc.spec.breakers
      else false

abbrev default_discrete : Option DiscreteValueOutOfList → Option DiscreteValueOutOfList
default_discrete none = none
default_discrete (some d) = some (default_discrete_value_out_of_list d)

module _ {F : Type 0} (floats : FloatOps F) where
  unfoldable pub default_activator_strategy : ActivatorStrategy F → ActivatorStrategy F
  default_activator_strategy item = record item {
    max_pause_count = or_default 1 item.max_pause_count;
    max_retry_count = or_default 3 item.max_retry_count;
    mode = if str_eq item.mode "" then "periodic" else item.mode;
    period = or_default (floats.decimal 10 0) item.period;
  }

  unfoldable pub default_continuous_value_deviation :
      ContinuousValueDeviation F → ContinuousValueDeviation F
  default_continuous_value_deviation item = record item {
    max_deviation_percent = or_default (floats.decimal 75 0) item.max_deviation_percent;
  }

  abbrev default_continuous :
      Option (ContinuousValueDeviation F) → Option (ContinuousValueDeviation F)
  default_continuous none = none
  default_continuous (some c) = some (default_continuous_value_deviation c)

  unfoldable pub default_breaker_strategy : BreakerStrategy F → BreakerStrategy F
  unfolding default_discrete_value_out_of_list default_continuous_value_deviation
  default_breaker_strategy item = record item {
    evaluation_period = or_default (floats.decimal 5 0) item.evaluation_period;
    min_pods_available_count = or_default 1 item.min_pods_available_count;
    discrete_value_out_of_list = default_discrete item.discrete_value_out_of_list;
    continuous_value_deviation = default_continuous item.continuous_value_deviation;
  }

  unfoldable pub default_kubervisor_service : KubervisorService F → KubervisorService F
  default_kubervisor_service item = record item {
    spec = record (item.spec) {
      default_activator = default_activator_strategy item.spec.default_activator;
      breakers = map default_breaker_strategy item.spec.breakers;
    };
  }
