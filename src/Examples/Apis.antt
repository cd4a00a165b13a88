-- ===== src/Examples/Apis.antt =====
-- The theorems about the resource at concrete resources.
use kubervisor.Prelude.{ℕ, ◌≡◌, ◌↔◌, refl, false, none, some, [], ◌∷◌, List, String, ok}
use kubervisor.Api.{ActivatorStrategy, BreakerStrategy, DiscreteValueOutOfList, KubervisorService}
use kubervisor.Api.Defaults.{
  is_kubervisor_service_defaulted, default_kubervisor_service, all_breakers,
  is_activator_strategy_defaulted,
}
use kubervisor.Api.DefaultLaws.{has_whole_activator, default-defaulted_iff}
use kubervisor.Api.Validation.{validate_kubervisor_service_spec}
use kubervisor.Api.ValidationLaws.{IsValidSpec, validate_iff}
use kubervisor.Examples.Fixtures.{millionths}

abbrev pub no_activator : ActivatorStrategy ℕ
no_activator = record { mode = ""; period = none; max_retry_count = none; max_pause_count = none }

abbrev pub statuses : DiscreteValueOutOfList
statuses = record {
  prometheus_service = "prometheus:9090";
  prom_ql = "sum(rpc)";
  key = "code";
  pod_name_key = "pod";
  good_values = some ("200" ∷ []);
  bad_values = none;
  tolerance_percent = none;
  minimum_activity_count = none;
}

-- A breaker whose own activator leaves its fields to the defaults.
abbrev pub half_breaker : BreakerStrategy ℕ
half_breaker = record {
  name = "errors";
  evaluation_period = none;
  min_pods_available_count = none;
  min_pods_available_ratio = none;
  discrete_value_out_of_list = some statuses;
  continuous_value_deviation = none;
  custom_service = "";
  activator = some no_activator;
}

abbrev pub shop : KubervisorService ℕ
shop = record {
  name = "shop";
  namespace = "prod";
  deletion_timestamp = none;
  spec = record {
    breakers = half_breaker ∷ [];
    default_activator = no_activator;
    service = "shop-svc";
  };
  status = record { conditions = []; start_time = none; pod_counts = none };
}

default-defaulted_example :
    is_kubervisor_service_defaulted (default_kubervisor_service millionths shop)
    ≡ all_breakers has_whole_activator (half_breaker ∷ [])
default-defaulted_example = default-defaulted_iff millionths shop

-- This resource never passes the test for defaults.
shop_never_defaulted : all_breakers has_whole_activator (half_breaker ∷ []) ≡ false
unfolding all_breakers is_activator_strategy_defaulted
shop_never_defaulted = refl

abbrev any_name : String → List String
any_name s = []

validate_iff_example :
    (validate_kubervisor_service_spec millionths any_name shop.spec ≡ ok tt)
    ↔ IsValidSpec millionths any_name shop.spec
validate_iff_example = validate_iff millionths any_name shop.spec
