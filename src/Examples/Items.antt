-- ===== src/Examples/Items.antt =====
-- The theorem about items at a concrete resource.
use kubervisor.Prelude.{ℕ, ◌≡◌, refl, Bool, true, false, none, some, List, [], ◌∷◌, String, ok}
use kubervisor.Kube.{SelectorOps}
use kubervisor.Labeling
use kubervisor.Api.{BreakerStrategy, KubervisorService}
use kubervisor.Detector.Factory.{custom_detector}
use kubervisor.Detector.Factory
use kubervisor.Controller.Item.{
  BreakerActivatorPair, breaker_of, KubervisorServiceItem, compare_with_spec, new_item, pair_of,
  item_of,
}
use kubervisor.Controller.ItemLaws.{new_item-compare_with_spec}
use kubervisor.Examples.Fixtures.{by_text}

-- A breaker whose pods an external service reports.
abbrev pub external : String → BreakerStrategy ℕ
external name = record {
  name = name;
  evaluation_period = some 5000000;
  min_pods_available_count = some 1;
  min_pods_available_ratio = none;
  discrete_value_out_of_list = none;
  continuous_value_deviation = none;
  custom_service = "detector:8080";
  activator = none;
}

abbrev pub resource : KubervisorService ℕ
resource = record {
  name = "svc";
  namespace = "prod";
  deletion_timestamp = none;
  spec = record {
    breakers = external "errors" ∷ external "latency" ∷ [];
    default_activator = record {
      mode = "periodic";
      period = some 1000000;
      max_retry_count = some 3;
      max_pause_count = some 1;
    };
    service = "shop";
  };
  status = record { conditions = []; start_time = none; pod_counts = none };
}

-- Tests that take strategies for equal.
abbrev pub always : {A : Type 0} → A → A → Bool
always a b = true

-- Selectors that are always equal.
abbrev pub by_any : SelectorOps (List String) String
by_any = record by_text { deep_equal = λ a b. true }

-- The pair of such a breaker.
abbrev pub external_pair : String → BreakerActivatorPair ℕ (List String) ℕ
external_pair name =
    pair_of "svc" ("svc" ∷ []) (external name)
      (breaker_of "svc" ("svc" ∷ []) (external name), custom_detector "detector:8080")

abbrev pub built : KubervisorServiceItem ℕ (List String) ℕ
built = item_of resource ("svc" ∷ []) (external_pair "errors" ∷ external_pair "latency" ∷ [])

new_item-compare_with_spec_example :
    compare_with_spec by_any always always built resource.spec (some []) ≡ false
unfolding new_item Labeling.selector_with_breaker_name Factory.new_detector
new_item-compare_with_spec_example =
    new_item-compare_with_spec by_any (λ service. ok tt) always always resource (some []) built
      (λ s. refl) (λ s. refl) (λ l. refl) (refl, (refl, tt)) refl
