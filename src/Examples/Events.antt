-- ===== src/Examples/Events.antt =====
-- The theorems about the events of the cluster and about the table at concrete resources.
use kubervisor.Prelude.{
  ℕ, ◌≡◌, refl, true, none, some, [], ◌∷◌, take, select, ok, err, not_found, List, str_eq,
  if◌then◌else◌,
}
use kubervisor.Prelude.Int.{pos}
use kubervisor.Kube
use kubervisor.Kube.{Pod}
use kubervisor.Api.{
  KubervisorService, KubervisorServiceStatus, init_failed, running, condition_true,
}
use kubervisor.Controller.Conditions.{set_condition}
use kubervisor.Controller.Env.{Service}
use kubervisor.Controller.Informers.{Caches, pod_action}
use kubervisor.Controller.InformerLaws.{
  selected_by, elsewhere, served, pod_action_lem, pod_action_blocked,
}
use kubervisor.Plugin.{build_cluster_status}
use kubervisor.Plugin.Laws.{build_cluster_status-set_condition}
use kubervisor.Examples.Fixtures.{bare_pod}
use kubervisor.Examples.Items.{resource}

abbrev shop : Service
shop = record { name = "shop"; namespace = "prod"; selector = ("app", "shop") ∷ [] }

-- A resource of another namespace, and one whose service is not there.
abbrev staged : KubervisorService ℕ
staged = record resource { namespace = "stage" }

abbrev orphan : KubervisorService ℕ
orphan = record resource { spec = record resource.spec { service = "gone" } }

-- Caches with a list of resources and one service, which selects every pod.
abbrev caches_of : List (KubervisorService ℕ) → Caches ℕ
caches_of kss = record {
  get_resource = λ namespace name. ok resource;
  list_resources = ok kss;
  get_service = λ namespace name. if str_eq name "shop" then ok shop else err not_found;
  matches = λ selector labels. true;
  resource_has_key = λ obj. true;
  pod_has_key = λ obj. true;
  service_has_key = λ obj. true;
}

pod_action_lem_example :
    pod_action (caches_of (staged ∷ resource ∷ [])) bare_pod
    ≡ take 1 (
        select (selected_by (caches_of (staged ∷ resource ∷ [])) bare_pod) (staged ∷ resource ∷ []))
unfolding Kube.read
pod_action_lem_example =
    pod_action_lem (caches_of (staged ∷ resource ∷ [])) bare_pod (staged ∷ resource ∷ []) refl refl
      (elsewhere refl, (served shop refl, tt))

pod_action_blocked_example : pod_action (caches_of (staged ∷ orphan ∷ resource ∷ [])) bare_pod ≡ []
unfolding Kube.read
pod_action_blocked_example =
    pod_action_blocked (caches_of (staged ∷ orphan ∷ resource ∷ [])) bare_pod (staged ∷ [])
      (resource ∷ []) orphan not_found refl refl (elsewhere refl, tt) refl refl refl

-- A resource whose item could not be built.
abbrev broken : KubervisorServiceStatus
broken = record {
  conditions =
      record {
        kind = init_failed;
        status = condition_true;
        last_probe_time = pos 5;
        last_transition_time = none;
        reason = "KubervisorService initialization failed";
        message = "";
      }
      ∷ [];
  start_time = some (pos 1);
  pod_counts = none;
}

build_cluster_status-set_condition_example :
    build_cluster_status
      (set_condition running "KubervisorService running" broken "" (pos 9)).conditions
    ≡ "Running"
build_cluster_status-set_condition_example =
    build_cluster_status-set_condition running "KubervisorService running" broken "" (pos 9)
