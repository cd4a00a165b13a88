-- ===== src/Examples/Controllers.antt =====
-- The theorems about the controller at concrete resources.
use kubervisor.Prelude.{◌+◌, ◌≤◌, ◌≡◌, arith, none, some, String, List, [], ◌∷◌, ok, count}
use kubervisor.Prelude.Int.{pos}
use kubervisor.Kube.{Pod}
use kubervisor.Pod.Tools.{is_ready}
use kubervisor.Api.{KubervisorServiceStatus, PodCountStatus, condition_true, service_not_available}
use kubervisor.Controller.Status.{get_status, get_status_lem, is_unknown, is_in_pause, is_breaked}
use kubervisor.Pod.Control.{World}
use kubervisor.Examples.Fixtures.{pod_with}

-- A service was missing.
abbrev missing : KubervisorServiceStatus
missing = record {
  conditions =
      record {
        kind = service_not_available;
        status = condition_true;
        last_probe_time = pos 5;
        last_transition_time = none;
        reason = "Kubernetes service not found";
        message = "";
      }
      ∷ [];
  start_time = some (pos 1);
  pod_counts = none;
}

abbrev three : List Pod
three = pod_with "a" "yes" "0" ∷ pod_with "b" "no" "0" ∷ pod_with "c" "pause" "0" ∷ []

get_status_example :
    (s : PodCountStatus) × (get_status (ok three) ≡ ok s)
    × (s.nb_pods_managed ≡ count is_ready three)
    × (s.nb_pods_unknown ≡ count is_unknown three)
    × (s.nb_pods_paused ≡ count is_in_pause three)
    × (s.nb_pods_breaked ≡ count is_breaked three)
    × (s.nb_pods_unknown + s.nb_pods_paused + s.nb_pods_breaked ≤ s.nb_pods_managed)
get_status_example = get_status_lem three (omega arith)

abbrev Cluster : Type 0
Cluster = World (List Pod × List String)

abbrev quiet : Cluster
quiet = record { cluster = ([], []); counters = [] }
