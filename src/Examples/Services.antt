-- ===== src/Examples/Services.antt =====
-- The theorem about the collector's loop at concrete answers.
use kubervisor.Prelude.{
  ◌≡◌, refl, true, some, List, [], ◌∷◌, String, Outcome, Option, ok, err, not_found, All, arith,
  none, str_eq, ◌&&◌, if◌then◌else◌,
}
use kubervisor.Prelude.Int.{ℤ, pos, ltb_ℤ}
use kubervisor.Prelude.Dict.{Dict}
use kubervisor.Kube.{Pod}
use kubervisor.Pod.Control
use kubervisor.Pod.Control.{World}
use kubervisor.Pod.Requests.{remove_request}
use kubervisor.Controller.Ticks.{Tick, run}
use kubervisor.Controller.TickCounters.{AreNamed, listed, unlisted}
use kubervisor.Controller.TickLaws.{IsAnswering, run-below}
use kubervisor.Examples.Fixtures.{bare_pod, pod_with, accepting}

abbrev Cluster : Type 0
Cluster = World (List Pod × List String)

-- The lister has the pods that were written last, and no others.
abbrev find_pod : String → String → List Pod → Option Pod
find_pod namespace name [] = none
find_pod namespace name (p ∷ pods) =
    if str_eq p.namespace namespace && str_eq p.name name
    then some p
    else find_pod namespace name pods

abbrev cached : String → String → Cluster → Outcome (Option Pod)
cached namespace name w = ok (find_pod namespace name w.cluster.0)

-- The pod of the ticks.
abbrev IsA : String → String → Type 0
IsA namespace name = (namespace ≡ "prod") × (name ≡ "a")

-- The lister has that pod.
abbrev HasA : Cluster → Type 0
HasA w =
    (p : Pod) × (find_pod "prod" "a" w.cluster.0 ≡ some p) × (p.namespace ≡ "prod") × (p.name ≡ "a")

answering : IsAnswering accepting cached (pos 2) IsA HasA
unfolding Control.remove_breaker_annotation_and_label remove_request
answering = record {
  cleans = λ namespace name w is (p, found, in_prod, is_a). (
    p,
    remove_request p,
    _,
    rw (is.0, is.1, found) refl,
    refl,
    (remove_request p, rw (in_prod, is_a) refl, in_prod, is_a),
  );
}

-- The resource of a pod is gone for two ticks, and then the lister of pods fails.
abbrev orphaned : Tick
orphaned = record { services = ok []; pods = ok (pod_with "a" "no" "2" ∷ []) }

abbrev ticks : List Tick
ticks = orphaned ∷ orphaned ∷ record { services = ok []; pods = err not_found } ∷ []

named : AreNamed IsA (ok (pod_with "a" "no" "2" ∷ []))
named = listed (pod_with "a" "no" "2" ∷ []) (
  ((omega arith, (omega arith, (omega arith, (omega arith, tt)))), (omega arith, tt), (refl, refl)),
  tt,
)

-- The pod, beside another one.
abbrev cluster : Cluster
cluster = record { cluster = (bare_pod ∷ pod_with "a" "no" "2" ∷ [], []); counters = [] }

run-below_example :
    (m' : Dict ℤ) × (w' : Cluster) × (run accepting cached (pos 2) ticks [] cluster ≡ (ok m', w'))
    × HasA w'
    × All (λ e. ltb_ℤ e.1 (pos 2) ≡ true) m'
run-below_example =
    run-below accepting cached (pos 2) IsA HasA answering ticks cluster
      (named, (named, (unlisted not_found, tt))) (pod_with "a" "no" "2", refl, refl, refl)
