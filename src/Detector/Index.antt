-- ===== src/Detector/Index.antt =====
-- pkg/anomalydetector: the start of GetPodsOutOfBounds, which both analyses share. It lists the ready
-- pods and indexes them by name, all of them and those without traffic.
use kubervisor.Prelude.{
  ◌≡◌, refl, ◌∙◌, ap, arith, Bool, true, false, not, Option, none, some, List, [], ◌∷◌, String,
  Outcome, ok, err, str_eq, wrapping, if◌then◌else◌, Error, select, ◌>>=◌,
}
use kubervisor.Prelude.Dict
use kubervisor.Prelude.Dict.{Dict, get-put}
use kubervisor.Kube.{Pod}
use kubervisor.Pod.Tools.{purge_not_ready_pods, Kept, is_ready}
use kubervisor.Pod.FilterLaws.{has_traffic, traffic_error, first_error, status_filters}

-- `podByName` and `podWithNoTraffic`.
pub record PodIndex : Type 0 where
  pub by_name : Dict Pod
  pub no_traffic : Dict Pod

-- One round of the loop.
abbrev pub add_pod : Pod → PodIndex → PodIndex
add_pod p i = record {
  by_name = Dict.put i.by_name p.name p;
  no_traffic = if has_traffic p then i.no_traffic else Dict.put i.no_traffic p.name p;
}

-- The loop over the pods; an unreadable label ends it.
unfoldable pub index_pods : List Pod → PodIndex → Outcome PodIndex
index_pods [] i = ok i
index_pods (p ∷ pods) i = elim (traffic_error p) [
  | some e ↦ err e
  | none ↦ index_pods pods (add_pod p i)
]

abbrev pub of_kept : Kept → Outcome (List Pod)
of_kept (pods, none) = ok pods
of_kept (pods, some e) = err e

abbrev pub no_pods : PodIndex
no_pods = record { by_name = []; no_traffic = [] }

unfoldable pub index_listed : Outcome (List Pod) → Outcome PodIndex
index_listed listed = do
  pods ← wrapping "can't list pods" listed
  ready ← wrapping "can't purge not ready pods" (of_kept (purge_not_ready_pods pods))
  index_pods ready no_pods

-- The last pod of a name, and the last one without traffic, over what is known already.
abbrev pub last_named : String → List Pod → Option Pod → Option Pod
last_named name [] known = known
last_named name (p ∷ pods) known =
    last_named name pods (if str_eq p.name name then some p else known)

abbrev pub without_traffic : List Pod → List Pod
without_traffic pods = select (λ p. not (has_traffic p)) pods

-- What an index says of a name.
pub record IsIndexOf (pods : List Pod) (name : String) (start i : PodIndex) : Type 0 where
  pub by_name : Dict.get i.by_name name ≡ last_named name pods (Dict.get start.by_name name)
  pub no_traffic :
      Dict.get i.no_traffic name
      ≡ last_named name (without_traffic pods) (Dict.get start.no_traffic name)

index_pods-error :
    (pods : List Pod) (i : PodIndex) (e : Error)
    → first_error pods ≡ some e
    → index_pods pods i ≡ err e
unfolding index_pods
index_pods-error [] i e h = ground arith
index_pods-error (p ∷ pods) i e h = ground (arith, index_pods-error pods (add_pod p i) e)

no_traffic-add :
    (b : Bool) (p : Pod) (pods : List Pod) (m : Dict Pod) (name : String)
    → last_named name pods (Dict.get (if b then m else Dict.put m p.name p) name)
      ≡ last_named name (elim (not b) [ true ↦ p ∷ pods | false ↦ pods ]) (Dict.get m name)
no_traffic-add true p pods m name = refl
no_traffic-add false p pods m name = ap (last_named name pods) (get-put m p.name p name)

index_pods-IsIndexOf :
    (pods : List Pod) (start : PodIndex)
    → first_error pods ≡ none
    → (i : PodIndex) × (index_pods pods start ≡ ok i)
      × ((name : String) → IsIndexOf pods name start i)
unfolding index_pods
index_pods-IsIndexOf [] start h =
    (start, refl, λ name. record { by_name = refl; no_traffic = refl })
index_pods-IsIndexOf (p ∷ pods) start h =
    let (i, e, k) = index_pods-IsIndexOf pods (add_pod p start) (ground arith) in
    (
      i,
      ground arith,
      λ name. record {
        by_name =
            (k name).by_name ∙ ap (last_named name pods) (get-put start.by_name p.name p name);
        no_traffic =
            (k name).no_traffic
            ∙ no_traffic-add (has_traffic p) p (without_traffic pods) start.no_traffic name;
      },
    )

-- The lister's pods are indexed by the last ready pod of each name, if all ready pods have readable
-- traffic labels.
pub index_listed-IsIndexOf :
    (pods : List Pod)
    → first_error (select is_ready pods) ≡ none
    → (i : PodIndex) × (index_listed (ok pods) ≡ ok i)
      × ((name : String) → IsIndexOf (select is_ready pods) name no_pods i)
unfolding index_listed
index_listed-IsIndexOf pods h =
    rw (status_filters pods).0 (index_pods-IsIndexOf (select is_ready pods) no_pods h)

pub index_listed-error :
    (pods : List Pod) (e : Error)
    → first_error (select is_ready pods) ≡ some e
    → index_listed (ok pods) ≡ err e
unfolding index_listed
index_listed-error pods e h =
    rw (status_filters pods).0 (index_pods-error (select is_ready pods) no_pods e h)
