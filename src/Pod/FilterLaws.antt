-- ===== src/Pod/FilterLaws.antt =====
-- What the filters of pkg/pod/tools.go keep.
use kubervisor.Prelude.{
  Bool, true, false, not, ◌&&◌, Option, none, some, List, [], ◌∷◌, Error, ◌≡◌, refl, arith, eq_iff,
  str_eq, select,
}
use kubervisor.Kube.{Pod}
use kubervisor.Labeling.{is_pod_traffic_label_ok_or_pause}
use kubervisor.Pod.Tools.{
  filter_out, is_ready, purge_not_ready_pods, keep_running_pods, keep_with_traffic_yes_pods, found,
  exclude_from_slice,
}

-- A filter that never fails keeps what it does not exclude.
filter_out-select :
    (exclude : Pod → Bool) (xs : List Pod)
    → filter_out xs (λ x. (exclude x, none)) ≡ (select (λ x. not (exclude x)) xs, none)
unfolding filter_out
filter_out-select exclude [] = refl
filter_out-select exclude (x ∷ xs) = ground (arith, filter_out-select exclude xs)

abbrev pub is_running : Pod → Bool
is_running p = str_eq p.phase "Running"

abbrev pub has_traffic : Pod → Bool
has_traffic p = (is_pod_traffic_label_ok_or_pause p).0

abbrev pub traffic_error : Pod → Option Error
traffic_error p = (is_pod_traffic_label_ok_or_pause p).2

not-not : (b : Bool) → not (not b) ≡ b
not-not true = refl
not-not false = refl

-- Both filters on the status keep exactly the pods that are ready, or running, and do not fail.
pub status_filters :
    (pods : List Pod)
    → (purge_not_ready_pods pods ≡ (select is_ready pods, none))
      × (keep_running_pods pods ≡ (select is_running pods, none))
unfolding purge_not_ready_pods keep_running_pods
status_filters pods = (simp (filter_out-select, not-not), simp (filter_out-select, not-not))

-- The first error that reading the traffic labels meets.
abbrev pub first_error : List Pod → Option Error
first_error [] = none
first_error (p ∷ ps) = elim (traffic_error p) [ some e ↦ some e | none ↦ first_error ps ]

-- The pods in front of the first error.
abbrev pub readable : List Pod → List Pod
readable [] = []
readable (p ∷ ps) =
    let rest = readable ps in elim (traffic_error p) [ some e ↦ [] | none ↦ p ∷ rest ]

-- The filter on traffic fails with the first error that reading the labels meets, and keeps exactly
-- the pods in front of it that are marked for traffic.
pub keep_with_traffic_yes_pods_lem :
    (pods : List Pod)
    → keep_with_traffic_yes_pods pods ≡ (select has_traffic (readable pods), first_error pods)
unfolding keep_with_traffic_yes_pods
keep_with_traffic_yes_pods_lem [] = refl
keep_with_traffic_yes_pods_lem (p ∷ ps) = ground (arith, keep_with_traffic_yes_pods_lem ps)

pub readable_all : (pods : List Pod) → first_error pods ≡ none → readable pods ≡ pods
readable_all [] h = refl
readable_all (p ∷ ps) h = ground (arith, readable_all ps)

found-same :
    (p x : Pod) (pods : List Pod)
    → p.name ≡ x.name
    → p.namespace ≡ x.namespace
    → found p pods ≡ found x pods
unfolding found
found-same p x [] e f = refl
found-same p x (y ∷ ys) e f = rw (e, f, found-same p x ys e f)

-- A pod, by its name and namespace, is in the result exactly if it is in the first list and not in
-- the second.
pub found-exclude :
    (p : Pod) (from_slice in_slice : List Pod)
    → found p (exclude_from_slice from_slice in_slice)
      ≡ (found p from_slice && not (found p in_slice))
unfolding exclude_from_slice
found-exclude p [] in_slice = refl
found-exclude p (x ∷ xs) in_slice = ground (
  arith,
  found-exclude p xs in_slice,
  found-same p x in_slice,
  eq_iff p.name x.name,
  eq_iff p.namespace x.namespace,
)
