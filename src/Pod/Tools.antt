-- ===== src/Pod/Tools.antt =====
-- pkg/pod/tools.go: filters on lists of pods.
use kubervisor.Prelude.{
  Bool, true, false, not, ◌&&◌, Option, none, some, List, [], ◌∷◌, Error, str_eq, if◌then◌else◌,
}
use kubervisor.Kube.{Pod, PodCondition}
use kubervisor.Labeling.{is_pod_traffic_label_ok_or_pause}

-- The slice kept so far, and the error that stopped the loop.
abbrev pub Kept : Type 0
Kept = List Pod × Option Error

-- One round of the loop, over what the rest of the loop keeps: an error stops it.
abbrev keep : Pod → Bool × Option Error → Kept → Kept
keep x (excluded, some e) rest = ([], some e)
keep x (true, none) rest = rest
keep x (false, none) rest = (x ∷ rest.0, rest.1)

unfoldable pub filter_out : List Pod → (Pod → Bool × Option Error) → Kept
filter_out [] exclude = ([], none)
filter_out (x ∷ slice) exclude = let rest = filter_out slice exclude in keep x (exclude x) rest

-- The status of the first condition of the kind Ready.
abbrev ready_condition : List PodCondition → Bool
ready_condition [] = false
ready_condition (c ∷ cs) =
    if str_eq c.kind "Ready" then str_eq c.status "True" else ready_condition cs

unfoldable pub is_ready : Pod → Bool
is_ready p = if str_eq p.phase "Running" then ready_condition p.conditions else false

unfoldable pub purge_not_ready_pods : List Pod → Kept
unfolding filter_out
purge_not_ready_pods pods = filter_out pods (λ a. (not (is_ready a), none))

unfoldable pub keep_running_pods : List Pod → Kept
unfolding filter_out
keep_running_pods pods = filter_out pods (λ a. (not (str_eq a.phase "Running"), none))

-- The answer of the closure that keeps the pods with traffic: `!yes` excludes.
abbrev pub without_traffic : Bool × Bool × Option Error → Bool × Option Error
without_traffic (yes_traffic, pause, e) = (not yes_traffic, e)

unfoldable pub keep_with_traffic_yes_pods : List Pod → Kept
unfolding filter_out
keep_with_traffic_yes_pods pods =
    filter_out pods (λ p. without_traffic (is_pod_traffic_label_ok_or_pause p))

-- The test of the inner loop: whether some pod of `in_slice` has this name and namespace.
unfoldable pub found : Pod → List Pod → Bool
found from [] = false
found from (x ∷ in_slice) =
    if str_eq from.name x.name && str_eq from.namespace x.namespace
    then true
    else found from in_slice

unfoldable pub exclude_from_slice : List Pod → List Pod → List Pod
unfolding found
exclude_from_slice [] in_slice = []
exclude_from_slice (from ∷ from_slice) in_slice =
    let rest = exclude_from_slice from_slice in_slice in
    if found from in_slice then rest else from ∷ rest
