-- ===== src/Plugin.antt =====
-- cmd/kubectl-plugin/main.go: the table of the resources, with the condition and the counts of each;
-- which resources it asks for; and the path of the configuration. The client, the environment and the
-- paths are parameters.
pub mod Laws
pub mod Command
use Prim.Native.String.{◌++◌}
use kubervisor.Prelude.{
  ℕ, Bool, true, false, not, ◌&&◌, ◌||◌, Option, none, some, List, [], ◌∷◌, String, Outcome, ok,
  err, panic, Error, map, str_eq, length, ◌==◌, if◌then◌else◌,
}
use kubervisor.Prelude.Int.{pos}
use kubervisor.Prelude.Decimal.{itoa}
use kubervisor.Api.{
  KubervisorServiceConditionType, init_failed, running, service_not_available, failed,
  ConditionStatus, condition_true, condition_false, condition_unknown, KubervisorServiceCondition,
  PodCountStatus, KubervisorService,
}
use kubervisor.Election.Attempt.{is_not_found}
use kubervisor.Controller.Conditions.{same_kind}

abbrev pub same_status : ConditionStatus → ConditionStatus → Bool
same_status condition_true condition_true = true
same_status condition_false condition_false = true
same_status condition_unknown condition_unknown = true
same_status _ _ = false

-- The text of a kind of condition.
abbrev pub kind_text : KubervisorServiceConditionType → String
kind_text init_failed = "InitFailed"
kind_text running = "Running"
kind_text service_not_available = "ServiceNotAvailable"
kind_text failed = "Failed"

-- The loop of hasStatus.
unfoldable pub has_status :
    List KubervisorServiceCondition → KubervisorServiceConditionType → ConditionStatus → Bool
has_status [] condition_type status = false
has_status (cond ∷ conditions) condition_type status =
    (same_kind cond.kind condition_type && same_status cond.status status)
    || has_status conditions condition_type status

-- The text joins a list of one entry at most.
unfoldable pub build_cluster_status : List KubervisorServiceCondition → String
unfolding has_status
build_cluster_status conditions =
    if has_status conditions running condition_true
    then kind_text running
    else if has_status conditions init_failed condition_true
    then kind_text init_failed
    else if has_status conditions service_not_available condition_true
    then kind_text service_not_available
    else if has_status conditions failed condition_true
    then kind_text failed
    else ""

-- A number of the counts, which is zero without counts.
abbrev pub count_of : (PodCountStatus → ℕ) → Option PodCountStatus → ℕ
count_of field none = 0
count_of field (some counts) = field counts

unfoldable pub table_row : {F : Type 0} → KubervisorService F → List String
unfolding build_cluster_status
table_row ks =
    ks.name
    ∷ ks.namespace
    ∷ build_cluster_status ks.status.conditions
    ∷ itoa (pos (count_of (λ c. c.nb_pods_managed) ks.status.pod_counts))
    ∷ itoa (pos (count_of (λ c. c.nb_pods_breaked) ks.status.pod_counts))
    ∷ itoa (pos (count_of (λ c. c.nb_pods_paused) ks.status.pod_counts))
    ∷ []

unfoldable pub compute_table_data : {F : Type 0} → List (KubervisorService F) → List (List String)
unfolding table_row
compute_table_data items = map table_row items

-- How the command ends: with a table, with the word that there is nothing, or with an error, which
-- leaves the exit code 0 or 1.
pub data Output : Type 0 where
  table : List (List String) → Output
  resources_not_found : Output
  failure : ℕ → Error → Output
  crash : Output

unfoldable pub render : List (List String) → Output
render rows = if length rows == 0 then resources_not_found else table rows

module _ {F : Type 0} (list : Outcome (List (KubervisorService F)))
    (get : String → Outcome (KubervisorService F)) where
  -- The resources that main asks for: all of a namespace, or the one of a name.
  unfoldable pub show_all : Outcome (List (KubervisorService F)) → Output
  unfolding render compute_table_data
  show_all (ok items) = render (compute_table_data items)
  show_all (err e) = failure 0 e
  show_all panic = crash

  unfoldable pub show_one : Outcome (KubervisorService F) → Output
  unfolding render compute_table_data
  show_one (ok ks) = render (compute_table_data (ks ∷ []))
  show_one (err e) = if is_not_found e then resources_not_found else failure 1 e
  show_one panic = crash

  unfoldable pub show : String → Output
  unfolding show_all show_one
  show kubervisor_services_name =
      if str_eq kubervisor_services_name ""
      then show_all list
      else show_one (get kubervisor_services_name)

-- The home directory and the path of the configuration; `join` joins the parts of a path.
unfoldable pub get_home_path : (String → String) → Bool → String
get_home_path getenv windows =
    let home = getenv "HOMEDRIVE" ++ getenv "HOMEPATH" in
    if windows then (if str_eq home "" then getenv "USERPROFILE" else home) else getenv "HOME"

-- A setting that is not empty replaces the path.
abbrev pub override : String → String → String
override setting path = if str_eq setting "" then path else setting

unfoldable pub get_kube_config_default_path :
    (String → String) → (List String → String) → String → String
get_kube_config_default_path getenv join home =
    let kubeconfig = override (getenv "KUBECONFIG") (join (home ∷ ".kube" ∷ "config" ∷ [])) in
    let config_file = getenv "KUBECTL_PLUGINS_GLOBAL_FLAG_CONFIG" in
    let kube_config_file = getenv "KUBECTL_PLUGINS_GLOBAL_FLAG_KUBECONFIG" in
    if not (str_eq config_file "") then config_file else override kube_config_file kubeconfig
