-- ===== src/Plugin/Command.antt =====
-- cmd/kubectl-plugin/main.go: main and configFromPath, up to the client that the table is asked from.
-- What the client libraries make of a path is a parameter.
use kubervisor.Prelude.{
  ℕ, Bool, List, String, Outcome, ok, err, panic, errorf, wrapping, str_eq, if◌then◌else◌, ◌>>=◌,
}
use kubervisor.Api.{KubervisorService}
use kubervisor.Plugin.{Output, failure, crash, show, get_home_path, get_kube_config_default_path}

-- Credentials `P`, configurations `G`, their end `R`, and clients `C`, whose calls take a namespace.
pub record PluginOps (F P G R C : Type 0) : Type 0 where
  pub load : String → Outcome P
  pub new_default_client_config : P → String → G
  pub new_non_interactive_client_config : P → String → String → G
  pub client_config : G → Outcome R
  pub new_client : R → Outcome C
  pub list : C → String → Outcome (List (KubervisorService F))
  pub get : C → String → String → Outcome (KubervisorService F)

-- `if err != nil { log.Fatalf(…) }`, with the exit code of the logger.
abbrev or_fatal : {A : Type 0} → ℕ → Outcome A → (A → Output) → Output
or_fatal code (ok a) f = f a
or_fatal code (err e) f = failure code e
or_fatal code panic f = crash

module _ {F P G R C : Type 0} (ops : PluginOps F P G R C) (getenv : String → String) where
  unfoldable pub config_from_path : String → Outcome G
  config_from_path path =
      let namespace = getenv "KUBECTL_PLUGINS_GLOBAL_FLAG_NAMESPACE" in
      let context = getenv "KUBECTL_PLUGINS_GLOBAL_FLAG_CONTEXT" in
      do
        credentials ← wrapping "the provided credentials could not be loaded" (ops.load path)
        ok (
            if str_eq context ""
            then ops.new_default_client_config credentials namespace
            else ops.new_non_interactive_client_config credentials context namespace)

  -- main, from the path of the configuration on.
  unfoldable pub command_at : String → Output
  unfolding config_from_path
  command_at path =
      let namespace = getenv "KUBECTL_PLUGINS_CURRENT_NAMESPACE" in
      if str_eq path ""
      then failure 1
          (errorf "error initializing config. The KUBECONFIG environment variable must be defined.")
      else or_fatal 1 (config_from_path path) λ config.
        or_fatal 1 (ops.client_config config) λ rest. or_fatal 255 (ops.new_client rest) λ client.
          show (ops.list client namespace) (ops.get client namespace)
            (getenv "KUBECTL_PLUGINS_LOCAL_FLAG_KS")

  unfoldable pub command : (List String → String) → Bool → Output
  unfolding command_at
  command join windows =
      command_at (get_kube_config_default_path getenv join (get_home_path getenv windows))
