-- ===== src/Registration/Connection.antt =====
-- pkg/client/client.go: NewClient. The configuration and the scheme are of the client libraries.
use kubervisor.Prelude.{String, Outcome, ◌>>=◌}

-- Configurations `K`, schemes `H` and clients `C`.
pub record ConnectionOps (K H C : Type 0) : Type 0 where
  pub add_to_scheme : Outcome H
  pub set_group_version : String → String → K → K
  pub set_api_path : String → K → K
  pub set_content_type : String → K → K
  pub set_negotiated_serializer : H → K → K
  pub new_for_config : K → Outcome C

-- The given configuration is copied, and the copy is completed.
unfoldable pub new_client : {K H C : Type 0} → ConnectionOps K H C → K → Outcome C
new_client ops cfg = do
  scheme ← ops.add_to_scheme
  ops.new_for_config (
      ops.set_negotiated_serializer scheme (
        ops.set_content_type "application/json"
          (ops.set_api_path "/apis" (ops.set_group_version "kubervisor.k8s.io" "v1alpha1" cfg))))
