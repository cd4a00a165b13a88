-- ===== src/Examples/Pods.antt =====
-- The theorems about pods at concrete pods.
use kubervisor.Prelude.{◌≡◌, refl, ok}
use kubervisor.Prelude.Int.{pos}
use kubervisor.Kube.{Pod}
use kubervisor.Kube
use kubervisor.Prelude.Dict
use kubervisor.Prelude.Decimal.{atoi}
use kubervisor.Labeling.{get_retry_count}
use kubervisor.Examples.Fixtures.{pod_with}

two_retries : get_retry_count (pod_with "a" "yes" "2") ≡ ok (pos 2)
unfolding get_retry_count Kube.read Dict.get atoi
two_retries = refl
