-- ===== src/Pod/ControlLaws.antt =====
-- Which state of the cluster the writes of pkg/pod/control.go leave: the one of the server's answer.
use kubervisor.Prelude.{◌≡◌, arith, String}
use kubervisor.Kube.{Pod, KubeClient}
use kubervisor.Pod.Control.{World, update_counted, kill_pod}

module _ {S : Type 0} (client : KubeClient S) (config : String) (p : Pod) (w : World S) where
  pub cluster-update_counted :
      (kind : String)
      → (update_counted client config kind p w).1.cluster ≡ (client.update p w.cluster).1
  unfolding update_counted
  cluster-update_counted kind = ground arith

  pub cluster-kill_pod :
      (kill_pod client config p w).1.cluster ≡ (client.delete p.namespace p.name w.cluster).1
  unfolding kill_pod
  cluster-kill_pod = ground arith
