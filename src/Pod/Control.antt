-- ===== src/Pod/Control.antt =====
-- pkg/pod/control.go: the writes to one pod, each a request to the API server.
use kubervisor.Prelude.{none, some, List, ◌∷◌, String, ok, err, panic}
use kubervisor.Prelude.Int.{ℤ}
use kubervisor.Kube.{Pod, KubeClient, TimeText}
use kubervisor.Kube.Exec.{Exec, lift, continue, ◌>>=◌}
use kubervisor.Pod.Requests.{
  init_request, break_request, activation_request, pause_request, remove_request,
}

-- One increment of the metric `kubervisor_breaker_count`, with the values of its labels.
pub record BreakCount : Type 0 where
  pub breaker : String
  pub namespace : String
  pub pod : String
  pub kind : String

-- The cluster, and the increments of the metric, the last one first.
pub record World (S : Type 0) : Type 0 where
  pub cluster : S
  pub counters : List BreakCount

module _ {S : Type 0} (client : KubeClient S) where
  -- `Update`, and the metric after an error.
  unfoldable pub update_counted : String → String → Pod → Exec (World S) Pod
  update_counted config kind p w =
      let (r, s) = client.update p w.cluster in
      let count : BreakCount = record {
        breaker = config;
        namespace = p.namespace;
        pod = p.name;
        kind = kind;
      } in
      elim r [
        | ok q ↦ (ok q, record w { cluster = s })
        | err e ↦ (err e, record w { cluster = s; counters = count ∷ w.counters })
        | panic ↦ (panic, record w { cluster = s })
      ]

  unfoldable pub update_plain : Pod → Exec (World S) Pod
  update_plain p w = let (r, s) = client.update p w.cluster in (r, record w { cluster = s })

  unfoldable pub init_breaker_annotation_and_label : String → Pod → Exec (World S) Pod
  unfolding update_plain
  init_breaker_annotation_and_label config input = do
    p ← lift (init_request config input)
    update_plain p

  unfoldable pub update_breaker_annotation_and_label :
      TimeText → (S → ℤ) → String → String → Pod → Exec (World S) Pod
  unfolding update_counted
  update_breaker_annotation_and_label time clock config strategy input w =
      continue (update_counted config "break")
        (break_request time (clock w.cluster) config strategy input) w

  unfoldable pub update_activation_labels_and_annotations : String → Pod → Exec (World S) Pod
  unfolding update_counted
  update_activation_labels_and_annotations config input = do
    p ← lift (activation_request input)
    update_counted config "activate" p

  unfoldable pub update_pause_labels_and_annotations : String → Pod → Exec (World S) Pod
  unfolding update_counted
  update_pause_labels_and_annotations config input = do
    p ← lift (pause_request input)
    update_counted config "pause" p

  unfoldable pub remove_breaker_annotation_and_label : Pod → Exec (World S) Pod
  unfolding update_plain
  remove_breaker_annotation_and_label input = update_plain (remove_request input)

  unfoldable pub kill_pod : String → Pod → Exec (World S) (Unit {0})
  kill_pod config input w =
      let (e, s) = client.delete input.namespace input.name w.cluster in
      let count : BreakCount = record {
        breaker = config;
        namespace = input.namespace;
        pod = input.name;
        kind = "kill";
      } in
      elim e [
        | none ↦ (ok tt, record w { cluster = s })
        | some x ↦ (err x, record w { cluster = s; counters = count ∷ w.counters })
      ]
