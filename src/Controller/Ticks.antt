-- ===== src/Controller/Ticks.antt =====
-- pkg/controller/gc.go: newGarbageCollector, and run, over a sequence of ticks. What the two listers
-- answer at a tick is given with the tick; the end of the sequence is the closing of the channel.
use kubervisor.Prelude.{
  Bool, ◌||◌, Option, List, [], ◌∷◌, String, Outcome, ok, err, errorf, if◌then◌else◌,
}
use kubervisor.Prelude.Int.{ℤ, pos, ltb_ℤ}
use kubervisor.Prelude.Dict.{Dict}
use kubervisor.Kube.{Pod, KubeClient}
use kubervisor.Kube.Exec.{Exec, pure, ◌>>=◌}
use kubervisor.Pod.Control.{World}
use kubervisor.Controller.Collector.{update_counters, clean_pods}

-- The counters of a new collector; `missing` is whether a parameter is nil, and `no_period` whether the
-- period is zero.
unfoldable pub new_garbage_collector : Bool → Bool → ℤ → Outcome (Dict ℤ)
new_garbage_collector missing no_period miss_count_before_gc =
    if missing || no_period || ltb_ℤ miss_count_before_gc (pos 1)
    then err (errorf "Bad GC parameter(s)")
    else ok []

-- The resources and the pods that the listers know at a tick.
pub record Tick : Type 0 where
  pub services : Outcome (List (String × String))
  pub pods : Outcome (List Pod)

module _ {S : Type 0} (client : KubeClient S)
    (get_pod : String → String → World S → Outcome (Option Pod)) (miss_count_before_gc : ℤ) where
  unfoldable pub tick : Tick → Dict ℤ → Exec (World S) (Dict ℤ)
  tick t counters =
      clean_pods client get_pod miss_count_before_gc (update_counters t.services t.pods counters)

  -- The loop of run.
  unfoldable pub run : List Tick → Dict ℤ → Exec (World S) (Dict ℤ)
  unfolding tick
  run [] counters = pure counters
  run (t ∷ ticks) counters = do cleaned ← tick t counters; run ticks cleaned
