-- ===== src/Examples/Routines.antt =====
-- The theorems about the goroutines of an item at one with a single breaker.
use kubervisor.Prelude.{ℕ, ◌≤◌, ◌≡◌, refl, [], ◌∷◌, List, String}
use kubervisor.Controller.Item
use kubervisor.Controller.Item.{KubervisorServiceItem, pair_of}
use kubervisor.Controller.Routines.{
  Phase, spawned, waiting, left, StopPhase, not_called, draining, returned, Routines,
  start_routines, Becomes, enter, leave, cancel, return, Reach, here, next, active,
}
use kubervisor.Controller.RoutineLaws.{stop_waits, stop_races}
use kubervisor.Controller.RoutineStops.{stop_returns}
use kubervisor.Examples.Items.{external_pair, built}

abbrev item : KubervisorServiceItem ℕ (List String) ℕ
item = record built { breakers = external_pair "errors" ∷ [] }

-- The activator's goroutine, the breaker's, and the counter.
abbrev two : Phase → Phase → ℕ → StopPhase → Routines
two p q n stop = record { phases = p ∷ q ∷ []; wait_count = n; stop = stop }

both_spawned : Reach (start_routines item) (two spawned spawned 0 not_called)
unfolding start_routines Item.pair_of
both_spawned = here

-- One of the two moves.
abbrev first :
    (p q r : Phase) (m n : ℕ) (stop : StopPhase) → Becomes p q (two p r m stop) (two q r n stop)
first p q r m n stop = record { before = []; after = r ∷ []; from = refl; to = refl }

abbrev second :
    (p q r : Phase) (m n : ℕ) (stop : StopPhase) → Becomes p q (two r p m stop) (two r q n stop)
second p q r m n stop = record { before = r ∷ []; after = []; from = refl; to = refl }

both_entered : Reach (start_routines item) (two waiting waiting 2 not_called)
both_entered =
    let one : Reach (start_routines item) (two waiting spawned 1 not_called) =
      next both_spawned (enter (first spawned waiting spawned 0 1 not_called) refl refl) in
    next one (enter (second spawned waiting waiting 1 2 not_called) refl refl)

stopping : Reach (two waiting waiting 2 not_called) (two waiting waiting 2 draining)
stopping = next here (cancel refl refl refl refl)

stopped : Reach (two waiting waiting 2 not_called) (two left left 0 returned)
stopped =
    let one : Reach (two waiting waiting 2 not_called) (two left waiting 1 draining) =
      next stopping (leave refl (first waiting left waiting 2 1 draining) refl refl) in
    let none : Reach (two waiting waiting 2 not_called) (two left left 0 draining) =
      next one (leave refl (second waiting left left 1 0 draining) refl refl) in
    next none (return refl refl refl refl refl)

stop_waits_example : active (two left left 0 returned) ≡ 0
stop_waits_example =
    stop_waits item (two waiting waiting 2 not_called) (two left left 0 returned) both_entered refl
      refl stopped refl

stop_races_example :
    (t : Routines) × Reach (start_routines item) t × (t.stop ≡ returned) × (1 ≤ active t)
stop_races_example = stop_races item

waits : Reach (start_routines item) (two waiting waiting 2 draining)
waits = next both_entered (cancel refl refl refl refl)

stop_returns_example :
    (t : Routines) × Reach (two waiting waiting 2 draining) t × (t.stop ≡ returned)
stop_returns_example = stop_returns item (two waiting waiting 2 draining) waits refl
