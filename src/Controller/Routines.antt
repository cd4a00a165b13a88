-- ===== src/Controller/Routines.antt =====
-- pkg/controller/item/types.go: the goroutines that Start spawns, one for each activator and breaker of
-- an item, and Stop, which cancels their context and waits for them; and the loop that each of them
-- runs, Run of pkg/breaker/breaker.go and pkg/activate/activator.go. The scheduler is free: a step is
-- one move of one goroutine, or of Stop.
use kubervisor.Prelude.{ℕ, ◌+◌, ◌≡◌, Bool, true, false, none, some, List, [], ◌∷◌, ◌++◌, count}
use kubervisor.Controller.Item.{BreakerActivatorPair, KubervisorServiceItem}

-- A goroutine was spawned and did not run yet; waits for a tick or for the end; is in a round; or left.
pub data Phase : Type 0 where
  spawned waiting in_round left : Phase

-- Stop was not called; cancelled the context and waits; or returned.
pub data StopPhase : Type 0 where
  not_called draining returned : StopPhase

-- The goroutines, the counter of the wait group, and Stop.
pub record Routines : Type 0 where
  pub phases : List Phase
  pub wait_count : ℕ
  pub stop : StopPhase

-- Whether the context is cancelled.
abbrev pub is_cancelled : StopPhase → Bool
is_cancelled not_called = false
is_cancelled draining = true
is_cancelled returned = true

-- The goroutines of the pairs: that of the pair's activator, if it has one, and that of its breaker.
unfoldable pub spawn_pairs : {F L D : Type 0} → List (BreakerActivatorPair F L D) → List Phase
spawn_pairs [] = []
spawn_pairs (pair ∷ breakers) =
    let rest = spawn_pairs breakers in
    elim pair.activator [ none ↦ spawned ∷ rest | some a ↦ spawned ∷ spawned ∷ rest ]

-- What Start leaves.
unfoldable pub start_routines : {F L D : Type 0} → KubervisorServiceItem F L D → Routines
unfolding spawn_pairs
start_routines b = record {
  phases = spawned ∷ spawn_pairs b.breakers;
  wait_count = 0;
  stop = not_called;
}

-- One goroutine goes from one phase to another.
pub record Becomes (p q : Phase) (s t : Routines) : Type 0 where
  pub before : List Phase
  pub after : List Phase
  pub from : s.phases ≡ before ++ (p ∷ after)
  pub to : t.phases ≡ before ++ (q ∷ after)

pub data Step (s t : Routines) : Type 0 where
  -- The first statement of a goroutine adds it to the wait group.
  enter : Becomes spawned waiting s t → t.wait_count ≡ s.wait_count + 1 → t.stop ≡ s.stop → Step s t
  -- A round begins, also when the context is cancelled, since the choice between two channels is free.
  tick : Becomes waiting in_round s t → t.wait_count ≡ s.wait_count → t.stop ≡ s.stop → Step s t
  finish : Becomes in_round waiting s t → t.wait_count ≡ s.wait_count → t.stop ≡ s.stop → Step s t
  -- A goroutine sees that the context is cancelled, and leaves the wait group.
  leave :
      is_cancelled s.stop ≡ true
      → Becomes waiting left s t
      → t.wait_count + 1 ≡ s.wait_count
      → t.stop ≡ s.stop
      → Step s t
  cancel :
      s.stop ≡ not_called
      → t.stop ≡ draining
      → t.phases ≡ s.phases
      → t.wait_count ≡ s.wait_count
      → Step s t
  -- Wait returns when the counter is zero.
  return :
      s.stop ≡ draining
      → s.wait_count ≡ 0
      → t.stop ≡ returned
      → t.phases ≡ s.phases
      → t.wait_count ≡ s.wait_count
      → Step s t

pub data Reach (s : Routines) : Routines → Type 0 where
  here : Reach s s
  next : {t u : Routines} → Reach s t → Step t u → Reach s u

abbrev pub is_active : Phase → Bool
is_active spawned = false
is_active waiting = true
is_active in_round = true
is_active left = false

abbrev pub is_spawned : Phase → Bool
is_spawned spawned = true
is_spawned _ = false

-- How many goroutines run, and how many will.
abbrev pub active : Routines → ℕ
active s = count is_active s.phases

abbrev pub pending : Routines → ℕ
pending s = count is_spawned s.phases
