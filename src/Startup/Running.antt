-- ===== src/Startup/Running.antt =====
-- Run and run of pkg/controller/controller.go: what they start, and in which order. The loops of the
-- election take fuel, as in the election itself; the answer of WaitForCacheSync is a parameter.
use kubervisor.Prelude.{
  ℕ, zero, suc, Bool, true, Option, none, some, List, [], ◌∷◌, ◌++◌, Outcome, ok, err, panic, Error,
  errorf, if◌then◌else◌,
}
use kubervisor.Prelude.Int.{ℤ, pos}
use kubervisor.Election.Attempt.{Lock, Config, new_leader_elector, run_error}
use kubervisor.Election.Loops.{Client, acquire, renew_with_stop}
use kubervisor.Startup.{EndpointsLock}

-- What runs in a goroutine of its own.
pub data Part : Type 0 where
  kube_informers breaker_informers http_server collector worker : Part

abbrev pub workers : ℕ → List Part
workers zero = []
workers (suc n) = worker ∷ workers n

-- run, which returns when the channel is closed.
unfoldable pub run_workers : Bool → ℕ → Option Error × List Part
run_workers synced nb_worker =
    if synced
    then (none, workers nb_worker)
    else (some (errorf "Timed out waiting for caches to sync"), [])

-- What Run starts before it looks at the lock.
abbrev pub always_started : List Part
always_started = kube_informers ∷ breaker_informers ∷ http_server ∷ collector ∷ []

-- The durations of the election: 15, 5 and 3 seconds.
abbrev pub election_config : Config
election_config = record {
  lease_duration = pos 15000000000;
  renew_deadline = pos 5000000000;
  retry_period = pos 3000000000;
}

module _ {S : Type 0} (lock : Lock S) (clock : S → ℤ) (jittered : ℤ → ℤ) (stopped : S → Bool)
    (pause : S → S) (pod_synced : S → Bool) (tries fuel nb_worker : ℕ) where
  -- What was started by the time when the renewals end; OnStoppedLeading only logs.
  unfoldable pub after_renewals : Bool → Option (Client S) → Option (Option Error × List Part)
  unfolding run_workers
  after_renewals synced none = none
  after_renewals synced (some over) =
      let (e, started) = run_workers synced nb_worker in
      some (run_error e none, always_started ++ started)

  -- Run of the election, once the lease is had or the channel is closed: the workers run beside the
  -- renewals.
  unfoldable pub lead : Client S → Option (Option Error × List Part)
  unfolding after_renewals
  lead leading =
      after_renewals (pod_synced leading.state)
        (renew_with_stop lock clock election_config stopped pause tries fuel leading)

  unfoldable pub after_acquire : Option (Client S) → Option (Option Error × List Part)
  unfolding lead
  after_acquire none = none
  after_acquire (some leading) = lead leading

  unfoldable pub elect : Client S → Option (Option Error × List Part)
  unfolding after_acquire
  elect c = after_acquire (acquire lock clock election_config stopped pause fuel c)

  unfoldable pub start_election : Outcome (Unit {0}) → Client S → Option (Option Error × List Part)
  unfolding elect
  start_election (ok u) c = elect c
  start_election (err e) c = some (some e, always_started)
  start_election panic c = none

  -- Run; `none` means that the fuel ran out.
  unfoldable pub run : Option EndpointsLock → Client S → Option (Option Error × List Part)
  unfolding start_election run_workers
  run none c =
      let (e, started) = run_workers (pod_synced c.state) nb_worker in
      some (e, always_started ++ started)
  run (some l) c = start_election (new_leader_elector jittered true election_config) c
