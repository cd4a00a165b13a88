-- ===== src/Election/Loops.antt =====
-- acquire, renewWithStop, renewUntilFunc and Run, over the attempts of a client. Whether the stop
-- channel is closed is read from the state; the pause between two attempts, and the number of attempts
-- within the deadline of a renewal, are those of the wait package, a parameter. The loops take fuel, one
-- unit for each round.
use kubervisor.Prelude.{
  ℕ, zero, suc, Bool, true, false, Option, none, some, List, ◌∷◌, String, Error, if◌then◌else◌,
}
use kubervisor.Prelude.Int.{ℤ}
use kubervisor.Election.Attempt.{
  Lock, Config, LeaderElector, try_acquire_or_renew, maybe_report_transition, run_error,
}

-- A client in its state, with the leaders that it reported and the events that it recorded, the last
-- one first.
pub record Client (S : Type 0) : Type 0 where
  pub elector : LeaderElector
  pub state : S
  pub reports : List String
  pub events : List String

-- The report of a change of the leader, if there is one.
abbrev pub reported : Option String → List String → List String
reported none reports = reports
reported (some leader) reports = leader ∷ reports

unfoldable pub report : {S : Type 0} → Client S → Client S
report c =
    let (le, leader) = maybe_report_transition c.elector in
    record c { elector = le; reports = reported leader c.reports }

-- The client after the pause that follows a round.
unfoldable pub after_pause : {S : Type 0} → (S → S) → Client S → Client S
after_pause pause c = record c { state = pause c.state }

module _ {S : Type 0} (lock : Lock S) (clock : S → ℤ) (config : Config) where
  -- An attempt, with its result.
  unfoldable pub attempt : Client S → Bool × Client S
  attempt c =
      let (succeeded, le, s) = try_acquire_or_renew lock clock config c.elector c.state in
      (succeeded, record c { elector = le; state = s })

  -- What acquire does in a round in which the channel is open.
  unfoldable pub acquire_round : Client S → Bool × Client S
  unfolding attempt report
  acquire_round c =
      let (succeeded, tried) = attempt c in
      let told = report tried in
      (
        succeeded,
        if succeeded then record told { events = "became leader" ∷ told.events } else told,
      )

module _ {S : Type 0} (lock : Lock S) (clock : S → ℤ) (config : Config) (pause : S → S) where
  -- Poll, over the number of attempts that the deadline leaves.
  unfoldable pub poll : ℕ → Client S → Bool × Client S
  unfolding attempt after_pause
  poll zero c = (false, c)
  poll (suc tries) c =
      let (succeeded, tried) = attempt lock clock config (after_pause pause c) in
      let rest = poll tries tried in if succeeded then (true, tried) else rest

  unfoldable pub renew_until : ℕ → Client S → Client S
  unfolding poll report
  renew_until tries c =
      let (succeeded, tried) = poll tries c in
      let told = report tried in
      if succeeded then told else record told { events = "stopped leading" ∷ told.events }

module _ {S : Type 0} (lock : Lock S) (clock : S → ℤ) (config : Config) (stopped : S → Bool)
    (pause : S → S) where
  unfoldable pub acquire : ℕ → Client S → Option (Client S)
  unfolding acquire_round after_pause
  acquire zero c = none
  acquire (suc fuel) c =
      let (succeeded, tried) = acquire_round lock clock config c in
      let rest = acquire fuel (after_pause pause tried) in
      if stopped c.state then some c else if succeeded then some tried else rest

  unfoldable pub renew_with_stop : ℕ → ℕ → Client S → Option (Client S)
  unfolding renew_until
  renew_with_stop tries zero c = none
  renew_with_stop tries (suc fuel) c =
      let rest = renew_with_stop tries fuel (renew_until lock clock config pause tries c) in
      if stopped c.state then some c else rest

  -- Run, with the errors that the two callbacks return.
  unfoldable pub run_client :
      ℕ → ℕ → Option Error → Option Error → Client S → Option (Option Error × Client S)
  unfolding acquire renew_with_stop
  run_client tries fuel started ended c = elim (acquire fuel c) [
    | none ↦ none
    | some leading ↦ elim (renew_with_stop tries fuel leading) [
      | none ↦ none
      | some done ↦ some (run_error started ended, done)
    ]
  ]
