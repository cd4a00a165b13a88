-- ===== src/Examples/Elections.antt =====
-- The theorems about the election at a concrete lock.
use kubervisor.Prelude.{
  ◌*◌, ◌≡◌, refl, true, false, none, some, Option, String, ok, err, not_found, Outcome,
}
use kubervisor.Prelude.Int.{ℤ, pos, ltb_ℤ, ◌+ℤ◌}
use kubervisor.Election.Attempt.{
  LeaderElectionRecord, Lock, Config, LeaderElector, observe, try_acquire_or_renew, is_leader,
  same_record,
}
use kubervisor.Election.Attempt
use kubervisor.Prelude.{Bool, [], ◌⊎◌}
use kubervisor.Election.Loops
use kubervisor.Election.Loops.{Client, acquire, renew_with_stop}
use kubervisor.Election.AttemptLaws.{MayTake, IsTaken, try_decides}
use kubervisor.Election.LoopLaws
use kubervisor.Election.LoopLaws.{acquire_terminates}

-- A lock that accepts every write, over the record that it holds and the time.
abbrev pub Store : Type 0
Store = Option LeaderElectionRecord × ℤ

abbrev pub found : Option LeaderElectionRecord → Outcome LeaderElectionRecord
found none = err not_found
found (some r) = ok r

abbrev pub shared_lock : Lock Store
shared_lock = record {
  identity = "me";
  get = λ s. (found s.0, s);
  create = λ r s. (none, (some r, s.1));
  update = λ r s. (none, (some r, s.1));
}

abbrev seconds : Config
seconds = record {
  lease_duration = pos (15 * 1000000000);
  renew_deadline = pos (5 * 1000000000);
  retry_period = pos (3 * 1000000000);
}

abbrev pub held_by : String → LeaderElectionRecord
held_by name = record {
  holder_identity = name;
  lease_duration_seconds = pos 15;
  acquire_time = pos 1;
  renew_time = pos 2;
  leader_transitions = pos 4;
}

-- A client that observed the record at the time 7.
abbrev pub observing : String → LeaderElector
observing name = record {
  observed_record = held_by name;
  observed_time = pos 7;
  reported_leader = "";
}

abbrev pub at_ten : String → Store
at_ten name = (some (held_by name), pos 10)

abbrev pub time_of : Store → ℤ
time_of s = s.1

-- A client that has not seen a leader.
abbrev pub newcomer : Client Store
newcomer = record { elector = observing ""; state = at_ten "you"; reports = []; events = [] }

-- A pause of ten seconds; and the channel that is closed after a minute.
abbrev pub ten_seconds : Store → Store
ten_seconds s = (s.0, s.1 +ℤ pos (10 * 1000000000))

abbrev pub after_minute : Store → Bool
after_minute s = ltb_ℤ (pos (60 * 1000000000)) s.1

acquire_terminates_example :
    (after : Client Store) × (acquire shared_lock time_of seconds after_minute ten_seconds 3
        newcomer
      ≡ some after)
    × ((after_minute after.state ≡ true) ⊎ (is_leader "me" after.elector ≡ true))
unfolding ltb_ℤ LoopLaws.waiting Loops.after_pause ◌+ℤ◌ Loops.acquire_round try_acquire_or_renew
    Attempt.is_held observe same_record Attempt.maybe_report_transition Attempt.after_write
acquire_terminates_example =
    acquire_terminates shared_lock time_of seconds after_minute ten_seconds 2 newcomer refl

-- Half a minute later the lease is free.
abbrev at_thirty : Store
at_thirty = (some (held_by "you"), pos (30 * 1000000000))

abbrev taken : LeaderElectionRecord
taken = Attempt.next_record "me" (held_by "you") (Attempt.own_record "me" seconds at_thirty.1)

try_decides_example :
    (MayTake shared_lock time_of seconds (observing "you") at_thirty at_thirty (held_by "you")
      × ((after : LeaderElector) × (try_acquire_or_renew shared_lock time_of seconds
              (observing "you")
              at_thirty
            ≡ (true, after, (some taken, at_thirty.1)))
          × IsTaken shared_lock time_of seconds
              (observing "you")
              at_thirty
              at_thirty
              (held_by "you")
              after.observed_record))
    ⊎ ((¬ MayTake shared_lock time_of seconds (observing "you") at_thirty at_thirty (held_by "you"))
        × (try_acquire_or_renew shared_lock time_of seconds (observing "you") at_thirty
            ≡ (false, observe (held_by "you") at_thirty.1 (observing "you"), at_thirty)))
try_decides_example =
    try_decides shared_lock time_of seconds (observing "you") at_thirty at_thirty (held_by "you")
      (some taken, at_thirty.1) refl refl
