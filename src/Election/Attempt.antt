-- ===== src/Election/Attempt.antt =====
-- tryAcquireOrRenew, maybeReportTransition, IsLeader and NewLeaderElector.
use kubervisor.Prelude.{
  Bool, true, false, not, ◌&&◌, Option, none, some, String, Outcome, ok, err, panic, Error, errorf,
  wrapf, not_found, str_eq, if◌then◌else◌, reject_if, ◌>>◌,
}
use kubervisor.Prelude.Int.{ℤ, pos, ltb_ℤ, ◌+ℤ◌, wrap64, quot}

pub record LeaderElectionRecord : Type 0 where
  pub holder_identity : String
  pub lease_duration_seconds : ℤ
  pub acquire_time : ℤ
  pub renew_time : ℤ
  pub leader_transitions : ℤ

-- The lock, and the error of a write.
pub record Lock (S : Type 0) : Type 0 where
  pub identity : String
  pub get : S → Outcome LeaderElectionRecord × S
  pub create : LeaderElectionRecord → S → Option Error × S
  pub update : LeaderElectionRecord → S → Option Error × S

-- The durations of the configuration.
pub record Config : Type 0 where
  pub lease_duration : ℤ
  pub renew_deadline : ℤ
  pub retry_period : ℤ

pub record LeaderElector : Type 0 where
  pub observed_record : LeaderElectionRecord
  pub observed_time : ℤ
  pub reported_leader : String

-- `jittered d` is `time.Duration(jitterFactor*float64(d))`; `locked` is whether the lock is there.
unfoldable pub new_leader_elector : (ℤ → ℤ) → Bool → Config → Outcome (Unit {0})
new_leader_elector jittered locked lec =
    reject_if (not (ltb_ℤ lec.renew_deadline lec.lease_duration))
      (errorf "leaseDuration must be greater than renewDeadline")
    >> reject_if (not (ltb_ℤ (jittered lec.retry_period) lec.renew_deadline))
        (errorf "renewDeadline must be greater than retryPeriod*JitterFactor")
    >> reject_if (not locked) (errorf "lock must not be nil")

abbrev eq_ℤ : ℤ → ℤ → Bool
eq_ℤ a b = not (ltb_ℤ a b) && not (ltb_ℤ b a)

-- `reflect.DeepEqual` on records, whose times are compared as instants.
unfoldable pub same_record : LeaderElectionRecord → LeaderElectionRecord → Bool
same_record a b =
    str_eq a.holder_identity b.holder_identity
    && eq_ℤ a.lease_duration_seconds b.lease_duration_seconds
    && eq_ℤ a.acquire_time b.acquire_time
    && eq_ℤ a.renew_time b.renew_time
    && eq_ℤ a.leader_transitions b.leader_transitions

-- `errors.IsNotFound`
abbrev pub is_not_found : Error → Bool
is_not_found (errorf s) = false
is_not_found (wrapf s e) = false
is_not_found not_found = true

-- The record that the client would write.
unfoldable pub own_record : String → Config → ℤ → LeaderElectionRecord
own_record identity config now = record {
  holder_identity = identity;
  lease_duration_seconds = quot config.lease_duration 1000000000;
  acquire_time = now;
  renew_time = now;
  leader_transitions = pos 0;
}

-- Step 2: a record that is not the one observed last is observed at `time`.
unfoldable pub observe : LeaderElectionRecord → ℤ → LeaderElector → LeaderElector
observe old time le =
    if not (same_record le.observed_record old)
    then record le { observed_record = old; observed_time = time }
    else le

-- The test that another client holds a lease that has not expired.
unfoldable pub is_held : String → Config → LeaderElectionRecord → ℤ → LeaderElector → Bool
is_held identity config old now le =
    ltb_ℤ now (le.observed_time +ℤ config.lease_duration)
    && not (str_eq old.holder_identity identity)

-- Step 3: the record to write over an old one.
unfoldable pub next_record :
    String → LeaderElectionRecord → LeaderElectionRecord → LeaderElectionRecord
next_record identity old own =
    if str_eq old.holder_identity identity
    then record own { acquire_time = old.acquire_time; leader_transitions = old.leader_transitions }
    else record own { leader_transitions = wrap64 (old.leader_transitions +ℤ pos 1) }

-- What a write leaves: on success the record is the one observed.
unfoldable pub after_write :
    {S : Type 0}
    → (S → ℤ)
    → LeaderElectionRecord
    → LeaderElector
    → Option Error × S
    → Bool × LeaderElector × S
after_write clock written le (some e, s) = (false, le, s)
after_write clock written le (none, s) =
    (true, record le { observed_record = written; observed_time = clock s }, s)

module _ {S : Type 0} (lock : Lock S) (clock : S → ℤ) (config : Config) where
  -- Steps 2 and 3, on the record that the lock holds.
  unfoldable pub take_over : ℤ → LeaderElectionRecord → LeaderElector → S → Bool × LeaderElector × S
  take_over now old le s =
      let seen = observe old (clock s) le in
      let written = next_record lock.identity old (own_record lock.identity config now) in
      if is_held lock.identity config old now seen
      then (false, seen, s)
      else after_write clock written seen (lock.update written s)

  -- What follows the answer of the lock: a missing record is created.
  unfoldable pub decide :
      ℤ → Outcome LeaderElectionRecord → LeaderElector → S → Bool × LeaderElector × S
  decide now (ok old) le s = take_over now old le s
  decide now (err e) le s =
      let own = own_record lock.identity config now in
      if is_not_found e then after_write clock own le (lock.create own s) else (false, le, s)
  decide now panic le s = (false, le, s)

  unfoldable pub try_acquire_or_renew : LeaderElector → S → Bool × LeaderElector × S
  unfolding decide take_over
  try_acquire_or_renew le s = let (r, s') = lock.get s in decide (clock s) r le s'

-- The leader to report, if it is another one than last time.
unfoldable pub maybe_report_transition : LeaderElector → LeaderElector × Option String
maybe_report_transition le =
    if str_eq le.observed_record.holder_identity le.reported_leader then (le, none) else (
      record le { reported_leader = le.observed_record.holder_identity },
      some le.observed_record.holder_identity,
    )

unfoldable pub is_leader : String → LeaderElector → Bool
is_leader identity le = str_eq le.observed_record.holder_identity identity

-- What Run returns, of the errors of OnStartedLeading and OnStoppedLeading: the deferred function
-- overwrites the first one.
unfoldable pub run_error : Option Error → Option Error → Option Error
run_error started none = none
run_error started (some e) = some (wrapf "unable to stop properly leading" e)
