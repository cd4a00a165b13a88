-- ===== src/Election/AttemptLaws.antt =====
-- What one attempt to lead does.
use kubervisor.Prelude.{
  ◌≡◌, ◌≢◌, ◌⊎◌, inl, inr, Bool-cases, refl, arith, eq_iff, true, false, Option, none, some,
  Outcome, ok, err, panic, Error, str_eq, if◌then◌else◌,
}
use kubervisor.Prelude.Int.{ℤ, pos, ltb_ℤ, ◌+ℤ◌, wrap64}
use kubervisor.Election.Attempt.{
  LeaderElectionRecord, Lock, Config, LeaderElector, same_record, own_record, observe, is_held,
  next_record, after_write, take_over, decide, try_acquire_or_renew, is_leader,
}

-- When a record was observed that the lock held, at `time` or before.
abbrev pub observed_at : LeaderElector → LeaderElectionRecord → ℤ → ℤ
observed_at le old time = if same_record le.observed_record old then le.observed_time else time

observe-time :
    (le : LeaderElector) (old : LeaderElectionRecord) (time : ℤ)
    → (observe old time le).observed_time ≡ observed_at le old time
unfolding observe
observe-time le old time = ground arith

module _ {S : Type 0} (lock : Lock S) (clock : S → ℤ) (config : Config) (le : LeaderElector)
    (s s₁ : S) where
  -- When a client may take the lease: it holds it, or the record was observed too long ago.
  pub data MayTake (old : LeaderElectionRecord) : Type 0 where
    own_lease : old.holder_identity ≡ lock.identity → MayTake old
    expired :
        ltb_ℤ (clock s) (observed_at le old (clock s₁) +ℤ config.lease_duration) ≡ false
        → MayTake old

  held_of_lease :
      (old : LeaderElectionRecord)
      → old.holder_identity ≢ lock.identity
      → ltb_ℤ (clock s) (observed_at le old (clock s₁) +ℤ config.lease_duration) ≡ true
      → is_held lock.identity config old (clock s) (observe old (clock s₁) le) ≡ true
  unfolding is_held
  held_of_lease old other fresh =
      rw (observe-time le old (clock s₁), fresh)
        (ground (arith, eq_iff old.holder_identity lock.identity))

  free_of_MayTake :
      (old : LeaderElectionRecord)
      → MayTake old
      → is_held lock.identity config old (clock s) (observe old (clock s₁) le) ≡ false
  unfolding is_held
  free_of_MayTake old (own_lease e) = ground (arith, eq_iff old.holder_identity lock.identity)
  free_of_MayTake old (expired e) = rw (observe-time le old (clock s₁), e) refl

  -- The record of a client that took the lease of `old`: a renewal keeps the time of acquisition and
  -- the number of transitions, and a change of leader counts one more.
  pub record IsTaken (old written : LeaderElectionRecord) : Type 0 where
    pub holder : written.holder_identity ≡ lock.identity
    pub renewed : written.renew_time ≡ clock s
    pub acquired :
        written.acquire_time
        ≡ (if str_eq old.holder_identity lock.identity then old.acquire_time else clock s)
    pub transitions : written.leader_transitions ≡ (
        if str_eq old.holder_identity lock.identity
        then old.leader_transitions
        else wrap64 (old.leader_transitions +ℤ pos 1))

  next_record-IsTaken :
      (old : LeaderElectionRecord)
      → IsTaken old (next_record lock.identity old (own_record lock.identity config (clock s)))
  unfolding next_record own_record
  next_record-IsTaken old = record {
    holder = ground arith;
    renewed = ground arith;
    acquired = ground arith;
    transitions = ground arith;
  }

  lease_cases :
      (old : LeaderElectionRecord)
      → MayTake old
        ⊎ ((old.holder_identity ≢ lock.identity)
            × (ltb_ℤ (clock s) (observed_at le old (clock s₁) +ℤ config.lease_duration) ≡ true))
  lease_cases old = elim (Bool-cases (str_eq old.holder_identity lock.identity)) [
    | inl e ↦ inl (own_lease (ground (arith, e, eq_iff old.holder_identity lock.identity)))
    | inr e ↦
        elim (Bool-cases
          (ltb_ℤ (clock s) (observed_at le old (clock s₁) +ℤ config.lease_duration))) [
            | inl fresh ↦ inr (ground (arith, e, eq_iff old.holder_identity lock.identity), fresh)
            | inr late ↦ inl (expired late)
          ]
  ]

  not_MayTake :
      (old : LeaderElectionRecord)
      → old.holder_identity ≢ lock.identity
      → ltb_ℤ (clock s) (observed_at le old (clock s₁) +ℤ config.lease_duration) ≡ true
      → ¬ MayTake old
  not_MayTake old other fresh (own_lease e) = other e
  not_MayTake old other fresh (expired e) = absurd (ground (arith, fresh, e))

  -- At a lock that can be read, and that takes the record of the client, exactly one of two things
  -- happens. Either the client holds the lease, or the record is one that it observed unchanged for the
  -- whole length of a lease, and then the attempt succeeds, with a record of the client that keeps the
  -- time of acquisition and the number of transitions at a renewal, and counts one transition more at a
  -- change of leader. Or neither is the case, and then the attempt fails and writes nothing.
  pub try_decides :
      (old : LeaderElectionRecord) (s₂ : S)
      → lock.get s ≡ (ok old, s₁)
      → lock.update (next_record lock.identity old (own_record lock.identity config (clock s))) s₁
        ≡ (none, s₂)
      → (MayTake old
          × ((after : LeaderElector) × (try_acquire_or_renew lock clock config le s
                ≡ (true, after, s₂))
              × IsTaken old after.observed_record))
        ⊎ ((¬ MayTake old)
            × (try_acquire_or_renew lock clock config le s
                ≡ (false, observe old (clock s₁) le, s₁)))
  unfolding try_acquire_or_renew after_write
  try_decides old s₂ got written = elim (lease_cases old) [
    | inl may ↦ inl (
      may,
      (
        record (observe old (clock s₁) le) {
          observed_record =
              next_record lock.identity old (own_record lock.identity config (clock s));
          observed_time = clock s₂;
        },
        rw (got, free_of_MayTake old may, written) refl,
        next_record-IsTaken old,
      ),
    )
    | inr (other, fresh) ↦
        inr (not_MayTake old other fresh, rw (got, held_of_lease old other fresh) refl)
  ]

module _ {S : Type 0} (lock : Lock S) (clock : S → ℤ) (config : Config) where
  after_write-is_leader :
      (written : LeaderElectionRecord) (le : LeaderElector) (r : Option Error × S)
      → str_eq written.holder_identity lock.identity ≡ true
      → (after_write clock written le r).0 ≡ true
      → is_leader lock.identity (after_write clock written le r).1 ≡ true
  unfolding after_write is_leader
  after_write-is_leader written le (some e, s) same h = ground arith
  after_write-is_leader written le (none, s) same h = same

  own_identity :
      (now : ℤ) → str_eq (own_record lock.identity config now).holder_identity lock.identity ≡ true
  unfolding own_record
  own_identity now = ground (arith, eq_iff lock.identity lock.identity)

  next_identity :
      (now : ℤ) (old : LeaderElectionRecord)
      → str_eq
          (next_record lock.identity old (own_record lock.identity config now)).holder_identity
          lock.identity
        ≡ true
  unfolding next_record own_record
  next_identity now old = ground (arith, eq_iff lock.identity lock.identity)

  decide-is_leader :
      (now : ℤ) (r : Outcome LeaderElectionRecord) (le : LeaderElector) (s : S)
      → (decide lock clock config now r le s).0 ≡ true
      → is_leader lock.identity (decide lock clock config now r le s).1 ≡ true
  unfolding decide take_over
  decide-is_leader now (ok old) le s h =
      let seen = observe old (clock s) le in
      let written = next_record lock.identity old (own_record lock.identity config now) in
      ground
        (arith, after_write-is_leader written seen (lock.update written s) (next_identity now old))
  decide-is_leader now (err e) le s h =
      let own = own_record lock.identity config now in
      ground (arith, after_write-is_leader own le (lock.create own s) (own_identity now))
  decide-is_leader now panic le s h = ground arith

  -- After an attempt that succeeds, the client sees itself as the leader.
  pub try-is_leader :
      (le : LeaderElector) (s : S)
      → (try_acquire_or_renew lock clock config le s).0 ≡ true
      → is_leader lock.identity (try_acquire_or_renew lock clock config le s).1 ≡ true
  unfolding try_acquire_or_renew
  try-is_leader le s h = decide-is_leader (clock s) (lock.get s).0 le (lock.get s).1 h
