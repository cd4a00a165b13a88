-- ===== src/Election/LoopLaws.antt =====
-- When acquire of pkg/leaderelection ends, and in which state.
use kubervisor.Prelude.{
  ℕ, zero, suc, ◌≡◌, refl, sym, ◌∙◌, arith, Bool, true, false, ◌||◌, ◌⊎◌, inl, inr, some, String,
  Bool-cases, if◌then◌else◌,
}
use kubervisor.Prelude.Int.{ℤ}
use kubervisor.Election.Attempt.{Lock, Config, maybe_report_transition, is_leader}
use kubervisor.Election.AttemptLaws.{try-is_leader}
use kubervisor.Election.Loops.{Client, report, attempt, acquire_round, after_pause, acquire}

report-is_leader :
    {S : Type 0} (identity : String) (c : Client S)
    → is_leader identity (report c).elector ≡ is_leader identity c.elector
unfolding report maybe_report_transition is_leader
report-is_leader identity c = ground arith

module _ {S : Type 0} (lock : Lock S) (clock : S → ℤ) (config : Config) where
  acquire_round-is_leader :
      (c : Client S)
      → (acquire_round lock clock config c).0 ≡ true
      → is_leader lock.identity (acquire_round lock clock config c).1.elector ≡ true
  unfolding acquire_round attempt
  acquire_round-is_leader c h = rw h (
      report-is_leader lock.identity (attempt lock clock config c).1
      ∙ try-is_leader lock clock config c.elector c.state h)

module _ {S : Type 0} (lock : Lock S) (clock : S → ℤ) (config : Config) (stopped : S → Bool)
    (pause : S → S) where
  -- The client after some rounds of waiting for the lease, each followed by a pause.
  unfoldable pub waiting : ℕ → Client S → Client S
  waiting zero c = c
  waiting (suc n) c = waiting n (after_pause pause (acquire_round lock clock config c).1)

  -- The loop ends in this round: the channel is closed, or the attempt succeeds.
  abbrev pub ends : Client S → Bool
  ends c = stopped c.state || (acquire_round lock clock config c).0

  acquire-suc :
      (n : ℕ) (c : Client S)
      → acquire lock clock config stopped pause (suc n) c ≡ (
          if stopped c.state
          then some c
          else if (acquire_round lock clock config c).0
          then some (acquire_round lock clock config c).1
          else acquire lock clock config stopped pause n
              (after_pause pause (acquire_round lock clock config c).1))
  unfolding acquire
  acquire-suc n c = refl

  acquire_here :
      (n : ℕ) (c : Client S)
      → ends c ≡ true
      → (after : Client S) × (acquire lock clock config stopped pause (suc n) c ≡ some after)
        × ((stopped after.state ≡ true) ⊎ (is_leader lock.identity after.elector ≡ true))
  acquire_here n c h = elim (Bool-cases (stopped c.state)) [
    | inl e ↦ (c, rw (acquire-suc n c, e) refl, inl e)
    | inr e ↦
        let f : (acquire_round lock clock config c).0 ≡ true = ground (arith, e, h) in
        (
          (acquire_round lock clock config c).1,
          rw (acquire-suc n c, e, f) refl,
          inr (acquire_round-is_leader lock clock config c f),
        )
  ]

  acquire_later :
      (n : ℕ) (c : Client S)
      → ends c ≡ false
      → acquire lock clock config stopped pause (suc n) c
        ≡ acquire lock clock config stopped pause n
            (after_pause pause (acquire_round lock clock config c).1)
  acquire_later n c h =
      let e : stopped c.state ≡ false = ground (arith, h) in
      let f : (acquire_round lock clock config c).0 ≡ false = ground (arith, h) in
      rw (acquire-suc n c, e, f) refl

  -- Whenever acquire returns, the channel is closed or the client sees itself as the leader.
  pub acquire_leads :
      (n : ℕ) (c after : Client S)
      → acquire lock clock config stopped pause n c ≡ some after
      → (stopped after.state ≡ true) ⊎ (is_leader lock.identity after.elector ≡ true)
  unfolding acquire
  acquire_leads zero c after h = absurd (ground (arith, h))
  acquire_leads (suc n) c after h = elim (Bool-cases (ends c)) [
    | inl e ↦
        let (a, returned, leads) = acquire_here n c e in
        let same : a ≡ after = cc in rw (← same) leads
    | inr e ↦ acquire_leads n _ after (sym (acquire_later n c e) ∙ h)
  ]

  -- If the stop channel is closed or an attempt succeeds after some rounds, then acquire returns, within
  -- one round more; and when it returns, the channel is closed or the client sees itself as the leader.
  pub acquire_terminates :
      (n : ℕ) (c : Client S)
      → ends (waiting n c) ≡ true
      → (after : Client S) × (acquire lock clock config stopped pause (suc n) c ≡ some after)
        × ((stopped after.state ≡ true) ⊎ (is_leader lock.identity after.elector ≡ true))
  unfolding waiting
  acquire_terminates zero c h = acquire_here zero c h
  acquire_terminates (suc n) c h = elim (Bool-cases (ends c)) [
    | inl e ↦ acquire_here (suc n) c e
    | inr e ↦ rw (acquire_later (suc n) c e) (acquire_terminates n _ h)
  ]
