-- ===== src/Examples/Startups.antt =====
-- The theorems about the start of the program at concrete parameters.
use kubervisor.Prelude.{◌≡◌, refl, true, none, some, ◌++◌}
use kubervisor.Prelude.Int.{ℤ, pos, quot, ltb_ℤ, ◌+ℤ◌, wrap64}
use kubervisor.Election.Attempt
use kubervisor.Election.Loops
use kubervisor.Election.Loops.{Client}
use kubervisor.Startup.{EndpointsLock}
use kubervisor.Startup.Running.{workers, always_started, run}
use kubervisor.Examples.Elections.{shared_lock, time_of, newcomer, ten_seconds, after_minute}

abbrev lock : EndpointsLock
lock = record { namespace = "default"; name = "kubervisor"; identity = "me" }

abbrev stretched : ℤ → ℤ
stretched d = pos 3600000000

all_start :
    run shared_lock time_of stretched after_minute ten_seconds
      (λ s. true)
      1
      10
      3
      (some lock)
      newcomer
    ≡ some (none, always_started ++ workers 3)
unfolding run Attempt.new_leader_elector ltb_ℤ Loops.acquire Attempt.try_acquire_or_renew
    Attempt.is_held ◌+ℤ◌ Attempt.observe Attempt.same_record Attempt.maybe_report_transition
    Attempt.after_write Loops.renew_with_stop Attempt.next_record Attempt.own_record quot wrap64
    Attempt.run_error
all_start = refl
