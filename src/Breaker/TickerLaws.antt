-- ===== src/Breaker/TickerLaws.antt =====
-- The start of Run (pkg/breaker/breaker.go) on a strategy that validation.go and default.go accept.
use kubervisor.Prelude.{
  ℕ, ◌*◌, ◌≤◌, ◌≡◌, inl, inr, refl, arith, true, false, some, List, String, ok,
}
use kubervisor.Prelude.Int.{ℤ, pos, ltb_ℤ-pos}
use kubervisor.Kube.{Pod, KubeClient, TimeText}
use kubervisor.Kube.Exec.{Exec, lift, ◌>>=◌}
use kubervisor.Pod.Control.{World}
use kubervisor.Api.{FloatOps, BreakerStrategy}
use kubervisor.Api.Defaults.{is_breaker_strategy_defaulted}
use kubervisor.Api.Validation.{validate_breaker_strategy}
use kubervisor.Api.BreakerLaws.{breaker_sound, HasPeriodInRange}
use kubervisor.Activate.Decisions.{times-pos}
use kubervisor.Breaker.Round.{BreakerImpl, new_ticker, run, run_with_ticker}

-- A period above 0.01 and of a day at most has as many milliseconds as it should.
pub record HasMillis {F : Type 0} (floats : FloatOps F) (x : F) : Type 0 where
  pub converts :
      floats.less_eq x (floats.decimal 1 2) ≡ false
      → floats.less (floats.decimal (24 * 3600) 0) x ≡ false
      → (n : ℕ) × (floats.to_millis x ≡ pos n) × (10 ≤ n) × (n ≤ 24 * 3600 * 1000)

module _ {F : Type 0} (floats : FloatOps F) where
  millis_tick :
      (x : F) (n : ℕ)
      → floats.to_millis x ≡ pos n
      → 10 ≤ n
      → n ≤ 24 * 3600 * 1000
      → new_ticker floats (some x) ≡ ok tt
  unfolding new_ticker
  millis_tick x n e low high = rw (e, times-pos n 1000000 (omega arith), ltb_ℤ-pos) (ground arith)

  period_of_defaulted :
      (b : BreakerStrategy F)
      → is_breaker_strategy_defaulted b ≡ true
      → (x : F) × (b.evaluation_period ≡ some x)
  unfolding is_breaker_strategy_defaulted
  period_of_defaulted b h = ground arith

  new_ticker-ok :
      (dns : String → List String) (b : BreakerStrategy F)
      → HasPeriodInRange floats dns b
      → ((x : F) → b.evaluation_period ≡ some x → HasMillis floats x)
      → is_breaker_strategy_defaulted b ≡ true
      → new_ticker floats b.evaluation_period ≡ ok tt
  new_ticker-ok dns b (inl e) millis h =
      let (x, f) = period_of_defaulted b h in absurd (ground (arith, e, f))
  new_ticker-ok dns b (inr (x, e, low, high)) millis h =
      let (n, converted, least, most) = (millis x e).converts low high in
      rw e (millis_tick x n converted least most)

  module _ {L S : Type 0} (client : KubeClient S) (clock : S → ℤ) (time : TimeText)
      (detector : Exec (World S) (List Pod)) (lister : L → Exec (World S) (List Pod))
      (b : BreakerImpl F L) where
    -- On a strategy that passes the validation and the test for defaults, Run of a breaker does not
    -- panic at its ticker and is its loop, if the period of the strategy, where it lies above 0.01 and
    -- is a day at most, converts to between ten and 86400000 milliseconds.
    pub run_with_ticker-run :
        (dns : String → List String) (ticks : ℕ) (w : World S)
        → validate_breaker_strategy floats dns b.breaker_strategy_config ≡ ok tt
        → is_breaker_strategy_defaulted b.breaker_strategy_config ≡ true
        → ((x : F) → b.breaker_strategy_config.evaluation_period ≡ some x → HasMillis floats x)
        → run_with_ticker client clock time floats detector lister b ticks w
          ≡ run client clock time detector lister b ticks w
    unfolding run_with_ticker lift ◌>>=◌
    run_with_ticker-run dns ticks w valid complete millis =
        rw
          (new_ticker-ok dns b.breaker_strategy_config
            (breaker_sound floats dns b.breaker_strategy_config valid).period_in_range millis
            complete)
          refl
