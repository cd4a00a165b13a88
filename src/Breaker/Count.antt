-- ===== src/Breaker/Count.antt =====
-- pkg/breaker/breaker.go, computeMinAvailablePods and the number of pods to cut.
use Prim.Native.Nat.{min, max}
use kubervisor.Prelude.{
  ℕ, ◌+◌, ◌-◌, ◌*◌, ◌/◌, ◌^◌, ◌<◌, ◌≤◌, ◌≡◌, ◌⊎◌, refl, arith, Option, none, some, if◌then◌else◌,
}
use kubervisor.Prelude.Int.{
  ℤ, pos, ltb_ℤ, ◌-ℤ◌, ◌*ℤ◌, wrap64, int_of_uint, quot, wrap64-pos, int_of_uint-pos, *ℤ-pos,
  quot-pos, wrap64-sub,
}
use kubervisor.Api.{BreakerStrategy}

-- `x := 0; if p != nil { x = int(*p) }`
abbrev pub int_or_zero : Option ℕ → ℤ
int_or_zero none = pos 0
int_or_zero (some u) = int_of_uint u

module _ {F : Type 0} where
  unfoldable pub compute_min_available_pods : BreakerStrategy F → ℕ → ℤ
  compute_min_available_pods config n =
      let count = int_or_zero config.min_pods_available_count in
      let ratio = int_or_zero config.min_pods_available_ratio in
      let quota = quot (wrap64 (pos n *ℤ ratio)) 100 in if ltb_ℤ count quota then quota else count

  -- The number of pods to cut, of `n` pods with traffic and `k` reported ones.
  unfoldable pub remove_count : BreakerStrategy F → ℕ → ℕ → ℤ
  remove_count config n k =
      let all = wrap64 (pos n -ℤ compute_min_available_pods config n) in
      let capped = if ltb_ℤ (pos k) all then pos k else all in
      if ltb_ℤ capped (pos 0) then pos 0 else capped

-- The number that a setting stands for, zero if there is none.
abbrev pub or_zero : Option ℕ → ℕ
or_zero none = 0
or_zero (some u) = u

int_or_zero-pos : (o : Option ℕ) → or_zero o < 2 ^ 62 → int_or_zero o ≡ pos (or_zero o)
int_or_zero-pos none h = refl
int_or_zero-pos (some u) h = int_of_uint-pos u (omega arith)

module _ {F : Type 0} (config : BreakerStrategy F) (n k : ℕ) where
  -- The settings are so small that no product leaves the range of `int`.
  abbrev pub FitsInt : Type 0
  FitsInt =
      (or_zero config.min_pods_available_count < 2 ^ 62)
      × (or_zero config.min_pods_available_ratio < 2 ^ 62)
      × (n * or_zero config.min_pods_available_ratio < 2 ^ 62)
      × (n < 2 ^ 62)

  -- The number of pods that must stay in traffic.
  abbrev pub floor : ℕ
  floor =
      max (n * or_zero config.min_pods_available_ratio / 100)
        (or_zero config.min_pods_available_count)

  compute_min-floor : FitsInt → compute_min_available_pods config n ≡ pos floor
  unfolding compute_min_available_pods ltb_ℤ
  compute_min-floor h =
      rw
        (
          int_or_zero-pos config.min_pods_available_count h.0,
          int_or_zero-pos config.min_pods_available_ratio h.1,
          *ℤ-pos n (or_zero config.min_pods_available_ratio),
          wrap64-pos (n * or_zero config.min_pods_available_ratio) (omega arith),
          quot-pos (n * or_zero config.min_pods_available_ratio) 100,
        )
        (ground arith)

  -- Of `n` pods with traffic and `k` reported ones, the breaker cuts as many as it can without
  -- leaving fewer pods in traffic than the larger of the minimal count and the minimal ratio of
  -- `n`, as long as the products fit an `int`.
  pub remove_count-min : FitsInt → k < 2 ^ 62 → remove_count config n k ≡ pos (min k (n - floor))
  unfolding remove_count ltb_ℤ
  remove_count-min h small =
      rw (compute_min-floor h, wrap64-sub n floor (omega arith) (omega arith)) (ground arith)

  -- So a round that cuts any pod leaves the minimum in traffic, and it stops short of the reported
  -- pods only if one more cut would break the minimum.
  pub remove_count_safe :
      FitsInt
      → k < 2 ^ 62
      → (r : ℕ) × (remove_count config n k ≡ pos r)
        × (r ≤ k)
        × ((r ≡ 0) ⊎ (r + floor ≤ n))
        × ((r ≡ k) ⊎ (n < r + 1 + floor))
  remove_count_safe h small =
      (min k (n - floor), remove_count-min h small, omega arith, omega arith, omega arith)
