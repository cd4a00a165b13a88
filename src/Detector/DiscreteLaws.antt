-- ===== src/Detector/DiscreteLaws.antt =====
-- Which pods the analysis of discrete values reports.
use kubervisor.Prelude.{
  ℕ, ◌==◌, not, is_some, ◌||◌, zero, suc, ◌+◌, ◌*◌, ◌/◌, ◌^◌, ◌<◌, ◌≡◌, refl, ap, arith, Bool, true,
  false, ◌&&◌, Option, none, some, List, [], ◌∷◌, String, Outcome, ok, err, panic, ltb, leb,
  if◌then◌else◌, All, select,
}
use native.Mathlib.Nat.{le-div_iff_mul-le, mod-eq_of_lt}
use kubervisor.Prelude.Dict
use kubervisor.Prelude.Dict.{Dict}
use kubervisor.Kube.{Pod}
use kubervisor.Kube.Returns.{panics}
use kubervisor.Pod.Tools.{is_ready}
use kubervisor.Pod.FilterLaws.{first_error}
use kubervisor.Api.{FloatOps, DiscreteValueOutOfList}
use kubervisor.Detector.Samples.{OkkoCount, Sample, build_counters, wrap_uint}
use kubervisor.Detector.Index.{PodIndex, index_listed-IsIndexOf, last_named, without_traffic}
use kubervisor.Detector.Discrete.{
  judge, judge_active, judge_all, prepend, vector, over_tolerance, get_pods_out_of_bounds,
}

lt_div-le : (t a n : ℕ) → ltb t (a / suc n) ≡ leb ((t + 1) * suc n) a
lt_div-le t a n = ground (arith, le-div_iff_mul-le {k = suc n} {x = t + 1} {y = a} (omega arith))

-- The counters are so small that no sum or product wraps.
abbrev pub Small : OkkoCount → Type 0
Small c = (c.ok_count + c.ko_count < 2 ^ 64) × (c.ko_count * 100 < 2 ^ 64)

-- Whether some counter of a pod in traffic is zero.
abbrev pub any_idle : PodIndex → Dict OkkoCount → Bool
any_idle i [] = false
any_idle i ((name, c) ∷ counters) =
    (not (is_some (Dict.get i.no_traffic name)) && c.ok_count + c.ko_count == 0)
    || any_idle i counters

-- Whether a call returns an error.
abbrev fails : {A : Type 0} → Outcome A → Bool
fails (ok a) = false
fails (err e) = true
fails panic = false

module _ (m t : ℕ) where
  -- Enough activity, and a share of bad values, in percent, of at least one above the tolerance.
  abbrev pub faulty : OkkoCount → Bool
  faulty c =
      let sum = c.ok_count + c.ko_count in leb m sum && leb ((t + 1) * sum) (c.ko_count * 100)

  -- The pods of the faulty counters, but for names that are out of traffic.
  abbrev pub out_of_bounds :
      (String → Option Pod) → (String → Option Pod) → Dict OkkoCount → List Pod
  out_of_bounds no_traffic by_name [] = []
  out_of_bounds no_traffic by_name ((pod_name, c) ∷ counters) =
      let rest = out_of_bounds no_traffic by_name counters in
      elim (no_traffic pod_name) [
        | some p ↦ rest
        | none ↦ if faulty c then prepend (by_name pod_name) rest else rest
      ]

module _ (d : DiscreteValueOutOfList) (m t : ℕ) where
  module _ (has_minimum : d.minimum_activity_count ≡ some m)
      (has_tolerance : d.tolerance_percent ≡ some t) where
    over_tolerance-faulty :
        (sum : ℕ) (c : OkkoCount) (known : Option Pod)
        → 0 < sum
        → c.ko_count * 100 < 2 ^ 64
        → over_tolerance d sum c known
          ≡ ok (if leb ((t + 1) * sum) (c.ko_count * 100) then known else none)
    unfolding over_tolerance
    over_tolerance-faulty zero c known positive small = elim positive [ ]
    over_tolerance-faulty (suc n) c known positive small =
        rw (has_tolerance, mod-eq_of_lt small, lt_div-le t (c.ko_count * 100) n) refl

    judge_active-faulty :
        (c : OkkoCount) (known : Option Pod)
        → 0 < m
        → Small c
        → judge_active d c known ≡ ok (if faulty m t c then known else none)
    unfolding judge_active
    judge_active-faulty c known positive small =
        simp (has_minimum, mod-eq_of_lt small.0)
          (ground (arith, over_tolerance-faulty (c.ok_count + c.ko_count) c known, small.1))

    judge-faulty :
        (i : PodIndex) (name : String) (c : OkkoCount)
        → 0 < m
        → Small c
        → judge d i name c
          ≡ ok (elim (Dict.get i.no_traffic name) [
            | some p ↦ none
            | none ↦ if faulty m t c then Dict.get i.by_name name else none
          ])
    unfolding judge
    judge-faulty i name c positive small =
        ground (arith, judge_active-faulty c (Dict.get i.by_name name) positive small)

    judge_all-out_of_bounds :
        (i : PodIndex) (counters : Dict OkkoCount)
        → 0 < m
        → All (λ e. Small e.1) counters
        → judge_all d i counters
          ≡ ok (out_of_bounds m t (Dict.get i.no_traffic) (Dict.get i.by_name) counters)
    unfolding judge_all
    judge_all-out_of_bounds i [] positive small = refl
    judge_all-out_of_bounds i ((name, c) ∷ counters) positive small =
        rw
          (
            judge-faulty i name c positive small.0,
            judge_all-out_of_bounds i counters positive small.1,
          )
          (ground arith)

    out_of_bounds-ext :
        (f g f' g' : String → Option Pod)
        → ((name : String) → f name ≡ f' name)
        → ((name : String) → g name ≡ g' name)
        → (counters : Dict OkkoCount)
        → out_of_bounds m t f g counters ≡ out_of_bounds m t f' g' counters
    out_of_bounds-ext f g f' g' h k [] = refl
    out_of_bounds-ext f g f' g' h k ((name, c) ∷ counters) =
        ground (arith, h name, k name, out_of_bounds-ext f g f' g' h k counters)

    module _ {F : Type 0} (floats : FloatOps F) (pods : List Pod) (samples : List (Sample F)) where
      -- With a minimal activity of at least one, and counters that do not overflow, the analysis
      -- reports, in the order of the counters, the last ready pod of each name whose samples are
      -- enough and whose bad samples make up, in percent, at least one above the tolerance, but for the
      -- names of which some ready pod is out of traffic.
      pub get_pods-out_of_bounds :
          0 < m
          → All (λ e. Small e.1) (build_counters floats d samples)
          → first_error (select is_ready pods) ≡ none
          → get_pods_out_of_bounds floats d (ok pods) (ok (vector samples))
            ≡ ok (
                out_of_bounds m t
                  (λ name. last_named name (without_traffic (select is_ready pods)) none)
                  (λ name. last_named name (select is_ready pods) none)
                  (build_counters floats d samples))
      unfolding get_pods_out_of_bounds Dict.get
      get_pods-out_of_bounds positive small readable =
          let (i, e, k) = index_listed-IsIndexOf pods readable in
          rw (e, judge_all-out_of_bounds i (build_counters floats d samples) positive small)
            (ap ok (
              out_of_bounds-ext (Dict.get i.no_traffic) (Dict.get i.by_name)
                (λ name. last_named name (without_traffic (select is_ready pods)) none)
                (λ name. last_named name (select is_ready pods) none) (λ name. (k name).no_traffic)
                (λ name. (k name).by_name) (build_counters floats d samples)))

    panics-over_tolerance :
        (sum : ℕ) (c : OkkoCount) (known : Option Pod)
        → panics (over_tolerance d sum c known) ≡ (sum == 0)
    unfolding over_tolerance
    panics-over_tolerance zero c known = refl
    panics-over_tolerance (suc n) c known = rw has_tolerance (ground arith)

    over_tolerance_ne_err :
        (sum : ℕ) (c : OkkoCount) (known : Option Pod)
        → fails (over_tolerance d sum c known) ≡ false
    unfolding over_tolerance
    over_tolerance_ne_err zero c known = refl
    over_tolerance_ne_err (suc n) c known = rw has_tolerance (ground arith)

    judge_active_ne_err :
        (c : OkkoCount) (known : Option Pod) → fails (judge_active d c known) ≡ false
    unfolding judge_active
    judge_active_ne_err c known =
        let sum = wrap_uint (c.ok_count + c.ko_count) in
        simp has_minimum (ground (arith, over_tolerance_ne_err sum c known))

    judge_ne_err : (i : PodIndex) (name : String) (c : OkkoCount) → fails (judge d i name c) ≡ false
    unfolding judge
    judge_ne_err i name c = ground (arith, judge_active_ne_err c (Dict.get i.by_name name))

    panics-judge_active :
        (c : OkkoCount) (known : Option Pod)
        → Small c
        → panics (judge_active d c known) ≡ (m == 0 && c.ok_count + c.ko_count == 0)
    unfolding judge_active
    panics-judge_active c known small =
        simp (has_minimum, mod-eq_of_lt small.0)
          (ground (arith, panics-over_tolerance (c.ok_count + c.ko_count) c known))

    panics-judge :
        (i : PodIndex) (name : String) (c : OkkoCount)
        → Small c
        → panics (judge d i name c)
          ≡ (m == 0 && (not (is_some (Dict.get i.no_traffic name)) && c.ok_count + c.ko_count == 0))
    unfolding judge
    panics-judge i name c small =
        ground (arith, panics-judge_active c (Dict.get i.by_name name) small)

    -- The analysis panics, by a division by zero, exactly if the minimal activity is zero and some
    -- counter is zero whose name is not that of a listed pod out of traffic, as long as the counters do
    -- not overflow.
    pub panics-judge_all :
        (i : PodIndex) (counters : Dict OkkoCount)
        → All (λ e. Small e.1) counters
        → panics (judge_all d i counters) ≡ (m == 0 && any_idle i counters)
    unfolding judge_all
    panics-judge_all i [] small = ground arith
    panics-judge_all i ((name, c) ∷ counters) small = ground (
      arith,
      judge_ne_err i name c,
      panics-judge i name c small.0,
      panics-judge_all i counters small.1,
    )
