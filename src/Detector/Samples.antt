-- ===== src/Detector/Samples.antt =====
-- pkg/anomalydetector/prometheus.go: the counters and deviations that the answer of a query gives.
use kubervisor.Prelude.{
  ℕ, ◌<◌, ◌+◌, ◌%◌, ◌^◌, ◌≡◌, refl, ap, arith, eq_iff, Bool, true, false, not, ◌&&◌, Option, none,
  some, List, [], ◌∷◌, String, str_eq, ◌==◌, if◌then◌else◌,
}
use kubervisor.Prelude.Dict
use kubervisor.Prelude.Dict.{Dict, get-put}
use kubervisor.Api.{FloatOps, DiscreteValueOutOfList, ContinuousValueDeviation}
use kubervisor.Api.Validation.{size}

-- A 64-bit `uint` after an operation.
abbrev pub wrap_uint : ℕ → ℕ
wrap_uint n = n % 2 ^ 64

pub record OkkoCount : Type 0 where
  pub ok_count : ℕ
  pub ko_count : ℕ

-- One entry of the vector that a query returns.
pub record Sample (F : Type 0) : Type 0 where
  pub metric : Dict String
  pub value : F

-- The label of a metric, empty if it is missing.
unfoldable pub label_of : Dict String → String → String
label_of m k = elim (Dict.get m k) [ none ↦ "" | some v ↦ v ]

-- Whether the slice has the value; a nil slice has none.
unfoldable pub contains_string : List String → String → Bool
contains_string [] value = false
contains_string (x ∷ slice) value = if str_eq x value then true else contains_string slice value

abbrev pub elements : Option (List String) → List String
elements none = []
elements (some xs) = xs

-- The function that the factory gives to the analysis.
unfoldable pub value_checker : DiscreteValueOutOfList → String → Bool
value_checker d value =
    if size d.good_values == 0 && not (size d.bad_values == 0)
    then not (contains_string (elements d.bad_values) value)
    else contains_string (elements d.good_values) value

-- The counters of a pod so far, zero if it has none.
unfoldable pub counters_of : Dict OkkoCount → String → OkkoCount
counters_of m pod_name = elim (Dict.get m pod_name) [
  | none ↦ record { ok_count = 0; ko_count = 0 }
  | some c ↦ c
]

module _ {F : Type 0} (floats : FloatOps F) where
  -- One more sample on the counters.
  abbrev pub add_sample : Bool → F → OkkoCount → OkkoCount
  add_sample true v c = record {
    ok_count = wrap_uint (c.ok_count + floats.to_uint v);
    ko_count = c.ko_count;
  }
  add_sample false v c = record {
    ok_count = c.ok_count;
    ko_count = wrap_uint (c.ko_count + floats.to_uint v);
  }

  -- The loop of buildCounters, from the counters so far.
  unfoldable pub count_samples :
      DiscreteValueOutOfList → List (Sample F) → Dict OkkoCount → Dict OkkoCount
  count_samples d [] counters = counters
  count_samples d (s ∷ vector) counters =
      let pod_name = label_of s.metric d.pod_name_key in
      count_samples d vector (
        Dict.put counters pod_name (
          add_sample (value_checker d (label_of s.metric d.key)) s.value
            (counters_of counters pod_name)))

  unfoldable pub build_counters : DiscreteValueOutOfList → List (Sample F) → Dict OkkoCount
  unfolding count_samples
  build_counters d vector = count_samples d vector []

  -- The deviations that the other analysis reads: the last sample of a pod counts.
  unfoldable pub read_deviations : ContinuousValueDeviation F → List (Sample F) → Dict F → Dict F
  read_deviations d [] result = result
  read_deviations d (s ∷ vector) result =
      read_deviations d vector (Dict.put result (label_of s.metric d.pod_name_key) s.value)

-- Equality of Booleans.
abbrev pub same : Bool → Bool → Bool
same true b = b
same false b = not b

-- The counter of the good values, or of the bad ones.
abbrev pub side : Bool → OkkoCount → ℕ
side true c = c.ok_count
side false c = c.ko_count

counters_of-put :
    (m : Dict OkkoCount) (k : String) (c : OkkoCount) (j : String)
    → counters_of (Dict.put m k c) j ≡ (if str_eq k j then c else counters_of m j)
unfolding counters_of
counters_of-put m k c j = rw (counters_of, get-put m k c j, counters_of) (ground arith)

counters_of-same : (m : Dict OkkoCount) (k j : String) → k ≡ j → counters_of m k ≡ counters_of m j
counters_of-same m k j e = ap (counters_of m) e

side-none : (good : Bool) (k : String) → side good (counters_of [] k) ≡ 0
unfolding counters_of Dict.get
side-none true k = refl
side-none false k = refl

module _ {F : Type 0} (floats : FloatOps F) (d : DiscreteValueOutOfList) (good : Bool)
    (pod_name : String) where
  -- Whether a sample is of the pod, and its value is good (or bad).
  abbrev pub counts_for : Sample F → Bool
  counts_for s =
      str_eq (label_of s.metric d.pod_name_key) pod_name
      && same good (value_checker d (label_of s.metric d.key))

  -- The sum of those samples.
  abbrev pub total : List (Sample F) → ℕ
  total [] = 0
  total (s ∷ vector) = (if counts_for s then floats.to_uint s.value else 0) + total vector

  side-add_sample :
      (checked : Bool) (v : F) (c : OkkoCount)
      → side good c + (if same good checked then floats.to_uint v else 0) < 2 ^ 64
      → side good (add_sample floats checked v c)
        ≡ side good c + (if same good checked then floats.to_uint v else 0)
  side-add_sample true v c h = ground arith
  side-add_sample false v c h = ground arith

  -- The counters after one more sample.
  abbrev next : Sample F → Dict OkkoCount → Dict OkkoCount
  next s m =
      let k = label_of s.metric d.pod_name_key in
      Dict.put m k
        (add_sample floats (value_checker d (label_of s.metric d.key)) s.value (counters_of m k))

  side-next :
      (s : Sample F) (m : Dict OkkoCount)
      → side good (counters_of m pod_name) + (if counts_for s then floats.to_uint s.value else 0)
        < 2 ^ 64
      → side good (counters_of (next s m) pod_name)
        ≡ side good (counters_of m pod_name) + (if counts_for s then floats.to_uint s.value else 0)
  side-next s m h =
      let k = label_of s.metric d.pod_name_key in
      let checked = value_checker d (label_of s.metric d.key) in
      let c = counters_of m k in
      rw (counters_of-put m k (add_sample floats checked s.value c) pod_name) (
        ground (
          arith,
          eq_iff k pod_name,
          side-add_sample checked s.value c,
          counters_of-same m k pod_name,
        ))

  count_samples-total :
      (vector : List (Sample F)) (m : Dict OkkoCount)
      → side good (counters_of m pod_name) + total vector < 2 ^ 64
      → side good (counters_of (count_samples floats d vector m) pod_name)
        ≡ side good (counters_of m pod_name) + total vector
  unfolding count_samples
  count_samples-total [] m h = omega arith
  count_samples-total (s ∷ vector) m h =
      rw (count_samples-total vector (next s m) (omega (arith, side-next s m (omega arith))))
        (omega (arith, side-next s m (omega arith)))

  -- The counter of good (or bad) values of a pod is the sum of the samples that name the pod and have
  -- such a value, as long as this sum fits a `uint`.
  pub build_counters-total :
      (vector : List (Sample F))
      → total vector < 2 ^ 64
      → side good (counters_of (build_counters floats d vector) pod_name) ≡ total vector
  unfolding build_counters
  build_counters-total vector h = omega (
    arith,
    side-none good pod_name,
    count_samples-total vector [] (omega (arith, side-none good pod_name)),
  )
