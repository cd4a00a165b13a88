-- ===== src/Detector/Discrete.antt =====
-- pkg/anomalydetector/discretevalueanalyser.go and the query of prometheus.go: pods whose share of bad
-- values is too large. The query API is a parameter.
use kubervisor.Prelude.{
  ℕ, zero, suc, ◌+◌, ◌*◌, ◌/◌, Option, none, some, List, [], ◌∷◌, String, Outcome, ok, err, panic,
  errorf, wrapping, ltb, leb, if◌then◌else◌, ◌>>=◌,
}
use kubervisor.Prelude.Dict
use kubervisor.Prelude.Dict.{Dict}
use kubervisor.Kube.{Pod, deref}
use kubervisor.Api.{FloatOps, DiscreteValueOutOfList}
use kubervisor.Detector.Samples.{OkkoCount, Sample, build_counters, wrap_uint}
use kubervisor.Detector.Index.{PodIndex, index_listed}

-- Division of a `uint`: by zero it panics.
abbrev pub div_uint : ℕ → ℕ → Outcome ℕ
div_uint a zero = panic
div_uint a (suc n) = ok (a / suc n)

-- The test of the share of bad values, and the pod that it reports.
unfoldable pub over_tolerance :
    DiscreteValueOutOfList → ℕ → OkkoCount → Option Pod → Outcome (Option Pod)
over_tolerance d sum c known = do
  ratio ← div_uint (wrap_uint (c.ko_count * 100)) sum
  tolerance ← deref d.tolerance_percent
  ok (if ltb tolerance ratio then known else none)

-- The round for a pod in traffic.
unfoldable pub judge_active : DiscreteValueOutOfList → OkkoCount → Option Pod → Outcome (Option Pod)
judge_active d c known =
    let sum = wrap_uint (c.ok_count + c.ko_count) in
    deref d.minimum_activity_count >>= λ minimum.
    if leb minimum sum then over_tolerance d sum c known else ok none

-- One round of the loop: the pod to report, if any.
unfoldable pub judge : DiscreteValueOutOfList → PodIndex → String → OkkoCount → Outcome (Option Pod)
judge d i pod_name c = elim (Dict.get i.no_traffic pod_name) [
  | some p ↦ ok none
  | none ↦ judge_active d c (Dict.get i.by_name pod_name)
]

abbrev pub prepend : Option Pod → List Pod → List Pod
prepend none pods = pods
prepend (some p) pods = p ∷ pods

unfoldable pub judge_all : DiscreteValueOutOfList → PodIndex → Dict OkkoCount → Outcome (List Pod)
judge_all d i [] = ok []
judge_all d i ((pod_name, c) ∷ counters) = do
  reported ← judge d i pod_name c
  result ← judge_all d i counters
  ok (prepend reported result)

-- The answer of a query: a vector, or a value of another type.
pub data QueryValue (F : Type 0) : Type 0 where
  vector : List (Sample F) → QueryValue F
  other_value : QueryValue F

-- The type assertion on an answer.
abbrev as_vector : {F : Type 0} → QueryValue F → Outcome (List (Sample F))
as_vector (vector samples) = ok samples
as_vector other_value = err (errorf "the prometheus query did not return a vector")

-- The vector of an answer.
unfoldable pub vector_of : {F : Type 0} → Outcome (QueryValue F) → Outcome (List (Sample F))
vector_of answer = wrapping "error processing prometheus query" answer >>= as_vector

module _ {F : Type 0} (floats : FloatOps F) where
  unfoldable pub do_analysis :
      DiscreteValueOutOfList → Outcome (QueryValue F) → Outcome (Dict OkkoCount)
  unfolding vector_of
  do_analysis d answer = do samples ← vector_of answer; ok (build_counters floats d samples)

  -- GetPodsOutOfBounds, over what the lister and the query answer. The counters are judged in the order
  -- of their first samples; the range over the map of the code takes any order, so that the pods of the
  -- result may come in another one.
  unfoldable pub get_pods_out_of_bounds :
      DiscreteValueOutOfList → Outcome (List Pod) → Outcome (QueryValue F) → Outcome (List Pod)
  unfolding do_analysis
  get_pods_out_of_bounds d listed answer = do
    i ← index_listed listed
    counters ← do_analysis d answer
    judge_all d i counters
