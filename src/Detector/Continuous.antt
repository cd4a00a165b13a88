-- ===== src/Detector/Continuous.antt =====
-- pkg/anomalydetector/continuousvalueanalyser.go: pods whose value deviates too far from the average.
use kubervisor.Prelude.{
  ◌≡◌, refl, arith, length, ◌==◌, Bool, Option, none, some, List, [], ◌∷◌, String, Outcome, ok, err,
  errorf, if◌then◌else◌, ◌>>=◌, select,
}
use kubervisor.Prelude.Dict
use kubervisor.Prelude.Dict.{Dict}
use kubervisor.Kube.{Pod, deref}
use kubervisor.Pod.Tools.{is_ready}
use kubervisor.Pod.FilterLaws.{first_error}
use kubervisor.Api.{FloatOps, ContinuousValueDeviation}
use kubervisor.Detector.Samples.{Sample, read_deviations}
use kubervisor.Detector.Index.{
  PodIndex, index_listed, index_listed-IsIndexOf, last_named, without_traffic,
}
use kubervisor.Detector.Discrete.{QueryValue, vector, vector_of, prepend}

module _ {F : Type 0} (floats : FloatOps F) where
  -- Whether a deviation, 1 for none at all, is too far from 1.
  abbrev pub too_far : F → F → Bool
  too_far max_deviation deviation =
      floats.less max_deviation (floats.abs (floats.sub (floats.decimal 1 0) deviation))

  -- The loop over the deviations.
  unfoldable pub deviating : F → (String → Option Pod) → (String → Option Pod) → Dict F → List Pod
  deviating max_deviation no_traffic by_name [] = []
  deviating max_deviation no_traffic by_name ((pod_name, deviation) ∷ deviations) =
      let rest = deviating max_deviation no_traffic by_name deviations in
      elim (no_traffic pod_name) [
        | some p ↦ rest
        | none ↦ if too_far max_deviation deviation then prepend (by_name pod_name) rest else rest
      ]

  -- The end of GetPodsOutOfBounds, once the limit is known.
  unfoldable pub check_deviations : PodIndex → Dict F → F → Outcome (List Pod)
  unfolding deviating
  check_deviations i deviations max_deviation =
      if floats.equal max_deviation (floats.decimal 0 0)
      then err (errorf "maxDeviation=0 for continuous value analysis")
      else ok (deviating max_deviation (Dict.get i.no_traffic) (Dict.get i.by_name) deviations)

  unfoldable pub judge_deviations :
      ContinuousValueDeviation F → PodIndex → Dict F → Outcome (List Pod)
  judge_deviations d i deviations =
      if length deviations == 0
      then ok []
      else (deref d.max_deviation_percent >>= λ percent.
          check_deviations i deviations (floats.div percent (floats.decimal 100 0)))

  unfoldable pub do_continuous_analysis :
      ContinuousValueDeviation F → Outcome (QueryValue F) → Outcome (Dict F)
  unfolding vector_of
  do_continuous_analysis d answer = do
    samples ← vector_of answer
    ok (read_deviations floats d samples [])

  -- GetPodsOutOfBounds, over what the lister and the query answer.
  unfoldable pub get_deviating_pods :
      ContinuousValueDeviation F → Outcome (List Pod) → Outcome (QueryValue F) → Outcome (List Pod)
  unfolding do_continuous_analysis
  get_deviating_pods d listed answer = do
    i ← index_listed listed
    deviations ← do_continuous_analysis d answer
    judge_deviations d i deviations

  deviating-ext :
      (x : F) (f g f' g' : String → Option Pod)
      → ((name : String) → f name ≡ f' name)
      → ((name : String) → g name ≡ g' name)
      → (deviations : Dict F) → deviating x f g deviations ≡ deviating x f' g' deviations
  unfolding deviating
  deviating-ext x f g f' g' h k [] = refl
  deviating-ext x f g f' g' h k ((name, v) ∷ deviations) =
      ground (arith, h name, k name, deviating-ext x f g f' g' h k deviations)

  module _ (d : ContinuousValueDeviation F) (percent : F) (pods : List Pod)
      (samples : List (Sample F)) where
    -- The analysis with a limit set, all ready pods having readable labels: it reports nothing if no
    -- pod has a value; it fails if the limit is zero; and else it reports the last ready pod of each
    -- name whose last sample deviates by more than the limit, but for the names of which some ready
    -- pod is out of traffic.
    pub get_deviating_pods_lem :
        d.max_deviation_percent ≡ some percent
        → first_error (select is_ready pods) ≡ none
        → get_deviating_pods d (ok pods) (ok (vector samples)) ≡ (
            let deviations = read_deviations floats d samples [] in
            let limit = floats.div percent (floats.decimal 100 0) in
            if length deviations == 0
            then ok []
            else if floats.equal limit (floats.decimal 0 0)
            then err (errorf "maxDeviation=0 for continuous value analysis")
            else ok (
                deviating limit
                  (λ name. last_named name (without_traffic (select is_ready pods)) none)
                  (λ name. last_named name (select is_ready pods) none)
                  deviations))
    unfolding get_deviating_pods judge_deviations check_deviations Dict.get
    get_deviating_pods_lem limited readable =
        let (i, e, k) = index_listed-IsIndexOf pods readable in
        let deviations = read_deviations floats d samples [] in
        rw (e, limited)
          (ground (
            arith,
            deviating-ext (floats.div percent (floats.decimal 100 0)) (Dict.get i.no_traffic)
                (Dict.get i.by_name)
                (λ name. last_named name (without_traffic (select is_ready pods)) none)
                (λ name. last_named name (select is_ready pods) none) (λ name. (k name).no_traffic)
                (λ name. (k name).by_name) deviations,
          ))
