-- ===== src/Examples/Lifecycles.antt =====
-- The theorems about the life of a pod at servers of one and of two pods.
use kubervisor.Prelude.{
  ℕ, ◌+◌, ◌≤◌, ◌≡◌, ◌⊎◌, inl, inr, refl, arith, false, Option, none, some, List, [], ◌∷◌, String,
  ok, ◌<◌, str_eq, if◌then◌else◌,
}
use kubervisor.Prelude.Int.{ℤ, pos, wrap64, ◌+ℤ◌}
use kubervisor.Prelude.Dict
use kubervisor.Prelude.Decimal.{atoi, itoa}
use kubervisor.Kube
use kubervisor.Kube.{Pod, KubeClient}
use kubervisor.Kube.Exec.{Exec, ◌>>=◌}
use kubervisor.Labeling.{
  get_break_at, get_retry_count, is_pod_traffic_label_ok_or_pause, to_label_traffic,
}
use kubervisor.Pod.FilterLaws.{has_traffic}
use kubervisor.Pod.Requests.{init_request, break_request}
use kubervisor.Pod.Control.{
  World, init_breaker_annotation_and_label, update_breaker_annotation_and_label,
}
use kubervisor.Activate.Strategy.{apply_activator_strategy}
use kubervisor.Activate.Decisions.{Reads}
use kubervisor.Lifecycle.{IsServer}
use kubervisor.Lifecycle.Budget.{IsWithin}
use kubervisor.Lifecycle.Steps.{Reach, initialise, cut, here, next}
use kubervisor.Lifecycle.BudgetLaws.{retry_budget}
use kubervisor.Lifecycle.Progress.{
  IsWilling, IsServing, visit_ends_rest, IsPaused, visit_ends_rest_pausing,
}
use kubervisor.Examples.Fixtures.{pod_with, bare_pod, unix_seconds, millionths, by_text}
use kubervisor.Examples.Activators.{activator}

-- The server holds one pod, or none.
abbrev single : KubeClient (Option Pod)
single = record { update = λ q s. (ok q, some q); delete = λ namespace name s. (none, none) }

abbrev held : Option Pod → Option Pod
held s = s

single-IsServer : IsServer single held
single-IsServer = record { updated = λ q s. inr refl; deleted = λ namespace name s. inr refl }

abbrev at_two_hundred : Option Pod → ℤ
at_two_hundred s = pos 200000000000

abbrev nobody : List String → Exec (World (Option Pod)) (List Pod)
nobody l w = (ok [], w)

abbrev holding : Pod → World (Option Pod)
holding p = record { cluster = some p; counters = [] }

-- The bare pod after it was taken in.
abbrev taken_in : Pod
taken_in = record bare_pod {
  labels = some (("kubervisor/name", "svc") ∷ ("kubervisor/traffic", "yes") ∷ []);
  annotations = some [];
}

abbrev cut_pod : Pod
cut_pod = record bare_pod {
  labels = some (
      ("kubervisor/name", "svc")
      ∷ ("kubervisor/traffic", "no")
      ∷ ("kubervisor/strategy", "errors")
      ∷ []);
  annotations = some (("breaker/breakAt", "200") ∷ ("breaker/retryCount", "1") ∷ []);
}

bare-IsWithin : IsWithin 0 0 bare_pod
unfolding get_retry_count Kube.read
bare-IsWithin = record { counted = refl; bounded = omega arith; rested = inl (omega arith) }

abbrev Lives : World (Option Pod) → ℕ → World (Option Pod) → ℕ → Type 0
Lives = Reach millionths by_text single at_two_hundred unix_seconds nobody held 0

taken_in_first : Lives (holding bare_pod) 0 (holding taken_in) 0
unfolding init_breaker_annotation_and_label init_request ◌>>=◌ Kube.read Dict.get Dict.put
taken_in_first = next here (initialise "svc" bare_pod (holding bare_pod) 0 refl refl)

then_cut : Lives (holding bare_pod) 0 (holding cut_pod) 1
unfolding update_breaker_annotation_and_label get_retry_count is_pod_traffic_label_ok_or_pause
    to_label_traffic Kube.read Dict.get Dict.put atoi itoa wrap64 ◌+ℤ◌ break_request
then_cut =
    next taken_in_first
      (cut "svc" "errors" taken_in cut_pod (holding taken_in) 0 refl refl refl refl)

retry_budget_example :
    (get_retry_count cut_pod ≡ ok (pos 1)) × (1 ≤ 0 + 1) × ((1 ≤ 0) ⊎ (has_traffic cut_pod ≡ false))
retry_budget_example =
    retry_budget millionths by_text single at_two_hundred unix_seconds nobody held single-IsServer
      (λ l w. refl) 0 (omega arith) (holding bare_pod) (holding cut_pod) cut_pod 0 1 bare-IsWithin
      then_cut refl

-- A server of two pods, "a" and "b".
abbrev pair : KubeClient (Option Pod × Option Pod)
pair = record {
  update = λ q s. (ok q, if str_eq q.name "a" then (some q, s.1) else (s.0, some q));
  delete = λ namespace name s. (none, if str_eq name "a" then (none, s.1) else (s.0, none));
}

abbrev first : Option Pod × Option Pod → Option Pod
first s = s.0

abbrev pair_clock : Option Pod × Option Pod → ℤ
pair_clock s = pos 200000000000

abbrev pair_nobody : List String → Exec (World (Option Pod × Option Pod)) (List Pod)
pair_nobody l w = (ok [], w)

abbrev a_cut : Pod
a_cut = pod_with "a" "no" "1"

pair-IsWilling : IsWilling pair first a_cut
pair-IsWilling = record {
  updates = λ q s e same_namespace same_name. rw same_name refl;
  deletes = λ s e. refl;
}

abbrev both : World (Option Pod × Option Pod)
both = record { cluster = (some a_cut, some (pod_with "b" "yes" "0")); counters = [] }

-- A pod cut once, at second 100; the period is of 10 s, and it is second 200.
reads :
    Reads millionths by_text pair pair_clock unix_seconds pair_nobody
      (activator "retryAndKill")
      a_cut
      both
      10000000
      100000000000
      1
      200000000000
      10000
unfolding get_break_at get_retry_count Kube.read Dict.get atoi
reads = record {
  break_at = refl;
  retry_count = refl;
  period = refl;
  millis = refl;
  clock_shows = refl;
  period_fits = omega arith;
  delay_fits = omega arith;
}

visit_ends_rest_example :
    let v =
      (apply_activator_strategy millionths by_text pair pair_clock unix_seconds pair_nobody
        (activator "retryAndKill")
        a_cut
        both).1 in
    ((3 < 1) × (first v.cluster ≡ none)) ⊎ ((1 ≤ 3) × IsServing first v)
visit_ends_rest_example =
    visit_ends_rest millionths by_text pair pair_clock unix_seconds pair_nobody first
      (activator "retryAndKill") a_cut both pair-IsWilling refl 10000000 100000000000 1 200000000000
      10000 3 reads refl refl (omega arith) (omega arith)

-- A pod cut five times, in a mode that pauses it.
abbrev cut_often : Pod
cut_often = pod_with "a" "no" "5"

abbrev both_often : World (Option Pod × Option Pod)
both_often = record { cluster = (some cut_often, some (pod_with "b" "yes" "0")); counters = [] }

often-IsWilling : IsWilling pair first cut_often
often-IsWilling = record {
  updates = λ q s e same_namespace same_name. rw same_name refl;
  deletes = λ s e. refl;
}

reads_often :
    Reads millionths by_text pair pair_clock unix_seconds pair_nobody
      (activator "retryAndPause")
      cut_often
      both_often
      10000000
      100000000000
      5
      200000000000
      10000
unfolding get_break_at get_retry_count Kube.read Dict.get atoi
reads_often = record {
  break_at = refl;
  retry_count = refl;
  period = refl;
  millis = refl;
  clock_shows = refl;
  period_fits = omega arith;
  delay_fits = omega arith;
}

visit_ends_rest_pausing_example :
    let v =
      (apply_activator_strategy millionths by_text pair pair_clock unix_seconds pair_nobody
        (activator "retryAndPause")
        cut_often
        both_often).1 in
    ((3 < 5) × (0 < 1) × IsPaused first v)
    ⊎ ((3 < 5) × (1 ≤ 0) × (first v.cluster ≡ none))
    ⊎ ((5 ≤ 3) × IsServing first v)
visit_ends_rest_pausing_example =
    visit_ends_rest_pausing millionths by_text pair pair_clock unix_seconds pair_nobody first
      (activator "retryAndPause") cut_often both_often often-IsWilling refl 10000000 100000000000 5
      200000000000 10000 3 1 "pause" [] both_often reads_often refl refl (omega arith) refl
      (omega arith) refl refl refl (omega arith)
