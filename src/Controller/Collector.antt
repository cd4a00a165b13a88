-- ===== src/Controller/Collector.antt =====
-- pkg/controller/gc.go: pods whose resource is gone lose its labels, once they were found so often
-- enough. The listers and the API server are parameters.
use Prim.Native.Char.{Char}
use Prim.Native.Char
use Prim.Native.String
use kubervisor.Prelude.{
  Bool, true, false, not, Option, none, some, List, [], ◌∷◌, String, Outcome, ok, err, panic, ◌==◌,
  if◌then◌else◌, map,
}
use kubervisor.Prelude.Int.{ℤ, pos, ltb_ℤ, ◌+ℤ◌, wrap64}
use kubervisor.Prelude.Dict
use kubervisor.Prelude.Dict.{Dict}
use kubervisor.Kube.{Pod, KubeClient, read}
use kubervisor.Kube.Exec.{Exec, pure, ◌>>=◌}
use kubervisor.Labeling.{label_breaker_name_key}
use kubervisor.Pod.Control.{World, remove_breaker_annotation_and_label}
use kubervisor.Detector.Samples.{contains_string}

-- `a + "/" + b`
abbrev pub key : String → String → String
key a b = String.◌++◌ a (String.◌++◌ "/" b)

abbrev first_longer : Char → List String → List String
first_longer c [] = String.◌∷◌ c String.[] ∷ []
first_longer c (s ∷ tokens) = String.◌∷◌ c s ∷ tokens

-- `strings.Split(s, "/")`
unfoldable pub split : String → List String
split String.[] = "" ∷ []
split (String.◌∷◌ c s) =
    let rest = split s in if Char.code c == 47 then "" ∷ rest else first_longer c rest

-- Whether a pod carries the name of a resource that is not among the known keys.
abbrev pub is_orphan : List String → Pod → Bool
is_orphan known p = elim (read p.labels label_breaker_name_key) [
  | none ↦ false
  | some name ↦ not (contains_string known (key p.namespace name))
]

-- The counter of a key, zero if it has none.
unfoldable pub counter_of : Dict ℤ → String → ℤ
counter_of counters k = elim (Dict.get counters k) [ none ↦ pos 0 | some n ↦ n ]

-- The loop over the pods.
unfoldable pub count_orphans : List String → List Pod → Dict ℤ → Dict ℤ
count_orphans known [] counters = counters
count_orphans known (p ∷ pods) counters =
    let k = key p.namespace p.name in
    count_orphans known pods (
      if is_orphan known p
      then Dict.put counters k (wrap64 (counter_of counters k +ℤ pos 1))
      else counters)

-- updateCounters, over the answers of the two listers; an error is logged.
unfoldable pub update_counters :
    Outcome (List (String × String)) → Outcome (List Pod) → Dict ℤ → Dict ℤ
update_counters (ok services) (ok pods) counters =
    count_orphans (map (λ s. key s.0 s.1) services) pods counters
update_counters _ _ counters = counters

-- The loop over the keys to delete.
unfoldable pub delete_keys : List String → Dict ℤ → Dict ℤ
delete_keys [] counters = counters
delete_keys (k ∷ keys) counters = delete_keys keys (Dict.remove counters k)

-- The two tokens of a key, if it has two.
abbrev pub two_tokens : List String → Option (String × String)
two_tokens (a ∷ b ∷ []) = some (a, b)
two_tokens _ = none

module _ {S : Type 0} (client : KubeClient S)
    (get_pod : String → String → World S → Outcome (Option Pod)) (miss_count_before_gc : ℤ) where
  -- Whether the removal of the labels went through.
  abbrev removed : Outcome Pod × World S → Outcome Bool × World S
  removed (ok p, w) = (ok true, w)
  removed (err e, w) = (ok false, w)
  removed (panic, w) = (panic, w)

  -- The pod that the lister knows.
  unfoldable pub clean_pod : Outcome (Option Pod) → Exec (World S) Bool
  clean_pod (ok (some p)) w = removed (remove_breaker_annotation_and_label client p w)
  clean_pod (ok none) w = (ok false, w)
  clean_pod (err e) w = (ok false, w)
  clean_pod panic w = (panic, w)

  -- One round of the loop: whether the key is to be deleted.
  unfoldable pub clean_key : String → ℤ → Exec (World S) Bool
  unfolding clean_pod split
  clean_key k count w =
      if ltb_ℤ count miss_count_before_gc then (ok false, w) else (elim (two_tokens (split k)) [
        | none ↦ (ok false, w)
        | some (namespace, name) ↦ clean_pod (get_pod namespace name w) w
      ])

  -- The loop over the counters: the keys to delete.
  unfoldable pub clean_keys : Dict ℤ → Exec (World S) (List String)
  clean_keys [] = pure []
  clean_keys ((k, count) ∷ counters) = do
    cleaned ← clean_key k count
    keys ← clean_keys counters
    pure (if cleaned then k ∷ keys else keys)

  unfoldable pub clean_pods : Dict ℤ → Exec (World S) (Dict ℤ)
  clean_pods counters = do keys ← clean_keys counters; pure (delete_keys keys counters)
