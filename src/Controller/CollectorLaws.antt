-- ===== src/Controller/CollectorLaws.antt =====
-- When the collector counts a pod, and when it writes to one.
use Prim.Native.Char.{Char}
use Prim.Native.Char
use Prim.Native.String
use Prim.Native.String.append.{nil, cons}
use kubervisor.Prelude.{
  ℕ, ◌+◌, ◌^◌, ◌<◌, ◌≡◌, ◌≢◌, refl, ap, arith, eq_iff, Bool, true, false, ◌&&◌, Option, some, List,
  [], ◌∷◌, String, Outcome, ok, str_eq, if◌then◌else◌, map, length, count, All, Bool-cases, inl,
  inr,
}
use kubervisor.Prelude.Int.{ℤ, pos, ltb_ℤ, ◌+ℤ◌, wrap64, wrap64-suc}
use kubervisor.Prelude.Dict
use kubervisor.Prelude.Dict.{Dict, get-put}
use kubervisor.Kube.{Pod, KubeClient}
use kubervisor.Kube.Exec.{◌>>=◌}
use kubervisor.Pod.Control.{World, remove_breaker_annotation_and_label}
use kubervisor.Controller.Collector.{
  key, split, is_orphan, counter_of, count_orphans, update_counters, delete_keys, clean_key,
  clean_keys, clean_pods,
}

-- A text without the separator of keys.
abbrev pub HasNoSlash : String → Type 0
HasNoSlash String.[] = Unit
HasNoSlash (String.◌∷◌ c s) = (Char.code c ≢ 47) × HasNoSlash s

split-HasNoSlash : (b : String) → HasNoSlash b → split b ≡ b ∷ []
unfolding split
split-HasNoSlash String.[] h = refl
split-HasNoSlash (String.◌∷◌ c s) h = rw (split-HasNoSlash s h.1) (ground (arith, h.0))

-- Splitting a key gives back its namespace and its name, if neither has a slash.
pub split-key : (a b : String) → HasNoSlash a → HasNoSlash b → split (key a b) ≡ a ∷ b ∷ []
unfolding split
split-key String.[] b h k =
    rw (nil (String.◌++◌ "/" b), cons "/" "" b, nil b, split, split-HasNoSlash b k) refl
split-key (String.◌∷◌ c s) b h k =
    rw (cons c s (String.◌++◌ "/" b), split, split-key s b h.1 k) (ground (arith, h.0))

counter_of-put :
    (m : Dict ℤ) (k : String) (n : ℤ) (j : String)
    → counter_of (Dict.put m k n) j ≡ (if str_eq k j then n else counter_of m j)
unfolding counter_of
counter_of-put m k n j = rw (counter_of, get-put m k n j, counter_of) (ground arith)

counter_of-same : (m : Dict ℤ) (j k : String) → j ≡ k → counter_of m j ≡ counter_of m k
counter_of-same m j k e = ap (counter_of m) e

-- An orphan of a key.
abbrev pub orphan_at : List String → String → Pod → Bool
orphan_at known k p = is_orphan known p && str_eq (key p.namespace p.name) k

module _ (known : List String) (k : String) where
  -- The counters after one more pod.
  abbrev next : Pod → Dict ℤ → Dict ℤ
  next p m =
      let j = key p.namespace p.name in
      if is_orphan known p then Dict.put m j (wrap64 (counter_of m j +ℤ pos 1)) else m

  abbrev step : Pod → ℕ
  step p = if orphan_at known k p then 1 else 0

  counter_of-next :
      (p : Pod) (m : Dict ℤ) (n : ℕ)
      → counter_of m k ≡ pos n
      → n + 1 < 2 ^ 63
      → counter_of (next p m) k ≡ pos (n + step p)
  counter_of-next p m n start small =
      let j = key p.namespace p.name in
      elim (Bool-cases (is_orphan known p)) [
        | inr e ↦ rw (e, start) (ground arith)
        | inl e ↦
            rw (e, counter_of-put m j (wrap64 (counter_of m j +ℤ pos 1)) k)
              (ground (arith, eq_iff j k, counter_of-same m j k, start, wrap64-suc n small))
      ]

  count_orphans-count :
      (pods : List Pod) (m : Dict ℤ) (n : ℕ)
      → counter_of m k ≡ pos n
      → n + length pods < 2 ^ 62
      → counter_of (count_orphans known pods m) k ≡ pos (n + count (orphan_at known k) pods)
  unfolding count_orphans
  count_orphans-count [] m n start small = rw start (ground arith)
  count_orphans-count (p ∷ pods) m n start small =
      rw
        (count_orphans-count pods (next p m) (n + step p)
          (counter_of-next p m n start (omega arith)) (ground arith))
        (ground arith)

-- If both listers answer, the counter of a key grows by the number of the pods of this key that name a
-- resource which the lister does not know, as long as it stays below 2^62.
counter_of-update_counters :
    (services : List (String × String)) (pods : List Pod) (k : String) (m : Dict ℤ) (n : ℕ)
    → counter_of m k ≡ pos n
    → n + length pods < 2 ^ 62
    → counter_of (update_counters (ok services) (ok pods) m) k
      ≡ pos (n + count (orphan_at (map (λ s. key s.0 s.1) services) k) pods)
unfolding update_counters
counter_of-update_counters services pods k m n start small =
    count_orphans-count (map (λ s. key s.0 s.1) services) k pods m n start small

module _ {S : Type 0} (client : KubeClient S)
    (get_pod : String → String → World S → Outcome (Option Pod)) (miss : ℤ) where
  clean_keys-below :
      (m : Dict ℤ) (w : World S)
      → All (λ e. ltb_ℤ e.1 miss ≡ true) m
      → clean_keys client get_pod miss m w ≡ (ok [], w)
  unfolding clean_keys ◌>>=◌ clean_key
  clean_keys-below [] w h = refl
  clean_keys-below ((k, n) ∷ m) w h = rw (h.0, clean_keys-below m w h.1) refl

  -- As long as every counter lies below the limit, a cleaning writes to no pod and keeps the counters.
  clean_pods-below :
      (m : Dict ℤ) (w : World S)
      → All (λ e. ltb_ℤ e.1 miss ≡ true) m
      → clean_pods client get_pod miss m w ≡ (ok m, w)
  unfolding clean_pods ◌>>=◌ delete_keys
  clean_pods-below m w h = rw (clean_keys-below m w h) refl

  -- If the counter of a key reached the limit, and the namespace and the name in it have no slash, then
  -- the labels are removed from the pod that the lister knows under them; if the server accepts that,
  -- the key is marked for deletion.
  pub clean_key-due :
      (namespace name : String) (count : ℤ) (p q : Pod) (w w' : World S)
      → HasNoSlash namespace
      → HasNoSlash name
      → ltb_ℤ count miss ≡ false
      → get_pod namespace name w ≡ ok (some p)
      → remove_breaker_annotation_and_label client p w ≡ (ok q, w')
      → clean_key client get_pod miss (key namespace name) count w ≡ (ok true, w')
  unfolding clean_key
  clean_key-due namespace name count p q w w' h k due known accepted =
      rw (due, split-key namespace name h k, known, accepted) refl
