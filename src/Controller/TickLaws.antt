-- ===== src/Controller/TickLaws.antt =====
-- The counters of the collector stay below its limit.
use kubervisor.Prelude.{
  ◌≡◌, refl, true, false, not, Option, some, List, [], ◌∷◌, String, Outcome, ok, All, Bool-cases,
  inl, inr,
}
use kubervisor.Prelude.Int.{ℤ, ltb_ℤ}
use kubervisor.Prelude.Dict.{Dict}
use kubervisor.Kube.{Pod, KubeClient}
use kubervisor.Kube.Exec.{◌>>=◌}
use kubervisor.Pod.Control.{World, remove_breaker_annotation_and_label}
use kubervisor.Controller.Collector.{
  update_counters, delete_keys, clean_key, clean_keys, clean_pods,
}
use kubervisor.Controller.CollectorLaws.{clean_key-due}
use kubervisor.Controller.Ticks.{Tick, tick, run}
use kubervisor.Controller.TickCounters.{
  IsKey, AreNamed, due, delete_keys-below, due-Settled, delete_keys-All, update_counters-All,
}

module _ {S : Type 0} (client : KubeClient S)
    (get_pod : String → String → World S → Outcome (Option Pod)) (miss : ℤ) where
  -- As long as the cluster is `Healthy`, the lister has the pods of which `Known` holds, and the server
  -- accepts their cleaning, after which the cluster is healthy still.
  pub record IsAnswering (Known : String → String → Type 0) (Healthy : World S → Type 0)
      : Type 0 where
    pub cleans :
        (namespace name : String) (w : World S)
        → Known namespace name
        → Healthy w
        → (p : Pod) × (q : Pod) × (w' : World S) × (get_pod namespace name w ≡ ok (some p))
          × (remove_breaker_annotation_and_label client p w ≡ (ok q, w'))
          × Healthy w'

  module _ (Known : String → String → Type 0) (Healthy : World S → Type 0)
      (answers : IsAnswering Known Healthy) where
    clean_key-below :
        (k : String) (n : ℤ) (w : World S)
        → ltb_ℤ n miss ≡ true
        → clean_key client get_pod miss k n w ≡ (ok false, w)
    unfolding clean_key
    clean_key-below k n w e = rw e refl

    clean_key-key :
        (k : String) (n : ℤ) (w : World S)
        → IsKey Known k
        → Healthy w
        → (w' : World S) × (clean_key client get_pod miss k n w ≡ (ok (not (ltb_ℤ n miss)), w'))
          × Healthy w'
    clean_key-key k n w h ok_now = elim (Bool-cases (ltb_ℤ n miss)) [
      | inl e ↦ (w, rw e (clean_key-below k n w e), ok_now)
      | inr e ↦
          let (p, q, w', known, accepted, ok_then) =
            answers.cleans h.namespace h.name w h.known ok_now in
          (
            w',
            rw (e, h.joined)
                (clean_key-due client get_pod miss h.namespace h.name n p q w w' h.plain_namespace
                  h.plain_name e known accepted),
            ok_then,
          )
    ]

    clean_keys-due :
        (m : Dict ℤ) (w : World S)
        → All (λ e. IsKey Known e.0) m
        → Healthy w
        → (w' : World S) × (clean_keys client get_pod miss m w ≡ (ok (due miss m), w')) × Healthy w'
    unfolding clean_keys ◌>>=◌ due
    clean_keys-due [] w h ok_now = (w, refl, ok_now)
    clean_keys-due ((k, n) ∷ m) w h ok_now =
        let (w₁, one, ok₁) = clean_key-key k n w h.0 ok_now in
        let (w₂, rest, ok₂) = clean_keys-due m w₁ h.1 ok₁ in (w₂, rw (one, rest) refl, ok₂)

    clean_pods-lowers :
        (m : Dict ℤ) (w : World S)
        → All (λ e. IsKey Known e.0) m
        → Healthy w
        → (w' : World S) × (clean_pods client get_pod miss m w
            ≡ (ok (delete_keys (due miss m) m), w'))
          × Healthy w'
    unfolding clean_pods ◌>>=◌
    clean_pods-lowers m w h ok_now =
        let (w', cleaned, ok_then) = clean_keys-due m w h ok_now in (w', rw cleaned refl, ok_then)

    -- A tick leaves every counter below the limit, and every key well formed.
    tick-below :
        (t : Tick) (m : Dict ℤ) (w : World S)
        → AreNamed Known t.pods
        → All (λ e. IsKey Known e.0) m
        → Healthy w
        → (m' : Dict ℤ) × (w' : World S) × (tick client get_pod miss t m w ≡ (ok m', w'))
          × Healthy w'
          × All (λ e. ltb_ℤ e.1 miss ≡ true) m'
          × All (λ e. IsKey Known e.0) m'
    unfolding tick
    tick-below t m w named h ok_now =
        let counted = update_counters t.services t.pods m in
        let keyed = update_counters-All Known t.services t.pods m named h in
        let (w', cleaned, ok_then) = clean_pods-lowers counted w keyed ok_now in
        (
          delete_keys (due miss counted) counted,
          w',
          cleaned,
          ok_then,
          delete_keys-below miss (due miss counted) counted (due-Settled miss counted),
          delete_keys-All (IsKey Known) (due miss counted) counted keyed,
        )

    ticks-below :
        (ticks : List Tick) (m : Dict ℤ) (w : World S)
        → All (λ t. AreNamed Known t.pods) ticks
        → All (λ e. ltb_ℤ e.1 miss ≡ true) m
        → All (λ e. IsKey Known e.0) m
        → Healthy w
        → (m' : Dict ℤ) × (w' : World S) × (run client get_pod miss ticks m w ≡ (ok m', w'))
          × Healthy w'
          × All (λ e. ltb_ℤ e.1 miss ≡ true) m'
    unfolding run ◌>>=◌
    ticks-below [] m w named low keyed ok_now = (m, w, refl, ok_now, low)
    ticks-below (t ∷ ticks) m w named low keyed ok_now =
        let (m₁, w₁, ticked, ok₁, low₁, keyed₁) = tick-below t m w named.0 keyed ok_now in
        let (m₂, w₂, ran, ok₂, low₂) = ticks-below ticks m₁ w₁ named.1 low₁ keyed₁ ok₁ in
        (m₂, w₂, rw (ticked, ran) refl, ok₂, low₂)

    -- If the pods of the ticks stay in the cluster, so that the lister has each of them at every
    -- cleaning and the server accepts that they are cleaned, and their namespaces and names have no
    -- slash, then after any ticks, also with listers that fail to list, the loop goes on, and every
    -- counter of a collector, which starts without counters, lies below the limit.
    pub run-below :
        (ticks : List Tick) (w : World S)
        → All (λ t. AreNamed Known t.pods) ticks
        → Healthy w
        → (m' : Dict ℤ) × (w' : World S) × (run client get_pod miss ticks [] w ≡ (ok m', w'))
          × Healthy w'
          × All (λ e. ltb_ℤ e.1 miss ≡ true) m'
    run-below ticks w named = ticks-below ticks [] w named tt tt
