-- ===== src/Lifecycle/BudgetLaws.antt =====
-- Between two cleanings no pod is cut more often than its activators allow.
use kubervisor.Prelude.{
  ℕ, ◌+◌, ◌^◌, ◌<◌, ◌≤◌, ◌≡◌, ◌⊎◌, inl, inr, refl, arith, true, false, Option, some, List, String,
  Outcome, ok, err, panic,
}
use kubervisor.Prelude.Int.{ℤ, pos}
use kubervisor.Kube.{Pod, KubeClient, TimeText, SelectorOps}
use kubervisor.Kube.Exec.{Exec}
use kubervisor.Kube.Ensures.{Ensures-after, Ensures-always, Ensures-lifted}
use kubervisor.Labeling.{get_retry_count}
use kubervisor.Pod.FilterLaws.{has_traffic}
use kubervisor.Pod.ControlLaws.{cluster-update_counted}
use kubervisor.Pod.Requests.{break_request, init_request, remove_request}
use kubervisor.Pod.Control.{
  World, update_plain, init_breaker_annotation_and_label, update_breaker_annotation_and_label,
  remove_breaker_annotation_and_label,
}
use kubervisor.Api.{FloatOps}
use kubervisor.Lifecycle.{IsServer}
use kubervisor.Lifecycle.Budget.{rests, IsWithin, IsWithin-break, IsWithin-init, IsWithin-remove}
use kubervisor.Lifecycle.Visits.{Sound, InBudget, apply_activator_strategy-Visits}
use kubervisor.Lifecycle.Steps.{Turn, cut, visit, initialise, clean, elsewhere, Reach, here, next}

module _ {F L R S : Type 0} (floats : FloatOps F) (ops : SelectorOps L R) (client : KubeClient S)
    (clock : S → ℤ) (time : TimeText) (lister : L → Exec (World S) (List Pod))
    (stored : S → Option Pod) (server : IsServer client stored)
    (reads : (l : L) (w : World S) → stored (lister l w).1.cluster ≡ stored w.cluster) (m : ℕ)
    (small : m + 1 < 2 ^ 63) where
  plain-Sound :
      (n : ℕ) (q : Pod) (w : World S)
      → Sound server m n w
      → IsWithin m n q
      → Sound server m n (update_plain client q w).1
  unfolding update_plain
  plain-Sound n q w h within = elim (server.updated q w.cluster) [
    | inl e ↦ rw e h
    | inr e ↦ rw e within
  ]

  Turn-Sound :
      {w v : World S} {k l : ℕ}
      → Turn floats ops client clock time lister stored m w k v l
      → Sound server m k w
      → Sound server m l v
  unfolding init_breaker_annotation_and_label
  Turn-Sound (cut config strategy p q w n e serving sent taken) h =
      rw taken (
        IsWithin-break m n p q (rw e at h) time (clock w.cluster) config strategy small serving
          sent)
  Turn-Sound (visit b p w n budgeted e) h =
      Ensures-after
        (apply_activator_strategy-Visits floats ops clock time lister server reads m n b budgeted p
          (rw e at h))
        w e
  Turn-Sound (initialise config p w n e fresh) h =
      let within : IsWithin m n p = rw e at h in
      Ensures-after
        (Ensures-lifted {P = λ v. stored v.cluster ≡ some p} {R = λ _. Sound server m n}
          (init_request config p) (update_plain client) (λ v held. rw held within)
          (λ q sent. Ensures-always (λ v held.
            plain-Sound n q v (rw held within) (IsWithin-init m n p q within config fresh sent))))
        w e
  Turn-Sound (clean p w n e taken) h = rw taken (IsWithin-remove m p)
  Turn-Sound (elsewhere w v n e) h = rw e h

  Reach-Sound :
      {w : World S} {k l : ℕ} {v : World S}
      → Sound server m k w
      → Reach floats ops client clock time lister stored m w k v l
      → Sound server m l v
  Reach-Sound h here = h
  Reach-Sound h (next r step) = Turn-Sound step (Reach-Sound h r)

  resting : (q : Pod) → rests q ≡ true → has_traffic q ≡ false
  resting q r = ground arith

  -- If the breakers cut only pods in traffic, every activator gives up after `m` cuts at most, the
  -- listers only read, the server stores a write on the pod as it was sent or refuses it, and `m +
  -- 1` is an `int`, then, in whatever order breakers, activators and the controller write on a pod
  -- that started within this budget with the count `start`, the retry count of the pod is the
  -- number `k` of the cuts that the server stored since the pod was last cleaned, or, if it was not
  -- cleaned, `start` more than those stored since the start; `k` is `m + 1` at most, and it is `m`
  -- at most unless the pod gets no traffic. A cleaning starts the count again, so nothing is said
  -- of the cuts before it.
  pub retry_budget :
      (w v : World S) (q : Pod) (start k : ℕ)
      → InBudget m start (stored w.cluster)
      → Reach floats ops client clock time lister stored m w start v k
      → stored v.cluster ≡ some q
      → (get_retry_count q ≡ ok (pos k)) × (k ≤ m + 1) × ((k ≤ m) ⊎ (has_traffic q ≡ false))
  retry_budget w v q start k h steps e =
      let within : IsWithin m k q = rw e at (Reach-Sound h steps) in
      (
        within.counted,
        within.bounded,
        elim within.rested [ inl few ↦ inl few | inr r ↦ inr (resting q r) ],
      )

  -- A call of the breaker on a pod in traffic is a step, whatever becomes of it.
  cut-Turn :
      (config strategy : String) (p : Pod) (w : World S) (n : ℕ)
      → stored w.cluster ≡ some p
      → has_traffic p ≡ true
      → (k : ℕ) × Turn floats ops client clock time lister stored m w n
          (update_breaker_annotation_and_label client time clock config strategy p w).1
          k
  unfolding update_breaker_annotation_and_label
  cut-Turn config strategy p w n e serving =
      go (break_request time (clock w.cluster) config strategy p) refl
    where
      go :
          (r : Outcome Pod)
          → break_request time (clock w.cluster) config strategy p ≡ r
          → (k : ℕ) × Turn floats ops client clock time lister stored m w n
              (update_breaker_annotation_and_label client time clock config strategy p w).1
              k
      go (ok q) sent = elim (server.updated q w.cluster) [
        | inl kept ↦
            (n, elsewhere w _ n (rw (sent, cluster-update_counted client config q w "break") kept))
        | inr taken ↦ (
          n + 1,
          cut config strategy p q w n e serving sent
              (rw (sent, cluster-update_counted client config q w "break") taken),
        )
      ]
      go (err x) sent = (n, elsewhere w _ n (rw sent refl))
      go panic sent = (n, elsewhere w _ n (rw sent refl))

  -- So is a call of the cleaning.
  clean-Turn :
      (p : Pod) (w : World S) (n : ℕ)
      → stored w.cluster ≡ some p
      → (k : ℕ) × Turn floats ops client clock time lister stored m w n
          (remove_breaker_annotation_and_label client p w).1
          k
  unfolding remove_breaker_annotation_and_label update_plain
  clean-Turn p w n e = elim (server.updated (remove_request p) w.cluster) [
    | inl kept ↦ (n, elsewhere w _ n kept)
    | inr taken ↦ (0, clean p w n e taken)
  ]
