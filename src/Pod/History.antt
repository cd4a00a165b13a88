-- ===== src/Pod/History.antt =====
-- The retry count over the life of a pod: a history of the writes of pkg/pod/control.go.
use kubervisor.Prelude.{ℕ, suc, ◌^◌, ◌<◌, ◌≡◌, arith, none, String, ok, ◌∙◌, ap, inl, inr}
use kubervisor.Prelude.Int.{ℤ, pos}
use kubervisor.Kube.{Pod, TimeText}
use kubervisor.Labeling.{get_retry_count, annotation_retry_count_key}
use kubervisor.Pod.Requests.{
  init_request, break_request, activation_request, pause_request, remove_request,
}
use kubervisor.Pod.RequestLaws.{
  annotation, retry_count_none, get_retry_count-request, get_retry_count-break,
}
use kubervisor.Pod.RelabelLaws.{remove_request_keeps}

-- `History p n`: the pod `p` was written `n` times by a cut since its annotations were last removed,
-- or since it was new. A cut and every other write may come at any time.
pub data History (time : TimeText) : Pod → ℕ → Type 0 where
  unmarked : (p : Pod) → annotation p annotation_retry_count_key ≡ none → History time p 0
  initialised :
      (config : String) {p q : Pod} {n : ℕ}
      → History time p n
      → init_request config p ≡ ok q
      → History time q n
  cut :
      (now : ℤ) (config strategy : String) {p q : Pod} {n : ℕ}
      → History time p n
      → break_request time now config strategy p ≡ ok q
      → History time q (suc n)
  activated :
      {p q : Pod} {n : ℕ} → History time p n → activation_request p ≡ ok q → History time q n
  paused : {p q : Pod} {n : ℕ} → History time p n → pause_request p ≡ ok q → History time q n
  removed : {p : Pod} {n : ℕ} → History time p n → History time (remove_request p) 0

module _ {time : TimeText} where
  -- The retry count that the program reads is the number of cuts in the history of the pod.
  pub History-retry_count :
      {p : Pod} {n : ℕ} → History time p n → n < 2 ^ 63 → get_retry_count p ≡ ok (pos n)
  History-retry_count (unmarked p e) h = retry_count_none p e
  History-retry_count (initialised config {p = p} {q = q} hist e) h =
      get_retry_count-request config p q (inl e) ∙ History-retry_count hist h
  History-retry_count (cut now config strategy {p = p} {q = q} {n = n} hist e) h =
      get_retry_count-break time now config strategy p q n (History-retry_count hist (omega arith))
        (omega arith) e
      ∙ ap (λ (k : ℕ). ok (pos k)) (omega arith)
  History-retry_count (activated {p = p} {q = q} hist e) h =
      get_retry_count-request "" p q (inr (inl e)) ∙ History-retry_count hist h
  History-retry_count (paused {p = p} {q = q} hist e) h =
      get_retry_count-request "" p q (inr (inr e)) ∙ History-retry_count hist h
  History-retry_count (removed {p = p} hist) h =
      retry_count_none (remove_request p) ((remove_request_keeps p).1 annotation_retry_count_key)
