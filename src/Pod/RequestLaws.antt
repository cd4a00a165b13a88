-- ===== src/Pod/RequestLaws.antt =====
-- What a cut of pkg/pod/control.go writes on a pod, and that no request panics.
use kubervisor.Prelude.{
  ℕ, ◌+◌, ◌^◌, ◌*◌, ◌/◌, ◌<◌, ◌≡◌, ◌≢◌, ◌⊎◌, refl, arith, Option, none, some, String, ok, panic,
  ok-injective, false, Option-cases, inl, inr, sym, ◌>>=◌, str_eq, if◌then◌else◌, ◌∙◌, ap,
}
use kubervisor.Prelude.Int.{ℤ, pos, ◌+ℤ◌, wrap64, wrap64-suc}
use kubervisor.Prelude.Dict
use kubervisor.Prelude.Dict.{Dict}
use kubervisor.Prelude.Decimal.{itoa, atoi-itoa, atoi_ne_panic, IsInt64}
use kubervisor.Kube.{Pod, TimeText, read}
use kubervisor.Labeling.{
  label_traffic_key, label_breaker_name_key, label_breaker_strategy_key, annotation_break_at_key,
  annotation_retry_count_key, get_retry_count, get_break_at, is_pod_traffic_label_ok_or_pause,
  to_label_traffic, or_empty, LabelTraffic, label_traffic_yes, label_traffic_no,
  label_traffic_pause, text_of, is_yes, is_pause,
}
use kubervisor.Pod.Requests.{init_request, break_request, activation_request, pause_request}

-- The label and the annotation of a pod under a key.
abbrev pub label : Pod → String → Option String
label p k = read p.labels k

abbrev pub annotation : Pod → String → Option String
annotation p k = read p.annotations k

pub get-or_empty : (o : Option (Dict String)) (k : String) → Dict.get (or_empty o) k ≡ read o k
unfolding read Dict.get
get-or_empty none k = refl
get-or_empty (some m) k = refl

pub read-or_empty : (o : Option (Dict String)) (k : String) → read (some (or_empty o)) k ≡ read o k
unfolding read
read-or_empty o k = get-or_empty o k

-- The count is read from the annotations alone, and a missing map reads like an empty one.
get_retry_count-default :
    (p : Pod) (labels : Option (Dict String))
    → get_retry_count (record p { labels = labels; annotations = some (or_empty p.annotations) })
      ≡ get_retry_count p
unfolding get_retry_count
get_retry_count-default p labels = rw (read-or_empty, get_retry_count)

-- The pod that is cut, over the count that was read from it.
abbrev broken : TimeText → ℤ → String → String → ℤ → Pod → Pod
broken time now config strategy r p = record p {
  labels = some (
      Dict.put
        (Dict.put (Dict.put (or_empty p.labels) label_breaker_name_key config)
          label_breaker_strategy_key strategy)
        label_traffic_key "no");
  annotations = some (
      Dict.put (Dict.put (or_empty p.annotations) annotation_break_at_key (time.format now))
        annotation_retry_count_key (itoa (wrap64 (r +ℤ pos 1))));
}

break_request-bind :
    (time : TimeText) (now : ℤ) (config strategy : String) (p : Pod)
    → break_request time now config strategy p
      ≡ (get_retry_count p >>= λ r. ok (broken time now config strategy r p))
unfolding break_request
break_request-bind time now config strategy p = rw (get_retry_count-default p)

break_request-ok :
    (time : TimeText) (now : ℤ) (config strategy : String) (p : Pod) (r : ℤ)
    → get_retry_count p ≡ ok r
    → break_request time now config strategy p ≡ ok (broken time now config strategy r p)
break_request-ok time now config strategy p r h =
    break_request-bind time now config strategy p ∙ rw h

module _ (time : TimeText) (now : ℤ) (config strategy : String) (r : ℤ) (p : Pod) where
  label-broken :
      (k : String)
      → label (broken time now config strategy r p) k ≡ (
          if str_eq label_traffic_key k
          then some "no"
          else if str_eq label_breaker_strategy_key k
          then some strategy
          else if str_eq label_breaker_name_key k
          then some config
          else label p k)
  unfolding read
  label-broken k = simp (Dict.get-put, get-or_empty)

  annotation-broken :
      (k : String)
      → annotation (broken time now config strategy r p) k ≡ (
          if str_eq annotation_retry_count_key k
          then some (itoa (wrap64 (r +ℤ pos 1)))
          else if str_eq annotation_break_at_key k
          then some (time.format now)
          else annotation p k)
  unfolding read
  annotation-broken k = simp (Dict.get-put, get-or_empty)

-- What it means that `q` is the pod `p` after a cut at the time `now`.
pub record IsBroken (time : TimeText) (now : ℕ) (config strategy : String) (r : ℕ) (p q : Pod)
    : Type 0 where
  pub out_of_traffic : is_pod_traffic_label_ok_or_pause q ≡ (false, false, none)
  pub counted : get_retry_count q ≡ ok (pos (r + 1))
  pub stamped : get_break_at time q ≡ ok (pos (now / 1000000000 * 1000000000))
  pub labels :
      (k : String)
      → label q k ≡ (
          if str_eq label_traffic_key k
          then some "no"
          else if str_eq label_breaker_strategy_key k
          then some strategy
          else if str_eq label_breaker_name_key k
          then some config
          else label p k)
  pub annotations :
      (k : String)
      → annotation q k ≡ (
          if str_eq annotation_retry_count_key k
          then some (itoa (wrap64 (pos r +ℤ pos 1)))
          else if str_eq annotation_break_at_key k
          then some (time.format (pos now))
          else annotation p k)

pub traffic_of :
    (q : Pod) (l : LabelTraffic)
    → label q label_traffic_key ≡ some (text_of l)
    → is_pod_traffic_label_ok_or_pause q ≡ (is_yes l, is_pause l, none)
unfolding is_pod_traffic_label_ok_or_pause to_label_traffic
traffic_of q label_traffic_yes h = rw (h, is_pod_traffic_label_ok_or_pause)
traffic_of q label_traffic_no h = rw (h, is_pod_traffic_label_ok_or_pause)
traffic_of q label_traffic_pause h = rw (h, is_pod_traffic_label_ok_or_pause)

retry_count_of :
    (q : Pod) (z : ℤ)
    → IsInt64 z
    → annotation q annotation_retry_count_key ≡ some (itoa z)
    → get_retry_count q ≡ ok z
unfolding get_retry_count
retry_count_of q z h e = rw (e, get_retry_count) (atoi-itoa z h)

break_at_of :
    (time : TimeText) (q : Pod) (t : ℕ)
    → t < 253402300800000000000
    → annotation q annotation_break_at_key ≡ some (time.format (pos t))
    → get_break_at time q ≡ ok (pos (t / 1000000000 * 1000000000))
unfolding get_break_at
break_at_of time q t h e = rw (e, get_break_at) (time.parse-format t h)

-- A cut that succeeds counts one more.
pub get_retry_count-break :
    (time : TimeText) (now : ℤ) (config strategy : String) (p q : Pod) (r : ℕ)
    → get_retry_count p ≡ ok (pos r)
    → r + 1 < 2 ^ 63
    → break_request time now config strategy p ≡ ok q
    → get_retry_count q ≡ ok (pos (r + 1))
get_retry_count-break time now config strategy p q r h small e =
    retry_count_of q (pos (r + 1)) small (
      rw (← ok-injective (sym (break_request-ok time now config strategy p (pos r) h) ∙ e)) (
        annotation-broken time now config strategy (pos r) p annotation_retry_count_key
        ∙ ap (λ (z : ℤ). some (itoa z)) (wrap64-suc r small)))

-- The labels after a cut that succeeds.
pub label-break :
    (time : TimeText) (now : ℤ) (config strategy : String) (p q : Pod) (r : ℤ)
    → get_retry_count p ≡ ok r
    → break_request time now config strategy p ≡ ok q
    → (k : String)
    → label q k ≡ (
        if str_eq label_traffic_key k
        then some "no"
        else if str_eq label_breaker_strategy_key k
        then some strategy
        else if str_eq label_breaker_name_key k
        then some config
        else label p k)
label-break time now config strategy p q r h e k =
    rw (← ok-injective (sym (break_request-ok time now config strategy p r h) ∙ e))
      (label-broken time now config strategy r p k)

-- A pod whose retry count can be read, and is not the largest `int`, is cut as `IsBroken` says: out
-- of traffic, with the count one higher and the time of the cut in whole seconds, both in a form
-- that reads back, and with every other label and annotation as before. The time is one that RFC
-- 3339 can express.
pub break_request-IsBroken :
    (time : TimeText) (now : ℕ) (config strategy : String) (p : Pod) (r : ℕ)
    → get_retry_count p ≡ ok (pos r)
    → r + 1 < 2 ^ 63
    → now < 253402300800000000000
    → (q : Pod) × (break_request time (pos now) config strategy p ≡ ok q)
      × IsBroken time now config strategy r p q
break_request-IsBroken time now config strategy p r h small early = (
  broken time (pos now) config strategy (pos r) p,
  break_request-ok time (pos now) config strategy p (pos r) h,
  record {
    out_of_traffic =
        traffic_of q label_traffic_no
          (label-broken time (pos now) config strategy (pos r) p label_traffic_key);
    counted = retry_count_of q (pos (r + 1)) small (
        annotation-broken time (pos now) config strategy (pos r) p annotation_retry_count_key
        ∙ ap (λ (z : ℤ). some (itoa z)) (wrap64-suc r small));
    stamped =
        break_at_of time q now early
          (annotation-broken time (pos now) config strategy (pos r) p annotation_break_at_key);
    labels = label-broken time (pos now) config strategy (pos r) p;
    annotations = annotation-broken time (pos now) config strategy (pos r) p;
  },
)
  where
    q : Pod
    q = broken time (pos now) config strategy (pos r) p

pub retry_count_none :
    (q : Pod) → annotation q annotation_retry_count_key ≡ none → get_retry_count q ≡ ok (pos 0)
unfolding get_retry_count
retry_count_none q e = rw (e, get_retry_count)

-- Only a cut and a removal change the retry count.
pub get_retry_count-request :
    (config : String) (p q : Pod)
    → (init_request config p ≡ ok q) ⊎ (activation_request p ≡ ok q) ⊎ (pause_request p ≡ ok q)
    → get_retry_count q ≡ get_retry_count p
unfolding init_request activation_request pause_request
get_retry_count-request config p q (inl e) = rw (← ok-injective e) (get_retry_count-default p _)
get_retry_count-request config p q (inr (inl e)) =
    rw (← ok-injective e) (get_retry_count-default p _)
get_retry_count-request config p q (inr (inr e)) =
    rw (← ok-injective e) (get_retry_count-default p _)

pub get_retry_count_ne_panic : (p : Pod) → get_retry_count p ≢ panic
unfolding get_retry_count
get_retry_count_ne_panic p h = elim (Option-cases (read p.annotations annotation_retry_count_key)) [
  | inl e ↦ cc (rw (e, get_retry_count) at h)
  | inr (s, e) ↦ atoi_ne_panic s (rw (e, get_retry_count) at h)
]

break_request-ne_panic :
    (time : TimeText) (now : ℤ) (config strategy : String) (p : Pod)
    → break_request time now config strategy p ≢ panic
break_request-ne_panic time now config strategy p h =
    ground (arith, break_request-bind time now config strategy p, get_retry_count_ne_panic p)

-- No request panics: the maps that are written to are never nil.
request_ne_panic :
    (time : TimeText) (now : ℤ) (config strategy : String) (p : Pod)
    → (init_request config p ≢ panic)
      × (break_request time now config strategy p ≢ panic)
      × (activation_request p ≢ panic)
      × (pause_request p ≢ panic)
unfolding init_request activation_request pause_request
request_ne_panic time now config strategy p =
    (ground arith, break_request-ne_panic time now config strategy p, ground arith, ground arith)
