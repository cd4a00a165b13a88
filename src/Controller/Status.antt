-- ===== src/Controller/Status.antt =====
-- pkg/controller/item/types.go, GetStatus: how many pods of a resource are in which state.
use kubervisor.Prelude.{
  ℕ, suc, ◌+◌, ◌-◌, ◌%◌, ◌^◌, ◌≤◌, ◌<◌, ◌≡◌, refl, arith, Bool, not, ◌&&◌, none, List, [], ◌∷◌,
  Outcome, ok, length, count, is_some, if◌then◌else◌, ◌>>=◌,
}
use kubervisor.Kube.{Pod}
use kubervisor.Labeling.{is_pod_traffic_label_ok_or_pause}
use kubervisor.Pod.Tools.{is_ready}
use kubervisor.Pod.FilterLaws.{has_traffic, traffic_error}
use kubervisor.Api.{PodCountStatus}

-- The operators `++` and `--` on a uint32.
abbrev pub increment : ℕ → ℕ
increment n = (n + 1) % 2 ^ 32

abbrev pub decrement : ℕ → ℕ
decrement n = (n + 2 ^ 32 - 1) % 2 ^ 32

abbrev pub is_paused : Pod → Bool
is_paused p = (is_pod_traffic_label_ok_or_pause p).1

-- The `switch` on a ready pod.
unfoldable pub count_ready : Pod → PodCountStatus → PodCountStatus
count_ready p status =
    if is_some (traffic_error p)
    then record status { nb_pods_unknown = increment status.nb_pods_unknown }
    else if is_paused p
    then record status { nb_pods_paused = increment status.nb_pods_paused }
    else if not (has_traffic p)
    then record status { nb_pods_breaked = increment status.nb_pods_breaked }
    else status

-- One round of the loop.
unfoldable pub count_pod : Pod → PodCountStatus → PodCountStatus
unfolding count_ready
count_pod p status =
    if is_ready p
    then count_ready p status
    else record status { nb_pods_managed = decrement status.nb_pods_managed }

-- The loop over the pods.
unfoldable pub count_pods : List Pod → PodCountStatus → PodCountStatus
unfolding count_pod
count_pods [] status = status
count_pods (p ∷ pods) status = count_pods pods (count_pod p status)

unfoldable pub get_status : Outcome (List Pod) → Outcome PodCountStatus
unfolding count_pods
get_status listed = do
  all_pods ← listed
  ok (
      count_pods all_pods (record {
        nb_pods_managed = length all_pods % 2 ^ 32;
        nb_pods_breaked = 0;
        nb_pods_paused = 0;
        nb_pods_unknown = 0;
        last_probe_time = none;
      }))

-- A ready pod whose traffic label is unreadable, or says pause, or takes it out of traffic.
abbrev pub is_unknown : Pod → Bool
is_unknown p = is_ready p && is_some (traffic_error p)

abbrev pub is_in_pause : Pod → Bool
is_in_pause p = is_ready p && (not (is_some (traffic_error p)) && is_paused p)

abbrev pub is_breaked : Pod → Bool
is_breaked p =
    is_ready p && (not (is_some (traffic_error p)) && (not (is_paused p) && not (has_traffic p)))

-- The counts before the loop are so that none of them wraps.
record HasRoom (n : ℕ) (status : PodCountStatus) : Type 0 where
  managed : (n ≤ status.nb_pods_managed) × (status.nb_pods_managed < 2 ^ 32)
  unknown : status.nb_pods_unknown + n < 2 ^ 32
  paused : status.nb_pods_paused + n < 2 ^ 32
  breaked : status.nb_pods_breaked + n < 2 ^ 32

-- The counts `after` are those `before` and what the pods add or take away.
pub record Counted (pods : List Pod) (before after : PodCountStatus) : Type 0 where
  pub managed : after.nb_pods_managed + count (λ p. not (is_ready p)) pods ≡ before.nb_pods_managed
  pub unknown : after.nb_pods_unknown ≡ before.nb_pods_unknown + count is_unknown pods
  pub paused : after.nb_pods_paused ≡ before.nb_pods_paused + count is_in_pause pods
  pub breaked : after.nb_pods_breaked ≡ before.nb_pods_breaked + count is_breaked pods

module _ (p : Pod) (status : PodCountStatus) (n : ℕ) where
  count_pod-Counted : HasRoom (suc n) status → Counted (p ∷ []) status (count_pod p status)
  unfolding count_pod
  count_pod-Counted h = record {
    managed = ground (arith, h.managed);
    unknown = ground (arith, h.unknown);
    paused = ground (arith, h.paused);
    breaked = ground (arith, h.breaked);
  }

HasRoom-next :
    (p : Pod) (n : ℕ) (status : PodCountStatus)
    → HasRoom (suc n) status
    → HasRoom n (count_pod p status)
unfolding count_pod
HasRoom-next p n status h = record {
  managed = (ground (arith, h.managed), ground (arith, h.managed));
  unknown = ground (arith, h.unknown);
  paused = ground (arith, h.paused);
  breaked = ground (arith, h.breaked);
}

count_pods-Counted :
    (pods : List Pod) (status : PodCountStatus)
    → HasRoom (length pods) status
    → Counted pods status (count_pods pods status)
unfolding count_pods
count_pods-Counted [] status h = record {
  managed = omega arith;
  unknown = omega arith;
  paused = omega arith;
  breaked = omega arith;
}
count_pods-Counted (p ∷ pods) status h =
    let c = count_pods-Counted pods (count_pod p status) (HasRoom-next p (length pods) status h) in
    let s = count_pod-Counted p status (length pods) h in
    record {
      managed = ground (arith, c.managed, s.managed);
      unknown = ground (arith, c.unknown, s.unknown);
      paused = ground (arith, c.paused, s.paused);
      breaked = ground (arith, c.breaked, s.breaked);
    }

not_ready-ready :
    (pods : List Pod) → count (λ p. not (is_ready p)) pods + count is_ready pods ≡ length pods
not_ready-ready [] = refl
not_ready-ready (p ∷ pods) = ground (arith, not_ready-ready pods)

parts-le-ready :
    (pods : List Pod)
    → count is_unknown pods + count is_in_pause pods + count is_breaked pods ≤ count is_ready pods
parts-le-ready [] = omega arith
parts-le-ready (p ∷ pods) = ground (arith, parts-le-ready pods)

-- The status before the loop.
abbrev start : List Pod → PodCountStatus
start pods = record {
  nb_pods_managed = length pods % 2 ^ 32;
  nb_pods_breaked = 0;
  nb_pods_paused = 0;
  nb_pods_unknown = 0;
  last_probe_time = none;
}

start-HasRoom : (pods : List Pod) → length pods < 2 ^ 32 → HasRoom (length pods) (start pods)
start-HasRoom pods h = record {
  managed = (omega arith, omega arith);
  unknown = omega arith;
  paused = omega arith;
  breaked = omega arith;
}

-- The status of fewer than 2^32 listed pods has the number of ready pods as managed, and among these
-- the numbers of those whose traffic label is unreadable, or says pause, or takes them out of
-- traffic; so the last three together are at most the first.
pub get_status_lem :
    (pods : List Pod)
    → length pods < 2 ^ 32
    → (s : PodCountStatus) × (get_status (ok pods) ≡ ok s)
      × (s.nb_pods_managed ≡ count is_ready pods)
      × (s.nb_pods_unknown ≡ count is_unknown pods)
      × (s.nb_pods_paused ≡ count is_in_pause pods)
      × (s.nb_pods_breaked ≡ count is_breaked pods)
      × (s.nb_pods_unknown + s.nb_pods_paused + s.nb_pods_breaked ≤ s.nb_pods_managed)
unfolding get_status
get_status_lem pods h =
    let c = count_pods-Counted pods (start pods) (start-HasRoom pods h) in
    (
      count_pods pods (start pods),
      refl,
      omega (arith, c.managed, not_ready-ready pods),
      omega (arith, c.unknown),
      omega (arith, c.paused),
      omega (arith, c.breaked),
      omega (
        arith,
        c.managed,
        c.unknown,
        c.paused,
        c.breaked,
        not_ready-ready pods,
        parts-le-ready pods,
      ),
    )
