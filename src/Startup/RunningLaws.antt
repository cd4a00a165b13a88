-- ===== src/Startup/RunningLaws.antt =====
-- What Run started, whenever it returns: how many workers, and whether with the lease.
use kubervisor.Prelude.{
  ℕ, zero, suc, ◌≡◌, ◌⊎◌, inl, inr, refl, sym, arith, Bool, true, false, Option, none, some, List,
  [], ◌++◌, ok, Error, count,
}
use kubervisor.Prelude.Int.{ℤ, pos, ltb_ℤ}
use kubervisor.Election.Attempt.{Lock, new_leader_elector, is_leader, run_error}
use kubervisor.Election.Loops.{Client, acquire, renew_with_stop}
use kubervisor.Election.LoopLaws.{acquire_leads}
use kubervisor.Startup.{EndpointsLock}
use kubervisor.Startup.Running.{
  Part, kube_informers, breaker_informers, http_server, collector, worker, workers, run_workers,
  always_started, election_config, after_renewals, lead, after_acquire, elect, start_election, run,
}

abbrev pub is_worker : Part → Bool
is_worker kube_informers = false
is_worker breaker_informers = false
is_worker http_server = false
is_worker collector = false
is_worker worker = true

count-workers : (n : ℕ) → count is_worker (workers n) ≡ n
count-workers zero = refl
count-workers (suc n) = omega (arith, count-workers n)

-- The durations of the program pass the test of the election.
election_config-accepted :
    (jittered : ℤ → ℤ)
    → jittered (pos 3000000000) ≡ pos 3600000000
    → new_leader_elector jittered true election_config ≡ ok tt
unfolding new_leader_elector ltb_ℤ
election_config-accepted jittered h = rw (h, new_leader_elector)

module _ {S : Type 0} (lock : Lock S) (clock : S → ℤ) (jittered : ℤ → ℤ) (stopped : S → Bool)
    (pause : S → S) (pod_synced : S → Bool) (tries fuel nb_worker : ℕ) where
  -- The client when the workers start: it is the leader, or the program is to stop, and the cache of
  -- pods is filled.
  pub record IsStarted (c leading : Client S) : Type 0 where
    pub acquired : acquire lock clock election_config stopped pause fuel c ≡ some leading
    pub entitled : (stopped leading.state ≡ true) ⊎ (is_leader lock.identity leading.elector ≡ true)
    pub synced : pod_synced leading.state ≡ true

  -- What the end of the renewals shows of the start.
  ended :
      (synced : Bool) (o : Option (Client S)) (e : Option Error) (parts : List Part)
      → after_renewals lock clock jittered stopped pause pod_synced tries fuel nb_worker synced o
        ≡ some (e, parts)
      → (e ≡ none)
        × ((count is_worker parts ≡ 0) ⊎ ((count is_worker parts ≡ nb_worker) × (synced ≡ true)))
  unfolding after_renewals run_workers run_error
  ended synced none e parts h = absurd (ground (arith, h))
  ended true (some over) e parts h =
      let same : ◌≡◌ {A = Option Error × List Part} (none, always_started ++ workers nb_worker)
          (e, parts) =
        cc in
      let listed : always_started ++ workers nb_worker ≡ parts = λ i. (same i).1 in
      (sym (λ i. (same i).0), inr (rw (← listed) (count-workers nb_worker), refl))
  ended false (some over) e parts h =
      let same : ◌≡◌ {A = Option Error × List Part} (none, always_started ++ []) (e, parts) = cc in
      let listed : always_started ++ [] ≡ parts = λ i. (same i).1 in
      (sym (λ i. (same i).0), inl (rw (← listed) refl))

  elect_starts :
      (c : Client S) (o : Option (Client S)) (e : Option Error) (parts : List Part)
      → acquire lock clock election_config stopped pause fuel c ≡ o
      → after_acquire lock clock jittered stopped pause pod_synced tries fuel nb_worker o
        ≡ some (e, parts)
      → (e ≡ none)
        × ((count is_worker parts ≡ 0)
            ⊎ ((leading : Client S) × (count is_worker parts ≡ nb_worker) × IsStarted c leading))
  unfolding after_acquire lead
  elect_starts c none e parts got h = absurd (ground (arith, got, h))
  elect_starts c (some leading) e parts got h =
      let (no_error, started) =
        ended (pod_synced leading.state)
          (renew_with_stop lock clock election_config stopped pause tries fuel leading) e parts h in
      (
        no_error,
        elim started [
          | inl nobody ↦ inl nobody
          | inr (all, synced) ↦ inr (
            leading,
            all,
            record {
              acquired = got;
              entitled = acquire_leads lock clock election_config stopped pause fuel c leading got;
              synced = synced;
            },
          )
        ],
      )

  -- With a lock, whenever Run returns, it returns no error, not even if the cache of pods was never
  -- filled; and it started no worker, or all of them, at a moment when the client saw itself as the
  -- leader or the channel was closed, and when the cache of pods was filled. A period of three seconds
  -- is stretched to 3.6 by the factor of the election.
  run_elects :
      (l : EndpointsLock) (c : Client S) (e : Option Error) (parts : List Part)
      → jittered (pos 3000000000) ≡ pos 3600000000
      → run lock clock jittered stopped pause pod_synced tries fuel nb_worker (some l) c
        ≡ some (e, parts)
      → (e ≡ none)
        × ((count is_worker parts ≡ 0)
            ⊎ ((leading : Client S) × (count is_worker parts ≡ nb_worker) × IsStarted c leading))
  unfolding run start_election elect
  run_elects l c e parts stretched h =
      elect_starts c _ e parts refl (rw (election_config-accepted jittered stretched) at h)
