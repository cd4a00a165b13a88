-- ===== src/Controller/ContractLaws.antt =====
-- syncKubervisorService does what it promises.
use kubervisor.Prelude.{
  ℕ, ◌≡◌, ◌≢◌, refl, sym, subst, ap, ◌∙◌, arith, eq_iff, Bool, true, false, is_some, Option, none,
  some, String, str_eq, Outcome, ok, err, panic, Error, Bool-cases, inl, inr,
}
use mathlib.Core.Path.{fun_ext}
use kubervisor.Kube.Exec.{◌>>=◌}
use kubervisor.Kube.Ensures.{Ensures, Ensures-gets, Ensures-bind, Ensures-split, Ensures-after}
use kubervisor.Api.{KubervisorService}
use kubervisor.Election.Attempt.{is_not_found}
use kubervisor.Controller.Store.{Handle, Ctrl, key_of, get_key}
use kubervisor.Controller.Env.{Service, Env}
use kubervisor.Controller.Reconcile.{
  with_service, init_start_time, sync_started, sync_kubervisor_service,
}
use kubervisor.Controller.StoreRules.{View, send-Ensures}
use kubervisor.Controller.Tracking.{StoreLaws, AllRun}
use kubervisor.Controller.TrackingLaws.{
  sync_leaves_others, sync_serves, missing_service_lem, sync_kubervisor_service-Kept,
}
use kubervisor.Controller.Contract.{
  is_stored, is_running, served, set_served, Promise, waits, serves, withdraws, fails,
}

module _ {F L R S St D : Type 0} (env : Env F L R S St D) (laws : StoreLaws env.store key_of) where
  served-is_stored :
      (c : Ctrl S St) (k : String)
      → AllRun env.store c.items c.runs c.created
      → served env c k ≡ is_stored (env.store.get_by_key k c.items)
  served-is_stored c k w = go (env.store.get_by_key k c.items) refl
    where
      go :
          (r : Outcome (Option (Handle F L D)))
          → env.store.get_by_key k c.items ≡ r
          → is_running c.runs r ≡ is_stored r
      go (ok none) e = refl
      go (ok (some bci)) e = w.running k bci e
      go (err x) e = refl
      go panic e = refl

  module _ (bc : KubervisorService F) (c : Ctrl S St)
      (w : AllRun env.store c.items c.runs c.created) where
    abbrev after : Ctrl S St
    after = (sync_kubervisor_service env bc c).1

    abbrev own : String
    own = get_key bc.namespace bc.name

    after-AllRun : AllRun env.store after.items after.runs after.created
    after-AllRun = (sync_kubervisor_service-Kept env laws (λ id. Unit) bc c w).tracked

    others_same : (k : String) → own ≢ k → served env after k ≡ served env c k
    others_same k other =
        served-is_stored after k after-AllRun
        ∙ ap is_stored (sync_leaves_others env laws bc c k w other).0
        ∙ sym (served-is_stored c k w)

    -- The view changes at the key of the resource at most.
    set_own :
        (v : Bool)
        → is_stored (env.store.get_by_key own after.items) ≡ v
        → (k : String) → served env after k ≡ set_served own v (served env c) k
    set_own v e k = elim (Bool-cases (str_eq own k)) [
      | inl same ↦ rw same (
          subst (λ x. served env after x ≡ v) (ground (arith, same, eq_iff own k))
            (served-is_stored after own after-AllRun ∙ e))
      | inr differs ↦
          rw differs (others_same k (λ e'. absurd (ground (arith, e', differs, eq_iff own k))))
    ]

    SameView : St → (ℕ → Bool) → ℕ → Type 0
    SameView t runs n = (λ k. is_running runs (env.store.get_by_key k t)) ≡ served env c

    -- A resource that was not started has its start time written, and nothing else.
    waiting-Ensures :
        is_some bc.status.start_time ≡ false
        → Ensures
            (View {S = S} SameView)
            (View SameView)
            (sync_kubervisor_service env bc)
            (λ _. View SameView)
    unfolding sync_kubervisor_service init_start_time
    waiting-Ensures waiting =
        Ensures-bind (λ _. View SameView) _ _ (Ensures-gets _ (λ v p. p))
          (λ now.
            Ensures-split (is_some bc.status.start_time) _ _
              (λ started. absurd (ground (arith, started, waiting)))
              (λ _. send-Ensures SameView SameView _ _ (λ t runs n p. p)))

    sync_waits : is_some bc.status.start_time ≡ false → served env after ≡ served env c
    unfolding SameView
    sync_waits waiting = Ensures-after (waiting-Ensures waiting) c refl

    lookup_fails :
        (r : Outcome (Option (Handle F L D)))
        → is_some bc.status.start_time ≡ true
        → env.store.get_by_key own c.items ≡ r
        → ((found : Option (Handle F L D)) → r ≢ ok found)
        → (again : Bool) → (sync_kubervisor_service env bc c).0 ≢ ok again
    unfolding sync_kubervisor_service sync_started ◌>>=◌
    lookup_fails (ok found) started e none_found again = absurd (none_found found refl)
    lookup_fails (err x) started e none_found again =
        rw (started, e) (λ h. absurd (ground (arith, h)))
    lookup_fails panic started e none_found again =
        rw (started, e) (λ h. absurd (ground (arith, h)))

    service_fails :
        (found : Option (Handle F L D)) (r : Outcome Service)
        → is_some bc.status.start_time ≡ true
        → env.store.get_by_key own c.items ≡ ok found
        → env.get_service bc.namespace bc.spec.service c.world ≡ r
        → ((svc : Service) → r ≢ ok svc)
        → ((e : Error) → r ≡ err e → is_not_found e ≡ false)
        → (again : Bool) → (sync_kubervisor_service env bc c).0 ≢ ok again
    unfolding sync_kubervisor_service sync_started with_service ◌>>=◌
    service_fails found (ok svc) started e k none_found known again = absurd (none_found svc refl)
    service_fails found (err x) started e k none_found known again =
        rw (started, e, k, known x refl) (λ h. absurd (ground (arith, h)))
    service_fails found panic started e k none_found known again =
        rw (started, e, k) (λ h. absurd (ground (arith, h)))

    abbrev Promised : Outcome Service → Outcome Bool → Type 0
    Promised service r =
        Promise own (served env c) (served env after) (is_some bc.status.start_time) service r

    -- With the item that is found.
    found-Promised :
        (again : Bool) (found : Option (Handle F L D)) (r : Outcome Service)
        → (sync_kubervisor_service env bc c).0 ≡ ok again
        → is_some bc.status.start_time ≡ true
        → env.store.get_by_key own c.items ≡ ok found
        → env.get_service bc.namespace bc.spec.service c.world ≡ r
        → Promised r (ok again)
    found-Promised again found (ok svc) h started stored there =
        let (bci, now, runs, current) =
          sync_serves env laws bc c found svc again w started stored there h in
        serves again svc refl started refl (fun_ext (set_own true (ap is_stored now)))
    found-Promised again found (err e) h started stored there = elim (Bool-cases (is_not_found e)) [
      | inl gone ↦
          let now =
            (missing_service_lem env laws (λ id. Unit) bc c found e w started stored there
              gone).1 in
          withdraws again e refl started refl gone (fun_ext (set_own false (ap is_stored now)))
      | inr other ↦ absurd (
          service_fails found (err e) started stored there
            (λ svc same. absurd (ground (arith, same))) (λ x same. ground (arith, same, other))
            again h)
    ]
    found-Promised again found panic h started stored there = absurd (
        service_fails found panic started stored there (λ svc e. absurd (ground (arith, e)))
          (λ x e. absurd (ground (arith, e))) again h)

    started-Promised :
        (again : Bool) (r : Outcome (Option (Handle F L D)))
        → (sync_kubervisor_service env bc c).0 ≡ ok again
        → is_some bc.status.start_time ≡ true
        → env.store.get_by_key own c.items ≡ r
        → Promised (env.get_service bc.namespace bc.spec.service c.world) (ok again)
    started-Promised again (ok found) h started stored =
        found-Promised again found _ h started stored refl
    started-Promised again (err e) h started stored =
        absurd (
          lookup_fails (err e) started stored (λ found same. absurd (ground (arith, same))) again h)
    started-Promised again panic h started stored =
        absurd
          (lookup_fails panic started stored (λ found same. absurd (ground (arith, same))) again h)

    result-Promised :
        (r : Outcome Bool)
        → (sync_kubervisor_service env bc c).0 ≡ r
        → Promised (env.get_service bc.namespace bc.spec.service c.world) r
    result-Promised (ok again) h = elim (Bool-cases (is_some bc.status.start_time)) [
      | inl started ↦ started-Promised again _ h started refl
      | inr waiting ↦ waits again refl waiting (sync_waits waiting)
    ]
    result-Promised (err e) h = fails (λ again same. absurd (ground (arith, same))) others_same
    result-Promised panic h = fails (λ again same. absurd (ground (arith, same))) others_same

  -- A synchronisation does what it promises: on the keys that have a running item it leaves a resource
  -- that was not started as it is, adds the key of one whose service exists, takes away the key of one
  -- whose service is gone, and if it fails, changes no other key. This needs that before the call every
  -- stored item ran, under the key of its resource and with a number of its own.
  pub sync-Promise :
      (bc : KubervisorService F) (c : Ctrl S St)
      → AllRun env.store c.items c.runs c.created
      → (let (r, after) = sync_kubervisor_service env bc c in
          Promise
            (get_key bc.namespace bc.name)
            (served env c)
            (served env after)
            (is_some bc.status.start_time)
            (env.get_service bc.namespace bc.spec.service c.world)
            r)
  sync-Promise bc c w = result-Promised bc c w _ refl
