-- ===== src/Controller/TrackingLaws.antt =====
-- The synchronisation keeps the store and the objects that run in step, and leaves the item that its
-- resource asks for.
use kubervisor.Prelude.{
  ℕ, ◌≡◌, ◌≢◌, refl, is_some, ◌∙◌, Bool, true, Option, none, some, String, ok, err, Error,
}
use kubervisor.Kube.Exec.{◌>>=◌}
use kubervisor.Kube.Ensures.{Ensures-after, Ensures-returns}
use kubervisor.Api.{KubervisorService}
use kubervisor.Controller.Store.{Handle, Ctrl, key_of, get_key}
use kubervisor.Controller.Env.{Service, Env}
use kubervisor.Election.Attempt.{is_not_found}
use kubervisor.Controller.Reconcile.{with_service, sync_started, sync_kubervisor_service}
use kubervisor.Controller.Phases.{resource_key, Kept, IsCurrent}
use kubervisor.Controller.Ensuring.{service_missing-Ensures}
use kubervisor.Controller.Tracking.{StoreLaws, Accounted, Tracked, AllRun}
use kubervisor.Controller.Keeping.{
  with_service_ok-Ensures, Found-of, sync_kubervisor_service-Ensures, item_runs, Free-Accounted,
}

module _ {F L R S St D : Type 0} (env : Env F L R S St D) (laws : StoreLaws env.store key_of)
    (Leaked : ℕ → Type 0) where
  -- Before a call nothing was touched.
  Kept-at :
      (own : String) (c : Ctrl S St)
      → Accounted Leaked env.store c.items c.runs c.created
      → Kept env Leaked c.items own c.items c.runs c.created
  Kept-at own c w = record { tracked = w; untouched = λ k other. refl }

  pub sync_kubervisor_service-Kept :
      (bc : KubervisorService F) (c : Ctrl S St)
      → Accounted Leaked env.store c.items c.runs c.created
      → (let after = (sync_kubervisor_service env bc c).1 in
          Kept env Leaked c.items (resource_key bc) after.items after.runs after.created)
  sync_kubervisor_service-Kept bc c w =
      Ensures-after (sync_kubervisor_service-Ensures env laws Leaked c.items bc) c
        (Kept-at (resource_key bc) c w)

  -- If the service is gone, so is the item.
  pub missing_service_lem :
      (bc : KubervisorService F) (c : Ctrl S St) (found : Option (Handle F L D)) (e : Error)
      → Accounted Leaked env.store c.items c.runs c.created
      → is_some bc.status.start_time ≡ true
      → env.store.get_by_key (get_key bc.namespace bc.name) c.items ≡ ok found
      → env.get_service bc.namespace bc.spec.service c.world ≡ err e
      → is_not_found e ≡ true
      → (let after = (sync_kubervisor_service env bc c).1 in
          Accounted Leaked env.store after.items after.runs after.created
          × (env.store.get_by_key (get_key bc.namespace bc.name) after.items ≡ ok none))
  unfolding sync_kubervisor_service sync_started with_service ◌>>=◌
  missing_service_lem bc c found e w started stored gone missing =
      rw (started, stored, gone, missing)
        (Free-Accounted env Leaked c.items (resource_key bc) _ _ _ (
          Ensures-after
            (service_missing-Ensures env laws Leaked c.items bc found (env.now c.world.cluster)) c
            (Found-of env laws Leaked c.items bc found _ _ _ (Kept-at (resource_key bc) c w)
              stored)))

module _ {F L R S St D : Type 0} (env : Env F L R S St D) (laws : StoreLaws env.store key_of) where
  -- No object is leaked.
  abbrev NoLeak : ℕ → Type 0
  NoLeak id = ⊥

  -- Any object may be.
  abbrev AnyLeak : ℕ → Type 0
  AnyLeak id = Unit

  -- Whatever the cluster answers, a synchronisation keeps the store and what runs in step: if, before
  -- it, exactly the items of the store run, each under the key of its resource, so it is after it, on
  -- success and on every error.
  pub sync_kubervisor_service-Tracked :
      (bc : KubervisorService F) (c : Ctrl S St)
      → Tracked env.store c.items c.runs c.created
      → (let after = (sync_kubervisor_service env bc c).1 in
          Tracked env.store after.items after.runs after.created)
  sync_kubervisor_service-Tracked bc c w =
      (sync_kubervisor_service-Kept env laws NoLeak bc c w).tracked

  -- Whatever the cluster answers, a synchronisation of a resource leaves the items of all other
  -- resources alone: they are in the store as before, and they run. This needs only that before the
  -- call every stored item ran, under the key of its resource and with a number of its own.
  pub sync_leaves_others :
      (bc : KubervisorService F) (c : Ctrl S St) (k : String)
      → AllRun env.store c.items c.runs c.created
      → get_key bc.namespace bc.name ≢ k
      → (let after = (sync_kubervisor_service env bc c).1 in
          (env.store.get_by_key k after.items ≡ env.store.get_by_key k c.items)
          × ((bci : Handle F L D)
              → env.store.get_by_key k c.items ≡ ok (some bci)
              → after.runs bci.id ≡ true))
  sync_leaves_others bc c k w other =
      let kept = sync_kubervisor_service-Kept env laws AnyLeak bc c w in
      (
        kept.untouched k other,
        λ bci stored. kept.tracked.running k bci (kept.untouched k other ∙ stored),
      )

  -- If the service of a started resource is gone, then, whether or not the server takes the new
  -- condition, a synchronisation leaves no item under the key of the resource; and as again exactly the
  -- items of the store run, none of the resource does.
  pub sync_missing_service :
      (bc : KubervisorService F) (c : Ctrl S St) (found : Option (Handle F L D)) (e : Error)
      → Tracked env.store c.items c.runs c.created
      → is_some bc.status.start_time ≡ true
      → env.store.get_by_key (get_key bc.namespace bc.name) c.items ≡ ok found
      → env.get_service bc.namespace bc.spec.service c.world ≡ err e
      → is_not_found e ≡ true
      → (let after = (sync_kubervisor_service env bc c).1 in
          Tracked env.store after.items after.runs after.created
          × (env.store.get_by_key (get_key bc.namespace bc.name) after.items ≡ ok none))
  sync_missing_service bc c found e = missing_service_lem env laws NoLeak bc c found e

  -- If a synchronisation of a started resource, whose service exists, returns a result, then the store
  -- has an item under the key of the resource, which runs, and which was built from the resource and
  -- the service or does not differ from them. This needs only that before the call every stored item
  -- ran, under the key of its resource and with a number of its own.
  pub sync_serves :
      (bc : KubervisorService F) (c : Ctrl S St) (found : Option (Handle F L D)) (svc : Service)
      (again : Bool)
      → AllRun env.store c.items c.runs c.created
      → is_some bc.status.start_time ≡ true
      → env.store.get_by_key (get_key bc.namespace bc.name) c.items ≡ ok found
      → env.get_service bc.namespace bc.spec.service c.world ≡ ok svc
      → (sync_kubervisor_service env bc c).0 ≡ ok again
      → (let after = (sync_kubervisor_service env bc c).1 in
          (bci : Handle F L D) × (env.store.get_by_key (get_key bc.namespace bc.name) after.items
            ≡ ok (some bci))
          × (after.runs bci.id ≡ true)
          × IsCurrent env bc svc bci)
  unfolding sync_kubervisor_service sync_started ◌>>=◌
  sync_serves bc c found svc again w started stored served =
      rw (started, stored, served)
        (λ returned.
          item_runs env laws AnyLeak c.items bc svc
            (with_service env bc found (env.now c.world.cluster) (ok svc) c).1
            (Ensures-returns
              (with_service_ok-Ensures env laws AnyLeak c.items bc svc found
                (env.now c.world.cluster))
              c
              (Found-of env laws AnyLeak c.items bc found _ _ _
                (Kept-at env laws AnyLeak (resource_key bc) c w) stored)
              again returned))
