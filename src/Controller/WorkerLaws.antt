-- ===== src/Controller/WorkerLaws.antt =====
-- The items of the store under the workers (pkg/controller/controller.go).
use kubervisor.Prelude.{
  ℕ, Option, none, some, true, ◌≡◌, refl, arith, Bool, false, List, [], ◌∷◌, String, Outcome, ok,
  err, panic, Error, Bool-cases, inl, inr, wrapping, is_some, if◌then◌else◌,
}
use kubervisor.Kube.Exec.{Exec, continue, ◌>>=◌}
use kubervisor.Api.{KubervisorService}
use kubervisor.Api.Defaults.{is_kubervisor_service_defaulted}
use kubervisor.Api.Validation.{validate_kubervisor_service_spec}
use kubervisor.Election.Attempt.{is_not_found}
use kubervisor.Controller.Store.{
  Ctrl, on_world, key_of, get_key, Handle, on_store, add_items, delete_gauge,
}
use kubervisor.Controller.Env.{Env}
use kubervisor.Controller.Reconcile.{sync_kubervisor_service, clear_item, delete_item}
use kubervisor.Controller.Sync.{sync_found, sync}
use kubervisor.Controller.Tracking.{StoreLaws, Accounted, AllRun, Accounted-forget}
use kubervisor.Controller.TrackingLaws.{sync_kubervisor_service-Kept}
use kubervisor.Controller.Worker.{Inputs, sync_key, process_next_item, run_worker}

module _ {F L R S St D : Type 0} (inputs : Inputs F S) (env : Env F L R S St D)
    (laws : StoreLaws env.store key_of) (Leaked : ℕ → Type 0) where
  -- The items of the store run, and only leaked objects beside them.
  abbrev pub InStep : Ctrl S St → Type 0
  InStep c = Accounted Leaked env.store c.items c.runs c.created

  abbrev found_by : KubervisorService F → Exec (Ctrl S St) Bool
  found_by =
      sync_found inputs.floats inputs.dns
        (λ namespace name c. inputs.get_resource namespace name c.world)
        (λ bc. on_world (env.update_handler bc)) (clear_item env) (sync_kubervisor_service env)

  -- Whether the resource is synchronised, after its validation.
  abbrev validated : KubervisorService F → Outcome (Unit {0}) → Exec (Ctrl S St) Bool
  validated bc = continue λ u v.
      if is_some bc.deletion_timestamp then (ok false, v) else sync_kubervisor_service env bc v

  validated-InStep :
      (bc : KubervisorService F) (m : Outcome (Unit {0})) (c : Ctrl S St)
      → InStep c
      → InStep (validated bc (wrapping "Invalid KubervisorService definition" m) c).1
  validated-InStep bc (ok u) c w = elim (Bool-cases (is_some bc.deletion_timestamp)) [
    | inl e ↦ rw e w
    | inr e ↦ rw e ((sync_kubervisor_service-Kept env laws Leaked bc c w).tracked)
  ]
  validated-InStep bc (err e) c w = w
  validated-InStep bc panic c w = w

  sync_found-InStep :
      (bc : KubervisorService F) (c : Ctrl S St) → InStep c → InStep (found_by bc c).1
  unfolding sync_found on_world
  sync_found-InStep bc c w = elim (Bool-cases (is_kubervisor_service_defaulted bc)) [
    | inr e ↦ rw e w
    | inl e ↦ rw e (
        validated-InStep bc (validate_kubervisor_service_spec inputs.floats inputs.dns bc.spec) c w)
  ]

  module _
      (gone : (namespace name : String) (c : Ctrl S St) (e : Error)
        → inputs.get_resource namespace name c.world ≡ err e
        → is_not_found e ≡ true
        → InStep c
        → InStep (clear_item env name namespace c)) where
    -- The state after the lister answered.
    abbrev answered : String → String → Outcome (KubervisorService F) → Ctrl S St → Ctrl S St
    answered namespace name (ok bc) c = (found_by bc c).1
    answered namespace name (err e) c =
        if is_not_found e then clear_item env name namespace c else c
    answered namespace name panic c = c

    answered-InStep :
        (namespace name : String) (r : Outcome (KubervisorService F)) (c : Ctrl S St)
        → inputs.get_resource namespace name c.world ≡ r
        → InStep c
        → InStep (answered namespace name r c)
    answered-InStep namespace name (ok bc) c h w = sync_found-InStep bc c w
    answered-InStep namespace name (err e) c h w = elim (Bool-cases (is_not_found e)) [
      | inl m ↦ rw m (gone namespace name c e h m w)
      | inr m ↦ rw m w
    ]
    answered-InStep namespace name panic c h w = w

    -- The state after sync, of a key that was split.
    abbrev synchronised : Outcome (String × String) → Exec (Ctrl S St) Bool
    synchronised =
        sync inputs.floats inputs.dns
          (λ namespace name c. inputs.get_resource namespace name c.world)
          (λ bc. on_world (env.update_handler bc)) (clear_item env) (sync_kubervisor_service env)

    synchronised-answered :
        (namespace name : String) (c : Ctrl S St)
        → (synchronised (ok (namespace, name)) c).1
          ≡ answered namespace name (inputs.get_resource namespace name c.world) c
    unfolding sync
    synchronised-answered namespace name c = ground arith

    synchronised-InStep :
        (k : Outcome (String × String)) (c : Ctrl S St) → InStep c → InStep (synchronised k c).1
    unfolding sync
    synchronised-InStep (ok (namespace, name)) c w =
        rw (synchronised-answered namespace name c)
          (answered-InStep namespace name (inputs.get_resource namespace name c.world) c refl w)
    synchronised-InStep (err e) c w = w
    synchronised-InStep panic c w = w

    -- Each synchronisation of a key keeps the items in step.
    sync_key-InStep :
        (key : String) (c : Ctrl S St) → InStep c → InStep (sync_key inputs env key c).1
    unfolding sync_key
    sync_key-InStep key c w = synchronised-InStep (inputs.split_key key) c w

    run_worker-InStep :
        (keys : List String) (c : Ctrl S St) → InStep c → InStep (run_worker inputs env keys c)
    unfolding run_worker process_next_item
    run_worker-InStep [] c w = w
    run_worker-InStep (key ∷ keys) c w = run_worker-InStep keys _ (sync_key-InStep key c w)

module _ {F L R S St D : Type 0} (inputs : Inputs F S) (env : Env F L R S St D)
    (laws : StoreLaws env.store key_of) where
  clear_item-AllRun :
      (name namespace : String) (c : Ctrl S St)
      → AllRun env.store c.items c.runs c.created
      → (let after = clear_item env name namespace c in
          AllRun env.store after.items after.runs after.created)
  unfolding clear_item delete_item ◌>>=◌ on_store add_items delete_gauge
  clear_item-AllRun name namespace c w =
      go (env.store.get_by_key (get_key namespace name) c.items) refl
    where
      go :
          (r : Outcome (Option (Handle F L D)))
          → env.store.get_by_key (get_key namespace name) c.items ≡ r
          → (let after = clear_item env name namespace c in
              AllRun env.store after.items after.runs after.created)
      go (ok none) e = rw (clear_item, e) w
      go (ok (some bci)) e =
          rw (clear_item, e)
            (Accounted-forget (λ id. Unit) env.store c.items c.runs c.created w laws
              (get_key namespace name) bci e)
      go (err x) e = rw (clear_item, e) w
      go panic e = rw (clear_item, e) w

  -- Whatever the lister and the cluster answer, also when resources are gone, after the worker handled
  -- any sequence of keys every item of the store runs, under the key of its resource and with a number
  -- of its own, if it was so before.
  pub run_worker-AllRun :
      (keys : List String) (c : Ctrl S St)
      → AllRun env.store c.items c.runs c.created
      → (let after = run_worker inputs env keys c in
          AllRun env.store after.items after.runs after.created)
  run_worker-AllRun =
      run_worker-InStep inputs env laws (λ id. Unit)
        (λ namespace name c e h m w. clear_item-AllRun name namespace c w)
