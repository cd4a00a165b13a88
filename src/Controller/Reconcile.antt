-- ===== src/Controller/Reconcile.antt =====
-- pkg/controller/controller.go, checks.go and utils.go: syncKubervisorService with createItem,
-- deleteItem, clearItem, newKubervisorServiceItem and updateStatusCondition. What the Kubernetes
-- libraries do is a parameter, `Env`.
use Prim.Native.String.{◌++◌}
use kubervisor.Prelude.{
  Bool, true, false, not, ◌&&◌, ◌==◌, Option, none, some, List, [], ◌∷◌, String, Outcome, ok, err,
  panic, Error, str_eq, is_some, if◌then◌else◌,
}
use kubervisor.Prelude.Int.{ℤ, pos, negsuc}
use kubervisor.Kube.Exec.{Exec, pure, lift, gets, wrap_error, ◌>>=◌, ◌>>◌}
use kubervisor.Labeling.{label_traffic_key}
use kubervisor.Api.{PodCountStatus, KubervisorServiceStatus, KubervisorService}
use kubervisor.Election.Attempt.{is_not_found}
use kubervisor.Controller.Conditions.{
  update_status_condition_running, update_status_condition_init_failure,
  update_status_condition_service_error,
}
use kubervisor.Controller.Status.{get_status}
use kubervisor.Controller.Item.{KubervisorServiceItem, new_item, compare_with_spec}
use kubervisor.Controller.Pods.{pods_cleaner, initialize_pods}
use kubervisor.Controller.Env.{Service, Env}
use kubervisor.Controller.Store.{
  Handle, get_key, Ctrl, on_world, on_store, add_items, update_gauge, delete_gauge, start_item,
  stop_item, allocate,
}

unfoldable pub equal_pod_count_status : PodCountStatus → PodCountStatus → Bool
equal_pod_count_status a b =
    a.nb_pods_managed == b.nb_pods_managed
    && a.nb_pods_breaked == b.nb_pods_breaked
    && a.nb_pods_paused == b.nb_pods_paused
    && a.nb_pods_unknown == b.nb_pods_unknown

-- The test whether the status has no counts, or others.
abbrev pub counts_differ : PodCountStatus → Option PodCountStatus → Bool
counts_differ new none = true
counts_differ new (some old) = not (equal_pod_count_status new old)

module _ {F L R S St D : Type 0} (env : Env F L R S St D) where
  abbrev Call : Type 0 → Type 0
  Call A = Exec (Ctrl S St) A

  -- The loop over the requirements: what Add returns is dropped.
  unfoldable pub purge_requirements : List R → L → L
  purge_requirements [] selector = selector
  purge_requirements (r ∷ requirements) selector =
      let added = env.ops.add selector r in
      let rest = purge_requirements requirements selector in
      if not (str_eq (env.requirement_key r) label_traffic_key) then rest else rest

  unfoldable pub new_kubervisor_service_item :
      KubervisorService F → Service → Outcome (KubervisorServiceItem F L D)
  unfolding purge_requirements
  new_kubervisor_service_item bc svc =
      new_item env.ops env.new_client bc (
        some
          (purge_requirements (env.requirements (env.selector_of svc.selector)) env.new_selector))

  unfoldable pub is_spec_updated : KubervisorService F → Service → Handle F L D → Bool
  is_spec_updated bc svc bci =
      compare_with_spec env.ops env.equal_activator env.equal_breaker bci.item bc.spec
        (some (env.selector_of svc.selector))

  -- The unexported updateStatusCondition: the resource with the new conditions, which the caller goes
  -- on with, as in the code, which drops the object that the server returns. A resource has no version
  -- here, so whether the server refuses a second update of the old one is up to `update_handler`.
  unfoldable pub update_resource_status :
      (KubervisorServiceStatus → String → ℤ → KubervisorServiceStatus)
      → KubervisorService F
      → String
      → ℤ
      → Call (KubervisorService F)
  update_resource_status status_update bc msg now =
      let updated = record bc { status = status_update bc.status msg now } in
      on_world (env.update_handler updated) >> pure updated

  unfoldable pub delete_item : Handle F L D → Call (Unit {0})
  delete_item bci = do
    add_items (negsuc 0) bci.item.namespace
    delete_gauge bci.item.name bci.item.namespace
    on_store (env.store.delete bci)

  -- What follows a new item: the status, the metric and the store.
  unfoldable pub register_item :
      KubervisorService F
      → ℤ
      → KubervisorServiceItem F L D
      → Call (KubervisorService F × Handle F L D)
  unfolding update_resource_status
  register_item bc now item = do
    bci ← allocate item
    updated ←
        wrap_error "unable to update status condition"
          (update_resource_status update_status_condition_running bc "" now)
    add_items (pos 1) bc.namespace
    wrap_error "unable to update the KubervisorServiceItem" (on_store (env.store.update bci))
    pure (updated, bci)

  -- What follows the construction of the item.
  unfoldable pub with_item :
      KubervisorService F
      → ℤ
      → Outcome (KubervisorServiceItem F L D)
      → Call (KubervisorService F × Handle F L D)
  unfolding register_item update_resource_status
  with_item bc now (ok item) = register_item bc now item
  with_item bc now (err e) = do
    wrap_error "unable to update status condition" (
        update_resource_status update_status_condition_init_failure bc
          ("unable to create KubervisorServiceItem, err:" ++ env.error_text e) now)
    lift (err e)
  with_item bc now panic = lift panic

  unfoldable pub create_item :
      KubervisorService F → Service → ℤ → Call (KubervisorService F × Handle F L D)
  unfolding new_kubervisor_service_item with_item
  create_item bc svc now = with_item bc now (new_kubervisor_service_item bc svc)

  -- The synchronisation of a resource whose service is gone.
  unfoldable pub service_missing : KubervisorService F → Option (Handle F L D) → ℤ → Call Bool
  unfolding delete_item update_resource_status
  service_missing bc (some bci) now = do
    stop_item bci
    delete_item bci
    update_resource_status update_status_condition_service_error bc
        ("associated service " ++ (get_key bc.namespace bc.spec.service ++ " was deleted")) now
    pure false
  service_missing bc none now = do
    update_resource_status update_status_condition_service_error bc
        ("associated service "
          ++ (get_key bc.namespace bc.spec.service ++ " doesn't exist, error:"))
        now
    pure false

  -- The item of the resource: made if there is none, and made again if it is outdated.
  unfoldable pub ensure_item :
      KubervisorService F
      → Service
      → Option (Handle F L D)
      → ℤ
      → Call (KubervisorService F × Handle F L D)
  unfolding create_item delete_item is_spec_updated
  ensure_item bc svc none now = do
    made ← create_item bc svc now
    on_store (env.store.add made.1)
    start_item made.1
    pure made
  ensure_item bc svc (some bci) now =
      if is_spec_updated bc svc bci
      then (do
        stop_item bci
        delete_item bci
        made ← create_item bc svc now
        start_item made.1
        pure made)
      else pure (bc, bci)

  -- `if …; err != nil { return false, err }`
  unfoldable pub reject_with : Option Error → Call (Unit {0})
  reject_with none = pure tt
  reject_with (some e) = lift (err e)

  -- The same on an activity and its errors.
  unfoldable pub no_errors : Bool × List Error → Call (Unit {0})
  unfolding reject_with
  no_errors r = reject_with (env.new_aggregate r.1)

  -- The write of the counts, if they changed.
  unfoldable pub write_counts : KubervisorService F → PodCountStatus → ℤ → Call Bool
  unfolding equal_pod_count_status update_resource_status
  write_counts bc new_status now =
      if counts_differ new_status bc.status.pod_counts
      then (do
        update_resource_status update_status_condition_running
            (record bc { status = record bc.status { pod_counts = some new_status } }) "" now
        pure false)
      else pure false

  -- The last part: the labels of the pods, and the counts.
  unfoldable pub maintain : KubervisorService F → Handle F L D → Service → ℤ → Call Bool
  unfolding no_errors write_counts
  maintain bc bci svc now = do
    cleaned ←
        on_world
          (pods_cleaner env.client env.list_pods env.list_namespace bci.item.name svc.selector)
    no_errors cleaned
    labelled ← on_world (
        initialize_pods env.client env.list_pods env.list_namespace bci.item.name svc.namespace
          svc.selector)
    no_errors labelled
    listed ← gets (λ c. env.list_selected bci.item.namespace bci.item.selector c.world)
    new_status ← lift (get_status listed)
    update_gauge bci.item.name bci.item.namespace new_status
    write_counts bc new_status now

  -- What follows the lookup of the service.
  unfoldable pub with_service :
      KubervisorService F → Option (Handle F L D) → ℤ → Outcome Service → Call Bool
  unfolding service_missing ensure_item maintain
  with_service bc found now (ok svc) = do
    made ← ensure_item bc svc found now
    maintain made.0 made.1 svc now
  with_service bc found now (err e) =
      if is_not_found e then service_missing bc found now else lift (err e)
  with_service bc found now panic = lift panic

  unfoldable pub init_start_time : KubervisorService F → ℤ → Call Bool
  init_start_time bc now = do
    on_world
        (env.update_handler (record bc { status = record bc.status { start_time = some now } }))
    pure true

  -- The part of syncKubervisorService on a resource that was started.
  unfoldable pub sync_started : KubervisorService F → ℤ → Call Bool
  unfolding with_service
  sync_started bc now = do
    looked_up ← gets (λ c. env.store.get_by_key (get_key bc.namespace bc.name) c.items)
    found ← lift looked_up
    associated ← gets (λ c. env.get_service bc.namespace bc.spec.service c.world)
    with_service bc found now associated

  unfoldable pub sync_kubervisor_service : KubervisorService F → Call Bool
  unfolding init_start_time sync_started
  sync_kubervisor_service bc = do
    now ← gets (λ c. env.now c.world.cluster)
    if is_some bc.status.start_time then sync_started bc now else init_start_time bc now

  -- The removal of the item of a resource that is gone; what goes wrong is logged.
  unfoldable pub clear_item : String → String → Ctrl S St → Ctrl S St
  unfolding delete_item
  clear_item name namespace c = elim (env.store.get_by_key (get_key namespace name) c.items) [
    | ok found ↦ elim found [ some bci ↦ (delete_item bci c).1 | none ↦ c ]
    | err e ↦ c
    | panic ↦ c
  ]
