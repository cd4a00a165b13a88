-- ===== src/Examples/Serving.antt =====
-- A synchronisation that makes an item.
use kubervisor.Prelude.{[], ◌≢◌, eq_iff, ℕ, arith, ◌≡◌, true, false, some, ok}
use kubervisor.Prelude.Dict
use kubervisor.Api.{KubervisorService}
use kubervisor.Controller.Item as Item
use kubervisor.Controller.Store.{get_key}
use kubervisor.Controller.Reconcile.{sync_kubervisor_service}
use kubervisor.Controller.TrackingLaws.{sync_leaves_others}
use kubervisor.Controller.Tracking.{AllRun, Accounted-AllRun}
use kubervisor.Controller.Contract.{served, Promise}
use kubervisor.Controller.ContractLaws.{sync-Promise}
use kubervisor.Examples.Items.{by_any}
use kubervisor.Examples.Reconciles.{
  Object, dict_store, dict_store-StoreLaws, shop, env_of, started, empty_state, empty-Tracked,
  running_state, first-Tracked,
}

empty-AllRun : AllRun dict_store [] (λ id. false) 0
empty-AllRun = Accounted-AllRun (λ id. ⊥) dict_store [] (λ id. false) 0 empty-Tracked

abbrev other : KubervisorService ℕ
other = record started { name = "other" }

other_key : get_key "prod" "other" ≢ "prod/svc"
unfolding get_key
other_key e = absurd (ground (arith, e, eq_iff "prod/other" "prod/svc"))

-- The synchronisation of one resource, beside the item of another one.
sync_leaves_others_example :
    let after = (sync_kubervisor_service (env_of by_any (ok shop)) other running_state).1 in
    (dict_store.get_by_key "prod/svc" after.items
      ≡ dict_store.get_by_key "prod/svc" running_state.items)
    × ((bci : Object)
        → dict_store.get_by_key "prod/svc" running_state.items ≡ ok (some bci)
        → after.runs bci.id ≡ true)
sync_leaves_others_example =
    sync_leaves_others (env_of by_any (ok shop)) dict_store-StoreLaws other running_state "prod/svc"
      (Accounted-AllRun (λ id. ⊥) dict_store running_state.items running_state.runs 1 first-Tracked)
      other_key

-- The promise for the first resource, which is served afterwards.
sync-Promise_example :
    let (r, after) = sync_kubervisor_service (env_of by_any (ok shop)) started empty_state in
    Promise
      (get_key "prod" "svc")
      (served (env_of by_any (ok shop)) empty_state)
      (served (env_of by_any (ok shop)) after)
      true
      (ok shop)
      r
sync-Promise_example =
    sync-Promise (env_of by_any (ok shop)) dict_store-StoreLaws started empty_state empty-AllRun
