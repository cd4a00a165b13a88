-- ===== src/Controller/Sync.antt =====
-- pkg/controller/controller.go: sync, and processNextItem, which calls it on a key of the queue. The
-- lister of resources, the update of a resource, the removal of an item and syncKubervisorService
-- are parameters.
use kubervisor.Prelude.{
  Bool, true, false, not, List, [], ◌∷◌, String, Outcome, ok, err, panic, wrapf, wrapping,
  if◌then◌else◌, is_some,
}
use kubervisor.Kube.Exec.{Exec, continue}
use kubervisor.Api.{FloatOps, KubervisorService}
use kubervisor.Api.Defaults.{default_kubervisor_service, is_kubervisor_service_defaulted}
use kubervisor.Api.Validation.{validate_kubervisor_service_spec}
use kubervisor.Election.Attempt.{is_not_found}

-- What is done to the queue after a key was handled.
pub data QueueAction : Type 0 where
  forget add_rate_limited : QueueAction

-- The end of processNextItem, over what sync returned.
unfoldable pub queue_actions : Outcome Bool → List QueueAction
queue_actions (ok true) = forget ∷ add_rate_limited ∷ []
queue_actions (ok false) = forget ∷ []
queue_actions (err e) = add_rate_limited ∷ []
queue_actions panic = []

module _ {F W : Type 0} (floats : FloatOps F) (dns : String → List String)
    (get_service : String → String → W → Outcome (KubervisorService F))
    (update_handler : KubervisorService F → Exec W (KubervisorService F))
    (clear_item : String → String → W → W) (sync_service : KubervisorService F → Exec W Bool) where
  -- What follows the update of a resource with its defaults.
  abbrev pub after_default : Outcome (KubervisorService F) → Outcome Bool
  after_default (ok bc) = ok false
  after_default (err e) = err (wrapf "unable to default KubervisorService" e)
  after_default panic = panic

  -- The part of sync on a resource that the lister knows.
  unfoldable pub sync_found : KubervisorService F → Exec W Bool
  sync_found bc w =
      if not (is_kubervisor_service_defaulted bc)
      then (let (r, w') = update_handler (default_kubervisor_service floats bc) w in
          (after_default r, w'))
      else continue
          (λ u v. if is_some bc.deletion_timestamp then (ok false, v) else sync_service bc v)
          (wrapping "Invalid KubervisorService definition"
            (validate_kubervisor_service_spec floats dns bc.spec))
          w

  -- sync, on a key that was split into a namespace and a name.
  unfoldable pub sync : Outcome (String × String) → Exec W Bool
  unfolding sync_found
  sync (ok (namespace, name)) w = elim (get_service namespace name w) [
    | ok bc ↦ sync_found bc w
    | err e ↦ (ok false, if is_not_found e then clear_item name namespace w else w)
    | panic ↦ (panic, w)
  ]
  sync (err e) w = (err e, w)
  sync panic w = (panic, w)
