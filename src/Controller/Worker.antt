-- ===== src/Controller/Worker.antt =====
-- pkg/controller/controller.go: processNextItem and runWorker, over the keys that the queue hands out,
-- with sync over the store of items. The queue and the splitting of a key are parameters, and so is the
-- lister of resources.
use kubervisor.Prelude.{Bool, List, [], ◌∷◌, String, Outcome}
use kubervisor.Kube.Exec.{Exec}
use kubervisor.Pod.Control.{World}
use kubervisor.Api.{FloatOps, KubervisorService}
use kubervisor.Controller.Store.{Ctrl, on_world}
use kubervisor.Controller.Env.{Env}
use kubervisor.Controller.Reconcile.{sync_kubervisor_service, clear_item}
use kubervisor.Controller.Sync.{QueueAction, queue_actions, sync}

-- What the keys and the resources are read with.
pub record Inputs (F S : Type 0) : Type 0 where
  pub floats : FloatOps F
  pub dns : String → List String
  pub split_key : String → Outcome (String × String)
  pub get_resource : String → String → World S → Outcome (KubervisorService F)

module _ {F L R S St D : Type 0} (inputs : Inputs F S) (env : Env F L R S St D) where
  -- sync, on a key of the queue.
  unfoldable pub sync_key : String → Exec (Ctrl S St) Bool
  sync_key key =
      sync inputs.floats inputs.dns (λ namespace name c. inputs.get_resource namespace name c.world)
        (λ bc. on_world (env.update_handler bc)) (clear_item env) (sync_kubervisor_service env)
        (inputs.split_key key)

  -- What is done to the queue, and the state that is left.
  unfoldable pub process_next_item : String → Ctrl S St → List QueueAction × Ctrl S St
  unfolding sync_key
  process_next_item key c = let (r, c') = sync_key key c in (queue_actions r, c')

  -- The loop, over the keys handed out until the queue shuts down.
  unfoldable pub run_worker : List String → Ctrl S St → Ctrl S St
  unfolding process_next_item
  run_worker [] c = c
  run_worker (key ∷ keys) c = run_worker keys (process_next_item key c).1
