-- ===== src/Examples/Workers.antt =====
-- The theorem about the worker at a concrete store and cluster.
use kubervisor.Prelude.{ℕ, [], ◌∷◌, ok, err, not_found, str_eq, false, if◌then◌else◌}
use kubervisor.Controller.Tracking.{AllRun, Accounted-AllRun}
use kubervisor.Controller.Worker.{Inputs, run_worker}
use kubervisor.Controller.WorkerLaws.{run_worker-AllRun}
use kubervisor.Examples.Fixtures.{millionths}
use kubervisor.Examples.Items.{by_any}
use kubervisor.Examples.Reconciles.{
  Cluster, dict_store, dict_store-StoreLaws, shop, env_of, started, empty_state, empty-Tracked,
}

-- Every key is the one of a started resource.
abbrev inputs : Inputs ℕ Cluster
inputs = record {
  floats = millionths;
  dns = λ name. [];
  split_key = λ key. ok ("prod", "svc");
  get_resource = λ namespace name w. ok started;
}

-- A resource that is there, and another one that is gone.
abbrev inputs_gone : Inputs ℕ Cluster
inputs_gone = record inputs {
  split_key = λ key. ok (key, "svc");
  get_resource = λ namespace name w. if str_eq namespace "prod" then ok started else err not_found;
}

run_worker-AllRun_example :
    let after =
      run_worker inputs_gone (env_of by_any (ok shop)) ("prod" ∷ "test" ∷ []) empty_state in
    AllRun dict_store after.items after.runs after.created
run_worker-AllRun_example =
    run_worker-AllRun inputs_gone (env_of by_any (ok shop)) dict_store-StoreLaws
      ("prod" ∷ "test" ∷ []) empty_state
      (Accounted-AllRun (λ id. ⊥) dict_store [] (λ id. false) 0 empty-Tracked)
