-- ===== src/Examples/Reconciles.antt =====
-- The theorems about the reconciliation at a concrete store and cluster.
use kubervisor.Prelude.{
  ℕ, ◌≡◌, refl, arith, true, false, none, some, List, [], ◌∷◌, String, Outcome, ok, err, not_found,
}
use kubervisor.Prelude.Int.{pos}
use kubervisor.Prelude.Dict
use kubervisor.Prelude.Dict.{Dict}
use kubervisor.Kube.{Pod, SelectorOps}
use kubervisor.Api.{KubervisorService}
use kubervisor.Detector.Factory
use kubervisor.Controller.Item
use kubervisor.Controller.Item.{KubervisorServiceItem}
use kubervisor.Controller.Store.{Handle, ItemStore, Ctrl, key_of, get_key, set_runs}
use kubervisor.Controller.Env.{Service, Env}
use kubervisor.Controller.Reconcile.{sync_kubervisor_service, clear_item}
use kubervisor.Controller.Tracking.{StoreLaws, Tracked, Accounted-insert}
use kubervisor.Controller.TrackingLaws.{sync_kubervisor_service-Tracked, sync_missing_service}
use kubervisor.Controller.ReconcileLaws.{clear_item_leaks}
use kubervisor.Examples.Fixtures.{accepting}
use kubervisor.Examples.Items.{resource, built, always, by_any}

abbrev pub Object : Type 0
Object = Handle ℕ (List String) ℕ

abbrev pub Items : Type 0
Items = Dict Object

-- The cache as a map.
abbrev pub dict_store : ItemStore Items Object
dict_store = record {
  get_by_key = λ k t. ok (Dict.get t k);
  add = λ i t. (none, Dict.put t (key_of i) i);
  update = λ i t. (none, Dict.put t (key_of i) i);
  delete = λ i t. (none, Dict.remove t (key_of i));
}

pub dict_store-StoreLaws : StoreLaws dict_store key_of
dict_store-StoreLaws = record {
  update_ok = λ i t. refl;
  add_ok = λ i t. refl;
  delete_ok = λ i t. refl;
  get-update = λ i t k. ground (arith, Dict.get-put t (key_of i) i k);
  get-add = λ i t k. ground (arith, Dict.get-put t (key_of i) i k);
  get-delete = λ i t k. ground (arith, Dict.get-remove t (key_of i) k);
}

abbrev pub Cluster : Type 0
Cluster = List Pod × List String

abbrev pub shop : Service
shop = record { name = "shop"; namespace = "prod"; selector = ("app", "shop") ∷ [] }

-- A cluster without pods, whose server takes every resource; and its selectors.
abbrev pub env_of :
    SelectorOps (List String) String → Outcome Service → Env ℕ (List String) String Cluster Items ℕ
env_of ops service = record {
  ops = ops;
  selector_of = λ m. "shop" ∷ [];
  new_selector = [];
  requirements = λ l. l;
  requirement_key = λ r. r;
  new_client = λ service. ok tt;
  equal_activator = always;
  equal_breaker = always;
  client = accepting;
  now = λ s. pos 5;
  get_service = λ namespace name w. service;
  list_pods = λ m w. ok [];
  list_namespace = λ namespace m w. ok [];
  list_selected = λ namespace l w. ok [];
  update_handler = λ bc w. (ok bc, w);
  store = dict_store;
  new_aggregate = λ es. elim es [ [] ↦ none | e ∷ rest ↦ some e ];
  error_text = λ e. "";
}

abbrev pub started : KubervisorService ℕ
started = record resource {
  status = record {
    conditions = [];
    start_time = some (pos 1);
    pod_counts = some (record {
      nb_pods_managed = 0;
      nb_pods_breaked = 0;
      nb_pods_paused = 0;
      nb_pods_unknown = 0;
      last_probe_time = none;
    });
  };
}

abbrev pub empty_state : Ctrl Cluster Items
empty_state = record {
  world = record { cluster = ([], []); counters = [] };
  items = [];
  runs = λ id. false;
  created = 0;
  item_gauges = [];
  kubervisor_gauges = [];
}

pub empty-Tracked : Tracked dict_store [] (λ id. false) 0
unfolding Dict.get
empty-Tracked = record {
  keyed = λ k h e. absurd (ground (arith, e));
  old = λ k h e. absurd (ground (arith, e));
  running = λ k h e. absurd (ground (arith, e));
  distinct = λ j k g h e f. absurd (ground (arith, e));
  stored = λ id r. absurd (ground (arith, r));
}

sync_kubervisor_service-Tracked_example :
    let after = (sync_kubervisor_service (env_of by_any (ok shop)) started empty_state).1 in
    Tracked dict_store after.items after.runs after.created
sync_kubervisor_service-Tracked_example =
    sync_kubervisor_service-Tracked (env_of by_any (ok shop)) dict_store-StoreLaws started
      empty_state empty-Tracked

-- An item that runs.
abbrev first : Object
first = record { id = 0; item = built }

abbrev pub running_state : Ctrl Cluster Items
running_state = record empty_state {
  items = ("prod/svc", first) ∷ [];
  runs = set_runs 0 true (λ id. false);
  created = 1;
}

first_named : key_of first ≡ "prod/svc"
unfolding key_of get_key Item.item_of
first_named = refl

pub first-Tracked : Tracked dict_store (("prod/svc", first) ∷ []) (set_runs 0 true (λ id. false)) 1
unfolding Dict.get
first-Tracked =
    Accounted-insert (λ id. ⊥) dict_store [] (λ id. false) 0 empty-Tracked first
      (("prod/svc", first) ∷ []) refl refl (λ k. ground (arith, first_named))

-- The item runs, and its service is gone.
sync_missing_service_example :
    let after = (sync_kubervisor_service (env_of by_any (err not_found)) started running_state).1 in
    Tracked dict_store after.items after.runs after.created
    × (dict_store.get_by_key (get_key "prod" "svc") after.items ≡ ok none)
unfolding Dict.get get_key
sync_missing_service_example =
    sync_missing_service (env_of by_any (err not_found)) dict_store-StoreLaws started running_state
      (some first) not_found first-Tracked refl refl refl refl

clear_item_leaks_example :
    let after = clear_item (env_of by_any (ok shop)) "svc" "prod" running_state in
    (dict_store.get_by_key (get_key "prod" "svc") after.items ≡ ok none) × (after.runs 0 ≡ true)
unfolding Dict.get get_key
clear_item_leaks_example =
    clear_item_leaks (env_of by_any (ok shop)) dict_store-StoreLaws "svc" "prod" first running_state
      first-Tracked refl
