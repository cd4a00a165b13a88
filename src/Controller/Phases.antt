-- ===== src/Controller/Phases.antt =====
-- The phases of an item, from before it is made until it is removed, as conditions on the store.
use kubervisor.Prelude.{ℕ, ◌+◌, ◌≡◌, ◌≢◌, refl, Bool, true, false, none, some, String, ok}
use kubervisor.Api.{KubervisorService}
use kubervisor.Controller.Item.{KubervisorServiceItem}
use kubervisor.Controller.Store.{Handle, key_of, set_runs, get_key}
use kubervisor.Controller.ItemParts.{new_item-named}
use kubervisor.Controller.Env.{Service, Env}
use kubervisor.Controller.Reconcile.{new_kubervisor_service_item, is_spec_updated}
use kubervisor.Controller.Tracking.{Accounted}

-- The name of a new item is that of its resource.
pub key-new_kubervisor_service_item :
    {F L R S St D : Type 0} (env : Env F L R S St D) (bc : KubervisorService F) (svc : Service)
    (item : KubervisorServiceItem F L D)
    → new_kubervisor_service_item env bc svc ≡ ok item
    → get_key item.namespace item.name ≡ get_key bc.namespace bc.name
unfolding new_kubervisor_service_item
key-new_kubervisor_service_item env bc svc item built =
    let (namespace, name) = new_item-named env.ops env.new_client bc _ item built in
    rw (namespace, name) refl

-- Why an item counts as that of a resource and its service.
pub data IsCurrent {F L R S St D : Type 0} (env : Env F L R S St D) (bc : KubervisorService F)
    (svc : Service) (bci : Handle F L D) : Type 0 where
  unchanged : is_spec_updated env bc svc bci ≡ false → IsCurrent env bc svc bci
  rebuilt : new_kubervisor_service_item env bc svc ≡ ok bci.item → IsCurrent env bc svc bci

-- The key of a resource.
abbrev pub resource_key : {F : Type 0} → KubervisorService F → String
resource_key bc = get_key bc.namespace bc.name

-- The phases of the item under the key `own`, since the store was `before`.
module _ {F L R S St D : Type 0} (env : Env F L R S St D) (Leaked : ℕ → Type 0) (before : St)
    (own : String) where
  -- Exactly the stored items run, and under the other keys are the same items as before.
  pub record Kept (t : St) (runs : ℕ → Bool) (n : ℕ) : Type 0 where
    pub tracked : Accounted Leaked env.store t runs n
    pub untouched :
        (k : String) → own ≢ k → env.store.get_by_key k t ≡ env.store.get_by_key k before

  -- Moreover there is no item under the key, or there is this one.
  unfoldable pub Free : St → (ℕ → Bool) → ℕ → Type 0
  Free t runs n = Kept t runs n × (env.store.get_by_key own t ≡ ok none)

  unfoldable pub Held : Handle F L D → St → (ℕ → Bool) → ℕ → Type 0
  Held bci t runs n = Kept t runs n × (env.store.get_by_key own t ≡ ok (some bci))

  -- The item was made and is not stored yet; or it is stored and not started yet.
  unfoldable pub Fresh : Handle F L D → St → (ℕ → Bool) → ℕ → Type 0
  Fresh bci t runs n =
      Kept t runs bci.id
      × (n ≡ bci.id + 1)
      × (key_of bci ≡ own)
      × (env.store.get_by_key own t ≡ ok none)

  unfoldable pub Ready : Handle F L D → St → (ℕ → Bool) → ℕ → Type 0
  Ready bci t runs n =
      Kept t (set_runs bci.id true runs) n
      × (key_of bci ≡ own)
      × (env.store.get_by_key own t ≡ ok (some bci))

  -- The item was stopped and is not removed yet.
  unfoldable pub Stopped : Handle F L D → St → (ℕ → Bool) → ℕ → Type 0
  unfolding Free
  Stopped bci t runs n = Free (env.store.delete bci t).1 runs n
