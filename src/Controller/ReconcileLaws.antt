-- ===== src/Controller/ReconcileLaws.antt =====
-- When an item counts as outdated, and what is left of an item whose resource is gone.
use kubervisor.Prelude.{◌≡◌, arith, eq_iff, true, none, some, String, ok}
use kubervisor.Kube.Exec.{◌>>=◌}
use kubervisor.Activate.Round as Activate
use kubervisor.Controller.Store.{Handle, Ctrl, key_of, get_key, on_store, add_items, delete_gauge}
use kubervisor.Controller.Env.{Env}
use kubervisor.Controller.Reconcile.{clear_item, delete_item}
use kubervisor.Controller.Tracking.{StoreLaws, Tracked}

module _ {F L R S St D : Type 0} (env : Env F L R S St D) where
  -- The item of a resource that is gone is taken out of the store, and goes on to run.
  pub clear_item_leaks :
      StoreLaws env.store key_of
      → (name namespace : String) (bci : Handle F L D) (c : Ctrl S St)
      → Tracked env.store c.items c.runs c.created
      → env.store.get_by_key (get_key namespace name) c.items ≡ ok (some bci)
      → (let after = clear_item env name namespace c in
          (env.store.get_by_key (get_key namespace name) after.items ≡ ok none)
          × (after.runs bci.id ≡ true))
  unfolding clear_item delete_item ◌>>=◌ on_store add_items delete_gauge
  clear_item_leaks laws name namespace bci c w e = (
    rw (clear_item, e)
        (ground (
          arith,
          laws.get-delete bci c.items (get_key namespace name),
          w.keyed (get_key namespace name) bci e,
          eq_iff (key_of bci) (get_key namespace name),
        )),
    rw (clear_item, e) (w.running (get_key namespace name) bci e),
  )
