-- ===== src/Controller/Store.antt =====
-- pkg/controller/item/types.go and pkg/controller/controller.go: the store of the items, whose cache
-- is a parameter; Start and Stop of an item; the metrics; and the state that the controller keeps
-- beside the cluster.
use Prim.Native.String.{◌++◌}
use kubervisor.Prelude.{
  ℕ, ◌+◌, Bool, true, false, ◌==◌, Option, none, some, String, Outcome, ok, err, Error,
  if◌then◌else◌,
}
use kubervisor.Prelude.Int.{ℤ, pos, ◌+ℤ◌}
use kubervisor.Prelude.Dict
use kubervisor.Prelude.Dict.{Dict}
use kubervisor.Kube.Exec.{Exec}
use kubervisor.Pod.Control.{World}
use kubervisor.Api.{PodCountStatus}
use kubervisor.Controller.Item.{KubervisorServiceItem}

-- An item as an object: two items that were made from the same resource are two objects.
pub record Handle (F L D : Type 0) : Type 0 where
  pub id : ℕ
  pub item : KubervisorServiceItem F L D

unfoldable pub get_key : String → String → String
get_key namespace name = namespace ++ ("/" ++ name)

-- KubervisorServiceItemKeyFunc, on an item.
unfoldable pub key_of : {F L D : Type 0} → Handle F L D → String
unfolding get_key
key_of bci = get_key bci.item.namespace bci.item.name

-- The cache of the Kubernetes libraries.
pub record ItemStore (St I : Type 0) : Type 0 where
  pub get_by_key : String → St → Outcome (Option I)
  pub add : I → St → Option Error × St
  pub update : I → St → Option Error × St
  pub delete : I → St → Option Error × St

-- Beside the cluster: the store, which objects run, how many were made, and the metrics, one set of
-- four series under the key of a resource.
pub record Ctrl (S St : Type 0) : Type 0 where
  pub world : World S
  pub items : St
  pub runs : ℕ → Bool
  pub created : ℕ
  pub item_gauges : Dict ℤ
  pub kubervisor_gauges : Dict PodCountStatus

abbrev count_of : Option ℤ → ℤ
count_of none = pos 0
count_of (some z) = z

-- The function that is `b` at one object and as before at the others.
abbrev pub set_runs : ℕ → Bool → (ℕ → Bool) → ℕ → Bool
set_runs id b runs = λ j. if id == j then b else runs j

module _ {S St A : Type 0} where
  -- A call that acts on the cluster only.
  unfoldable pub on_world : Exec (World S) A → Exec (Ctrl S St) A
  on_world m c = let (r, w) = m c.world in (r, record c { world = w })

module _ {S St : Type 0} where
  -- A call of the store, which may return an error.
  unfoldable pub on_store : (St → Option Error × St) → Exec (Ctrl S St) (Unit {0})
  on_store f c =
      let (e, t) = f c.items in (elim e [ none ↦ ok tt | some x ↦ err x ], record c { items = t })

  -- Inc and Dec of the number of items in a namespace.
  unfoldable pub add_items : ℤ → String → Exec (Ctrl S St) (Unit {0})
  add_items delta namespace c = (
    ok tt,
    record c {
      item_gauges =
          Dict.put c.item_gauges namespace (count_of (Dict.get c.item_gauges namespace) +ℤ delta);
    },
  )

  unfoldable pub update_gauge : String → String → PodCountStatus → Exec (Ctrl S St) (Unit {0})
  unfolding get_key
  update_gauge name namespace status c = (
    ok tt,
    record c { kubervisor_gauges = Dict.put c.kubervisor_gauges (get_key namespace name) status },
  )

  unfoldable pub delete_gauge : String → String → Exec (Ctrl S St) (Unit {0})
  unfolding get_key
  delete_gauge name namespace c = (
    ok tt,
    record c { kubervisor_gauges = Dict.remove c.kubervisor_gauges (get_key namespace name) },
  )

module _ {F L D S St : Type 0} where
  unfoldable pub start_item : Handle F L D → Exec (Ctrl S St) (Unit {0})
  start_item bci c = (ok tt, record c { runs = set_runs bci.id true c.runs })

  -- Stop of an item that was never started does nothing.
  unfoldable pub stop_item : Handle F L D → Exec (Ctrl S St) (Unit {0})
  stop_item bci c = (ok tt, record c { runs = set_runs bci.id false c.runs })

  -- A new object.
  unfoldable pub allocate : KubervisorServiceItem F L D → Exec (Ctrl S St) (Handle F L D)
  allocate item c =
      (ok (record { id = c.created; item = item }), record c { created = c.created + 1 })
