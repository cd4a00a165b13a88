-- ===== src/Kube.antt =====
-- What the program uses of Kubernetes and of its clock: the fields of a pod that it reads or writes,
-- the client of the API server, and the text of a time. The client and the text are parameters.
-- A map of Go may be nil: `none`. A copy made by `DeepCopy` is the value itself.
pub mod Exec
pub mod Returns
pub mod Ensures
pub mod Gives
use kubervisor.Prelude.{
  ℕ, Bool, ◌*◌, ◌/◌, ◌<◌, ◌≡◌, Option, none, some, List, String, Outcome, ok, panic, Error,
}
use kubervisor.Prelude.Int.{ℤ, pos}
use kubervisor.Prelude.Dict
use kubervisor.Prelude.Dict.{Dict}

pub record PodCondition : Type 0 where
  pub kind : String
  pub status : String

pub record Pod : Type 0 where
  pub name : String
  pub namespace : String
  pub labels : Option (Dict String)
  pub annotations : Option (Dict String)
  pub phase : String
  pub conditions : List PodCondition

-- A lookup in a map that may be nil.
unfoldable pub read : Option (Dict String) → String → Option String
read none k = none
read (some m) k = Dict.get m k

-- An assignment to an entry of a map: a nil map panics.
unfoldable pub set_label : String → String → Pod → Outcome Pod
set_label k v p = elim p.labels [
  | none ↦ panic
  | some m ↦ ok (record p { labels = some (Dict.put m k v) })
]

unfoldable pub set_annotation : String → String → Pod → Outcome Pod
set_annotation k v p = elim p.annotations [
  | none ↦ panic
  | some m ↦ ok (record p { annotations = some (Dict.put m k v) })
]

-- `delete` on a map, which does nothing to a nil map.
unfoldable pub delete_entry : String → Option (Dict String) → Option (Dict String)
delete_entry k none = none
delete_entry k (some m) = some (Dict.remove m k)

-- The API server as the client sees it, over a state of its own.
pub record KubeClient (S : Type 0) : Type 0 where
  pub update : Pod → S → Outcome Pod × S
  pub delete : String → String → S → Option Error × S

-- A time is a count of nanoseconds. `format` and `parse` are those of RFC 3339, which keeps whole
-- seconds, and has years of four digits.
pub record TimeText : Type 0 where
  pub format : ℤ → String
  pub parse : String → Outcome ℤ
  pub parse-format :
      (t : ℕ)
      → t < 253402300800000000000
      → parse (format (pos t)) ≡ ok (pos (t / 1000000000 * 1000000000))

-- Label selectors `L` and their requirements `R`, of the Kubernetes libraries. `requirement k v` is
-- `NewRequirement(k, Equals, {v})`; `add` returns the longer selector; `deep_equal` is that of
-- `reflect`, on selectors that may be nil.
pub record SelectorOps (L R : Type 0) : Type 0 where
  pub everything : L
  pub requirement : String → String → Outcome R
  pub add : L → R → L
  pub deep_equal : Option L → Option L → Bool

-- A dereference: a nil pointer panics.
abbrev pub deref {ℓ} : {A : Type ℓ} → Option A → Outcome A
deref none = panic
deref (some a) = ok a
