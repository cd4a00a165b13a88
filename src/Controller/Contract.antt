-- ===== src/Controller/Contract.antt =====
-- pkg/controller/controller.go: what syncKubervisorService promises, on a view of the controller that
-- knows of every key only whether an item runs for it.
use kubervisor.Prelude.{
  ℕ, ◌≡◌, ◌≢◌, Bool, true, false, Option, none, some, String, str_eq, Outcome, ok, err, panic,
  Error, if◌then◌else◌,
}
use kubervisor.Election.Attempt.{is_not_found}
use kubervisor.Controller.Store.{Handle, Ctrl}
use kubervisor.Controller.Env.{Service, Env}

-- Whether a lookup finds an item, and one that runs.
abbrev pub is_stored : {A : Type 0} → Outcome (Option A) → Bool
is_stored (ok none) = false
is_stored (ok (some a)) = true
is_stored (err e) = false
is_stored panic = false

abbrev pub is_running : {F L D : Type 0} → (ℕ → Bool) → Outcome (Option (Handle F L D)) → Bool
is_running runs (ok none) = false
is_running runs (ok (some bci)) = runs bci.id
is_running runs (err e) = false
is_running runs panic = false

-- The view: the keys with an item that is stored and runs.
abbrev pub served : {F L R S St D : Type 0} → Env F L R S St D → Ctrl S St → String → Bool
served env c k = is_running c.runs (env.store.get_by_key k c.items)

abbrev pub set_served : String → Bool → (String → Bool) → String → Bool
set_served own v a k = if str_eq own k then v else a k

-- The promise for the resource under the key `own`, whose view goes from `a` to `b`: a resource that
-- was not started waits; a service that exists is served, one that does not is withdrawn; and a failure
-- is about this resource only.
pub data Promise (own : String) (a b : String → Bool) (started : Bool) (service : Outcome Service)
    (result : Outcome Bool) : Type 0 where
  waits :
      (again : Bool)
      → result ≡ ok again
      → started ≡ false
      → b ≡ a
      → Promise own a b started service result
  serves :
      (again : Bool) (svc : Service)
      → result ≡ ok again
      → started ≡ true
      → service ≡ ok svc
      → b ≡ set_served own true a
      → Promise own a b started service result
  withdraws :
      (again : Bool) (e : Error)
      → result ≡ ok again
      → started ≡ true
      → service ≡ err e
      → is_not_found e ≡ true
      → b ≡ set_served own false a
      → Promise own a b started service result
  fails :
      ((again : Bool) → result ≢ ok again)
      → ((k : String) → own ≢ k → b k ≡ a k)
      → Promise own a b started service result
