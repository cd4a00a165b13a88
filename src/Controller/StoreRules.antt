-- ===== src/Controller/StoreRules.antt =====
-- Rules for calls that change the store, what runs, or the cluster alone.
use kubervisor.Prelude.{ℕ, ◌≡◌, Bool, Option, none, String, Outcome, ok, err, panic, Error}
use kubervisor.Prelude.Int.{ℤ}
use kubervisor.Kube.Exec.{Exec, pure, ◌>>=◌}
use kubervisor.Kube.Ensures.{Ensures, Post, Ensures-pure, Ensures-bind}
use kubervisor.Pod.Control.{World}
use kubervisor.Api.{PodCountStatus}
use kubervisor.Controller.Store.{Ctrl, on_world, on_store, add_items, update_gauge, delete_gauge}

-- A predicate of the store, of what runs, and of the number of objects, on the state.
abbrev pub View : {S St : Type 0} → (St → (ℕ → Bool) → ℕ → Type 0) → Ctrl S St → Type 0
View P c = P c.items c.runs c.created

module _ {S St A : Type 0} (P K : St → (ℕ → Bool) → ℕ → Type 0) where
  pub Ensures-on_world :
      (m : Exec (World S) A)
      → ((t : St) (runs : ℕ → Bool) (n : ℕ) → P t runs n → K t runs n)
      → Ensures (View K) (View P) (on_world m) (λ _. View P)
  unfolding on_world
  Ensures-on_world m h = record { at = λ c p. go c (m c.world).0 (m c.world).1 p }
    where
      go :
          (c : Ctrl S St) (r : Outcome A) (w : World S)
          → View P c
          → Post (View K) (λ _. View P) (r, record c { world = w })
      go c (ok a) w p = p
      go c (err e) w p = h c.items c.runs c.created p
      go c panic w p = h c.items c.runs c.created p

module _ {S St A B : Type 0} (P K : St → (ℕ → Bool) → ℕ → Type 0) where
  -- A write of the resource.
  pub send-Ensures :
      (m : Exec (World S) A) (b : B)
      → ((t : St) (runs : ℕ → Bool) (n : ℕ) → P t runs n → K t runs n)
      → Ensures (View K) (View P) (on_world m >>= λ _. pure b) (λ _. View P)
  send-Ensures m b h =
      Ensures-bind (λ _. View P) _ _ (Ensures-on_world P K m h) (λ _. Ensures-pure _ (λ c p. p))

module _ {S St : Type 0} {E : Ctrl S St → Type 0} (P : St → (ℕ → Bool) → ℕ → Type 0) where
  pub Ensures-add_items :
      (delta : ℤ) (namespace : String)
      → Ensures E (View P) (add_items delta namespace) (λ _. View P)
  unfolding add_items
  Ensures-add_items delta namespace = record { at = λ c p. p }

  pub Ensures-update_gauge :
      (name namespace : String) (status : PodCountStatus)
      → Ensures E (View P) (update_gauge name namespace status) (λ _. View P)
  unfolding update_gauge
  Ensures-update_gauge name namespace status = record { at = λ c p. p }

  pub Ensures-delete_gauge :
      (name namespace : String) → Ensures E (View P) (delete_gauge name namespace) (λ _. View P)
  unfolding delete_gauge
  Ensures-delete_gauge name namespace = record { at = λ c p. p }

  pub Ensures-on_store :
      (f : St → Option Error × St) (Q : St → (ℕ → Bool) → ℕ → Type 0)
      → ((t : St) → (f t).0 ≡ none)
      → ((t : St) (runs : ℕ → Bool) (n : ℕ) → P t runs n → Q (f t).1 runs n)
      → Ensures E (View P) (on_store f) (λ _. View Q)
  unfolding on_store
  Ensures-on_store f Q safe h = record {
    at = λ c p. rw (safe c.items) (h c.items c.runs c.created p);
  }
