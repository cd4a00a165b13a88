-- ===== src/Kube/Gives.antt =====
-- Calls that return: whatever the state, there is a value, and it has a property.
use kubervisor.Prelude.{Outcome, ok, err, panic, ◌≡◌, refl, sym, subst}
use kubervisor.Kube.Exec.{Exec, pure, lift, ◌>>=◌}
use kubervisor.Kube.Ensures.{Ensures, Post, Ensures-pure, Ensures-bind}

abbrev pub Gives : {W A : Type 0} → Exec W A → (A → Type 0) → Type 0
Gives {W} m R = Ensures {W = W} (λ w. ⊥) (λ w. Unit) m (λ a w. R a)

module _ {W A : Type 0} {R : A → Type 0} where
  pub Gives-pure : (a : A) → R a → Gives {W = W} (pure a) R
  Gives-pure a r = Ensures-pure a (λ w p. r)

  pub Gives-lift : (r : Outcome A) (a : A) → r ≡ ok a → R a → Gives {W = W} (lift r) R
  unfolding lift
  Gives-lift r a e h = rw e (record { at = λ w p. h })

  pub Gives-value : {m : Exec W A} → Gives m R → (w : W) → (a : A) × R a × ((m w).0 ≡ ok a)
  Gives-value {m} h w = go (m w).0 (m w).1 (h.at w tt)
    where
      go : (r : Outcome A) (v : W) → Post (λ w. ⊥) (λ a w. R a) (r, v) → (a : A) × R a × (r ≡ ok a)
      go (ok a) v p = (a, p, refl)
      go (err e) v p = absurd p
      go panic v p = absurd p

module _ {W A B : Type 0} {R : A → Type 0} {T : B → Type 0} where
  pub Gives-bind :
      (m : Exec W A) (f : A → Exec W B)
      → Gives m R
      → ((a : A) → R a → Gives (f a) T)
      → Gives (m >>= f) T
  Gives-bind m f h k = Ensures-bind (λ a w. R a) m f h (λ a. record { at = λ w r. (k a r).at w tt })

module _ {W A : Type 0} {R : A → Type 0} where
  pub Gives-of : (m : Exec W A) → ((w : W) → (a : A) × R a × ((m w).0 ≡ ok a)) → Gives m R
  Gives-of m h = record {
    at = λ w u.
        let (a, r, e) = h w in
        subst (λ x. Post {W = W} (λ w. ⊥) (λ a w. R a) (x, (m w).1)) (sym e) r;
  }
