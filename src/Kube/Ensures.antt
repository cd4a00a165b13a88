-- ===== src/Kube/Ensures.antt =====
-- What holds after a call: `Q` of its value if it returns, and `E` if it fails or panics.
use kubervisor.Prelude.{
  Outcome, ok, err, panic, String, wrapping, Bool, true, false, ◌≡◌, refl, subst, if◌then◌else◌,
}
use kubervisor.Kube.Exec.{Exec, pure, lift, gets, wrap_error, continue, ◌>>=◌}

module _ {W A : Type 0} where
  abbrev pub Post : (W → Type 0) → (A → W → Type 0) → Outcome A × W → Type 0
  Post E Q (ok a, w) = Q a w
  Post E Q (err e, w) = E w
  Post E Q (panic, w) = E w

pub record Ensures {W A : Type 0} (E P : W → Type 0) (m : Exec W A) (Q : A → W → Type 0)
    : Type 0 where
  pub at : (w : W) → P w → Post E Q (m w)

module _ {W A : Type 0} (E : W → Type 0) (Q : A → W → Type 0) where
  Post-wrapping :
      (text : String) (r : Outcome A) (w : W) → Post E Q (r, w) → Post E Q (wrapping text r, w)
  Post-wrapping text (ok a) w h = h
  Post-wrapping text (err e) w h = h
  Post-wrapping text panic w h = h

module _ {W A : Type 0} {E P : W → Type 0} {Q : A → W → Type 0} where
  pub Ensures-pure : (a : A) → ((w : W) → P w → Q a w) → Ensures E P (pure a) Q
  unfolding pure
  Ensures-pure a h = record { at = h }

  pub Ensures-gets : (f : W → A) → ((w : W) → P w → Q (f w) w) → Ensures E P (gets f) Q
  unfolding gets
  Ensures-gets f h = record { at = h }

  pub Ensures-lift :
      (r : Outcome A)
      → ((w : W) → P w → E w)
      → ((a : A) → r ≡ ok a → (w : W) → P w → Q a w)
      → Ensures E P (lift r) Q
  unfolding lift
  Ensures-lift (ok a) e q = record { at = q a refl }
  Ensures-lift (err x) e q = record { at = e }
  Ensures-lift panic e q = record { at = e }

  pub Ensures-if :
      (c : Bool) (m n : Exec W A)
      → Ensures E P m Q
      → Ensures E P n Q
      → Ensures E P (if c then m else n) Q
  Ensures-if true m n h k = h
  Ensures-if false m n h k = k

  -- In each branch the test is known.
  pub Ensures-split :
      (c : Bool) (m n : Exec W A)
      → (c ≡ true → Ensures E P m Q)
      → (c ≡ false → Ensures E P n Q)
      → Ensures E P (if c then m else n) Q
  Ensures-split true m n h k = h refl
  Ensures-split false m n h k = k refl

  pub Ensures-wrap :
      (text : String) (m : Exec W A) → Ensures E P m Q → Ensures E P (wrap_error text m) Q
  unfolding wrap_error
  Ensures-wrap text m h = record { at = λ w p. Post-wrapping E Q text (m w).0 (m w).1 (h.at w p) }

module _ {W A : Type 0} {E P : W → Type 0} {Q R : A → W → Type 0} {m : Exec W A} where
  pub Ensures-then : ((a : A) (w : W) → Q a w → R a w) → Ensures E P m Q → Ensures E P m R
  Ensures-then f h = record { at = λ w p. go (m w).0 (m w).1 (h.at w p) }
    where
      go : (r : Outcome A) (w : W) → Post E Q (r, w) → Post E R (r, w)
      go (ok a) w k = f a w k
      go (err e) w k = k
      go panic w k = k

  -- What is told twice holds at once.
  pub Ensures-and :
      {K : W → Type 0} → Ensures E P m Q → Ensures K P m R → Ensures E P m (λ a w. Q a w × R a w)
  Ensures-and {K} h k = record { at = λ w p. go (m w).0 (m w).1 (h.at w p) (k.at w p) }
    where
      go :
          (r : Outcome A) (w : W)
          → Post E Q (r, w)
          → Post K R (r, w)
          → Post E (λ a v. Q a v × R a v) (r, w)
      go (ok a) w x y = (x, y)
      go (err e) w x y = x
      go panic w x y = x

module _ {W A B : Type 0} {E P : W → Type 0} {R : B → W → Type 0} where
  pub Ensures-bind :
      (Q : A → W → Type 0) (m : Exec W A) (f : A → Exec W B)
      → Ensures E P m Q
      → ((a : A) → Ensures E (Q a) (f a) R)
      → Ensures E P (m >>= f) R
  unfolding ◌>>=◌
  Ensures-bind Q m f h k = record { at = λ w p. go (m w).0 (m w).1 (h.at w p) }
    where
      go : (r : Outcome A) (w : W) → Post E Q (r, w) → Post E R (continue f r w)
      go (ok a) w q = (k a).at w q
      go (err e) w q = q
      go panic w q = q

module _ {W A B : Type 0} {E P : W → Type 0} {R : B → W → Type 0} where
  -- What follows a value that was computed before knows where it comes from.
  pub Ensures-lifted :
      (r : Outcome A) (f : A → Exec W B)
      → ((w : W) → P w → E w)
      → ((a : A) → r ≡ ok a → Ensures E P (f a) R)
      → Ensures E P (lift r >>= f) R
  unfolding ◌>>=◌ lift
  Ensures-lifted (ok a) f e h = record { at = (h a refl).at }
  Ensures-lifted (err x) f e h = record { at = e }
  Ensures-lifted panic f e h = record { at = e }

module _ {W A : Type 0} {P : W → Type 0} {m : Exec W A} where
  -- A stronger conclusion gives a weaker one.
  pub Ensures-weaken :
      {K E : W → Type 0} → Ensures K P m (λ _. K) → ((w : W) → K w → E w) → Ensures E P m (λ _. E)
  Ensures-weaken {K} {E} h f = record { at = λ w p. go (m w).0 (m w).1 (h.at w p) }
    where
      go : (r : Outcome A) (w : W) → Post K (λ _. K) (r, w) → Post E (λ _. E) (r, w)
      go (ok a) w k = f w k
      go (err e) w k = f w k
      go panic w k = f w k

  -- What holds in each case holds afterwards.
  pub Ensures-after : {E : W → Type 0} → Ensures E P m (λ _. E) → (w : W) → P w → E (m w).1
  Ensures-after {E} h w p = go (m w).0 (m w).1 (h.at w p)
    where
      go : (r : Outcome A) (w : W) → Post E (λ _. E) (r, w) → E w
      go (ok a) w k = k
      go (err e) w k = k
      go panic w k = k

  pub Ensures-returns :
      {E : W → Type 0} {Q : A → W → Type 0}
      → Ensures E P m Q
      → (w : W) → P w
      → (a : A) → (m w).0 ≡ ok a
      → Q a (m w).1
  Ensures-returns {E} {Q} h w p a e = subst (λ r. Post E Q (r, (m w).1)) e (h.at w p)

  -- What is left whatever is answered.
  pub Ensures-leaves :
      {E Q : W → Type 0}
      → ((w : W) → P w → Q (m w).1)
      → ((w : W) → Q w → E w)
      → Ensures E P m (λ _. Q)
  Ensures-leaves {E} {Q} h f = record { at = λ w p. go (m w).0 (m w).1 (h w p) }
    where
      go : (r : Outcome A) (w : W) → Q w → Post E (λ _. Q) (r, w)
      go (ok a) w k = k
      go (err e) w k = f w k
      go panic w k = f w k

  pub Ensures-always : {E : W → Type 0} → ((w : W) → P w → E (m w).1) → Ensures E P m (λ _. E)
  Ensures-always h = Ensures-leaves h (λ w k. k)
