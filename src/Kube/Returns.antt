-- ===== src/Kube/Returns.antt =====
-- Calls that do not panic, with one rule for each way to build a call.
use kubervisor.Prelude.{
  ◌≡◌, refl, Bool, true, false, String, Outcome, ok, err, panic, wrapping, if◌then◌else◌,
}
use kubervisor.Kube.Exec.{Exec, pure, lift, gets, continue, ◌>>=◌}

-- Whether a call panics.
abbrev pub panics : {A : Type 0} → Outcome A → Bool
panics (ok a) = false
panics (err e) = false
panics panic = true

pub record Returns {W A : Type 0} (m : Exec W A) : Type 0 where
  pub at : (w : W) → panics (m w).0 ≡ false

module _ {W A : Type 0} where
  pub Returns-pure : (a : A) → Returns (pure {W = W} a)
  unfolding pure
  Returns-pure a = record { at = λ w. refl }

  pub Returns-gets : (f : W → A) → Returns (gets f)
  unfolding gets
  Returns-gets f = record { at = λ w. refl }

  pub Returns-lift : (r : Outcome A) → panics r ≡ false → Returns (lift {W = W} r)
  unfolding lift
  Returns-lift r h = record { at = λ w. h }

  pub Returns-if :
      (c : Bool) (m n : Exec W A) → Returns m → Returns n → Returns (if c then m else n)
  Returns-if true m n h k = h
  Returns-if false m n h k = k

module _ {W A B : Type 0} where
  pub Returns-bind :
      (m : Exec W A) (f : A → Exec W B) → Returns m → ((a : A) → Returns (f a)) → Returns (m >>= f)
  unfolding ◌>>=◌
  Returns-bind m f h k = record { at = λ w. go (m w).0 (m w).1 (h.at w) }
    where
      go : (r : Outcome A) (w : W) → panics r ≡ false → panics (continue f r w).0 ≡ false
      go (ok a) w e = (k a).at w
      go (err x) w e = refl
      go panic w e = cc

pub wrapping_returns :
    {A : Type 0} (text : String) (r : Outcome A)
    → panics r ≡ false
    → panics (wrapping text r) ≡ false
wrapping_returns text (ok a) h = refl
wrapping_returns text (err e) h = refl
wrapping_returns text panic h = h

pub ruleset returns_rules =
    (Returns-pure, Returns-gets, Returns-lift, Returns-if, Returns-bind, wrapping_returns)
