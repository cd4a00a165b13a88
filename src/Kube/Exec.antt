-- ===== src/Kube/Exec.antt =====
-- Calls that act on the cluster: they return, fail or panic, and leave a state in each case.
use kubervisor.Prelude.{String, Outcome, ok, err, panic, wrapping}

abbrev pub Exec : Type 0 → Type 0 → Type 0
Exec W A = W → Outcome A × W

module _ {W A : Type 0} where
  unfoldable pub pure : A → Exec W A
  pure a w = (ok a, w)

  unfoldable pub lift : Outcome A → Exec W A
  lift r w = (r, w)

  -- A value that is read from the state.
  unfoldable pub gets : (W → A) → Exec W A
  gets f w = (ok (f w), w)

  -- An error is reported in another.
  unfoldable pub wrap_error : String → Exec W A → Exec W A
  wrap_error text m w = let (r, w') = m w in (wrapping text r, w')

module _ {W A B : Type 0} where
  abbrev pub continue : (A → Exec W B) → Outcome A → Exec W B
  continue f (ok a) w = f a w
  continue f (err e) w = (err e, w)
  continue f panic w = (panic, w)

  infixl 5 ◌>>=◌ ◌>>◌
  -- Opening this opens `pure`, `lift` and `gets` too.
  unfoldable pub ◌>>=◌ : Exec W A → (A → Exec W B) → Exec W B
  unfolding pure lift gets
  ◌>>=◌ m f w = let (r, w') = m w in continue f r w'

  abbrev pub ◌>>◌ : Exec W A → Exec W B → Exec W B
  m >> n = m >>= λ _. n
