-- ===== src/Prelude/Errors.antt =====
-- Errors of Go as values. `errorf` is `fmt.Errorf` with its format's fixed text, `wrapf` one that
-- reports another error, and `not_found` an error for which `apierrors.IsNotFound` holds.
use Prim.Native.String.{String}
use mathlib.Core.Bool.{Bool, true, false}
use mathlib.Core.Path.{◌≡◌}
use native.Mathlib.Omega.{arith}

pub data Error : Type 0 where
  errorf : String → Error
  wrapf : String → Error → Error
  not_found : Error

-- A call returns a value, an error, or panics (a nil dereference, a division by zero).
pub data Outcome {ℓ} (A : Type ℓ) : Type ℓ where
  ok : A → Outcome A
  err : Error → Outcome A
  panic : Outcome A

infixl 5 ◌>>=◌
abbrev pub ◌>>=◌ {ℓ κ} : {A : Type ℓ} {B : Type κ} → Outcome A → (A → Outcome B) → Outcome B
ok a >>= f = f a
err e >>= f = err e
panic >>= f = panic

-- `if b { return err }`
abbrev pub reject_if : Bool → Error → Outcome (Unit {0})
reject_if true e = err e
reject_if false e = ok tt

-- `if err := …; err != nil { return fmt.Errorf(…, err) }`
abbrev pub wrapping {ℓ} : {A : Type ℓ} → String → Outcome A → Outcome A
wrapping s (ok a) = ok a
wrapping s (err e) = err (wrapf s e)
wrapping s panic = panic

infixl 5 ◌>>◌
abbrev pub ◌>>◌ {ℓ} : {B : Type ℓ} → Outcome (Unit {0}) → Outcome B → Outcome B
m >> k = m >>= λ _. k

pub ok-injective {ℓ} : {A : Type ℓ} {a b : A} → ok a ≡ ok b → a ≡ b
ok-injective e = cc

-- A chain that succeeds does so step by step.
pub bind_inv {ℓ κ} :
    {A : Type ℓ} {B : Type κ} (m : Outcome A) (f : A → Outcome B) (b : B)
    → (m >>= f) ≡ ok b
    → (a : A) × (m ≡ ok a) × (f a ≡ ok b)
bind_inv (ok a) f b h = (a, λ i. ok a, h)
bind_inv (err e) f b h = absurd (ground arith)
bind_inv panic f b h = absurd (ground arith)

pub wrapping_inv {ℓ} :
    {A : Type ℓ} (text : String) (m : Outcome A) (a : A) → wrapping text m ≡ ok a → m ≡ ok a
wrapping_inv text (ok b) a h = h
wrapping_inv text (err e) a h = absurd (ground arith)
wrapping_inv text panic a h = h
