-- ===== src/Prelude/Decimal.antt =====
-- The decimal text of an `int`: `strconv.Itoa` and `strconv.Atoi`.
use Prim.Native.Char.{Char, code}
use Prim.Native.String.{[], ◌∷◌}
use Prim.Native.Nat.{ℕ, zero, suc, ◌+◌, ◌-◌, ◌*◌, ◌/◌, ◌%◌, ◌^◌, ◌<◌}
use Prim.Native.String.{String}
use mathlib.Core.Path.{◌≡◌, refl, sym, ap, ◌∙◌}
use mathlib.Core.Bool.{Bool, true, false, ◌&&◌}
use mathlib.Core.Logic.{◌≢◌, inl, inr}
use mathlib.Core.Option.{Option, none, some}
use native.Mathlib.Omega.{arith}
use kubervisor.Prelude.Tests.{ltb, leb, ◌==◌, if◌then◌else◌, Bool-cases, lt→ltb, tests}
use kubervisor.Prelude.Errors.{Outcome, ok, err, panic, errorf}
use kubervisor.Prelude.Int.{ℤ, pos, negsuc, sub_ℕ}

digit_char : ℕ → Char
digit_char zero = "0"
digit_char (suc zero) = "1"
digit_char (suc (suc zero)) = "2"
digit_char (suc (suc (suc zero))) = "3"
digit_char (suc (suc (suc (suc zero)))) = "4"
digit_char (suc (suc (suc (suc (suc zero))))) = "5"
digit_char (suc (suc (suc (suc (suc (suc zero)))))) = "6"
digit_char (suc (suc (suc (suc (suc (suc (suc zero))))))) = "7"
digit_char (suc (suc (suc (suc (suc (suc (suc (suc zero)))))))) = "8"
digit_char _ = "9"

code-digit_char : (d : ℕ) → d < 10 → code (digit_char d) ≡ 48 + d
unfolding digit_char
code-digit_char zero h = refl
code-digit_char (suc zero) h = refl
code-digit_char (suc (suc zero)) h = refl
code-digit_char (suc (suc (suc zero))) h = refl
code-digit_char (suc (suc (suc (suc zero)))) h = refl
code-digit_char (suc (suc (suc (suc (suc zero))))) h = refl
code-digit_char (suc (suc (suc (suc (suc (suc zero)))))) h = refl
code-digit_char (suc (suc (suc (suc (suc (suc (suc zero))))))) h = refl
code-digit_char (suc (suc (suc (suc (suc (suc (suc (suc zero)))))))) h = refl
code-digit_char (suc (suc (suc (suc (suc (suc (suc (suc (suc zero))))))))) h = refl
code-digit_char (suc (suc (suc (suc (suc (suc (suc (suc (suc (suc d)))))))))) h =
    absurd (omega arith)

-- The digits of `n` in front of a text, with a round of fuel for each digit.
digits : ℕ → ℕ → String → String
digits zero n s = s
digits (suc f) n s =
    let rest = digits f (n / 10) (digit_char (n % 10) ∷ s) in
    if ltb n 10 then digit_char (n % 10) ∷ s else rest

-- strconv.Itoa
unfoldable pub itoa : ℤ → String
unfolding digits digit_char
itoa (pos n) = digits (suc n) n []
itoa (negsuc n) = "-" ∷ digits (suc (suc n)) (suc n) []

-- The number that a text of digits continues, or none at a character that is no digit.
scan : String → ℕ → Option ℕ
scan [] n = some n
scan (c ∷ s) n =
    if leb 48 (code c) && leb (code c) 57 then scan s (n * 10 + (code c - 48)) else none

digits_value : String → Option ℕ
unfolding scan
digits_value [] = none
digits_value (c ∷ s) = scan (c ∷ s) 0

abbrev in_range : Bool → Option ℕ → Outcome ℤ
in_range negative none = err (errorf "invalid syntax")
in_range false (some n) = if ltb n (2 ^ 63) then ok (pos n) else err (errorf "value out of range")
in_range true (some n) =
    if leb n (2 ^ 63) then ok (sub_ℕ 0 n) else err (errorf "value out of range")

-- strconv.Atoi: a sign, if any, and at least one digit.
unfoldable pub atoi : String → Outcome ℤ
unfolding digits_value
atoi [] = err (errorf "invalid syntax")
atoi (c ∷ s) =
    if code c == 45
    then in_range true (digits_value s)
    else if code c == 43
    then in_range false (digits_value s)
    else in_range false (digits_value (c ∷ s))

scan-nil : (n : ℕ) → scan [] n ≡ some n
unfolding scan
scan-nil n = refl

scan-digit : (d n : ℕ) (s : String) → d < 10 → scan (digit_char d ∷ s) n ≡ scan s (n * 10 + d)
unfolding scan
scan-digit d n s h = rw (code-digit_char d h) (ground arith)

scan-digits : (f n : ℕ) (s : String) → n < f → scan (digits f n s) 0 ≡ scan s n
unfolding digits
scan-digits zero n s h = absurd (omega arith)
scan-digits (suc f) n s h = elim (Bool-cases (ltb n 10)) [
  | inl small ↦ rw small (scan-digit (n % 10) 0 s (omega arith) ∙ ap (scan s) (omega tests))
  | inr large ↦ rw large (
      scan-digits f (n / 10) (digit_char (n % 10) ∷ s) (omega tests)
      ∙ scan-digit (n % 10) (n / 10) s (omega arith)
      ∙ ap (scan s) (omega arith))
]

digits-cons :
    (f n : ℕ) (s : String)
    → n < f
    → (d : ℕ) × (t : String) × (d < 10) × (digits f n s ≡ digit_char d ∷ t)
unfolding digits
digits-cons zero n s h = absurd (omega arith)
digits-cons (suc f) n s h = elim (Bool-cases (ltb n 10)) [
  | inl small ↦ (n % 10, s, omega arith, rw small)
  | inr large ↦ rw large (digits-cons f (n / 10) (digit_char (n % 10) ∷ s) (omega tests))
]

digits_value-cons :
    (d : ℕ) (t : String) → digits_value (digit_char d ∷ t) ≡ scan (digit_char d ∷ t) 0
unfolding digits_value
digits_value-cons d t = refl

digits_value-digits : (f n : ℕ) → n < f → digits_value (digits f n []) ≡ some n
digits_value-digits f n h =
    let (d, t, small, e) = digits-cons f n [] h in
    rw e (digits_value-cons d t)
    ∙ ap (λ (u : String). scan u 0) (sym e)
    ∙ scan-digits f n [] h
    ∙ scan-nil n

atoi-digits :
    (d : ℕ) (t : String)
    → d < 10
    → atoi (digit_char d ∷ t) ≡ in_range false (digits_value (digit_char d ∷ t))
unfolding atoi
atoi-digits d t h = ground (arith, code-digit_char d h)

atoi-itoa_pos : (n : ℕ) → n < 2 ^ 63 → atoi (itoa (pos n)) ≡ ok (pos n)
unfolding itoa
atoi-itoa_pos n h =
    let (d, t, small, e) = digits-cons (suc n) n [] (omega arith) in
    rw e (atoi-digits d t small)
    ∙ ap (λ (u : String). in_range false (digits_value u)) (sym e)
    ∙ ap (in_range false) (digits_value-digits (suc n) n (omega arith))
    ∙ rw (lt→ltb n (2 ^ 63) h)

atoi-itoa_negsuc : (n : ℕ) → n < 2 ^ 63 → atoi (itoa (negsuc n)) ≡ ok (negsuc n)
unfolding itoa atoi
atoi-itoa_negsuc n h = rw (digits_value-digits (suc (suc n)) (suc n) (omega arith)) (ground arith)

-- What fits a 64-bit `int`.
abbrev pub IsInt64 : ℤ → Type 0
IsInt64 (pos n) = n < 2 ^ 63
IsInt64 (negsuc n) = n < 2 ^ 63

-- Every `int` is read back from its text.
pub atoi-itoa : (z : ℤ) → IsInt64 z → atoi (itoa z) ≡ ok z
atoi-itoa (pos n) h = atoi-itoa_pos n h
atoi-itoa (negsuc n) h = atoi-itoa_negsuc n h

pub atoi_ne_panic : (s : String) → atoi s ≢ panic
unfolding atoi
atoi_ne_panic [] h = cc
atoi_ne_panic (c ∷ s) h = ground arith
