-- ===== src/Json/Integers.antt =====
-- `int` of a text of decimal digits.
use vomero_sandbox.Common.{
  ℕ, ◌+◌, ◌-◌, ◌*◌, ◌≡◌, refl, ap, ◌∙◌, Bool, true, false, some, [], ◌∷◌, pos, Text, All, decimal,
  decimal-IsDigits, decimal-nonempty, IsDigit, read_digits, read_digits-decimal, arith,
}
use vomero_sandbox.Errors.{ok}
use vomero_sandbox.Json.{Json, to_int, int_digits, int_sign, strip_left}

int_digits-digits :
    (b : Bool) (acc c : ℕ) (s : Text)
    → All IsDigit (c ∷ s)
    → int_digits b acc (c ∷ s) ≡ some (read_digits acc (c ∷ s))
unfolding int_digits read_digits
int_digits-digits b acc c [] d = ground arith
int_digits-digits b acc c (e ∷ s) d =
    ground (arith, int_digits-digits false (acc * 10 + (c - 48)) e s d.1)

pub to_int-digits :
    (c : ℕ) (s : Text)
    → All IsDigit (c ∷ s)
    → to_int (Json.str (c ∷ s)) ≡ ok (pos (read_digits 0 (c ∷ s)))
unfolding to_int strip_left int_sign
to_int-digits c s d = ground (arith, int_digits-digits true 0 c s d)

to_int-run :
    (s : Text) → All IsDigit s → (s ≡ [] → ⊥) → to_int (Json.str s) ≡ ok (pos (read_digits 0 s))
to_int-run [] d ne = absurd (ne refl)
to_int-run (c ∷ s) d ne = to_int-digits c s d

-- `int(str(n))`
pub to_int-decimal : (n : ℕ) → to_int (Json.str (decimal n)) ≡ ok (pos n)
to_int-decimal n =
    to_int-run (decimal n) (decimal-IsDigits n) (decimal-nonempty n)
    ∙ ap (λ m. ok (pos m)) (read_digits-decimal n)
