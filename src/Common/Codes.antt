-- ===== src/Common/Codes.antt =====
-- Text as the list of its code points, and decimal printing, `str(n)`.
use Prim.Native.Nat.{ℕ, zero, suc, ◌+◌, ◌-◌, ◌*◌, ◌/◌, ◌%◌, ◌<◌, ◌≤◌, ◌^◌}
use Prim.Native.Char.{code}
use Prim.Native.String.{String}
use mathlib.Core.Path.{◌≡◌, refl, ap, sym, ◌∙◌}
use mathlib.Core.Logic.{inl, inr}
use mathlib.Core.Bool.{Bool, true, false, ◌&&◌}
use mathlib.Core.List.{List, [], ◌∷◌, ◌++◌}
use native.Mathlib.Omega.{arith}
use vomero_sandbox.Common.Lists.{All, length}
use vomero_sandbox.Common.Tests.{ltb, Bool-cases, ◌==◌, if◌then◌else◌}

abbrev pub Text : Type 0
Text = List ℕ

abbrev pub codes : String → Text
codes String.[] = []
codes (String.◌∷◌ c s) = code c ∷ codes s

unfoldable pub text_eq : Text → Text → Bool
text_eq [] [] = true
text_eq [] (_ ∷ _) = false
text_eq (_ ∷ _) [] = false
text_eq (a ∷ s) (b ∷ t) = a == b && text_eq s t

pub text_eq_refl : (s : Text) → text_eq s s ≡ true
unfolding text_eq
text_eq_refl [] = refl
text_eq_refl (a ∷ s) = ground (arith, text_eq_refl s)

pub text_eq→eq : (s t : Text) → text_eq s t ≡ true → s ≡ t
unfolding text_eq
text_eq→eq [] [] h = refl
text_eq→eq [] (_ ∷ _) h = absurd (cc)
text_eq→eq (_ ∷ _) [] h = absurd (cc)
text_eq→eq (a ∷ s) (b ∷ t) h = ground (arith, text_eq→eq s t)

-- The digits of `n` in front of `acc`. A number below the fuel has no more digits than the fuel.
digits_onto : ℕ → ℕ → Text → Text
digits_onto zero n acc = acc
digits_onto (suc f) n acc =
    let rest = digits_onto f (n / 10) ((48 + n % 10) ∷ acc) in
    if ltb n 10 then (48 + n) ∷ acc else rest

-- `str(n)`
unfoldable pub decimal : ℕ → Text
unfolding digits_onto
decimal n = digits_onto (suc n) n []

-- The number that a run of digits denotes behind `acc`.
unfoldable pub read_digits : ℕ → Text → ℕ
read_digits acc [] = acc
read_digits acc (c ∷ s) = read_digits (acc * 10 + (c - 48)) s

read_digits-digits_onto :
    (f n : ℕ) (rest : Text) → n < f → read_digits 0 (digits_onto f n rest) ≡ read_digits n rest
unfolding digits_onto read_digits
read_digits-digits_onto zero n rest h = absurd (omega arith)
read_digits-digits_onto (suc f) n rest h = elim (Bool-cases (ltb n 10)) [
  | inl e ↦ rw e (ap (λ m. read_digits m rest) (omega arith))
  | inr e ↦ rw e (
      read_digits-digits_onto f (n / 10) _ (ground arith)
      ∙ ap (λ m. read_digits m rest) (omega arith))
]

pub read_digits-decimal : (n : ℕ) → read_digits 0 (decimal n) ≡ n
unfolding decimal read_digits
read_digits-decimal n = read_digits-digits_onto (suc n) n [] (omega arith)

-- `str` tells numbers apart.
pub decimal-injective : (m n : ℕ) → decimal m ≡ decimal n → m ≡ n
decimal-injective m n e = sym (read_digits-decimal m) ∙ ap (read_digits 0) e ∙ read_digits-decimal n

pub append_cancel_left : (s : Text) {t u : Text} → s ++ t ≡ s ++ u → t ≡ u
append_cancel_left [] e = e
append_cancel_left (a ∷ s) e = append_cancel_left s (cc)

pub text_eq_ne : (s t : Text) → (s ≡ t → ⊥) → text_eq s t ≡ false
text_eq_ne s t h = elim (Bool-cases (text_eq s t)) [
  | inl e ↦ absurd (h (text_eq→eq s t e))
  | inr e ↦ e
]

abbrev pub IsDigit : ℕ → Type 0
IsDigit c = (48 ≤ c) × (c ≤ 57)

digits_onto-IsDigits : (f n : ℕ) (acc : Text) → All IsDigit acc → All IsDigit (digits_onto f n acc)
unfolding digits_onto
digits_onto-IsDigits zero n acc d = d
digits_onto-IsDigits (suc f) n acc d = elim (Bool-cases (ltb n 10)) [
  | inl e ↦ rw e ((omega arith, ground arith), d)
  | inr e ↦ rw e (digits_onto-IsDigits f (n / 10) _ ((omega arith, omega arith), d))
]

pub decimal-IsDigits : (n : ℕ) → All IsDigit (decimal n)
unfolding decimal
decimal-IsDigits n = digits_onto-IsDigits (suc n) n [] tt

length-digits_onto :
    (f n k : ℕ) (acc : Text) → n < 10 ^ suc k → length (digits_onto f n acc) ≤ suc k + length acc
unfolding digits_onto
length-digits_onto zero n k acc l = omega arith
length-digits_onto (suc f) n zero acc l = ground arith
length-digits_onto (suc f) n (suc k) acc l =
    let below : n / 10 < 10 ^ suc k = omega arith in
    let rest = length-digits_onto f (n / 10) k ((48 + n % 10) ∷ acc) below in ground arith

-- A number below the `k`-th power of ten has at most `k` digits.
pub length-decimal : (n k : ℕ) → 1 ≤ k → n < 10 ^ k → length (decimal n) ≤ k
unfolding decimal
length-decimal n zero p l = absurd (omega arith)
length-decimal n (suc k) p l = omega (arith, length-digits_onto (suc n) n k [] l)

digits_onto-nonempty : (f n : ℕ) (c : ℕ) (acc : Text) → digits_onto f n (c ∷ acc) ≡ [] → ⊥
unfolding digits_onto
digits_onto-nonempty zero n c acc e = absurd (cc)
digits_onto-nonempty (suc f) n c acc e = elim (Bool-cases (ltb n 10)) [
  | inl s ↦ absurd (ground arith)
  | inr l ↦ digits_onto-nonempty f (n / 10) (48 + n % 10) (c ∷ acc) (ground arith)
]

pub decimal-nonempty : (n : ℕ) → decimal n ≡ [] → ⊥
unfolding decimal digits_onto
decimal-nonempty n e = elim (Bool-cases (ltb n 10)) [
  | inl s ↦ absurd (ground arith)
  | inr l ↦ digits_onto-nonempty n (n / 10) (48 + n % 10) [] (ground arith)
]
