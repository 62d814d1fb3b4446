-- ===== src/Config/Parse.antt =====
-- `_parse_quantity` of src/vomero_sandbox/config.py. A quantity is an exact fraction, where Python
-- rounds to a float; digits, spaces and letters are those of ASCII.
use vomero_sandbox.Common.{
  ℕ, ◌*◌, ◌^◌, Bool, true, false, ◌&&◌, ◌||◌, Option, none, some, List, [], ◌∷◌, ◌++◌, Text, codes,
  text_eq, read_digits, ltb, leb, ◌==◌, is_empty, length, if◌then◌else◌,
}
use vomero_sandbox.Errors.{Exc, Outcome, ok, raise}

-- `num / den`
pub record Quantity : Type 0 where
  pub num : ℕ
  pub den : ℕ

abbrev is_digit : ℕ → Bool
is_digit c = leb 48 c && leb c 57

abbrev is_letter : ℕ → Bool
is_letter c = leb 65 c && leb c 90 || leb 97 c && leb c 122

abbrev is_space : ℕ → Bool
is_space c = c == 32 || leb 9 c && leb c 13

-- The longest run of characters that pass the test, and what follows it.
unfoldable pub span : (ℕ → Bool) → Text → Text × Text
span p [] = ([], [])
span p (c ∷ s) = let (run, rest) = span p s in if p c then (c ∷ run, rest) else ([], c ∷ s)

unfoldable pub skip_spaces : Text → Text
unfolding span
skip_spaces s = (span is_space s).1

-- `[+]?`
unfoldable pub skip_plus : Text → Text
skip_plus [] = []
skip_plus (c ∷ s) = if c == 43 then s else c ∷ s

-- `\d*\.?\d+` after its first run of digits: the digits before and behind the point, and the rest.
unfoldable pub fraction : Text → Text → Option (Text × Text × Text)
unfolding span
fraction whole [] = if is_empty whole then none else some (whole, [], [])
fraction whole (c ∷ s) =
    let (part, rest) = span is_digit s in
    if c == 46 && (if is_empty part then false else true)
    then some (whole, part, rest)
    else if is_empty whole
    then none
    else some (whole, [], c ∷ s)

-- The digits of `[eE][-+]?\d+` behind the sign: the exponent, whether it is negative, and the rest.
abbrev signed_digits : Bool → Text → Option (Bool × ℕ × Text)
signed_digits negative s =
    let (run, rest) = span is_digit s in
    if is_empty run then none else some (negative, read_digits 0 run, rest)

unfoldable pub exponent_sign : Text → Option (Bool × ℕ × Text)
unfolding span read_digits
exponent_sign [] = none
exponent_sign (c ∷ s) =
    if c == 45
    then signed_digits true s
    else if c == 43
    then signed_digits false s
    else signed_digits false (c ∷ s)

-- `(?:[eE][-+]?\d+)?`; an absent exponent is 0.
unfoldable pub exponent : Text → Bool × ℕ × Text
unfolding exponent_sign
exponent [] = (false, 0, [])
exponent (c ∷ s) =
    if c == 69 || c == 101
    then elim (exponent_sign s) [ none ↦ (false, 0, c ∷ s) | some e ↦ e ]
    else (false, 0, c ∷ s)

abbrev suffixes : List (Text × Quantity)
suffixes =
    (codes "", record { num = 1; den = 1 })
    ∷ (codes "m", record { num = 1; den = 1000 })
    ∷ (codes "k", record { num = 10 ^ 3; den = 1 })
    ∷ (codes "M", record { num = 10 ^ 6; den = 1 })
    ∷ (codes "G", record { num = 10 ^ 9; den = 1 })
    ∷ (codes "T", record { num = 10 ^ 12; den = 1 })
    ∷ (codes "P", record { num = 10 ^ 15; den = 1 })
    ∷ (codes "E", record { num = 10 ^ 18; den = 1 })
    ∷ (codes "Ki", record { num = 2 ^ 10; den = 1 })
    ∷ (codes "Mi", record { num = 2 ^ 20; den = 1 })
    ∷ (codes "Gi", record { num = 2 ^ 30; den = 1 })
    ∷ (codes "Ti", record { num = 2 ^ 40; den = 1 })
    ∷ (codes "Pi", record { num = 2 ^ 50; den = 1 })
    ∷ (codes "Ei", record { num = 2 ^ 60; den = 1 })
    ∷ []

unfoldable pub find_suffix : Text → List (Text × Quantity) → Option Quantity
unfolding text_eq
find_suffix s [] = none
find_suffix s ((t, q) ∷ table) = if text_eq s t then some q else find_suffix s table

-- `float(m.group(1)) * _QUANTITY_SUFFIXES[m.group(2)]`
unfoldable pub scale : Text → Text → Bool → ℕ → Quantity → Quantity
scale whole part true e q = record {
  num = read_digits 0 (whole ++ part) * q.num;
  den = 10 ^ length part * 10 ^ e * q.den;
}
scale whole part false e q = record {
  num = read_digits 0 (whole ++ part) * 10 ^ e * q.num;
  den = 10 ^ length part * q.den;
}

-- `\s*([A-Za-z]*)\s*$`, and the value.
unfoldable pub suffix_of : Text → Text → Bool → ℕ → Text → Outcome Quantity
unfolding span skip_spaces find_suffix scale
suffix_of whole part negative e s =
    let (letters, rest) = span is_letter (skip_spaces s) in
    if is_empty (skip_spaces rest)
    then elim (find_suffix letters suffixes) [
      | none ↦ raise Exc.config_error
      | some q ↦ ok (scale whole part negative e q)
    ]
    else raise Exc.config_error

unfoldable pub parse_quantity : Text → Outcome Quantity
unfolding span skip_spaces skip_plus fraction exponent suffix_of
parse_quantity value =
    let (whole, after) = span is_digit (skip_plus (skip_spaces value)) in
    elim (fraction whole after) [
      | none ↦ raise Exc.config_error
      | some (w, part, rest) ↦
          let (negative, e, tail) = exponent rest in suffix_of w part negative e tail
    ]

-- `q <= 0`: a quantity has no sign but `+`.
abbrev pub is_zero : Quantity → Bool
is_zero q = q.num == 0

-- `req > lim`
abbrev pub exceeds : Quantity → Quantity → Bool
exceeds req lim = ltb (lim.num * req.den) (req.num * lim.den)

-- `lim > req * _OVERCOMMIT_WARN_RATIO`
abbrev pub overcommits : Quantity → Quantity → Bool
overcommits req lim = ltb (req.num * 8 * lim.den) (lim.num * req.den)
