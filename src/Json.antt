-- ===== src/Json.antt =====
-- JSON values as Python's `json.loads` returns them, and `int(...)` of one.
pub mod Integers
use vomero_sandbox.Common.{
  ℕ, ◌+◌, ◌-◌, ◌*◌, Bool, true, false, ◌&&◌, ◌||◌, Option, none, some, [], ◌∷◌, ℤ, pos, Text,
  text_eq, leb, ◌==◌, sub_ℕ, is_empty, if◌then◌else◌,
}
use vomero_sandbox.Errors.{Exc, Outcome, ok, raise}

-- `real` is a finite float, by the integer towards zero; `obj` is a dict, so its keys differ.
mutual
  pub data Json : Type 0 where
    null nan infinite : Json
    bool : Bool → Json
    num real : ℤ → Json
    str : Text → Json
    arr : Items → Json
    obj : Fields → Json

  pub data Items : Type 0 where
    nil : Items
    cons : Json → Items → Items

  pub data Fields : Type 0 where
    end : Fields
    field : Text → Json → Fields → Fields

-- `d.get(key)` on a dict.
unfoldable pub find_field : Text → Fields → Option Json
unfolding text_eq
find_field k end = none
find_field k (field j v d) = if text_eq k j then some v else find_field k d

-- `v.get(key, default)`: only a dict has the method.
unfoldable pub get : Json → Text → Json → Outcome Json
unfolding find_field
get (obj d) k default = ok (elim (find_field k d) [ none ↦ default | some v ↦ v ])
get _ k default = raise Exc.attribute_error

-- `v == "..."`
unfoldable pub equals_text : Json → Text → Bool
unfolding text_eq
equals_text (str s) t = text_eq s t
equals_text _ t = false

abbrev is_space : ℕ → Bool
is_space c = c == 32 || leb 9 c && leb c 13 || leb 28 c && leb c 31

unfoldable pub strip_left : Text → Text
strip_left [] = []
strip_left (c ∷ s) = if is_space c then strip_left s else c ∷ s

-- The digits of an integer literal in base ten, with single underscores between digits and white
-- space behind them. The flag says that a digit may not be left out here.
unfoldable pub int_digits : Bool → ℕ → Text → Option ℕ
unfolding strip_left
int_digits wanted acc [] = if wanted then none else some acc
int_digits wanted acc (c ∷ s) =
    let digit = int_digits false (acc * 10 + (c - 48)) s in
    let underscore = int_digits true acc s in
    if leb 48 c && leb c 57
    then digit
    else if wanted
    then none
    else if c == 95
    then underscore
    else if is_empty (strip_left (c ∷ s))
    then some acc
    else none

unfoldable pub int_sign : Text → Option ℤ
unfolding int_digits
int_sign [] = none
int_sign (c ∷ s) =
    if c == 45
    then elim (int_digits true 0 s) [ none ↦ none | some n ↦ some (sub_ℕ 0 n) ]
    else if c == 43
    then elim (int_digits true 0 s) [ none ↦ none | some n ↦ some (pos n) ]
    else elim (int_digits true 0 (c ∷ s)) [ none ↦ none | some n ↦ some (pos n) ]

-- `int(v)`
unfoldable pub to_int : Json → Outcome ℤ
unfolding strip_left int_sign
to_int (num n) = ok n
to_int (real n) = ok n
to_int (bool true) = ok (pos 1)
to_int (bool false) = ok (pos 0)
to_int (str s) = elim (int_sign (strip_left s)) [ none ↦ raise Exc.value_error | some n ↦ ok n ]
to_int nan = raise Exc.value_error
to_int infinite = raise Exc.other_error
to_int null = raise Exc.type_error
to_int (arr xs) = raise Exc.type_error
to_int (obj d) = raise Exc.type_error
