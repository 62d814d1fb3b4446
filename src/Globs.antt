-- ===== src/Globs.antt =====
-- Python's fnmatch, which src/vomero_sandbox/runner.py calls to exclude names.
use vomero_sandbox.Common.{
  ℕ, zero, suc, Bool, true, false, not, ◌&&◌, ◌||◌, Option, none, some, List, [], ◌∷◌, Text,
  is_empty, length, leb, ◌==◌, if◌then◌else◌,
}

-- A piece of a pattern: `*`, `?`, `[...]` or `[!...]` with its ranges, or a character.
pub data Piece : Type 0 where
  star any : Piece
  set : Bool → List (ℕ × ℕ) → Piece
  lit : ℕ → Piece

-- What stands in front of the next `]`, if there is one.
abbrev until_bracket : Text → Option Text
until_bracket [] = none
until_bracket (c ∷ s) =
    let rest = until_bracket s in
    if c == 93 then some [] else elim rest [ none ↦ none | some t ↦ some (c ∷ t) ]

abbrev with_first : ℕ → Option Text → Option Text
with_first c none = none
with_first c (some t) = some (c ∷ t)

-- The text of a set behind its `[`: a `]` that comes first, or first behind `!`, is one of its
-- characters.
abbrev set_text : Text → Option Text
set_text [] = none
set_text (c ∷ []) = none
set_text (c ∷ d ∷ s) =
    if c == 33
    then with_first c (if d == 93 then with_first d (until_bracket s) else until_bracket (d ∷ s))
    else if c == 93
    then with_first c (until_bracket (d ∷ s))
    else until_bracket (c ∷ d ∷ s)

-- `a-z` is a range, and any other character is itself; the first argument is what is still to be
-- passed over.
abbrev ranges : ℕ → Text → List (ℕ × ℕ)
ranges n [] = []
ranges (suc n) (c ∷ s) = ranges n s
ranges zero (a ∷ []) = (a, a) ∷ []
ranges zero (a ∷ b ∷ []) = (a, a) ∷ (b, b) ∷ []
ranges zero (a ∷ b ∷ c ∷ s) =
    let single = ranges zero (b ∷ c ∷ s) in
    let behind = ranges 2 (b ∷ c ∷ s) in if b == 45 then (a, c) ∷ behind else (a, a) ∷ single

abbrev set_of : Text → Piece
set_of [] = Piece.set true []
set_of (c ∷ s) = if c == 33 then Piece.set false (ranges 0 s) else Piece.set true (ranges 0 (c ∷ s))

-- The pieces of a pattern; the first argument is what is still to be passed over.
unfoldable pub pieces : ℕ → Text → List Piece
pieces n [] = []
pieces (suc n) (c ∷ s) = pieces n s
pieces zero (c ∷ s) =
    let rest = pieces zero s in
    if c == 42
    then Piece.star ∷ rest
    else if c == 63
    then Piece.any ∷ rest
    else if c == 91
    then elim (set_text s) [
      | none ↦ Piece.lit c ∷ rest
      | some t ↦ set_of t ∷ pieces (suc (length t)) s
    ]
    else Piece.lit c ∷ rest

abbrev in_ranges : ℕ → List (ℕ × ℕ) → Bool
in_ranges c [] = false
in_ranges c ((a, b) ∷ rs) = (leb a c && leb c b) || in_ranges c rs

-- Whether a piece other than `*` stands for the character.
abbrev pub fits : Piece → ℕ → Bool
fits Piece.star c = false
fits Piece.any c = true
fits (Piece.set b rs) c = if b then in_ranges c rs else not (in_ranges c rs)
fits (Piece.lit a) c = a == c

-- Whether the test holds of the text, or of what is left of it somewhere behind.
abbrev pub anywhere : (Text → Bool) → Text → Bool
anywhere f [] = f []
anywhere f (c ∷ s) = f (c ∷ s) || anywhere f s

abbrev pub is_star : Piece → Bool
is_star Piece.star = true
is_star _ = false

unfoldable pub matches : List Piece → Text → Bool
matches [] s = is_empty s
matches (p ∷ ps) s =
    if is_star p
    then anywhere (matches ps) s
    else elim s [ [] ↦ false | c ∷ t ↦ fits p c && matches ps t ]

-- `fnmatch.fnmatch` where case matters, as on POSIX
unfoldable pub fnmatch : Text → Text → Bool
unfolding pieces matches
fnmatch name pattern = matches (pieces 0 pattern) name

-- `_excluded`
unfoldable pub excluded : Text → List Text → Bool
unfolding fnmatch
excluded name [] = false
excluded name (p ∷ patterns) = fnmatch name p || excluded name patterns
