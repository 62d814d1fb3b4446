-- ===== src/Paths/Inside.antt =====
-- `_safe_member_name` of src/vomero_sandbox/runner.py, against what a path reaches.
use vomero_sandbox.Common.{
  ◌≡◌, refl, true, false, Option, none, some, List, [], ◌∷◌, Text, codes, is_empty, ◌||◌,
  if◌then◌else◌, is_some, arith,
}
use vomero_sandbox.Upload.{is_prefix}
use vomero_sandbox.Paths.{split, any_unsafe, safe_member_name, is_dot, is_dotdot}

-- The directory that the parts lead to from `here`, a path from the root with its last part first;
-- none if they lead above the root on the way.
abbrev pub walk : List Text → List Text → Option (List Text)
walk here [] = some here
walk here (p ∷ ps) =
    let same = walk here ps in
    let down = walk (p ∷ here) ps in
    if is_empty p || is_dot p
    then same
    else if is_dotdot p
    then elim here [ [] ↦ none | _ ∷ up ↦ walk up ps ]
    else down

-- Where a name leads to under a directory it is joined to: none for an absolute one.
unfoldable pub location : Text → Option (List Text)
location name = if is_prefix (codes "/") name then none else walk [] (split name)

walk-safe : (ps here : List Text) → any_unsafe ps ≡ false → is_some (walk here ps) ≡ true
walk-safe [] here e = refl
walk-safe (p ∷ ps) here e = ground (arith, walk-safe ps here, walk-safe ps (p ∷ here))

pub location-safe : (name : Text) → safe_member_name name ≡ true → is_some (location name) ≡ true
unfolding safe_member_name location
location-safe name e = ground (arith, walk-safe (split name) [])
