-- ===== src/Common/Sorting.antt =====
-- Python's order of str, and `sorted` on items with distinct texts for keys.
use mathlib.Core.Logic.{inl, inr}
use mathlib.Core.Bool.{Bool, true, false}
use mathlib.Core.List.{List, [], ◌∷◌}
use vomero_sandbox.Common.Lists.{All, Any}
use vomero_sandbox.Common.Tests.{Bool-cases, ltb, if◌then◌else◌}
use vomero_sandbox.Common.Codes.{Text}

-- `<` of str
unfoldable pub text_ltb : Text → Text → Bool
text_ltb s [] = false
text_ltb [] (_ ∷ _) = true
text_ltb (a ∷ s) (b ∷ t) =
    let rest = text_ltb s t in if ltb a b then true else if ltb b a then false else rest

module _ {ℓ} {A : Type ℓ} where
  unfoldable pub insert : Text → A → List (Text × A) → List (Text × A)
  unfolding text_ltb
  insert k v [] = (k, v) ∷ []
  insert k v ((j, w) ∷ d) =
      let rest = insert k v d in if text_ltb j k then (j, w) ∷ rest else (k, v) ∷ (j, w) ∷ d

  -- Items in the order of their keys.
  unfoldable pub sort : List (Text × A) → List (Text × A)
  unfolding insert
  sort [] = []
  sort ((k, v) ∷ d) = insert k v (sort d)

  pub All-insert {κ} :
      (P : Text × A → Type κ) (k : Text) (v : A) (d : List (Text × A))
      → P (k, v)
      → All P d
      → All P (insert k v d)
  unfolding insert
  All-insert P k v [] p a = (p, tt)
  All-insert P k v ((j, w) ∷ d) p a = elim (Bool-cases (text_ltb j k)) [
    | inl e ↦ rw e (a.0, All-insert P k v d p a.1)
    | inr e ↦ rw e (p, a)
  ]

  pub All-sort {κ} : (P : Text × A → Type κ) (d : List (Text × A)) → All P d → All P (sort d)
  unfolding sort
  All-sort P [] a = tt
  All-sort P ((k, v) ∷ d) (p, a) = All-insert P k v (sort d) p (All-sort P d a)

module _ {A : Type 0} (P : Text × A → Type 0) where
  Any-of_head : (k : Text) (v : A) (d : List (Text × A)) → P (k, v) → Any P (insert k v d)
  unfolding insert
  Any-of_head k v [] p = inl p
  Any-of_head k v ((j, w) ∷ d) p = elim (Bool-cases (text_ltb j k)) [
    | inl e ↦ rw e (inr (Any-of_head k v d p))
    | inr e ↦ rw e (inl p)
  ]

  Any-insert : (k : Text) (v : A) (d : List (Text × A)) → Any P d → Any P (insert k v d)
  unfolding insert
  Any-insert k v [] a = inr a
  Any-insert k v ((j, w) ∷ d) a = elim (Bool-cases (text_ltb j k)) [
    | inl e ↦ rw e (elim a [ inl p ↦ inl p | inr q ↦ inr (Any-insert k v d q) ])
    | inr e ↦ rw e (inr a)
  ]

  pub Any-sort : (d : List (Text × A)) → Any P d → Any P (sort d)
  unfolding sort
  Any-sort [] a = a
  Any-sort ((k, v) ∷ d) (inl p) = Any-of_head k v (sort d) p
  Any-sort ((k, v) ∷ d) (inr a) = Any-insert k v (sort d) (Any-sort d a)
