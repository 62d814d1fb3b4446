-- ===== src/Common/Dicts.antt =====
-- A dict with texts for keys, as the list of its items in the order of insertion.
use mathlib.Core.Path.{◌≡◌, refl, subst}
use mathlib.Core.Logic.{inl, inr}
use mathlib.Core.Bool.{false}
use mathlib.Core.Option.{Option, none, some}
use mathlib.Core.List.{List, [], ◌∷◌, ◌++◌}
use native.Mathlib.Omega.{arith}
use vomero_sandbox.Common.Lists.{All}
use vomero_sandbox.Common.Tests.{Bool-cases, if◌then◌else◌}
use vomero_sandbox.Common.Codes.{Text, text_eq, text_eq→eq, text_eq_refl}

module _ {ℓ} {A : Type ℓ} where
  -- `d[k] = v`
  unfoldable pub assign : Text → A → List (Text × A) → List (Text × A)
  assign k v [] = (k, v) ∷ []
  assign k v ((j, w) ∷ d) =
      let rest = assign k v d in if text_eq j k then (j, v) ∷ d else (j, w) ∷ rest

  -- `d.update(e)`
  unfoldable pub update : List (Text × A) → List (Text × A) → List (Text × A)
  unfolding assign
  update d [] = d
  update d ((k, v) ∷ e) = update (assign k v d) e

  -- `d.get(k)`
  unfoldable pub value : Text → List (Text × A) → Option A
  value k [] = none
  value k ((j, v) ∷ d) = let later = value k d in if text_eq j k then some v else later

  pub value-assign :
      (k j : Text) (v : A) (d : List (Text × A))
      → value k (assign j v d) ≡ (if text_eq j k then some v else value k d)
  unfolding assign value
  value-assign k j v [] = refl
  value-assign k j v ((i, w) ∷ d) = elim (Bool-cases (text_eq i j)) [
    | inl e ↦ rw e (rw (text_eq→eq i j e) (ground arith))
    | inr e ↦
        rw e (
          rw (value-assign k j v d)
            (ground (arith, text_eq→eq i k, text_eq→eq j k, text_eq_refl i)))
  ]

  -- A key that the dict does not have is put at its end.
  pub assign_new :
      (k : Text) (v : A) (d : List (Text × A))
      → All (λ f. text_eq f.0 k ≡ false) d
      → assign k v d ≡ d ++ (k, v) ∷ []
  unfolding assign
  assign_new k v [] n = refl
  assign_new k v ((j, w) ∷ d) (n, m) = rw n (rw (assign_new k v d m) refl)

  pub All-assign {κ} :
      (P : Text × A → Type κ) (k : Text) (v : A) (d : List (Text × A))
      → P (k, v)
      → All P d
      → All P (assign k v d)
  unfolding assign
  All-assign P k v [] p a = (p, tt)
  All-assign P k v ((j, w) ∷ d) p (q, a) = elim (Bool-cases (text_eq j k)) [
    | inl e ↦ rw e (rw (text_eq→eq j k e) (p, a))
    | inr e ↦ rw e (q, All-assign P k v d p a)
  ]

  -- The items of a list that is a dict have distinct keys.
  abbrev pub IsDict : List (Text × A) → Type 0
  IsDict [] = Unit
  IsDict ((k, v) ∷ d) = All (λ f. text_eq f.0 k ≡ false) d × IsDict d

  pub IsDict-assign : (k : Text) (v : A) (d : List (Text × A)) → IsDict d → IsDict (assign k v d)
  unfolding assign
  IsDict-assign k v [] i = (tt, tt)
  IsDict-assign k v ((j, w) ∷ d) (f, i) = elim (Bool-cases (text_eq j k)) [
    | inl e ↦ rw e (f, i)
    | inr e ↦ rw e (
      All-assign (λ g. text_eq g.0 j ≡ false) k v d (ground (arith, text_eq→eq k j, text_eq_refl k))
          f,
      IsDict-assign k v d i,
    )
  ]

  -- The value of a key among assignments in order: the last one's.
  abbrev pub last_value : Text → List (Text × A) → Option A
  last_value k [] = none
  last_value k ((j, v) ∷ d) =
      let later = last_value k d in
      elim later [ some w ↦ some w | none ↦ if text_eq j k then some v else none ]

  abbrev pub or_else : Option A → Option A → Option A
  or_else (some a) o = some a
  or_else none o = o

  pub value-update :
      (k : Text) (d e : List (Text × A))
      → value k (update d e) ≡ or_else (last_value k e) (value k d)
  unfolding update
  value-update k d [] = refl
  value-update k d ((j, v) ∷ e) =
      rw (value-update k (assign j v d) e) (rw (value-assign k j v d) (ground arith))

  last_value-absent :
      (k : Text) (d : List (Text × A)) → All (λ f. text_eq f.0 k ≡ false) d → last_value k d ≡ none
  last_value-absent k [] a = refl
  last_value-absent k ((j, v) ∷ d) (n, a) = rw (last_value-absent k d a) (rw n refl)

  -- A dict has one value for a key.
  pub last_value-IsDict : (k : Text) (d : List (Text × A)) → IsDict d → last_value k d ≡ value k d
  unfolding value
  last_value-IsDict k [] i = refl
  last_value-IsDict k ((j, v) ∷ d) (f, i) = elim (Bool-cases (text_eq j k)) [
    | inl e ↦
        rw
          (last_value-absent k d
            (subst (λ l. All (λ g. text_eq g.0 l ≡ false) d) (text_eq→eq j k e) f))
          (rw e refl)
    | inr e ↦ rw e (rw (last_value-IsDict k d i) (ground arith))
  ]
