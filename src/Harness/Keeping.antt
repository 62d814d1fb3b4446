-- ===== src/Harness/Keeping.antt =====
-- What the epilogue of the harness keeps of the variables.
use vomero_sandbox.Common.{
  ◌≡◌, ◌⊎◌, refl, ◌∙◌, sym, subst, ap, inl, inr, Bool, true, false, not, ◌&&◌, ◌||◌, Option, none,
  some, List, [], ◌∷◌, ℕ, All, All-assign, Text, codes, text_eq, text_eq→eq, assign, value,
  value-assign, or_else, IsDict, IsDict-assign, Bool-cases, if◌then◌else◌, arith,
}
use vomero_sandbox.Errors.{Outcome, ok, raise, succeeded}
use vomero_sandbox.Upload.{is_prefix}
use vomero_sandbox.Harness.{Namespace, Python, imported, keep_dumped, keep_item, keep}

-- A name that the harness takes for its own.
abbrev pub is_private : Text → Bool
is_private k = is_prefix (codes "_") k

private-apart : (j k : Text) → is_private j ≡ true → is_private k ≡ false → text_eq j k ≡ false
private-apart j k p q = elim (Bool-cases (text_eq j k)) [
  | inl e ↦ let same : j ≡ k = text_eq→eq j k e in absurd (cc)
  | inr e ↦ e
]

module _ {V : Type 0} (py : Python V) where
  -- A value that is no module and not callable, and that pickle takes.
  abbrev pub stays : V → Bool
  stays v = not (py.is_module v || py.callable v) && succeeded (py.dumps v)

  abbrev pub carried : Option V → Option V
  carried none = none
  carried (some v) = if stays v then some v else none

  abbrev pub last_kept : Text → Namespace V → Option V
  last_kept k [] = none
  last_kept k ((j, v) ∷ d) =
      let later = last_kept k d in
      elim later [ some w ↦ some w | none ↦ if text_eq j k && stays v then some v else none ]

  pub private-value :
      (j k : Text) (v : V) (g : Namespace V)
      → is_private j ≡ true
      → is_private k ≡ false
      → value k (assign j v g) ≡ value k g
  private-value j k v g p q = rw (value-assign k j v g) (rw (private-apart j k p q) refl)

  pub imported-value :
      (k : Text) (g : Namespace V) → is_private k ≡ false → value k (imported py g) ≡ value k g
  unfolding imported
  imported-value k g q =
      private-value (codes "_NS") k _ _ refl q
      ∙ private-value (codes "_types") k _ _ refl q
      ∙ private-value (codes "_pickle") k _ _ refl q

  -- What one round of the loop does to what is kept.
  abbrev Kept : Text → V → Namespace V → Namespace V → Type 0
  Kept j v acc more =
      ((stays v ≡ true) × (more ≡ assign j v acc))
      ⊎ (((is_private j ≡ true) ⊎ (stays v ≡ false)) × (more ≡ acc))

  pub or_none : (o : Option V) → or_else o none ≡ o
  or_none none = refl
  or_none (some v) = refl

  pub ok-inj : {A : Type 0} (a b : A) → Outcome.ok a ≡ ok b → a ≡ b
  ok-inj a b e = cc

  dumped-Kept :
      (o : Outcome (List ℕ)) (b : Bool) (j : Text) (v : V) (acc more : Namespace V)
      → py.dumps v ≡ o
      → (py.is_module v || py.callable v) ≡ b
      → (if b then ok acc else keep_dumped py o j v acc) ≡ ok more
      → Kept j v acc more
  unfolding keep_dumped
  dumped-Kept o true j v acc more d f e = inr (inr (rw f refl), sym (ok-inj acc more e))
  dumped-Kept (ok _) false j v acc more d f e =
      inl (rw f (rw d refl), sym (ok-inj (assign j v acc) more e))
  dumped-Kept (raise x) false j v acc more d f e = inr (inr (rw f (rw d refl)), ground arith)

  keep_item-Kept :
      (j : Text) (v : V) (acc more : Namespace V)
      → keep_item py j v acc ≡ ok more
      → Kept j v acc more
  unfolding keep_item
  keep_item-Kept j v acc more e = of (is_private j) refl e
    where
      of :
          (b : Bool)
          → is_private j ≡ b
          → (if b
              then ok acc
              else if py.is_module v || py.callable v
              then ok acc
              else keep_dumped py (py.dumps v) j v acc)
            ≡ ok more
          → Kept j v acc more
      of true p f = inr (inl p, sym (ok-inj acc more f))
      of false p f =
          dumped-Kept (py.dumps v) (py.is_module v || py.callable v) j v acc more refl refl f

  -- What the loop keeps, by the name.
  Kept-value :
      (k j : Text) (v : V) (acc more : Namespace V)
      → is_private k ≡ false
      → Kept j v acc more
      → value k more ≡ (if text_eq j k && stays v then some v else value k acc)
  Kept-value k j v acc more q (inl (s, e)) =
      rw e (rw (value-assign k j v acc) (rw s (ground arith)))
  Kept-value k j v acc more q (inr (inl p, e)) = rw e (rw (private-apart j k p q) refl)
  Kept-value k j v acc more q (inr (inr s, e)) = rw e (rw s (ground arith))

  keep_step :
      (j : Text) (v : V) (items acc kept : Namespace V)
      → keep py ((j, v) ∷ items) acc ≡ ok kept
      → (more : Namespace V) × Kept j v acc more × (keep py items more ≡ ok kept)
  unfolding keep
  keep_step j v items acc kept e = of (keep_item py j v acc) refl e
    where
      of :
          (o : Outcome (Namespace V))
          → keep_item py j v acc ≡ o
          → (elim o [ ok more ↦ keep py items more | raise x ↦ raise x ]) ≡ ok kept
          → (more : Namespace V) × Kept j v acc more × (keep py items more ≡ ok kept)
      of (raise x) i f = absurd (ground arith)
      of (ok more) i f = (more, keep_item-Kept j v acc more i, f)

  pub keep-value :
      (k : Text) (items acc kept : Namespace V)
      → is_private k ≡ false
      → keep py items acc ≡ ok kept
      → value k kept ≡ or_else (last_kept k items) (value k acc)
  unfolding keep
  keep-value k [] acc kept q e = ap (value k) (sym (ok-inj acc kept e))
  keep-value k ((j, v) ∷ items) acc kept q e =
      let (more, m, f) = keep_step j v items acc kept e in
      rw (keep-value k items more kept q f) (rw (Kept-value k j v acc more q m) (ground arith))

  pub keep-IsDict :
      (items acc kept : Namespace V) → keep py items acc ≡ ok kept → IsDict acc → IsDict kept
  unfolding keep
  keep-IsDict [] acc kept e d = subst IsDict (ok-inj acc kept e) d
  keep-IsDict ((j, v) ∷ items) acc kept e d =
      let (more, m, f) = keep_step j v items acc kept e in
      keep-IsDict items more kept f (elim m [
        | inl (_, x) ↦ subst IsDict (sym x) (IsDict-assign j v acc d)
        | inr (_, x) ↦ subst IsDict (sym x) d
      ])

  last_kept-absent :
      (k : Text) (d : Namespace V) → All (λ f. text_eq f.0 k ≡ false) d → last_kept k d ≡ none
  last_kept-absent k [] a = refl
  last_kept-absent k ((j, v) ∷ d) (n, a) = rw (last_kept-absent k d a) (rw n refl)

  pub last_kept-carried :
      (k : Text) (d : Namespace V) → IsDict d → last_kept k d ≡ carried (value k d)
  unfolding value
  last_kept-carried k [] i = refl
  last_kept-carried k ((j, v) ∷ d) (f, i) = elim (Bool-cases (text_eq j k)) [
    | inl e ↦
        rw
          (last_kept-absent k d
            (subst (λ l. All (λ g. text_eq g.0 l ≡ false) d) (text_eq→eq j k e) f))
          (rw e refl)
    | inr e ↦ rw e (rw (last_kept-carried k d i) (ground arith))
  ]

  -- Every value that stays is one that the next process can load.
  abbrev pub StaysPlain : (V → Bool) → Namespace V → Type 0
  StaysPlain plain = All (λ f. stays f.1 ≡ true → plain f.1 ≡ true)

  pub keep-plain :
      (plain : V → Bool) (items acc kept : Namespace V)
      → keep py items acc ≡ ok kept
      → StaysPlain plain items
      → All (λ f. plain f.1 ≡ true) acc
      → All (λ f. plain f.1 ≡ true) kept
  unfolding keep
  keep-plain plain [] acc kept e p a = subst (All (λ f. plain f.1 ≡ true)) (ok-inj acc kept e) a
  keep-plain plain ((j, v) ∷ items) acc kept e (p, ps) a =
      let (more, m, f) = keep_step j v items acc kept e in
      keep-plain plain items more kept f ps (elim m [
        | inl (s, x) ↦
            subst (All (λ f. plain f.1 ≡ true)) (sym x)
              (All-assign (λ f. plain f.1 ≡ true) j v acc (p s) a)
        | inr (_, x) ↦ subst (All (λ f. plain f.1 ≡ true)) (sym x) a
      ])
