-- ===== src/Programs/Collecting.antt =====
-- `_COLLECTOR` of src/vomero_sandbox/runner.py: how much it collects, and what it leaves out.
use vomero_sandbox.Common.{
  ap, ◌∙◌, assign, ◌≡◌, ◌⊎◌, ◌≤◌, ◌+◌, refl, inl, inr, Bool, true, false, ◌||◌, Option, some,
  Option-cases, List, [], ◌∷◌, ◌++◌, ℕ, ℤ, pos, ltb_ℤ, Text, text_eq, text_eq_refl, text_eq→eq,
  subst, sym, length, value, value-assign, get_or, Bool-cases, arith,
}
use vomero_sandbox.Pool.Execution.{total_size}
use vomero_sandbox.Snapshots.Order.{total_size-assign}
use vomero_sandbox.Models.{Files}
use vomero_sandbox.Programs.{Collected, add, add_all, run_collector}

-- Whether the text is one of the list.
abbrev pub listed : Text → List Text → Bool
listed s [] = false
listed s (t ∷ ts) = let rest = listed s ts in text_eq t s || rest

listed-last : (s : Text) (ts : List Text) → listed s (ts ++ s ∷ []) ≡ true
listed-last s [] = ground (arith, text_eq_refl s)
listed-last s (t ∷ ts) = ground (arith, listed-last s ts)

listed-append : (s u : Text) (ts : List Text) → listed s ts ≡ true → listed s (ts ++ u ∷ []) ≡ true
listed-append s u [] e = absurd (cc)
listed-append s u (t ∷ ts) e = ground (arith, listed-append s u ts)

-- A file with the contents `d` is given with them; or it is named among those that were too large,
-- and with it the files counted would exceed the limit.
abbrev pub Accounts : ℤ → Text → List ℕ → Collected → Type 0
Accounts maxb rel d t =
    (value rel t.out ≡ some d)
    ⊎ ((listed rel t.trunc ≡ true) × (ltb_ℤ maxb (pos (t.total + length d)) ≡ true))

more_over :
    (maxb : ℤ) (a b n : ℕ) → ltb_ℤ maxb (pos (a + n)) ≡ true → ltb_ℤ maxb (pos ((a + b) + n)) ≡ true
more_over maxb a b n e = ground arith

none_given : total_size [] ≤ 0
unfolding total_size
none_given = omega arith

module _ (read : Text → Option (List ℕ)) (maxb : ℤ) where
  -- The contents given are within the limit, if there are any.
  abbrev IsWithin : Collected → Type 0
  IsWithin t = (total_size t.out ≤ t.total) × ((t.total ≡ 0) ⊎ (ltb_ℤ maxb (pos t.total) ≡ false))

  add-IsWithin : (rel : Text) (t : Collected) → IsWithin t → IsWithin (add read maxb rel t)
  unfolding add
  add-IsWithin rel t (l, w) = elim (Option-cases (read rel)) [
    | inl n ↦ rw n (l, w)
    | inr (d, e) ↦
        let m = total_size-assign rel d t.out in
        elim (Bool-cases (ltb_ℤ maxb (pos (t.total + length d)))) [
          | inl b ↦ rw e (rw b (l, w))
          | inr b ↦ rw e (rw b (omega arith, inr b))
        ]
  ]

  add_all-IsWithin :
      (rels : List Text) (t : Collected) → IsWithin t → IsWithin (add_all read maxb rels t)
  unfolding add_all
  add_all-IsWithin [] t w = w
  add_all-IsWithin (rel ∷ rels) t w =
      add_all-IsWithin rels (add read maxb rel t) (add-IsWithin rel t w)

  add-Accounts :
      (s rel : Text) (f : List ℕ) (t : Collected)
      → read s ≡ some f
      → Accounts maxb s f t
      → Accounts maxb s f (add read maxb rel t)
  unfolding add
  add-Accounts s rel f t r a = elim (Option-cases (read rel)) [
    | inl n ↦ rw n a
    | inr (d, e) ↦ elim (Bool-cases (ltb_ℤ maxb (pos (t.total + length d)))) [
      | inl b ↦
          rw e
            (rw b (elim a [ inl p ↦ inl p | inr (q, l) ↦ inr (listed-append s rel t.trunc q, l) ]))
      | inr b ↦ rw e (
          rw b (elim a [
            | inl p ↦ inl (kept rel s d f t.out e r p)
            | inr (q, l) ↦ inr (q, more_over maxb t.total (length d) (length f) l)
          ]))
    ]
  ]
    where
      kept :
          (rel s : Text) (d f : List ℕ) (out : Files)
          → read rel ≡ some d
          → read s ≡ some f
          → value s out ≡ some f
          → value s (assign rel d out) ≡ some f
      kept rel s d f out e r p = value-assign s rel d out ∙ elim (Bool-cases (text_eq rel s)) [
        | inl y ↦ let same : rel ≡ s = text_eq→eq rel s y in rw y (sym e ∙ ap read same ∙ r)
        | inr n ↦ rw n p
      ]

  added-Accounts :
      (rel : Text) (d : List ℕ) (t : Collected)
      → read rel ≡ some d
      → Accounts maxb rel d (add read maxb rel t)
  unfolding add
  added-Accounts rel d t e = elim (Bool-cases (ltb_ℤ maxb (pos (t.total + length d)))) [
    | inl b ↦ rw e (rw b (inr (listed-last rel t.trunc, b)))
    | inr b ↦ rw e (rw b (inl (value-assign rel rel d t.out ∙ rw (text_eq_refl rel) refl)))
  ]

  add_all-Accounts :
      (s : Text) (f : List ℕ) (rels : List Text) (t : Collected)
      → read s ≡ some f
      → Accounts maxb s f t
      → Accounts maxb s f (add_all read maxb rels t)
  unfolding add_all
  add_all-Accounts s f [] t r a = a
  add_all-Accounts s f (rel ∷ rels) t r a =
      add_all-Accounts s f rels (add read maxb rel t) r (add-Accounts s rel f t r a)

  asked-Accounts :
      (s : Text) (d : List ℕ) (rels : List Text) (t : Collected)
      → read s ≡ some d
      → listed s rels ≡ true
      → Accounts maxb s d (add_all read maxb rels t)
  unfolding add_all
  asked-Accounts s d [] t e l = absurd (cc)
  asked-Accounts s d (rel ∷ rels) t e l = elim (Bool-cases (text_eq rel s)) [
    | inl y ↦
        let same = text_eq→eq rel s y in
        let f = subst (λ x. read x ≡ some d) (sym same) e in
        let a =
          subst (λ x. Accounts maxb x d (add read maxb rel t)) same (added-Accounts rel d t f) in
        add_all-Accounts s d rels (add read maxb rel t) e a
    | inr n ↦ asked-Accounts s d rels (add read maxb rel t) e (ground arith)
  ]

  -- The collector gives each file that is asked for (or that its walk finds, where all are) and that
  -- can be read, with its contents; or it names it among those that were too large, and then the bytes
  -- that it has counted would exceed the limit with it. What it gives is no more bytes than the limit,
  -- or is nothing.
  pub run_collector-Accounts :
      (walked : List Text) (want : Option (List Text)) (rel : Text) (d : List ℕ)
      → read rel ≡ some d
      → listed rel (get_or want walked) ≡ true
      → let t = run_collector read maxb walked want in
        Accounts maxb rel d t
        × ((total_size t.out ≡ 0) ⊎ (ltb_ℤ maxb (pos (total_size t.out)) ≡ false))
  unfolding run_collector
  run_collector-Accounts walked want rel d e l =
      let t0 : Collected = record { out = []; trunc = []; total = 0 } in
      let rels = get_or want walked in
      let (m, w) = add_all-IsWithin rels t0 (none_given, inl refl) in
      (asked-Accounts rel d rels t0 e l, ground arith)
