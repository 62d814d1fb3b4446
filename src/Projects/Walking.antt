-- ===== src/Projects/Walking.antt =====
-- The walk of `_read_project_tree`, src/vomero_sandbox/runner.py: what holds before it, and is kept by
-- taking any selected file, holds after it.
use vomero_sandbox.Common.{
  ℕ, ◌≡◌, refl, sym, subst, inl, inr, Bool, false, List, [], ◌∷◌, ◌++◌, append_assoc, All, All-sort,
  ℤ, Text, sort, Bool-cases, if◌then◌else◌,
}
use vomero_sandbox.Errors.{Outcome, ok, raise, ◌>>=◌}
use vomero_sandbox.Globs.{excluded}
use vomero_sandbox.Projects.{
  Node, Entries, end, entry, Taken, Walk, filenames, take, take_node, take_files, run_walks, visit,
  walks, walk,
}
use vomero_sandbox.Projects.Selecting.{Selects}

-- The predicate holds of a walk's end, if it has not raised.
abbrev pub Ends : (Taken → Type 0) → Outcome Taken → Type 0
Ends Inv (ok t) = Inv t
Ends Inv (raise e) = Unit

pub Ends-then :
    (Inv : Taken → Type 0) (r : Outcome Taken) (f : Taken → Outcome Taken)
    → Ends Inv r
    → ((t : Taken) → Inv t → Ends Inv (f t))
    → Ends Inv (r >>= f)
Ends-then Inv (ok t) f i k = k t i
Ends-then Inv (raise e) f i k = tt

module _ (exclude : List Text) (max : ℤ) (follow : Bool) (Inv : Taken → Type 0) where
  abbrev pub IsKept : (Taken → Outcome Taken) → Type 0
  IsKept f = (t : Taken) → Inv t → Ends Inv (f t)

  abbrev pub TakesFile : List Text → Text × Node → Type 0
  TakesFile here (name, n) =
      excluded name exclude ≡ false → IsKept (take_node exclude max follow n (here ++ name ∷ []))

  abbrev pub Walks : List Text → Text × Walk → Type 0
  Walks here (name, w) = IsKept (w (here ++ name ∷ []))

  -- Taking any selected file of these keeps the predicate.
  abbrev pub Takes : Entries → List Text → Type 0
  Takes es here =
      (path : List Text) (size : ℕ) (r : Outcome (List ℕ))
      → Selects exclude follow es path size r
      → IsKept (take exclude max follow size r (here ++ path))

  pub take_files-IsKept :
      (here : List Text) (ns : List (Text × Node))
      → All (TakesFile here) ns
      → IsKept (take_files exclude max follow ns here)
  unfolding take_files
  take_files-IsKept here [] a t i = i
  take_files-IsKept here ((name, n) ∷ ns) (p, a) t i = elim (Bool-cases (excluded name exclude)) [
    | inl e ↦ rw e (take_files-IsKept here ns a t i)
    | inr e ↦ rw e (
        Ends-then Inv (take_node exclude max follow n (here ++ name ∷ []) t) _ (p e t i)
          (take_files-IsKept here ns a))
  ]

  pub run_walks-IsKept :
      (here : List Text) (ws : List (Text × Walk))
      → All (Walks here) ws
      → IsKept (run_walks exclude max follow ws here)
  unfolding run_walks
  run_walks-IsKept here [] a t i = i
  run_walks-IsKept here ((name, w) ∷ ws) (p, a) t i =
      Ends-then Inv (w (here ++ name ∷ []) t) _ (p t i) (run_walks-IsKept here ws a)

  visit-IsKept :
      (here : List Text) (ns : List (Text × Node)) (ws : List (Text × Walk))
      → All (TakesFile here) ns
      → All (Walks here) ws
      → IsKept (visit exclude max follow ns ws here)
  unfolding visit
  visit-IsKept here ns ws a b t i =
      Ends-then Inv (take_files exclude max follow (sort ns) here t) _
        (take_files-IsKept here (sort ns) (All-sort (TakesFile here) ns a) t i)
        (run_walks-IsKept here (sort ws) (All-sort (Walks here) ws b))

  -- The selected files of a directory below, as files of the one above.
  Takes-below :
      (here : List Text) (name : Text) (ds : Entries)
      → ((q : List Text) (size : ℕ) (r : Outcome (List ℕ))
          → Selects exclude follow ds q size r
          → IsKept (take exclude max follow size r (here ++ name ∷ q)))
      → Takes ds (here ++ name ∷ [])
  Takes-below here name ds k q size r s =
      subst (λ p. IsKept (take exclude max follow size r p)) (sym (append_assoc here (name ∷ []) q))
        (k q size r s)

  pub filenames-Takes :
      (here : List Text) (es : Entries) → Takes es here → All (TakesFile here) (filenames es)
  unfolding Selects take_node
  filenames-Takes here end k = tt
  filenames-Takes here (entry name (Node.file n x) es) k = (
    λ e. k (name ∷ []) n x (inl (e, refl, refl, refl)),
    filenames-Takes here es λ p m r s. k p m r (inr s),
  )
  filenames-Takes here (entry name (Node.linked_file n x) es) k = (
    λ e t i.
        let path = here ++ name ∷ [] in
        elim (Bool-cases follow) [
          | inl f ↦
              subst (λ b. Ends Inv (if b then take exclude max follow n x path t else ok t)) (sym f)
                (k (name ∷ []) n x (inl (e, f, refl, refl, refl)) t i)
          | inr f ↦
              subst (λ b. Ends Inv (if b then take exclude max follow n x path t else ok t)) (sym f)
                i
        ],
    filenames-Takes here es λ p m r s. k p m r (inr s),
  )
  filenames-Takes here (entry name (Node.dir ds) es) k =
      filenames-Takes here es λ p m r s. k p m r (inr s)
  filenames-Takes here (entry name (Node.linked_dir ds) es) k =
      filenames-Takes here es λ p m r s. k p m r (inr s)
  filenames-Takes here (entry name (Node.closed_dir ds) es) k = filenames-Takes here es k
  filenames-Takes here (entry name Node.other es) k = (λ e t i. i, filenames-Takes here es k)

  pub walks-Takes :
      (here : List Text) (es : Entries)
      → Takes es here
      → All (Walks here) (walks exclude max follow es)
  unfolding Selects walks
  walks-Takes here end k = tt
  walks-Takes here (entry name (Node.file n x) es) k =
      walks-Takes here es λ p m r s. k p m r (inr s)
  walks-Takes here (entry name (Node.linked_file n x) es) k =
      walks-Takes here es λ p m r s. k p m r (inr s)
  walks-Takes here (entry name (Node.dir ds) es) k =
      let rest = walks-Takes here es λ p m r s. k p m r (inr s) in
      elim (Bool-cases (excluded name exclude)) [
        | inl e ↦ rw e rest
        | inr e ↦
            let d = Takes-below here name ds λ q m r s. k (name ∷ q) m r (inl (e, (q, refl, s))) in
            let below = here ++ name ∷ [] in
            rw e (
              visit-IsKept below (filenames ds) (walks exclude max follow ds)
                  (filenames-Takes below ds d) (walks-Takes below ds d),
              rest,
            )
      ]
  walks-Takes here (entry name (Node.linked_dir ds) es) k =
      let rest = walks-Takes here es λ p m r s. k p m r (inr s) in
      let ws = walks exclude max follow in
      let w = visit exclude max follow (filenames ds) (ws ds) in
      elim (Bool-cases (excluded name exclude)) [
        | inl e ↦ rw e rest
        | inr e ↦ elim (Bool-cases follow) [
          | inr f ↦
              rw e (
                subst (λ b. All (Walks here) (if b then (name, w) ∷ ws es else ws es)) (sym f) rest)
          | inl f ↦
              let d =
                Takes-below here name ds λ q m r s. k (name ∷ q) m r (inl (e, f, (q, refl, s))) in
              let below = here ++ name ∷ [] in
              let first =
                visit-IsKept below (filenames ds) (ws ds) (filenames-Takes below ds d)
                  (walks-Takes below ds d) in
              rw e (
                subst (λ b. All (Walks here) (if b then (name, w) ∷ ws es else ws es)) (sym f)
                  (first, rest))
        ]
      ]
  walks-Takes here (entry name (Node.closed_dir ds) es) k = walks-Takes here es k
  walks-Takes here (entry name Node.other es) k = walks-Takes here es k

  pub walk-IsKept : (es : Entries) → Takes es [] → IsKept (walk exclude max follow es [])
  unfolding walk
  walk-IsKept es k =
      visit-IsKept [] (filenames es) (walks exclude max follow es) (filenames-Takes [] es k)
        (walks-Takes [] es k)
