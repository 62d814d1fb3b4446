-- ===== src/Projects/Sizes.antt =====
-- What `_read_project_tree` of src/vomero_sandbox/runner.py takes, and how much.
use vomero_sandbox.Common.{
  ℕ, ◌≡◌, ◌⊎◌, ◌≤◌, ◌+◌, refl, subst, inl, inr, Bool, true, false, List, [], ◌∷◌, All, All-assign,
  length, ℤ, pos, ltb_ℤ, Text, assign, is_empty, Bool-cases, arith,
}
use vomero_sandbox.Errors.{Outcome, ok, raise, ◌>>=◌}
use vomero_sandbox.Models.{Files}
use vomero_sandbox.Paths.{join}
use vomero_sandbox.Pool.Execution.{total_size}
use vomero_sandbox.Snapshots.Order.{total_size-assign}
use vomero_sandbox.Projects.{
  Node, Entries, Taken, take, walk, all_taken, read_entries, read_project_tree,
}
use vomero_sandbox.Projects.Selecting.{Selects}
use vomero_sandbox.Projects.Walking.{Ends, Takes, walk-IsKept}

-- The root of a project is a directory with these entries, or a link to one.
abbrev pub IsRoot : Node → Entries → Type 0
IsRoot root es = (root ≡ Node.dir es) ⊎ (root ≡ Node.linked_dir es)

assign-full : (k : Text) (v : List ℕ) (d : Files) → is_empty (assign k v d) ≡ false
unfolding assign
assign-full k v [] = refl
assign-full k v ((j, w) ∷ d) = ground arith

module _ (exclude : List Text) (max : ℤ) (follow : Bool) (es : Entries) where
  -- The file is one that the tree is meant to give, under its path.
  abbrev pub IsSelected : Text × List ℕ → Type 0
  IsSelected (rel, bytes) =
      (path : List Text) × (size : ℕ) × (rel ≡ join path)
      × Selects exclude follow es path size (ok bytes)

  abbrev TakenSelected : Taken → Type 0
  TakenSelected t = All IsSelected t.1

  Takes-selected : Takes exclude max follow TakenSelected es []
  unfolding take
  Takes-selected path size (raise e) s t i = ground arith
  Takes-selected path size (ok b) s (total, files) i =
      elim (Bool-cases (ltb_ℤ max (pos (total + size)))) [
        | inl e ↦ rw e tt
        | inr e ↦ rw e (All-assign IsSelected (join path) b files (path, size, refl, s) i)
      ]

  -- Each file's contents have the size that was asked for before it was read.
  abbrev pub IsSteady : Type 0
  IsSteady =
      (path : List Text) (size : ℕ) (b : List ℕ)
      → Selects exclude follow es path size (ok b)
      → length b ≡ size

  abbrev WithinLimit : Taken → Type 0
  WithinLimit (total, files) =
      (total_size files ≤ total) × ((is_empty files ≡ true) ⊎ (ltb_ℤ max (pos total) ≡ false))

  Takes-within : IsSteady → Takes exclude max follow WithinLimit es []
  unfolding take
  Takes-within steady path size (raise e) s t i = ground arith
  Takes-within steady path size (ok b) s (total, files) i =
      let l = steady path size b s in
      let m = total_size-assign (join path) b files in
      elim (Bool-cases (ltb_ℤ max (pos (total + size)))) [
        | inl e ↦ rw e tt
        | inr e ↦ rw e (omega arith, inr e)
      ]

  pub taken-Ends :
      (Inv : Taken → Type 0) (q : Outcome Taken) (files : Files)
      → Ends Inv q
      → (q >>= all_taken exclude max follow) ≡ ok files
      → (is_empty files ≡ false) × ((total : ℕ) × Inv (total, files))
  taken-Ends Inv (raise x) files i e = absurd (cc)
  taken-Ends Inv (ok (total, [])) files i e = absurd (cc)
  taken-Ends Inv (ok (total, f ∷ fs)) files i e =
      let same : f ∷ fs ≡ files = cc in
      subst (λ d. (is_empty d ≡ false) × ((total : ℕ) × Inv (total, d))) same (refl, (total, i))

  -- What the walk of a project has ended with, where reading it succeeds.
  pub walked :
      (root : Node) (files : Files)
      → IsRoot root es
      → read_project_tree exclude max follow root ≡ ok files
      → (walk exclude max follow es [] (0, []) >>= all_taken exclude max follow) ≡ ok files
  unfolding read_project_tree read_entries
  walked root files (inl z) e = subst (λ n. read_project_tree exclude max follow n ≡ ok files) z e
  walked root files (inr z) e = subst (λ n. read_project_tree exclude max follow n ≡ ok files) z e

  read-Ends :
      (Inv : Taken → Type 0) (root : Node) (files : Files)
      → Takes exclude max follow Inv es []
      → Inv (0, [])
      → IsRoot root es
      → read_project_tree exclude max follow root ≡ ok files
      → (is_empty files ≡ false) × ((total : ℕ) × Inv (total, files))
  read-Ends Inv root files k i r e =
      taken-Ends Inv (walk exclude max follow es [] (0, [])) files
        (walk-IsKept exclude max follow Inv es k (0, []) i) (walked root files r e)

  -- Every file that reading a project gives is there under its path: with no excluded name on the
  -- path, and through no link unless links are followed; and there is at least one.
  pub read-IsSelected :
      (root : Node) (files : Files)
      → IsRoot root es
      → read_project_tree exclude max follow root ≡ ok files
      → (is_empty files ≡ false) × All IsSelected files
  read-IsSelected root files r e =
      let (n, (total, a)) = read-Ends TakenSelected root files Takes-selected tt r e in (n, a)

  none_taken : total_size [] ≤ 0
  unfolding total_size
  none_taken = omega arith

  -- If no file changes its size between the two looks at it, the files that reading a project gives
  -- are no more bytes than the limit.
  pub read_within :
      (root : Node) (files : Files)
      → IsSteady
      → IsRoot root es
      → read_project_tree exclude max follow root ≡ ok files
      → ltb_ℤ max (pos (total_size files)) ≡ false
  read_within root files steady r e =
      let (n, (total, (l, w))) =
        read-Ends WithinLimit root files (Takes-within steady) (none_taken, inl refl) r e in
      elim w [ inl z ↦ absurd (cc) | inr b ↦ ground arith ]
