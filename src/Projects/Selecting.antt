-- ===== src/Projects/Selecting.antt =====
-- Which files of a tree `_read_project_tree` of src/vomero_sandbox/runner.py is meant to take.
use vomero_sandbox.Common.{ℕ, ◌≡◌, ◌⊎◌, Bool, true, false, List, [], ◌∷◌, Text}
use vomero_sandbox.Errors.{Outcome}
use vomero_sandbox.Globs.{excluded}
use vomero_sandbox.Projects.{Node, Entries, end, entry}

module _ (exclude : List Text) (follow : Bool) where
  -- Under a path of names, none of them excluded, through directories that can be listed, and through no
  -- link unless links are followed,
  -- there is a file of this size, whose reading gives this.
  unfoldable pub Selects : Entries → List Text → ℕ → Outcome (List ℕ) → Type 0
  Selects end path size r = ⊥
  Selects (entry name (Node.file n x) es) path size r =
      ((excluded name exclude ≡ false) × (path ≡ name ∷ []) × (size ≡ n) × (r ≡ x))
      ⊎ Selects es path size r
  Selects (entry name (Node.linked_file n x) es) path size r =
      ((excluded name exclude ≡ false)
        × (follow ≡ true)
        × (path ≡ name ∷ [])
        × (size ≡ n)
        × (r ≡ x))
      ⊎ Selects es path size r
  Selects (entry name (Node.dir ds) es) path size r =
      ((excluded name exclude ≡ false)
        × ((q : List Text) × (path ≡ name ∷ q) × Selects ds q size r))
      ⊎ Selects es path size r
  Selects (entry name (Node.linked_dir ds) es) path size r =
      ((excluded name exclude ≡ false)
        × (follow ≡ true)
        × ((q : List Text) × (path ≡ name ∷ q) × Selects ds q size r))
      ⊎ Selects es path size r
  Selects (entry name (Node.closed_dir _) es) path size r = Selects es path size r
  Selects (entry name Node.other es) path size r = Selects es path size r
