-- ===== src/Tests/Trees.antt =====
-- A small project on the host, and patterns.
use vomero_sandbox.Common.{
  ◌≡◌, ◌∙◌, sym, inl, inr, refl, ap, true, false, is_empty, [], ◌∷◌, pos, ltb_ℤ, codes, text_eq,
  sort, assign, All, length,
}
use vomero_sandbox.Errors.{Exc, ok, raise}
use vomero_sandbox.Globs.{fnmatch}
use vomero_sandbox.Models.{Files}
use vomero_sandbox.Paths.{join}
use vomero_sandbox.Pool.Execution.{total_size}
use vomero_sandbox.Projects.{Node, Entries, end, entry, default_excludes, read_project_tree}
use vomero_sandbox.Projects.Selecting.{Selects}
use vomero_sandbox.Projects.Sizes.{IsSelected, IsSteady, read-IsSelected, read_within}

fnmatch_star : fnmatch (codes "lib.cpython.pyc") (codes "*.pyc") ≡ true
unfolding fnmatch
fnmatch_star = refl

fnmatch_set : fnmatch (codes "v7]x") (codes "v[!0-3][]a-c]?") ≡ true
unfolding fnmatch
fnmatch_set = refl

fnmatch_open : fnmatch (codes "a[b") (codes "a[b") ≡ true
unfolding fnmatch
fnmatch_open = refl

abbrev inner : Entries
inner =
    entry (codes "__pycache__") (Node.dir (entry (codes "x.pyc") (Node.file 1 (ok (9 ∷ []))) end))
      (entry (codes "x.py") (Node.file 2 (ok (1 ∷ 2 ∷ []))) end)

abbrev project : Entries
project = entry (codes "pkg") (Node.dir inner) (
    entry (codes "main.py") (Node.file 1 (ok (3 ∷ []))) (
      entry (codes "etc") (Node.linked_dir (entry (codes "passwd") (Node.file 1 (ok (7 ∷ []))) end))
        end))

abbrev project_files : Files
project_files = (codes "main.py", 3 ∷ []) ∷ (codes "pkg/x.py", 1 ∷ 2 ∷ []) ∷ []

read_project :
    read_project_tree default_excludes (pos 3) false (Node.dir project) ≡ ok project_files
unfolding read_project_tree text_eq default_excludes join sort assign
read_project = refl

read_too_large :
    read_project_tree default_excludes (pos 2) false (Node.dir project) ≡ raise Exc.value_error
unfolding read_project_tree text_eq default_excludes join sort assign
read_too_large = refl

read-IsSelected_example :
    (is_empty project_files ≡ false)
    × All (IsSelected default_excludes (pos 3) false project) project_files
read-IsSelected_example =
    read-IsSelected default_excludes (pos 3) false project (Node.dir project) project_files
      (inl refl) read_project

abbrev one_entry : Entries
one_entry = entry (codes "a.py") (Node.file 2 (ok (1 ∷ 2 ∷ []))) end

one_entry-IsSteady : IsSteady [] (pos 3) false one_entry
unfolding Selects
one_entry-IsSteady path size b (inl (e, p, m, x)) =
    let same : b ≡ 1 ∷ 2 ∷ [] = cc in ap length same ∙ sym m
one_entry-IsSteady path size b (inr x) = elim x [ ]

read_one :
    read_project_tree [] (pos 3) false (Node.dir one_entry) ≡ ok ((codes "a.py", 1 ∷ 2 ∷ []) ∷ [])
unfolding read_project_tree text_eq join sort assign
read_one = refl

read_within_example : ltb_ℤ (pos 3) (pos (total_size ((codes "a.py", 1 ∷ 2 ∷ []) ∷ []))) ≡ false
read_within_example =
    read_within [] (pos 3) false one_entry (Node.dir one_entry) ((codes "a.py", 1 ∷ 2 ∷ []) ∷ [])
      one_entry-IsSteady (inl refl) read_one
