-- ===== src/Projects/Giving.antt =====
-- The walk of `_read_project_tree`, src/vomero_sandbox/runner.py, over a tree that gives one path.
use vomero_sandbox.Common.{
  ℕ, ◌≡◌, ◌⊎◌, inl, inr, Bool, true, false, List, [], ◌∷◌, ◌++◌, All, All-sort, Any, Any-sort, ℤ,
  Text, value, value-assign, text_eq_refl, is_some, sort, Bool-cases, arith,
}
use vomero_sandbox.Errors.{Outcome, ok, raise, ◌>>=◌}
use vomero_sandbox.Globs.{excluded}
use vomero_sandbox.Paths.{join}
use vomero_sandbox.Projects.{
  Node, Entries, Taken, Walk, filenames, take, take_node, take_files, run_walks, visit, walks,
}
use vomero_sandbox.Projects.Walking.{
  Ends, Ends-then, IsKept, Takes, TakesFile, Walks, take_files-IsKept, run_walks-IsKept,
  filenames-Takes, walks-Takes,
}

module _ (exclude : List Text) (max : ℤ) (follow : Bool) (key : Text) where
  abbrev pub Has : Taken → Type 0
  Has t = is_some (value key t.1) ≡ true

  IsKept-take :
      (size : ℕ) (r : Outcome (List ℕ)) (path : List Text)
      → IsKept exclude max follow Has (take exclude max follow size r path)
  unfolding take
  IsKept-take size (raise e) path t i = ground arith
  IsKept-take size (ok b) path (total, files) i =
      ground (arith, value-assign key (join path) b files)

  Takes-keep : (here : List Text) (es : Entries) → Takes exclude max follow Has es here
  Takes-keep here es path size r s = IsKept-take size r (here ++ path)

  -- It does not end without the key.
  abbrev pub Gives : (Taken → Outcome Taken) → Type 0
  Gives f = (t : Taken) → Ends Has (f t)

  pub take-Gives :
      (size : ℕ) (r : Outcome (List ℕ)) (path : List Text)
      → key ≡ join path
      → Gives (take exclude max follow size r path)
  unfolding take
  take-Gives size (raise e) path k t = ground arith
  take-Gives size (ok b) path k (total, files) =
      ground (arith, value-assign key (join path) b files, text_eq_refl key)

  abbrev pub GivesFile : List Text → Text × Node → Type 0
  GivesFile here (name, n) =
      (excluded name exclude ≡ false) × Gives (take_node exclude max follow n (here ++ name ∷ []))

  abbrev pub GivesWalk : List Text → Text × Walk → Type 0
  GivesWalk here (name, w) = Gives (w (here ++ name ∷ []))

  Gives-after : (r : Outcome Taken) (f : Taken → Outcome Taken) → Gives f → Ends Has (r >>= f)
  Gives-after (ok t) f g = g t
  Gives-after (raise e) f g = tt

  take_files-Gives :
      (here : List Text) (ns : List (Text × Node))
      → All (TakesFile exclude max follow Has here) ns
      → Any (GivesFile here) ns
      → Gives (take_files exclude max follow ns here)
  unfolding take_files
  take_files-Gives here [] a x t = elim x [ ]
  take_files-Gives here ((name, n) ∷ ns) (p, a) (inl (e, g)) t = rw e (
      Ends-then Has (take_node exclude max follow n (here ++ name ∷ []) t) _ (g t)
        (take_files-IsKept exclude max follow Has here ns a))
  take_files-Gives here ((name, n) ∷ ns) (p, a) (inr b) t =
      elim (Bool-cases (excluded name exclude)) [
        | inl e ↦ rw e (take_files-Gives here ns a b t)
        | inr e ↦ rw e (
            Gives-after (take_node exclude max follow n (here ++ name ∷ []) t) _
              (take_files-Gives here ns a b))
      ]

  run_walks-Gives :
      (here : List Text) (ws : List (Text × Walk))
      → All (Walks exclude max follow Has here) ws
      → Any (GivesWalk here) ws
      → Gives (run_walks exclude max follow ws here)
  unfolding run_walks
  run_walks-Gives here [] a x t = elim x [ ]
  run_walks-Gives here ((name, w) ∷ ws) (p, a) (inl g) t =
      Ends-then Has (w (here ++ name ∷ []) t) _ (g t)
        (run_walks-IsKept exclude max follow Has here ws a)
  run_walks-Gives here ((name, w) ∷ ws) (p, a) (inr b) t =
      Gives-after (w (here ++ name ∷ []) t) _ (run_walks-Gives here ws a b)

  -- A file or a directory of these gives the key.
  abbrev pub Covers : Entries → List Text → Type 0
  Covers es here =
      Any (GivesFile here) (filenames es) ⊎ Any (GivesWalk here) (walks exclude max follow es)

  pub visit-Gives :
      (here : List Text) (es : Entries)
      → Covers es here
      → Gives (visit exclude max follow (filenames es) (walks exclude max follow es) here)
  unfolding visit
  visit-Gives here es c t =
      let ns = filenames es in
      let ws = walks exclude max follow es in
      let a =
        All-sort (TakesFile exclude max follow Has here) ns
          (filenames-Takes exclude max follow Has here es (Takes-keep here es)) in
      let b =
        All-sort (Walks exclude max follow Has here) ws
          (walks-Takes exclude max follow Has here es (Takes-keep here es)) in
      let first = take_files exclude max follow (sort ns) here t in
      elim c [
        | inl x ↦
            Ends-then Has first _
              (take_files-Gives here (sort ns) a (Any-sort (GivesFile here) ns x) t)
              (run_walks-IsKept exclude max follow Has here (sort ws) b)
        | inr y ↦
            Gives-after first _ (run_walks-Gives here (sort ws) b (Any-sort (GivesWalk here) ws y))
      ]
