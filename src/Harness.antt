-- ===== src/Harness.antt =====
-- examples/stateful_agent.py: the harness around the code of an agent, which keeps its variables from
-- one run to the next in a file of the workspace.
pub mod Keeping
pub mod Carrying
use vomero_sandbox.Common.{
  ℕ, Bool, true, false, Option, none, some, List, [], ◌∷◌, Text, codes, assign, update, ◌||◌,
  if◌then◌else◌,
}
use vomero_sandbox.Errors.{Exc, Outcome, ok, raise, is_exception}
use vomero_sandbox.Upload.{is_prefix}

-- The global variables of a process.
abbrev pub Namespace : Type 0 → Type 0
Namespace V = List (Text × V)

-- What is under the name `ns.pkl` in the workspace; `locked` is what can be opened neither way, as a
-- directory.
pub data Slot : Type 0 where
  absent locked : Slot
  holds : List ℕ → Slot

-- What the harness uses of Python: the module pickle, the tests on a value and the values that it
-- binds. `load` gives `none` for a FileNotFoundError, and `dump` what it has written beside how it
-- ends. The tests and `dumps` change no variable.
pub record Python (V : Type 0) : Type 0 where
  pub imports : Text → V
  pub text : Text → V
  pub opened : List ℕ → V
  pub is_module : V → Bool
  pub callable : V → Bool
  pub dumps : V → Outcome (List ℕ)
  pub dump : Namespace V → List ℕ × Outcome (Unit {0})
  pub load : List ℕ → Outcome (Option (Namespace V))

-- The code of an agent, which leaves alone the names that the harness binds, and may write the file.
abbrev pub Agent : Type 0 → Type 0
Agent V = Namespace V → Slot → Outcome (Unit {0}) × Namespace V × Slot

module _ {V : Type 0} (py : Python V) where
  -- The imports and `_NS` of `_STDLIB_PRELUDE`
  unfoldable pub imported : Namespace V → Namespace V
  imported g = assign (codes "_NS") (py.text (codes "ns.pkl")) (
      assign (codes "_types") (py.imports (codes "types"))
        (assign (codes "_pickle") (py.imports (codes "pickle")) g))

  unfoldable pub bind_loaded :
      Outcome (Option (Namespace V)) → Namespace V → Outcome (Unit {0}) × Namespace V
  bind_loaded (ok none) g = (ok tt, g)
  bind_loaded (ok (some d)) g = (ok tt, update g d)
  bind_loaded (raise e) g = (raise e, g)

  -- `_STDLIB_PRELUDE`
  unfoldable pub prelude : Slot → Namespace V → Outcome (Unit {0}) × Namespace V
  prelude Slot.absent g = (ok tt, imported g)
  prelude Slot.locked g = (raise Exc.other_error, imported g)
  prelude (Slot.holds b) g =
      bind_loaded (py.load b) (assign (codes "_f") (py.opened b) (imported g))

  -- One round of the loop of `_STDLIB_EPILOGUE`, before and after `_pickle.dumps(_v)`
  unfoldable pub keep_dumped : Outcome (List ℕ) → Text → V → Namespace V → Outcome (Namespace V)
  keep_dumped (ok _) k v kept = ok (assign k v kept)
  keep_dumped (raise e) k v kept = if is_exception e then ok kept else raise e

  unfoldable pub keep_item : Text → V → Namespace V → Outcome (Namespace V)
  keep_item k v kept =
      if is_prefix (codes "_") k
      then ok kept
      else if py.is_module v || py.callable v
      then ok kept
      else keep_dumped (py.dumps v) k v kept

  unfoldable pub keep : Namespace V → Namespace V → Outcome (Namespace V)
  keep [] kept = ok kept
  keep ((k, v) ∷ items) kept = elim (keep_item k v kept) [
    | ok more ↦ keep items more
    | raise e ↦ raise e
  ]

  -- `open(_NS, "wb")` and `_pickle.dump(_keep, _f)`
  unfoldable pub write_kept : Namespace V → Slot → Outcome (Unit {0}) × Slot
  write_kept kept Slot.locked = (raise Exc.other_error, Slot.locked)
  write_kept kept s = let (b, o) = py.dump kept in (o, Slot.holds b)

  -- `_STDLIB_EPILOGUE`
  unfoldable pub epilogue : Namespace V → Slot → Outcome (Unit {0}) × Slot
  epilogue g s = elim (keep g []) [ ok kept ↦ write_kept kept s | raise e ↦ (raise e, s) ]

  -- `with_stdlib_harness`: a process that begins with the variables `fresh`.
  unfoldable pub after_agent : Outcome (Unit {0}) × Namespace V × Slot → Outcome (Unit {0}) × Slot
  after_agent (ok _, g, s) = epilogue g s
  after_agent (raise e, g, s) = (raise e, s)

  unfoldable pub after_prelude :
      Agent V → Slot → Outcome (Unit {0}) × Namespace V → Outcome (Unit {0}) × Slot
  after_prelude agent s (ok _, g) = after_agent (agent g s)
  after_prelude agent s (raise e, g) = (raise e, s)

  unfoldable pub with_stdlib_harness : Agent V → Namespace V → Slot → Outcome (Unit {0}) × Slot
  with_stdlib_harness agent fresh s = after_prelude agent s (prelude s fresh)
