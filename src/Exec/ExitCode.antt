-- ===== src/Exec/ExitCode.antt =====
-- `_exit_code` of src/vomero_sandbox/_exec.py on the statuses that the API server writes.
use vomero_sandbox.Common.{
  ℕ, ◌≡◌, refl, false, List, [], ◌∷◌, pos, Text, codes, text_eq, All, decimal, arith,
}
use vomero_sandbox.Errors.{Outcome, ok}
use vomero_sandbox.Json.{Json, Items, cons, Fields, field, find_field, get, equals_text}
use vomero_sandbox.Json.Integers.{to_int-decimal}
use vomero_sandbox.Exec.{find_exit_code, iterate_causes, status_exit_code, exit_code}

-- A cause as the API server writes it.
abbrev pub cause_of : Text → Text → Json
cause_of reason message = Json.obj (
    field (codes "reason") (Json.str reason)
      (field (codes "message") (Json.str message) Fields.end))

abbrev pub causes_of : List (Text × Text) → Items → Items
causes_of [] rest = rest
causes_of ((reason, message) ∷ cs) rest = cons (cause_of reason message) (causes_of cs rest)

-- The status of a command that has failed.
abbrev pub failure : Items → Json
failure causes = Json.obj (
    field (codes "status") (Json.str (codes "Failure")) (
      field (codes "details") (Json.obj (field (codes "causes") (Json.arr causes) Fields.end))
        Fields.end))

abbrev pub IsOther : Text × Text → Type 0
IsOther (reason, message) = text_eq reason (codes "ExitCode") ≡ false

find-others :
    (cs : List (Text × Text)) (n : ℕ) (rest : Items)
    → All IsOther cs
    → find_exit_code (causes_of cs (cons (cause_of (codes "ExitCode") (decimal n)) rest))
      ≡ ok (pos n)
unfolding find_exit_code find_field get equals_text text_eq
find-others [] n rest t = ground (arith, to_int-decimal n)
find-others ((r, m) ∷ cs) n rest (t, ts) = ground (arith, find-others cs n rest ts)

module _ (loads : Text → Outcome Json) where
  -- When the error channel holds a text that `json.loads` reads as a failure with a cause of the
  -- reason `ExitCode` and the message `n`, in decimal, no earlier cause having that reason, then the
  -- exit code is `n`, whatever the other causes.
  pub failed_code :
      (status : Text) (cs : List (Text × Text)) (n : ℕ) (rest : Items)
      → loads status
        ≡ ok (failure (causes_of cs (cons (cause_of (codes "ExitCode") (decimal n)) rest)))
      → All IsOther cs
      → (status ≡ [] → ⊥)
      → exit_code loads status ≡ ok (pos n)
  unfolding exit_code status_exit_code find_field get equals_text text_eq iterate_causes
  failed_code [] cs n rest l t ne = absurd (ne refl)
  failed_code (x ∷ s) cs n rest l t ne = ground (arith, find-others cs n rest t)
