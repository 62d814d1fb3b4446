-- ===== src/Exec.antt =====
-- src/vomero_sandbox/_exec.py: pumping the websocket of an exec, and the exit code.
pub mod Pumping
pub mod ExitCode
use vomero_sandbox.Common.{
  ℕ, Bool, true, false, Option, none, some, List, [], ◌∷◌, ◌++◌, ℤ, pos, ◌+ℤ◌, ltb_ℤ, Text, codes,
  is_empty, if◌then◌else◌,
}
use vomero_sandbox.Errors.{Exc, Outcome, ok, raise, ◌>>=◌, ◌>>◌, raise_if}
use vomero_sandbox.Json.{Json, Items, nil, cons, Fields, field, get, equals_text, to_int}
use vomero_sandbox.Models.{Channel, StreamChunk}

-- One round of `while resp.is_open()`: the clock that the test of the deadline reads, how
-- `resp.update` ends, and the text that has then arrived on each channel (none: `peek` is false).
pub record Round : Type 0 where
  pub now : ℤ
  pub update : Outcome (Unit {0})
  pub out : Text
  pub err : Text

-- A websocket as the loop meets it: the clock at its opening, the rounds until it is closed, and
-- what the error channel then holds.
pub record Response : Type 0 where
  pub opened_at : ℤ
  pub rounds : List Round
  pub status : Text

abbrev pub chunk : Channel → Text → List StreamChunk
chunk ch s = if is_empty s then [] else record { channel = ch; text = s } ∷ []

-- The chunks of one round, standard output first.
abbrev pub chunks : Round → List StreamChunk
chunks r = chunk Channel.stdout r.out ++ chunk Channel.stderr r.err

-- What a generator yields before it ends, and how it ends.
pub record Generated (A : Type 0) : Type 0 where
  pub yielded : List StreamChunk
  pub result : Outcome A

abbrev yield_all : {A : Type 0} → List StreamChunk → Generated A → Generated A
yield_all cs g = record g { yielded = cs ++ g.yielded }

abbrev stop : {A : Type 0} → Exc → Generated A
stop e = record { yielded = []; result = raise e }

-- `for cause in causes:` over the items of a list.
unfoldable pub find_exit_code : Items → Outcome ℤ
unfolding get equals_text to_int
find_exit_code nil = ok (pos 1)
find_exit_code (cons cause rest) =
    let later = find_exit_code rest in
    elim (get cause (codes "reason") Json.null) [
      | raise e ↦ raise e
      | ok reason ↦ elim (equals_text reason (codes "ExitCode")) [
        | false ↦ later
        | true ↦ elim (get cause (codes "message") (Json.num (pos 1))) [
          | raise e ↦ raise e
          | ok message ↦ elim (to_int message) [
            | ok n ↦ ok n
            | raise Exc.value_error ↦ ok (pos 1)
            | raise Exc.type_error ↦ ok (pos 1)
            | raise e ↦ raise e
          ]
        ]
      ]
    ]

-- A dict or a text is iterated by its texts, which have no `get`; no other value is iterable.
unfoldable pub iterate_causes : Json → Outcome ℤ
unfolding find_exit_code
iterate_causes (Json.arr xs) = find_exit_code xs
iterate_causes (Json.obj Fields.end) = ok (pos 1)
iterate_causes (Json.obj (field _ _ _)) = raise Exc.attribute_error
iterate_causes (Json.str []) = ok (pos 1)
iterate_causes (Json.str (_ ∷ _)) = raise Exc.attribute_error
iterate_causes _ = raise Exc.type_error

-- The part of `_exit_code` behind `json.loads`.
unfoldable pub status_exit_code : Json → Outcome ℤ
unfolding get equals_text iterate_causes
status_exit_code status = do
  kind ← get status (codes "status") Json.null
  if equals_text kind (codes "Success") then ok (pos 0) else (do
    details ← get status (codes "details") (Json.obj Fields.end)
    causes ← get details (codes "causes") (Json.arr nil)
    iterate_causes causes)

abbrev same_channel : Channel → Channel → Bool
same_channel Channel.stdout Channel.stdout = true
same_channel Channel.stderr Channel.stderr = true
same_channel _ _ = false

-- `"".join(...)` of the chunks of one channel.
abbrev pub joined : Channel → List StreamChunk → Text
joined ch [] = []
joined ch (c ∷ cs) =
    let rest = joined ch cs in if same_channel ch c.channel then c.text ++ rest else rest

-- `loads` is the standard library's `json.loads`.
module _ (loads : Text → Outcome Json) where
  unfoldable pub exit_code : Text → Outcome ℤ
  unfolding status_exit_code
  exit_code [] = ok (pos 0)
  exit_code (c ∷ s) = elim (loads (c ∷ s)) [
    | ok status ↦ status_exit_code status
    | raise Exc.value_error ↦ ok (pos 0)
    | raise e ↦ raise e
  ]

  -- The loop of `exec_stream`.
  unfoldable pub pump : ℤ → List Round → Text → Generated ℤ
  unfolding exit_code
  pump deadline [] status = record { yielded = []; result = exit_code status }
  pump deadline (r ∷ rounds) status =
      let rest = pump deadline rounds status in
      if ltb_ℤ deadline r.now
      then stop Exc.exec_timeout
      else elim r.update [ raise e ↦ stop e | ok _ ↦ yield_all (chunks r) rest ]

  unfoldable pub exec_stream : Response → ℤ → Generated ℤ
  unfolding pump
  exec_stream resp timeout_s = pump (resp.opened_at +ℤ timeout_s) resp.rounds resp.status

  -- The generator's chunks, collected; its exception, if it raises.
  unfoldable pub exec_capture : Response → ℤ → Outcome (Text × Text × ℤ)
  unfolding exec_stream
  exec_capture resp timeout_s =
      let g = exec_stream resp timeout_s in
      g.result >>= λ code.
      ok (joined Channel.stdout g.yielded, joined Channel.stderr g.yielded, code)
