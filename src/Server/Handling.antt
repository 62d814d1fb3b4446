-- ===== src/Server/Handling.antt =====
-- examples/stress_server.py, `Handler` and `make_server`: one request, from its body to its answer.
-- The runner is any; the log lines are left out but for what formatting the package may raise.

pub mod Restoring
pub mod Answering
use vomero_sandbox.Common.{
  ℕ, ◌+◌, Bool, true, false, not, Option, none, some, List, [], ◌∷◌, ℤ, pos, ◌+ℤ◌, ◌-ℤ◌, Text,
  codes, text_eq, is_empty, if◌then◌else◌,
}
use vomero_sandbox.Errors.{Exc, Outcome, ok, raise, is_exception, succeeded}
use vomero_sandbox.Config.{SandboxConfig}
use vomero_sandbox.Json.{Json, end, find_field, get, to_int}
use vomero_sandbox.Pool.State.{M, State, pure, throw, ◌>>=◌, call, lift}
use vomero_sandbox.Pool.Lifecycle.Hooks.{Stats, stats}
use vomero_sandbox.Server.Jobs.{JobResult}

-- The JSON that is sent: the dict of a result, `stats()`, or an error.
pub data Payload : Type 0 where
  healthy not_found : Payload
  counters : Stats → Payload
  result : JobResult → Payload
  failed : Exc → Payload

-- One request. Reading its body and writing an answer may raise; `loads` is `json.loads` of bytes.
pub record Connection (W : Type 0) : Type 0 where
  pub path : Text
  pub content_length : Option Text
  pub read : ℤ → W → Outcome (List ℕ) × W
  pub loads : List ℕ → Outcome Json
  pub write : ℕ → Payload → W → Outcome (Unit {0}) × W

-- The server's attributes. `answers` is a ghost: the answers that were written whole, newest first.
pub record Server (W : Type 0) : Type 0 where
  pub pool : State W
  pub seq : ℕ
  pub active : ℤ
  pub answers : List (ℕ × Payload)

unfoldable pub make_server : {W : Type 0} → State W → Server W
make_server p = record { pool = p; seq = 0; active = pos 0; answers = [] }

abbrev pub Act : Type 0 → Type 0 → Type 0
Act W A = Server W → Outcome A × Server W

-- The runner's `run`, of the package, the files, the variables and the timeout of a request.
abbrev pub Runner : Type 0 → Type 0
Runner W = Json → Json → Json → Json → M W JobResult

-- What `except (KeyError, ValueError)` catches.
unfoldable pub is_client_fault : Exc → Bool
is_client_fault Exc.key_error = true
is_client_fault Exc.value_error = true
is_client_fault _ = false

-- `req[key]`: lists, texts, numbers and None refuse such a key.
unfoldable pub item : Json → Text → Outcome Json
unfolding find_field
item (Json.obj d) k = elim (find_field k d) [ none ↦ raise Exc.key_error | some v ↦ ok v ]
item _ k = raise Exc.type_error

-- `f"{v:9}"`
unfoldable pub formatted : Json → Outcome (Unit {0})
formatted Json.null = raise Exc.type_error
formatted (Json.arr _) = raise Exc.type_error
formatted (Json.obj _) = raise Exc.type_error
formatted _ = ok tt

-- `int(self.headers.get("Content-Length", 0))`
unfoldable pub body_length : Option Text → Outcome ℤ
unfolding to_int
body_length none = ok (pos 0)
body_length (some t) = to_int (Json.str t)

module _ {W : Type 0} where
  -- The two critical sections.
  unfoldable pub admit : Server W → Server W
  unfolding ◌+ℤ◌
  admit s = record s { seq = s.seq + 1; active = s.active +ℤ pos 1 }

  unfoldable pub depart : Server W → Server W
  unfolding ◌-ℤ◌
  depart s = record s { active = s.active -ℤ pos 1 }

  unfoldable pub in_pool : {A : Type 0} → M W A → Act W A
  in_pool m s = let (r, p) = m s.pool in (r, record s { pool = p })

module _ {W : Type 0} (k : Connection W) where
  -- `_send`
  unfoldable pub send : ℕ → Payload → Act W (Unit {0})
  unfolding call
  send code payload s =
      let (r, p) = call (k.write code payload) s.pool in
      (
        r,
        record s {
          pool = p;
          answers = if succeeded r then (code, payload) ∷ s.answers else s.answers;
        },
      )

  -- `do_GET`
  unfoldable pub do_get : SandboxConfig → Act W (Unit {0})
  unfolding send stats
  do_get c s =
      if text_eq k.path (codes "/healthz")
      then send 200 Payload.healthy s
      else if text_eq k.path (codes "/stats")
      then send 200 (Payload.counters (stats c s.pool)) s
      else send 404 Payload.not_found s

  -- The `except` clauses of `do_POST`.
  unfoldable pub rescue : Exc → Act W (Unit {0})
  unfolding send is_client_fault
  rescue e s =
      if is_client_fault e
      then send 400 (Payload.failed e) s
      else if is_exception e
      then send 500 (Payload.failed e) s
      else (raise e, s)

  -- The body and its package.
  unfoldable pub parse_request : M W (Json × Json)
  unfolding body_length item call lift
  parse_request = do
    length ← lift (body_length k.content_length)
    raw ← call (k.read length)
    req ← lift (k.loads (if is_empty raw then codes "{}" else raw))
    name ← lift (item req (codes "package"))
    pure (req, name)

  module _ (run : Runner W) where
    -- What is logged, and then run.
    unfoldable pub run_request : Json → Json → M W JobResult
    unfolding formatted get lift
    run_request req name = do
      _ ← lift (formatted name)
      files ← lift (get req (codes "files") (Json.obj end))
      env ← lift (get req (codes "env") (Json.obj end))
      timeout ← lift (get req (codes "timeout_s") (Json.num (pos 10)))
      run name files env timeout

    abbrev pub send_result : Outcome JobResult → Act W (Unit {0})
    send_result (ok x) = send 200 (Payload.result x)
    send_result (raise e) = λ s. (raise e, s)

    unfoldable pub serve_request : Json → Json → Act W (Unit {0})
    unfolding run_request in_pool send
    serve_request req name s = let (r, t) = in_pool (run_request req name) s in send_result r t

    abbrev pub rescue_if : Outcome (Unit {0}) → Act W (Unit {0})
    rescue_if (ok _) s = (ok tt, s)
    rescue_if (raise e) s = rescue e s

    -- The `try` statement behind the first critical section, and the `finally` clause.
    abbrev pub after_parse : Outcome (Json × Json) → Act W (Unit {0})
    after_parse (raise e) s = rescue e s
    after_parse (ok (req, name)) s =
        let (r, t) = serve_request req name (admit s) in let (q, u) = rescue_if r t in (q, depart u)

    -- `do_POST`
    unfoldable pub do_post : Act W (Unit {0})
    unfolding parse_request serve_request rescue send admit depart in_pool
    do_post s =
        if text_eq k.path (codes "/run")
        then (let (r, t) = in_pool parse_request s in after_parse r t)
        else send 404 Payload.not_found s
