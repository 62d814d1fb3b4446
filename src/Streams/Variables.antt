-- ===== src/Streams/Variables.antt =====
-- `_stream_env` of src/vomero_sandbox/runner.py: which value each variable gets.
use vomero_sandbox.Common.{
  ◌≡◌, none, some, [], ◌∷◌, Text, codes, text_eq, value, value-update, last_value, or_else,
  if◌then◌else◌,
}
use vomero_sandbox.Pool.Execution.{Env}
use vomero_sandbox.Streams.Environment.{stream_env}

-- A streamed run has each variable that the caller gave at the value given last for it, has
-- PYTHONUNBUFFERED at 1 if the caller did not give it, and has no other variable.
pub given_or_default :
    (k : Text) (env : Env)
    → value k (stream_env env)
      ≡ or_else
          (last_value k env)
          (if text_eq (codes "PYTHONUNBUFFERED") k then some (codes "1") else none)
unfolding stream_env value
given_or_default k env = value-update k ((codes "PYTHONUNBUFFERED", codes "1") ∷ []) env
