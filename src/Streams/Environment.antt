-- ===== src/Streams/Environment.antt =====
-- `_stream_env` of src/vomero_sandbox/runner.py: a dict as the list of its items.
use vomero_sandbox.Common.{[], ◌∷◌, codes, update}
use vomero_sandbox.Pool.Execution.{Env}

-- `_stream_env`
unfoldable pub stream_env : Env → Env
unfolding update
stream_env env = update ((codes "PYTHONUNBUFFERED", codes "1") ∷ []) env
