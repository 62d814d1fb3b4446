-- ===== src/Streams.antt =====
-- src/vomero_sandbox/runner.py, the class SandboxStream and the methods that make one. A method
-- gives the stream that it leaves beside its outcome.
pub mod Environment
pub mod Variables
pub mod Iteration
pub mod Advancing
pub mod Finishing
pub mod Accounts
pub mod Consuming
pub mod Pinning
pub mod Entering
use vomero_sandbox.Common.{
  Bool, true, false, ◌||◌, Option, none, some, List, [], ◌∷◌, ◌++◌, map, ℤ, pos, ◌-ℤ◌, Text, codes,
  text_eq, is_empty, if◌then◌else◌,
}
use vomero_sandbox.Errors.{Exc, Outcome, ok, raise, is_exception}
use vomero_sandbox.Errors
use vomero_sandbox.Config.{SandboxConfig}
use vomero_sandbox.Exec.{Response, Generated}
use vomero_sandbox.Exec
use vomero_sandbox.Host.{Host}
use vomero_sandbox.Json.{Json}
use vomero_sandbox.Models.{StreamChunk, RunResult, Files}
use vomero_sandbox.Scripts.{Arg}
use vomero_sandbox.Pool.State.{
  M, Worker, pure, throw, ◌>>=◌, ◌>>◌, gets, call, call_pure, lift, capture,
}
use vomero_sandbox.Pool.Execution.{
  Env, Collect, with_env, check_size, clean_if, upload_given, collect_wanted,
}
use vomero_sandbox.Pool.Workers.{lease, release}
use vomero_sandbox.Pool.Dispatch.{timeout_result, default_timeout, ensure_started}
use vomero_sandbox.Streams.Environment.{stream_env}
use vomero_sandbox.Sessions.{Session, require_live, retire_now}

-- The callbacks `acquire` and `on_finish`: those of a pool; or those of a session, with the worker
-- that it held when it made the stream, and the session as it is now.
pub data Owner : Type 0 where
  pooled : Owner
  pinned : Worker → Session → Owner

-- `running` is the generator of the one iteration while it is suspended at a yield: the chunks that
-- the websocket has still to deliver, and how it ends then.
pub record Stream : Type 0 where
  pub owner : Owner
  pub argv : List Text
  pub timeout : ℤ
  pub wish : Collect
  pub env : Env
  pub input_files : Files
  pub clean : Bool
  pub worker : Option Worker
  pub result : Option RunResult
  pub t0 : ℤ
  pub retire : Bool
  pub iterated : Bool
  pub finished : Bool
  pub running : Option (List StreamChunk × Outcome ℤ)

-- `SandboxStream.__init__` as every caller makes it, with no wipe.
abbrev pub new_stream : Owner → List Text → ℤ → Collect → Env → Files → Stream
new_stream owner argv timeout wish env files = record {
  owner = owner;
  argv = argv;
  timeout = timeout;
  wish = wish;
  env = stream_env env;
  input_files = files;
  clean = false;
  worker = none;
  result = none;
  t0 = pos 0;
  retire = false;
  iterated = false;
  finished = false;
  running = none;
}

module _ {W : Type 0} (h : Host W) (c : SandboxConfig) where
  -- `_dispatch_stream`
  unfoldable pub dispatch_stream : List Text → Option ℤ → Collect → Env → Files → M W Stream
  dispatch_stream argv t wish env files = do
    closed ← gets (λ s. s.closed)
    if closed
        then throw Exc.pool_closed
        else ensure_started h c
          >> pure (new_stream Owner.pooled argv (default_timeout h c t) wish env files)

  unfoldable pub run_stream : Text → Option ℤ → Collect → Env → Files → M W Stream
  run_stream code t wish env files = dispatch_stream (c.interpreter ++ code ∷ []) t wish env files

  unfoldable pub shell_stream : Text → Option ℤ → Collect → Env → Files → M W Stream
  shell_stream command t wish env files =
      dispatch_stream (codes "sh" ∷ codes "-c" ∷ command ∷ []) t wish env files

  unfoldable pub exec_stream : List Text → Option ℤ → Collect → Env → Files → M W Stream
  exec_stream argv t wish env files =
      if is_empty argv then throw Exc.value_error else dispatch_stream argv t wish env files

  -- `SandboxSession._stream`
  unfoldable pub session_stream :
      Session → List Text → Option ℤ → Collect → Env → Files → Outcome Stream
  session_stream x argv t wish env files =
      Errors.◌>>=◌ (require_live x)
        λ w. ok (new_stream (Owner.pinned w x) argv (default_timeout h c t) wish env files)

  unfoldable pub session_run_stream :
      Session → Text → Option ℤ → Collect → Env → Files → Outcome Stream
  session_run_stream x code t wish env files =
      session_stream x (c.interpreter ++ code ∷ []) t wish env files

  unfoldable pub session_shell_stream :
      Session → Text → Option ℤ → Collect → Env → Files → Outcome Stream
  session_shell_stream x command t wish env files =
      session_stream x (codes "sh" ∷ codes "-c" ∷ command ∷ []) t wish env files

  unfoldable pub session_exec_stream :
      Session → List Text → Option ℤ → Collect → Env → Files → Outcome Stream
  session_exec_stream x argv t wish env files =
      if is_empty argv then raise Exc.value_error else session_stream x argv t wish env files

  -- The callback `acquire`
  unfoldable pub acquire : Owner → M W Worker
  acquire Owner.pooled = lease h c
  acquire (Owner.pinned w x) = pure w

  -- The callback `on_finish`
  unfoldable pub on_finish : Owner → Worker → Bool → M W Owner
  on_finish Owner.pooled w retired = release h c w retired none >> pure Owner.pooled
  on_finish (Owner.pinned v x) w true = retire_now x >>= λ y. pure (Owner.pinned v y)
  on_finish (Owner.pinned v x) w false = pure (Owner.pinned v x)

  unfoldable pub finish_held : Option Worker → Stream → M W Stream
  finish_held none st = pure st
  finish_held (some w) st = on_finish st.owner w st.retire >>= λ o. pure (record st { owner = o })

  -- `_finish`
  unfoldable pub finish : Stream → M W Stream
  unfolding finish_held
  finish st =
      if st.finished
      then pure st
      else finish_held st.worker (record st { finished = true; worker = none })

  -- `__exit__`, told whether an exception has left the `with` body
  unfoldable pub exit : Bool → Stream → M W Stream
  exit escaped st = finish (record st { retire = st.retire || escaped })

  -- `_prepare`
  unfoldable pub prepare : Worker → Stream → M W (Unit {0})
  prepare w st = do
    check_size h c st.input_files
    clean_if h c st.clean w st.timeout
    upload_given h c w st.input_files st.timeout

  -- `finish` with `_retire`, and then the exception
  abbrev pub fail : Stream → Exc → M W (Stream × Outcome (Unit {0}))
  fail st e = finish (record st { retire = true }) >>= λ st'. pure (st', raise e)

  -- What `__enter__` makes of the end of `_prepare`.
  unfoldable pub prepared : Stream → Outcome (Unit {0}) → M W (Stream × Outcome (Unit {0}))
  prepared st (ok _) = pure (st, ok tt)
  prepared st (raise Exc.upload_error) = fail st Exc.sandbox_error
  prepared st (raise e) = if is_exception e then fail st e else pure (st, raise e)

  unfoldable pub enter_with : Stream → Outcome Worker → M W (Stream × Outcome (Unit {0}))
  enter_with st (raise e) = pure (st, raise e)
  enter_with st (ok w) =
      let held = record st { worker = some w } in capture (prepare w held) >>= prepared held

  -- `__enter__`
  unfoldable pub enter : Stream → M W (Stream × Outcome (Unit {0}))
  enter st = do
    now ← call_pure h.monotonic
    acquired ← capture (acquire st.owner)
    enter_with (record st { t0 = now }) acquired
