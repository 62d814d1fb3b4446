-- ===== src/Pool/Dispatch.antt =====
-- `_dispatch` and the three entry points that lead to it.
pub mod Serving
pub mod Closing
pub mod Ending
use vomero_sandbox.Common.{
  Bool, true, false, Option, none, List, [], ◌∷◌, ◌++◌, ℤ, ◌-ℤ◌, Text, codes, is_empty, get_or,
  if◌then◌else◌,
}
use vomero_sandbox.Errors.{Exc, Outcome, ok, raise}
use vomero_sandbox.Config.{SandboxConfig}
use vomero_sandbox.Host.{Host}
use vomero_sandbox.Models.{RunResult, Files}
use vomero_sandbox.Pool.State.{M, Worker, pure, throw, ◌>>=◌, ◌>>◌, gets, call_pure, lift, capture}
use vomero_sandbox.Pool.Execution.{Env, Collect, Run, exec_on_worker}
use vomero_sandbox.Pool.Workers.{lease, release}
use vomero_sandbox.Pool.Lifecycle.{start}

-- The result of a run that its time limit has cut off.
abbrev pub timeout_result : ℤ → Text → RunResult
timeout_result duration name = record {
  out = [];
  err = [];
  exit_code = none;
  timed_out = true;
  duration_s = duration;
  sandbox_id = name;
  files = [];
  files_truncated = [];
}

-- The local variable `retire` when the run has ended so.
abbrev pub unhealthy : Outcome RunResult → Bool
unhealthy (ok _) = false
unhealthy (raise Exc.interrupt) = false
unhealthy (raise Exc.blocked) = false
unhealthy (raise _) = true

module _ {W : Type 0} (h : Host W) (c : SandboxConfig) where
  -- What the `except` clauses make of the end of a run that began at `t0`.
  unfoldable pub translate : Worker → ℤ → Outcome RunResult → M W RunResult
  translate w t0 (ok r) = pure r
  translate w t0 (raise Exc.exec_timeout) = do
    now ← call_pure h.monotonic
    pure (timeout_result (now -ℤ t0) w.name)
  translate w t0 (raise Exc.upload_error) = throw Exc.sandbox_error
  translate w t0 (raise e) = throw e

  -- The `try ... finally` of `_dispatch`, on the worker that it has leased.
  unfoldable pub serve : Worker → Run → M W RunResult
  serve w run = do
    t0 ← call_pure h.monotonic
    ended ← capture (exec_on_worker h c w run false)
    result ← capture (translate w t0 ended)
    release h c w (unhealthy ended) none
    lift result

  abbrev pub default_timeout : Option ℤ → ℤ
  default_timeout t = get_or t c.default_timeout_s

  -- `if not self._started: self.start()`
  unfoldable pub ensure_started : M W (Unit {0})
  ensure_started = do
    started ← gets (λ s. s.started)
    if started then pure tt else (start h c >> pure tt)

  unfoldable pub dispatch : Run → M W RunResult
  dispatch run = do
    closed ← gets (λ s. s.closed)
    if closed then throw Exc.pool_closed else (do ensure_started; w ← lease h c; serve w run)

  unfoldable pub run_code : Text → Option ℤ → Collect → Env → Files → M W RunResult
  run_code code t wish env files = dispatch (record {
    argv = c.interpreter ++ code ∷ [];
    timeout = default_timeout t;
    wish = wish;
    env = env;
    input_files = files;
  })

  unfoldable pub shell : Text → Option ℤ → Collect → Env → Files → M W RunResult
  shell command t wish env files = dispatch (record {
    argv = codes "sh" ∷ codes "-c" ∷ command ∷ [];
    timeout = default_timeout t;
    wish = wish;
    env = env;
    input_files = files;
  })

  unfoldable pub exec : List Text → Option ℤ → Collect → Env → Files → M W RunResult
  exec argv t wish env files =
      if is_empty argv
      then throw Exc.value_error
      else dispatch (record {
        argv = argv;
        timeout = default_timeout t;
        wish = wish;
        env = env;
        input_files = files;
      })
