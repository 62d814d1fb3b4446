-- ===== src/Sessions.antt =====
-- src/vomero_sandbox/runner.py, the class SandboxSession: a worker that is held for several calls,
-- which share its workspace. A method gives the session that it leaves beside its outcome.
pub mod Life
pub mod Entering
use vomero_sandbox.Common.{
  Bool, true, false, Option, none, some, List, [], ◌∷◌, ◌++◌, ℤ, pos, ltb_ℤ, max_ℤ, ◌-ℤ◌, Text,
  codes, is_empty, get_or, if◌then◌else◌,
}
use vomero_sandbox.Errors.{Exc, Outcome, ok, raise, is_exception}
use vomero_sandbox.Config.{SandboxConfig, seconds}
use vomero_sandbox.Host.{Host}
use vomero_sandbox.Json.{Json}
use vomero_sandbox.Models.{RunResult, Files}
use vomero_sandbox.Pool.State.{M, Worker, pure, throw, ◌>>=◌, ◌>>◌, gets, call_pure, lift, capture}
use vomero_sandbox.Pool.Execution.{
  Env, Collect, Run, total_size, clean_workspace, upload, collect_files, exec_on_worker,
}
use vomero_sandbox.Pool.Workers.{lease, release, retire}
use vomero_sandbox.Pool.Dispatch.{timeout_result, default_timeout, ensure_started}

-- `restore` is the files that the workspace is seeded with, none for `None`.
pub record Session : Type 0 where
  pub restore : Files
  pub worker : Option Worker
  pub dead : Bool

-- `session`, and `resume` on the files that a snapshot has been unpacked to.
abbrev pub session : Session
session = record { restore = []; worker = none; dead = false }

unfoldable pub resume : SandboxConfig → Files → Outcome Session
resume c files =
    if ltb_ℤ c.max_upload_bytes (pos (total_size files))
    then raise Exc.value_error
    else ok (record session { restore = files })

-- `_require_live`, with the worker of a session that passes.
unfoldable pub require_live : Session → Outcome Worker
require_live x =
    if x.dead
    then raise Exc.sandbox_error
    else elim x.worker [ none ↦ raise Exc.sandbox_error | some w ↦ ok w ]

module _ {W : Type 0} where
  unfoldable pub retire_held : Option Worker → M W (Unit {0})
  retire_held none = pure tt
  retire_held (some w) = retire w

  unfoldable pub retire_now : Session → M W Session
  unfolding retire_held
  retire_now x = retire_held x.worker >> pure (record x { worker = none; dead = true })

  -- Ends the session with an exception.
  unfoldable pub give_up : {A : Type 0} → Session → Exc → M W (Session × Outcome A)
  give_up x e = retire_now x >>= λ y. pure (y, raise e)

module _ {W : Type 0} (h : Host W) (c : SandboxConfig) where
  -- The `except` clauses of `_call`.
  unfoldable pub settle_call :
      Session → Worker → ℤ → Outcome RunResult → M W (Session × Outcome RunResult)
  settle_call x w t0 (ok r) = pure (x, ok r)
  settle_call x w t0 (raise Exc.exec_timeout) = do
    y ← retire_now x
    now ← call_pure h.monotonic
    pure (y, ok (timeout_result (now -ℤ t0) w.name))
  settle_call x w t0 (raise Exc.upload_error) = give_up x Exc.sandbox_error
  settle_call x w t0 (raise Exc.interrupt) = pure (x, raise Exc.interrupt)
  settle_call x w t0 (raise Exc.blocked) = pure (x, raise Exc.blocked)
  settle_call x w t0 (raise e) = give_up x e

  unfoldable pub call_live : Session → Worker → Run → M W (Session × Outcome RunResult)
  call_live x w run = do
    t0 ← call_pure h.monotonic
    ended ← capture (exec_on_worker h c w run false)
    settle_call x w t0 ended

  -- `_call`
  unfoldable pub session_call : Session → Run → M W (Session × Outcome RunResult)
  session_call x run = elim (require_live x) [
    | raise e ↦ pure (x, raise e)
    | ok w ↦ call_live x w run
  ]

  unfoldable pub session_run :
      Session → Text → Option ℤ → Collect → Env → Files → M W (Session × Outcome RunResult)
  session_run x code t wish env files = session_call x (record {
    argv = c.interpreter ++ code ∷ [];
    timeout = default_timeout h c t;
    wish = wish;
    env = env;
    input_files = files;
  })

  unfoldable pub session_shell :
      Session → Text → Option ℤ → Collect → Env → Files → M W (Session × Outcome RunResult)
  session_shell x command t wish env files = session_call x (record {
    argv = codes "sh" ∷ codes "-c" ∷ command ∷ [];
    timeout = default_timeout h c t;
    wish = wish;
    env = env;
    input_files = files;
  })

  unfoldable pub session_exec :
      Session → List Text → Option ℤ → Collect → Env → Files → M W (Session × Outcome RunResult)
  session_exec x argv t wish env files =
      if is_empty argv
      then pure (x, raise Exc.value_error)
      else session_call x (record {
        argv = argv;
        timeout = default_timeout h c t;
        wish = wish;
        env = env;
        input_files = files;
      })

  -- The files of `checkpoint` that `_pack_snapshot` is given.
  unfoldable pub checkpoint : Session → Option ℤ → M W Files
  checkpoint x t = do
    w ← lift (require_live x)
    (files, truncated) ←
        collect_files h c w Collect.everything (max_ℤ (default_timeout h c t) (seconds 15))
    if is_empty truncated then pure files else throw Exc.sandbox_error

  -- The `try` of `__enter__`.
  unfoldable pub seed : Session → Worker → M W (Unit {0})
  seed x w = do
    clean_workspace h c w (max_ℤ c.default_timeout_s (seconds 30))
    if is_empty x.restore
        then pure tt
        else upload h c w x.restore (max_ℤ c.default_timeout_s (seconds 30))

  unfoldable pub seeded : Session → Outcome (Unit {0}) → M W (Session × Outcome (Unit {0}))
  seeded x (ok _) = pure (record x { restore = [] }, ok tt)
  seeded x (raise e) = if is_exception e then give_up x e else pure (x, raise e)

  -- `__enter__` up to the lease.
  unfoldable pub take_worker : M W Worker
  take_worker = do
    closed ← gets (λ s. s.closed)
    if closed then throw Exc.pool_closed else ensure_started h c >> lease h c

  unfoldable pub take_up : Session → Outcome Worker → M W (Session × Outcome (Unit {0}))
  take_up x (raise e) = pure (x, raise e)
  take_up x (ok w) = capture (seed x w) >>= seeded (record x { worker = some w })

  unfoldable pub enter : Session → M W (Session × Outcome (Unit {0}))
  enter x = capture take_worker >>= take_up x

  unfoldable pub give_back : Bool → Option Worker → M W (Unit {0})
  give_back dead none = pure tt
  give_back true (some w) = retire w
  give_back false (some w) = release h c w false (some true)

  -- `_close`
  unfoldable pub leave : Session → M W Session
  leave x = give_back x.dead x.worker >> pure (record x { worker = none })
