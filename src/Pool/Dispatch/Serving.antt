-- ===== src/Pool/Dispatch/Serving.antt =====
-- `_dispatch` of src/vomero_sandbox/runner.py, by the ends of the run.
use vomero_sandbox.Common.{
  ◌≡◌, subst, ◌⊎◌, refl, Bool, true, false, Option, none, Text, List, ℤ, pos, leb_ℤ, arith, [], ◌∷◌,
}
use vomero_sandbox.Errors.{Exc, Outcome, ok, raise, is_exception}
use vomero_sandbox.Config.{SandboxConfig}
use vomero_sandbox.Host.{Host}
use vomero_sandbox.Models.{RunResult, Files}
use vomero_sandbox.Pool.State.{M, State, Worker, Task, ◌>>=◌, ◌>>◌, lift, capture, call_pure}
use vomero_sandbox.Pool.Cluster.Frames.{Outside}
use vomero_sandbox.Pool.Execution.{Run, Env, Collect, exec_on_worker}
use vomero_sandbox.Pool.Workers.{used, release}
use vomero_sandbox.Pool.Quiet.{exec_on_worker-Outside}
use vomero_sandbox.Pool.Effects.{Freed, Queued, release-cases}
use vomero_sandbox.Pool.Dispatch.{
  timeout_result, unhealthy, translate, serve, dispatch, run_code, shell, exec,
}

-- The caller's answer to each end of a run: a result; a result that says `timed_out`; the sandbox
-- error that an upload's failure turns into; any other exception as it is.
abbrev pub Answers : Worker → Outcome RunResult → Outcome RunResult → Type 0
Answers w (ok r) q = q ≡ ok r
Answers w (raise Exc.exec_timeout) q = (d : ℤ) × (q ≡ ok (timeout_result d w.name))
Answers w (raise Exc.upload_error) q = q ≡ raise Exc.sandbox_error
Answers w (raise e) q = q ≡ raise e

-- The run has failed of an `Exception`.
abbrev pub is_faulty : Outcome RunResult → Bool
is_faulty (ok _) = false
is_faulty (raise e) = is_exception e

unhealthy-is_faulty : (o : Outcome RunResult) → unhealthy o ≡ is_faulty o
unhealthy-is_faulty (ok _) = refl
unhealthy-is_faulty (raise Exc.interrupt) = refl
unhealthy-is_faulty (raise Exc.blocked) = refl
unhealthy-is_faulty (raise _) = refl

-- The worker is in one new place: with a thread that replaces it; or, if the run has left it
-- healthy and it is not used up, with a thread that wipes it, or in the free queue.
abbrev pub GivenBack : {W : Type 0} → SandboxConfig → Worker → Bool → State W → State W → Type 0
GivenBack c w retired s t =
    Queued (Task.replacing (used w)) s t
    ⊎ ((retired ≡ false)
        × (leb_ℤ c.max_uses (pos (used w).uses) ≡ false)
        × (Queued (Task.cleaning (used w)) s t ⊎ Freed (used w) s t))

module _ {W : Type 0} (h : Host W) (c : SandboxConfig) where
  pub translate-Answers :
      (w : Worker) (t0 : ℤ) (o : Outcome RunResult) (s : State W)
      → let (q, t) = translate h c w t0 o s in Answers w o q × Outside s t
  unfolding translate ◌>>=◌
  translate-Answers w t0 (ok r) s = ground arith
  translate-Answers w t0 (raise Exc.exec_timeout) s = ((_, refl), ground arith)
  translate-Answers w t0 (raise Exc.upload_error) s = ground arith
  translate-Answers w t0 (raise e) s = ground arith

  pub released :
      (m : M W (Unit {0})) (q : Outcome RunResult) (t : State W)
      → (m t).0 ≡ ok tt
      → (m >> lift q) t ≡ (q, (m t).1)
  unfolding ◌>>=◌
  released m q t z = rw z refl

  moved :
      (w : Worker) (b : Bool) (s t u : State W)
      → Outside s t
      → GivenBack c w b t u
      → GivenBack c w b s u
  moved w b s t u o g = ground arith

  -- How the run ends on a worker, after the first reading of the clock.
  abbrev pub ended : Worker → Run → State W → Outcome RunResult
  ended w run s = (exec_on_worker h c w run false (call_pure h.monotonic s).1).0

  -- However a run on a leased worker ends, the worker is given back once, used once more: to be
  -- replaced; or to be wiped or free, but this only if the run has not failed of an `Exception`, and
  -- the worker is not used up. The caller gets the answer to that end, and nothing else of the
  -- pool's own state changes.
  pub serve_returns :
      (w : Worker) (run : Run) (s : State W)
      → let (q, t) = serve h c w run s in
        Answers w (ended w run s) q × GivenBack c w (is_faulty (ended w run s)) s t
  unfolding serve ◌>>=◌ capture
  serve_returns w run s =
      let (t0, w1) = h.monotonic s.world in
      let s1 = record s { world = w1 } in
      let x = (exec_on_worker-Outside h c w run false).after s1 in
      let (o, s2) = exec_on_worker h c w run false s1 in
      let (a, y) = translate-Answers w t0 o s2 in
      let (q, s3) = translate h c w t0 o s2 in
      let (z, g) = release-cases h c w (unhealthy o) none s3 in
      let (_, t) = release h c w (unhealthy o) none s3 in
      let away : Outside s s3 = ground arith in
      rw (released (release h c w (unhealthy o) none) q s3 z) (
        a,
        subst (λ b. GivenBack c w b s t) (unhealthy-is_faulty o)
            (moved w (unhealthy o) s s3 t away g),
      )

  -- On a closed pool `run`, `shell` and `exec` with a command raise `PoolClosed` and change nothing;
  -- `exec` of an empty command raises ValueError, and changes nothing either.
  pub closed_refused :
      (s : State W)
      → s.closed ≡ true
      → (text arg : Text) (argv : List Text) (t : Option ℤ) (wish : Collect) (env : Env)
        (files : Files)
      → (run_code h c text t wish env files s ≡ (raise Exc.pool_closed, s))
        × (shell h c text t wish env files s ≡ (raise Exc.pool_closed, s))
        × (exec h c (arg ∷ argv) t wish env files s ≡ (raise Exc.pool_closed, s))
        × (exec h c [] t wish env files s ≡ (raise Exc.value_error, s))
  unfolding run_code shell exec dispatch ◌>>=◌
  closed_refused s e text arg argv t wish env files = ground arith
