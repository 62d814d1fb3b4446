-- ===== src/Pool/Dispatch/Ending.antt =====
-- `_atexit_close` and `_handle_sigterm` of src/vomero_sandbox/runner.py, by what they leave of the pool.
use vomero_sandbox.Common.{◌≡◌, ◌⊎◌, refl, inl, inr, true, false, Bool-cases}
use vomero_sandbox.Errors.{Exc, Outcome, ok, raise, is_exception, is_calm}
use vomero_sandbox.Config.{SandboxConfig}
use vomero_sandbox.Host.{Host}
use vomero_sandbox.Pool.State.{State, ◌>>=◌, then_with, handle, try_except, pure}
use vomero_sandbox.Pool.Execution.{Run}
use vomero_sandbox.Pool.Lifecycle.{close}
use vomero_sandbox.Pool.Lifecycle.Hooks.{Handler, chain, handle_sigterm}
use vomero_sandbox.Pool.Dispatch.{dispatch}
use vomero_sandbox.Pool.Dispatch.Closing.{close_ends, refused}

-- What the handler of SIGTERM ends with once the pool is closed: as the handler before it, by
-- returning if the signal was ignored, or by SystemExit.
abbrev pub answer : {W : Type 0} → Handler W → State W → Outcome (Unit {0})
answer (Handler.callable f) u = (f u.world).0
answer Handler.ignored u = ok tt
answer Handler.standard u = raise Exc.interrupt

-- The end of the handler, by the end of `close`: an interrupt of `close` goes on, and all else is
-- swallowed.
abbrev pub Answered :
    {W : Type 0} → Handler W → Outcome (Unit {0}) × State W → Outcome (Unit {0}) → Type 0
Answered prev (r, u) q =
    ((is_calm r ≡ true) × (q ≡ answer prev u)) ⊎ ((is_calm r ≡ false) × (q ≡ r))

module _ {W : Type 0} (h : Host W) (c : SandboxConfig) where
  chained :
      (prev : Handler W) (u : State W)
      → u.closed ≡ true
      → let (q, t) = chain h c prev u in (q ≡ answer prev u) × (t.closed ≡ true)
  unfolding ◌>>=◌
  chained (Handler.callable f) u k = (refl, k)
  chained Handler.ignored u k = (refl, k)
  chained Handler.standard u k = (refl, k)

  handled :
      (prev : Handler W) (r : Outcome (Unit {0})) (u : State W)
      → u.closed ≡ true
      → let (p, v) = handle is_exception (λ _. pure tt) r u in
        let (q, t) = then_with (λ _. chain h c prev) p v in
        Answered prev (r, u) q × (t.closed ≡ true)
  unfolding ◌>>=◌
  handled prev (ok _) u k = let (a, b) = chained prev u k in (inl (refl, a), b)
  handled prev (raise e) u k = elim (Bool-cases (is_exception e)) [
    | inl y ↦ let (a, b) = chained prev u k in rw y (inl (refl, a), b)
    | inr n ↦ rw n (inr (refl, refl), k)
  ]

  -- However SIGTERM finds the pool, and whatever handler was there before: after the pool's handler
  -- the pool is closed, and a dispatch raises `PoolClosed` and changes nothing. The handler ends as
  -- the one before it would, or with SystemExit where there was none; only an interrupt of `close`
  -- comes before that.
  pub sigterm_closes :
      (prev : Handler W) (s : State W) (run : Run)
      → let (q, t) = handle_sigterm h c prev s in
        Answered prev (close h c s) q
        × (t.closed ≡ true)
        × (dispatch h c run t ≡ (raise Exc.pool_closed, t))
  unfolding handle_sigterm ◌>>=◌ try_except
  sigterm_closes prev s run =
      let (r, u) = close h c s in
      let (a, k) = handled prev r u (close_ends h c s run).0 in
      (a, k, refused h c run (handle_sigterm h c prev s).1 k)
