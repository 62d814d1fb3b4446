-- ===== src/Pool/Dispatch/Closing.antt =====
-- `close` of src/vomero_sandbox/runner.py, and the calls that come after it.
use vomero_sandbox.Common.{◌⊎◌, inl, inr, Bool-cases, ◌≡◌, refl, true, false, List, [], ◌∷◌, arith}
use vomero_sandbox.Errors.{Exc, Outcome, ok, raise, succeeded}
use vomero_sandbox.Config.{SandboxConfig}
use vomero_sandbox.Host.{Host}
use vomero_sandbox.Pool.State.{State, Worker, ◌>>=◌, then_with, gets}
use vomero_sandbox.Pool.Execution.{Run}
use vomero_sandbox.Pool.Quiet.{close_client-Outside}
use vomero_sandbox.Pool.Workers.{close_client}
use vomero_sandbox.Pool.Lifecycle.{delete_workers, drain, close}
use vomero_sandbox.Pool.Lifecycle.Starting.{delete_workers-Prepared}
use vomero_sandbox.Pool.Dispatch.{dispatch}

-- The flag is as it was; and if the method has returned, no worker is free.
abbrev Drained : {W : Type 0} → State W → Outcome (Unit {0}) → State W → Type 0
Drained s q t = (t.closed ≡ s.closed) × (succeeded q ≡ true → t.free ≡ [])

module _ {W : Type 0} (h : Host W) (c : SandboxConfig) where
  dropped-Drained :
      (ws : List Worker) (s : State W) (q : Outcome (Unit {0})) (t : State W)
      → ((u : State W) → u.free ≡ ws → Drained u (drain h c ws u).0 (drain h c ws u).1)
      → t.free ≡ ws
      → t.closed ≡ s.closed
      → Drained s (then_with (λ _. drain h c ws) q t).0 (then_with (λ _. drain h c ws) q t).1
  dropped-Drained ws s (raise e) t ih f k = (k, λ r. absurd (ground arith))
  dropped-Drained ws s (ok _) t ih f k = (ground (arith, ih t f), (ih t f).1)

  drain-Drained :
      (ws : List Worker) (s : State W)
      → s.free ≡ ws
      → Drained s (drain h c ws s).0 (drain h c ws s).1
  unfolding drain ◌>>=◌
  drain-Drained [] s f = (refl, λ _. f)
  drain-Drained (w ∷ ws) s f =
      let o = (close_client-Outside h c w).after (record s { free = ws }) in
      dropped-Drained ws s (close_client h w (record s { free = ws })).0
        (close_client h w (record s { free = ws })).1 (drain-Drained ws) (ground arith)
        (ground arith)

  swept-Drained :
      (s : State W) (q : Outcome (Unit {0})) (t : State W)
      → t.closed ≡ s.closed
      → let k = gets (λ (u : State W). u.free) >>= drain h c in
        Drained s (then_with (λ _. k) q t).0 (then_with (λ _. k) q t).1
  unfolding ◌>>=◌
  swept-Drained s (raise e) t k = (k, λ r. absurd (ground arith))
  swept-Drained s (ok _) t k =
      let (closed, free) = drain-Drained t.free t refl in (ground arith, free)

  close-Drained :
      (s : State W) → Drained (record s { closed = true }) (close h c s).0 (close h c s).1
  unfolding close ◌>>=◌
  close-Drained s =
      let s1 = record s { closed = true } in
      let p = (delete_workers-Prepared h c).after s1 in
      swept-Drained s1 (delete_workers h c s1).0 (delete_workers h c s1).1 (ground arith)

  pub refused :
      (run : Run) (t : State W) → t.closed ≡ true → dispatch h c run t ≡ (raise Exc.pool_closed, t)
  unfolding dispatch ◌>>=◌
  refused run t e = ground arith

  -- After a call of `close`, in whose time nothing else acts, and however it ends, the pool is closed,
  -- and a dispatch raises `PoolClosed` and changes nothing; if `close` has returned, no worker is free.
  pub close_ends :
      (s : State W) (run : Run)
      → let (q, t) = close h c s in
        (t.closed ≡ true)
        × ((succeeded q ≡ false) ⊎ (t.free ≡ []))
        × (dispatch h c run t ≡ (raise Exc.pool_closed, t))
  close_ends s run =
      let (q, t) = close h c s in
      let (closed, free) = close-Drained s in
      let swept : (succeeded q ≡ false) ⊎ (t.free ≡ []) = elim (Bool-cases (succeeded q)) [
        | inl y ↦ inr (free y)
        | inr n ↦ inl n
      ] in
      (closed, swept, refused run t closed)
