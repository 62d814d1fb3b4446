-- ===== src/Pool/Workers.antt =====
-- Leasing a worker and giving it back: the free queue, retirement, and the bodies of the two kinds
-- of background threads.
use vomero_sandbox.Common.{
  ℕ, zero, suc, ◌+◌, Bool, true, false, Option, none, some, [], ◌∷◌, ℤ, pos, ◌-ℤ◌, leb_ℤ, max_ℤ,
  min_ℤ, is_some, get_or, if◌then◌else◌, ◌==◌, ◌*◌, ◌^◌,
}
use vomero_sandbox.Errors.{Exc, ok, raise, is_exception}
use vomero_sandbox.Config.{SandboxConfig, seconds}
use vomero_sandbox.Host.{Host}
use vomero_sandbox.Pool.State.{
  M, Worker, Task, pure, ◌>>=◌, ◌>>◌, gets, modify, call, call_pure, call_world, try_except,
  start_thread, put_free,
}
use vomero_sandbox.Pool.Cluster.{delete, spawn}
use vomero_sandbox.Pool.Execution.{clean_workspace}

-- `worker.uses += 1`
abbrev pub used : Worker → Worker
used w = record w { uses = w.uses + 1 }

-- `min(2.0 * (2 ** attempt), 8.0)`
abbrev pub backoff : ℕ → ℤ
backoff attempt = min_ℤ (seconds (2 * 2 ^ attempt)) (seconds 8)

module _ {W : Type 0} where
  unfoldable pub retire : Worker → M W (Unit {0})
  retire w = start_thread (Task.replacing w)

  unfoldable pub clean_and_return : Worker → M W (Unit {0})
  clean_and_return w = start_thread (Task.cleaning w)

module _ {W : Type 0} (h : Host W) where
  unfoldable pub close_connection : Option ℕ → M W (Unit {0})
  close_connection none = pure tt
  close_connection (some conn) = try_except (call (h.close_client conn)) is_exception (λ _. pure tt)

  -- `_close_client`; the worker itself is dropped by each caller.
  unfoldable pub close_client : Worker → M W (Unit {0})
  unfolding close_connection
  close_client w = close_connection w.api_client

module _ {W : Type 0} (h : Host W) (c : SandboxConfig) where
  -- `self._free.get(...)`: the head of the queue. On an empty queue the wait ends in a time-out, or
  -- goes on until another thread has put a worker there.
  unfoldable pub lease : M W Worker
  lease s = elim s.free [
    | w ∷ rest ↦ (ok w, record s { free = rest })
    | [] ↦ (if is_some c.acquire_timeout_s then raise Exc.sandbox_error else raise Exc.blocked, s)
  ]

  -- `_Worker.spent`: the clock is read only if the uses are not the reason.
  unfoldable pub spent : Worker → M W Bool
  spent w =
      if leb_ℤ c.max_uses (pos w.uses)
      then pure true
      else (call_pure h.monotonic >>= λ now. pure (leb_ℤ c.max_age_s (now -ℤ w.created_at)))

  unfoldable pub release : Worker → Bool → Option Bool → M W (Unit {0})
  release w unhealthy clean = do
    done ← if unhealthy then pure true else spent (used w)
    if done
        then retire (used w)
        else if get_or clean c.fresh_workdir_per_run
        then clean_and_return (used w)
        else put_free (used w)

  -- The thread of `_clean_and_return`.
  unfoldable pub clean_task : Worker → M W (Unit {0})
  clean_task w = do
    closed ← gets (λ s. s.closed)
    if closed then close_client h w else (do
      clean ←
          try_except (clean_workspace h c w (max_ℤ c.default_timeout_s (seconds 15)) >> pure true)
            is_exception (λ _. pure false)
      if clean then put_free w else retire w)

  -- One attempt to place the replacement: whether it succeeded.
  unfoldable pub try_replace : M W Bool
  try_replace =
      try_except (spawn h c >>= λ w. put_free w >> pure true) is_exception (λ _. pure false)

  -- The attempts that are left, and the number of the next one. No pause follows the last.
  unfoldable pub respawn : ℕ → ℕ → M W (Unit {0})
  respawn zero attempt = pure tt
  respawn (suc left) attempt =
      let again = respawn left (attempt + 1) in
      (do
        closed ← gets (λ s. s.closed)
        if closed then pure tt else (do
          placed ← try_replace
          if placed
              then pure tt
              else if left == 0
              then pure tt
              else call_world (h.sleep (backoff attempt)) >> again))

  -- What `_replace` does before its attempts.
  unfoldable pub discard : Worker → M W (Unit {0})
  discard w = do
    delete h c w.name
    close_client h w
    modify (λ s. record s { retired = s.retired + 1 })

  unfoldable pub replace : Worker → M W (Unit {0})
  unfolding discard respawn
  replace w = discard w >> respawn 3 0

  -- The body of a background thread.
  unfoldable pub run_task : Task → M W (Unit {0})
  run_task (Task.replacing w) = replace w
  run_task (Task.cleaning w) = clean_task w
