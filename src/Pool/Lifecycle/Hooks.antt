-- ===== src/Pool/Lifecycle/Hooks.antt =====
-- src/vomero_sandbox/runner.py: what closes the pool when its process ends, the context manager, and
-- the statistics.
use vomero_sandbox.Common.{ℕ, Bool, Option, none, some, ℤ, pos, length}
use vomero_sandbox.Errors.{Exc, Outcome, is_exception}
use vomero_sandbox.Config.{SandboxConfig}
use vomero_sandbox.Host.{Host}
use vomero_sandbox.Models.{PoolStartReport, shortfall}
use vomero_sandbox.Pool.State.{M, State, pure, throw, ◌>>◌, call, try_except}
use vomero_sandbox.Pool.Lifecycle.{start, close}

-- What `signal.getsignal` gave before: a function, to ignore the signal, or anything else.
pub data Handler (W : Type 0) : Type 0 where
  callable : (W → Outcome (Unit {0}) × W) → Handler W
  ignored standard : Handler W

module _ {W : Type 0} (h : Host W) (c : SandboxConfig) where
  unfoldable pub atexit_close : M W (Unit {0})
  atexit_close = try_except (close h c) is_exception (λ _. pure tt)

  abbrev pub chain : Handler W → M W (Unit {0})
  chain (Handler.callable f) = call f
  chain Handler.ignored = pure tt
  chain Handler.standard = throw Exc.interrupt

  unfoldable pub handle_sigterm : Handler W → M W (Unit {0})
  unfolding atexit_close
  handle_sigterm prev = atexit_close >> chain prev

  -- `__enter__` and `__exit__`; the pool is given back by the first.
  unfoldable pub enter_pool : M W (Unit {0})
  enter_pool = start h c >> pure tt

  unfoldable pub exit_pool : M W (Unit {0})
  exit_pool = close h c

-- The dict that `stats` makes.
pub record Stats : Type 0 where
  pub pool_size : ℤ
  pub requested : ℤ
  pub placed : ℕ
  pub shortfall : ℤ
  pub free : ℕ
  pub spawned_total : ℕ
  pub retired_total : ℕ
  pub started : Bool
  pub closed : Bool

abbrev requested_of : SandboxConfig → Option PoolStartReport → ℤ
requested_of c none = c.pool_size
requested_of c (some r) = r.requested

abbrev pub placed_of : Option PoolStartReport → ℕ
placed_of none = 0
placed_of (some r) = r.placed

abbrev shortfall_of : Option PoolStartReport → ℤ
shortfall_of none = pos 0
shortfall_of (some r) = shortfall r

unfoldable pub stats : {W : Type 0} → SandboxConfig → State W → Stats
stats c s = record {
  pool_size = c.pool_size;
  requested = requested_of c s.start_report;
  placed = placed_of s.start_report;
  shortfall = shortfall_of s.start_report;
  free = length s.free;
  spawned_total = s.spawned;
  retired_total = s.retired;
  started = s.started;
  closed = s.closed;
}
