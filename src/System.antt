-- ===== src/System.antt =====
-- The pool with everything that uses it at once: callers that hold leased workers (a call of
-- `_dispatch`, a session or a stream each), the daemon threads, and `close`. A step is what one of
-- them does between two points at which another may act; steps come in any order.
pub mod Count
pub mod Moves
pub mod Ownership
pub mod Usable
pub mod Refinement
pub mod Reachable
pub mod Replacing
pub mod Dispatching
pub mod Streaming
pub mod Arriving
pub mod Holding
use vomero_sandbox.Common.{
  ℕ, zero, suc, ◌+◌, ◌≡◌, Bool, true, false, Option, none, some, List, [], ◌∷◌, ◌++◌, ◌==◌,
  if◌then◌else◌,
}
use vomero_sandbox.Errors.{Outcome, ok, raise, succeeded}
use vomero_sandbox.Config.{SandboxConfig}
use vomero_sandbox.Host.{Host}
use vomero_sandbox.Models.{PoolStartReport}
use vomero_sandbox.Pool.State.{M, State, Worker, Task, pure, ◌>>=◌, ◌>>◌, gets, call_world}
use vomero_sandbox.Pool.Execution.{Run, exec_on_worker}
use vomero_sandbox.Pool.Workers.{
  lease, release, retire, clean_task, discard, try_replace, backoff, close_client,
}
use vomero_sandbox.Pool.Lifecycle.{start, delete_workers}

-- A thread of `_replace` that is past its deletions: about to look at the `_closed` flag, with the
-- attempts left and the number of the next; or past the look, about to place a replacement.
pub data Thread : Type 0 where
  checking spawning : ℕ → ℕ → Thread

pub record System (W : Type 0) : Type 0 where
  pub pool : State W
  pub held : List Worker
  pub threads : List Thread

-- The threads with the one that has just run, if it goes on.
abbrev pub resume_thread : Outcome (Option Thread) → List Thread → List Thread
resume_thread (ok (some th)) ths = th ∷ ths
resume_thread (ok none) ths = ths
resume_thread (raise _) ths = ths

abbrev pub begin_thread : Outcome (Unit {0}) → List Thread → List Thread
begin_thread (ok _) ths = Thread.checking 3 0 ∷ ths
begin_thread (raise _) ths = ths

module _ {W : Type 0} (h : Host W) (c : SandboxConfig) where
  -- What follows an attempt, by whether it has placed a worker.
  unfoldable pub after_attempt : ℕ → ℕ → Bool → M W (Option Thread)
  after_attempt left attempt true = pure none
  after_attempt left attempt false =
      if left == 0
      then pure none
      else call_world (h.sleep (backoff attempt))
        >> pure (some (Thread.checking left (attempt + 1)))

  -- One piece of the retry loop of `_replace`, and where it leaves the thread.
  unfoldable pub advance : Thread → M W (Option Thread)
  advance (Thread.checking zero attempt) = pure none
  advance (Thread.checking (suc left) attempt) = do
    closed ← gets (λ s. s.closed)
    if closed then pure none else pure (some (Thread.spawning left attempt))
  advance (Thread.spawning left attempt) = try_replace h c >>= after_attempt left attempt

  pub data Step (s t : System W) : Type 0 where
    -- the world moves by itself
    outside : (w : W) → t ≡ record s { pool = record s.pool { world = w } } → Step s t
    -- `start`, on a pool that is not started
    starts : s.pool.started ≡ false → t ≡ record s { pool = (start h c s.pool).1 } → Step s t
    -- a caller leases a worker, runs a command on one that it holds, and gives it back
    leases :
        (w : Worker)
        → (lease h c s.pool).0 ≡ ok w
        → t ≡ record s { pool = (lease h c s.pool).1; held = w ∷ s.held }
        → Step s t
    works :
        (xs : List Worker) (w : Worker) (ys : List Worker) (run : Run) (clean : Bool)
        → s.held ≡ xs ++ w ∷ ys
        → t ≡ record s { pool = (exec_on_worker h c w run clean s.pool).1 }
        → Step s t
    gives_back :
        (xs : List Worker) (w : Worker) (ys : List Worker) (unhealthy : Bool) (clean : Option Bool)
        → s.held ≡ xs ++ w ∷ ys
        → t ≡ record s { pool = (release h c w unhealthy clean s.pool).1; held = xs ++ ys }
        → Step s t
    -- a session retires the worker that it holds
    retires :
        (xs : List Worker) (w : Worker) (ys : List Worker)
        → s.held ≡ xs ++ w ∷ ys
        → t ≡ record s { pool = (retire w s.pool).1; held = xs ++ ys }
        → Step s t
    -- the threads
    wipes :
        (xs : List Task) (w : Worker) (ys : List Task)
        → s.pool.tasks ≡ xs ++ Task.cleaning w ∷ ys
        → t ≡ record s { pool = (clean_task h c w (record s.pool { tasks = xs ++ ys })).1 }
        → Step s t
    replaces :
        (xs : List Task) (w : Worker) (ys : List Task)
        → s.pool.tasks ≡ xs ++ Task.replacing w ∷ ys
        → t ≡ record s {
          pool = (discard h c w (record s.pool { tasks = xs ++ ys })).1;
          threads = begin_thread (discard h c w (record s.pool { tasks = xs ++ ys })).0 s.threads;
        }
        → Step s t
    advances :
        (xs : List Thread) (th : Thread) (ys : List Thread)
        → s.threads ≡ xs ++ th ∷ ys
        → t ≡ record s {
          pool = (advance th s.pool).1;
          threads = resume_thread (advance th s.pool).0 (xs ++ ys);
        }
        → Step s t
    -- `close`: the flag, the deletions, and each worker that it finds in the queue
    closes : t ≡ record s { pool = record s.pool { closed = true } } → Step s t
    sweeps : s.pool.closed ≡ true → t ≡ record s { pool = (delete_workers h c s.pool).1 } → Step s t
    drops :
        (w : Worker) (rest : List Worker)
        → s.pool.closed ≡ true
        → s.pool.free ≡ w ∷ rest
        → t ≡ record s { pool = (close_client h w (record s.pool { free = rest })).1 }
        → Step s t

  pub data Reach (s : System W) : System W → Type 0 where
    here : Reach s s
    next : {t u : System W} → Reach s t → Step t u → Reach s u

-- `SandboxPool.__init__`, over a world.
unfoldable pub init : {W : Type 0} → W → System W
init w = record {
  pool = record {
    free = [];
    serial = 0;
    spawned = 0;
    retired = 0;
    started = false;
    closed = false;
    start_report = none;
    cleanup_installed = false;
    tasks = [];
    events = [];
    world = w;
  };
  held = [];
  threads = [];
}
