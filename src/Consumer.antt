-- ===== src/Consumer.antt =====
-- examples/queue_consumer.py: consumers that take jobs from a broker and run them in one pool.
pub mod Balance
pub mod Stopping
use vomero_sandbox.Common.{
  ℕ, zero, suc, ◌+◌, ◌-◌, ◌≡◌, ◌≢◌, Bool, true, false, Option, none, some, List, [], ◌∷◌, ◌++◌,
  Text, codes, leb, if◌then◌else◌,
}
use vomero_sandbox.Errors.{Exc, Outcome, ok, raise, is_exception}
use vomero_sandbox.Config.{SandboxConfig, seconds}
use vomero_sandbox.Host.{Host}
use vomero_sandbox.Models.{Files}
use vomero_sandbox.Pool.State.{M, State, pure, lift, ◌>>=◌, ◌>>◌, try_except}
use vomero_sandbox.Pool.Execution.{Env, Collect}
use vomero_sandbox.Projects.{Node, default_excludes, run_project}
use vomero_sandbox.System
use vomero_sandbox.System.{System}
use vomero_sandbox.Server.Jobs.{artifact_bytes, out_json}
use vomero_sandbox.Server.Packages.{join_path, registry}
use vomero_sandbox.Server.Utf8.{decode}

-- `class Job`
pub record Job : Type 0 where
  pub job_id : Text
  pub package_name : Text
  pub input_files : Files
  pub env : Env

-- What is put on the queue: a job, or the sentinel `_STOP`.
pub data Message : Type 0 where
  stop : Message
  work : Job → Message

-- `queue.Queue`: its items, the next one first, and the count that `join` waits for.
pub record Broker : Type 0 where
  pub items : List Message
  pub unfinished : ℕ

unfoldable pub put : Message → Broker → Broker
put m b = record { items = b.items ++ m ∷ []; unfinished = b.unfinished + 1 }

abbrev pub head_of : List Message → Broker → Option (Message × Broker)
head_of [] b = none
head_of (m ∷ ms) b = some (m, record b { items = ms })

-- `get`, which waits while there is no item.
unfoldable pub get : Broker → Option (Message × Broker)
get b = head_of b.items b

unfoldable pub task_done : Broker → Outcome (Unit {0}) × Broker
task_done b =
    if leb b.unfinished 0
    then (raise Exc.value_error, b)
    else (ok tt, record b { unfinished = b.unfinished - 1 })

-- A consumer: at `get`, with a message that it has taken, with one that it has handled and how that
-- ended (`true` to go on, `false` to return), or past its loop.
pub data Phase : Type 0 where
  waiting over : Phase
  busy : Message → Phase
  handled : Message → Outcome Bool → Phase

-- Where the `finally` clause leaves a consumer.
unfoldable pub next_phase : Outcome Bool → Outcome (Unit {0}) → Phase
next_phase (ok true) (ok _) = waiting
next_phase _ _ = over

-- The broker, its consumers and the pool. Ghosts: every message that was put, and every message
-- that a consumer is done with.
pub record Service (W : Type 0) : Type 0 where
  pub broker : Broker
  pub consumers : List Phase
  pub pool : State W
  pub published : List Message
  pub finished : List Message

module _ {W : Type 0} (h : Host W) (c : SandboxConfig) (here : Text) (host : Text → Node) where
  unfoldable pub handle_job : Job → M W (Unit {0})
  unfolding run_project decode lift
  handle_job job = do
    result ←
        run_project h c (host (join_path (registry here) job.package_name))
          (codes "python" ∷ codes "." ∷ []) (some (seconds 10)) (Collect.paths (out_json ∷ []))
          job.env default_excludes false job.input_files
    _ ← lift (decode (artifact_bytes result))
    pure tt

  -- The `try` statement of `consume` with its `except` clause: whether the loop goes on.
  unfoldable pub serve_message : Message → M W Bool
  unfolding handle_job
  serve_message Message.stop = pure false
  serve_message (Message.work job) =
      try_except (handle_job job >> pure true) is_exception (λ _. pure true)

  -- What a consumer does between two points at which another thread may act. One whose run would
  -- wait for a worker makes no move until it need not.
  pub data Move (s t : Service W) : Type 0 where
    takes :
        (xs ys : List Phase) (m : Message) (b : Broker)
        → s.consumers ≡ xs ++ waiting ∷ ys
        → get s.broker ≡ some (m, b)
        → t ≡ record s { broker = b; consumers = xs ++ busy m ∷ ys }
        → Move s t
    handles :
        (xs : List Phase) (m : Message) (ys : List Phase)
        → s.consumers ≡ xs ++ busy m ∷ ys
        → (serve_message m s.pool).0 ≢ raise Exc.blocked
        → t ≡ record s {
          consumers = xs ++ handled m (serve_message m s.pool).0 ∷ ys;
          pool = (serve_message m s.pool).1;
        }
        → Move s t
    acknowledges :
        (xs : List Phase) (m : Message) (r : Outcome Bool) (ys : List Phase)
        → s.consumers ≡ xs ++ handled m r ∷ ys
        → t ≡ record s {
          broker = (task_done s.broker).1;
          consumers = xs ++ next_phase r (task_done s.broker).0 ∷ ys;
          finished = m ∷ s.finished;
        }
        → Move s t

  -- The producer and `main` put messages; and a step of the pool's system is one of its threads, of
  -- another of its callers, of `close` or of the world.
  pub data Step (s t : Service W) : Type 0 where
    moves : Move s t → Step s t
    publishes :
        (m : Message)
        → t ≡ record s { broker = put m s.broker; published = m ∷ s.published }
        → Step s t
    elsewhere :
        (u v : System W)
        → u.pool ≡ s.pool
        → System.Step h c u v
        → t ≡ record s { pool = v.pool }
        → Step s t

  pub data Reach (s : Service W) : Service W → Type 0 where
    here_is : Reach s s
    next : {t u : Service W} → Reach s t → Step t u → Reach s u

abbrev pub idle : ℕ → List Phase
idle zero = []
idle (suc n) = waiting ∷ idle n

-- `main` before the producer: a new queue and its consumers, all at `get`.
unfoldable pub launched : {W : Type 0} → ℕ → State W → Service W
launched n p = record {
  broker = record { items = []; unfinished = 0 };
  consumers = idle n;
  pool = p;
  published = [];
  finished = [];
}
