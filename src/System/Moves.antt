-- ===== src/System/Moves.antt =====
-- The abstract view of the system: where the workers are, and by which moves they get there. It
-- knows nothing of the cluster, the clock or what runs fail of.
use vomero_sandbox.Common.{
  ℕ, ◌≤◌, ◌<◌, ◌≡◌, Bool, true, false, List, [], ◌∷◌, ◌++◌, pos, leb_ℤ, length,
}
use vomero_sandbox.Config.{SandboxConfig}
use vomero_sandbox.Pool.State.{Worker, Task}
use vomero_sandbox.Pool.Cluster.{worker_name}
use vomero_sandbox.Pool.Lifecycle.{rounds}
use vomero_sandbox.Pool.Lifecycle.Warming.{Named}
use vomero_sandbox.System.{Thread}
use vomero_sandbox.System.Count.{worker_of}

-- `limit` is the number of workers that `start` has placed, 0 before it has.
pub record Shape : Type 0 where
  pub free : List Worker
  pub held : List Worker
  pub tasks : List Task
  pub threads : List Thread
  pub serial : ℕ
  pub started : Bool
  pub limit : ℕ

-- The worker has been used less often than the configuration allows.
abbrev pub IsUsable : SandboxConfig → Worker → Type 0
IsUsable c w = leb_ℤ c.max_uses (pos w.uses) ≡ false

-- What is put into the queue of threads to be wiped can be used again.
abbrev pub IsFit : SandboxConfig → Task → Type 0
IsFit c (Task.replacing w) = Unit {0}
IsFit c (Task.cleaning w) = IsUsable c w

pub data Move (c : SandboxConfig) (a b : Shape) : Type 0 where
  stay : (k : ℕ) → a.serial ≤ k → b ≡ record a { serial = k } → Move c a b
  warm :
      (ws : List Worker) (k : ℕ)
      → a.started ≡ false
      → length ws ≤ rounds c.pool_size
      → Named c a.serial ws k
      → b ≡ record a { free = a.free ++ ws; serial = k; started = true; limit = length ws }
      → Move c a b
  take :
      (w : Worker) (rest : List Worker)
      → a.free ≡ w ∷ rest
      → b ≡ record a { free = rest; held = w ∷ a.held }
      → Move c a b
  drop :
      (w : Worker) (rest : List Worker)
      → a.free ≡ w ∷ rest
      → b ≡ record a { free = rest }
      → Move c a b
  queue :
      (xs : List Worker) (w : Worker) (ys : List Worker) (k : Task)
      → a.held ≡ xs ++ w ∷ ys
      → (worker_of k).name ≡ w.name
      → IsFit c k
      → b ≡ record a { held = xs ++ ys; tasks = a.tasks ++ k ∷ [] }
      → Move c a b
  put :
      (xs : List Worker) (w v : Worker) (ys : List Worker)
      → a.held ≡ xs ++ w ∷ ys
      → v.name ≡ w.name
      → IsUsable c v
      → b ≡ record a { held = xs ++ ys; free = a.free ++ v ∷ [] }
      → Move c a b
  wiped :
      (xs : List Task) (w : Worker) (ys : List Task)
      → a.tasks ≡ xs ++ Task.cleaning w ∷ ys
      → b ≡ record a { tasks = xs ++ ys; free = a.free ++ w ∷ [] }
      → Move c a b
  dirty :
      (xs : List Task) (w : Worker) (ys : List Task)
      → a.tasks ≡ xs ++ Task.cleaning w ∷ ys
      → b ≡ record a { tasks = (xs ++ ys) ++ Task.replacing w ∷ [] }
      → Move c a b
  gone :
      (xs : List Task) (k : Task) (ys : List Task)
      → a.tasks ≡ xs ++ k ∷ ys
      → b ≡ record a { tasks = xs ++ ys }
      → Move c a b
  retry :
      (xs : List Task) (k : Task) (ys : List Task) (th : Thread)
      → a.tasks ≡ xs ++ k ∷ ys
      → b ≡ record a { tasks = xs ++ ys; threads = th ∷ a.threads }
      → Move c a b
  go_on :
      (xs : List Thread) (th : Thread) (ys : List Thread) (th' : Thread) (k : ℕ)
      → a.threads ≡ xs ++ th ∷ ys
      → a.serial ≤ k
      → b ≡ record a { threads = th' ∷ (xs ++ ys); serial = k }
      → Move c a b
  give_up :
      (xs : List Thread) (th : Thread) (ys : List Thread) (k : ℕ)
      → a.threads ≡ xs ++ th ∷ ys
      → a.serial ≤ k
      → b ≡ record a { threads = xs ++ ys; serial = k }
      → Move c a b
  hire :
      (xs : List Thread) (th : Thread) (ys : List Thread) (w : Worker) (k : ℕ)
      → a.threads ≡ xs ++ th ∷ ys
      → a.serial < k
      → w.name ≡ worker_name c k
      → w.uses ≡ 0
      → b ≡ record a { threads = xs ++ ys; free = a.free ++ w ∷ []; serial = k }
      → Move c a b
