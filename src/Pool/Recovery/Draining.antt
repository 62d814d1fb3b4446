-- ===== src/Pool/Recovery/Draining.antt =====
-- The daemon threads of src/vomero_sandbox/runner.py, run one after the other on a cluster that does
-- what it is asked.
use vomero_sandbox.Common.{ℕ, zero, suc, ◌≡◌, List, [], ◌∷◌, length}
use vomero_sandbox.Errors.{Outcome, ok}
use vomero_sandbox.Config.{SandboxConfig}
use vomero_sandbox.Host.{Host}
use vomero_sandbox.Pool.State.{M, State, Task, Event, try_except}
use vomero_sandbox.Pool.State
use vomero_sandbox.Pool.Workers.{run_task}

-- How many runs of a thread a started thread can lead to.
abbrev pub load : List Task → ℕ
load [] = 0
load (Task.replacing w ∷ ks) = suc (load ks)
load (Task.cleaning w ∷ ks) = suc (suc (load ks))

module _ {W : Type 0} (h : Host W) (c : SandboxConfig) where
  -- The started threads run one after the other, the oldest first, at most so many.
  unfoldable pub run_tasks : ℕ → M W (Unit {0})
  run_tasks zero s = (ok tt, s)
  run_tasks (suc n) s =
      let again = run_tasks n in
      elim s.tasks [
        | [] ↦ (ok tt, s)
        | k ∷ ks ↦ State.◌>>◌ (run_task h c k) again (record s { tasks = ks })
      ]

-- Nothing is left to run, and there are so many more workers free.
abbrev pub Recovered : {W : Type 0} → ℕ → Outcome (Unit {0}) × State W → Type 0
Recovered n (q, t) = (q ≡ ok tt) × (t.tasks ≡ []) × (length t.free ≡ n)
