-- ===== src/System/Reachable.antt =====
-- The states that the system reaches from an empty pool.
use vomero_sandbox.Common.{◌+◌, ◌≤◌, ◌≡◌, refl, List, length, Text, All, arith}
use vomero_sandbox.Errors.{ok}
use vomero_sandbox.Config.{SandboxConfig, Resource, validate}
use vomero_sandbox.Config.Checks.{validate-Valid}
use vomero_sandbox.Host.{Host}
use vomero_sandbox.Pool.Lifecycle.{rounds}
use vomero_sandbox.Pool.Lifecycle.Hooks.{stats}
use vomero_sandbox.System.{System, Reach, init}
use vomero_sandbox.System.Moves.{Shape, Move, IsUsable}
use vomero_sandbox.System.Ownership.{occurrences, Bounded, Move-Bounded, Apart, Move-Apart}
use vomero_sandbox.System.Usable.{Usable, Move-Usable}
use vomero_sandbox.System.Refinement.{placed_of, shape, Step-Move}

module _ {W : Type 0} (h : Host W) (c : SandboxConfig) (w : W) where
  -- What holds at first, and what every move keeps, holds in every state that is reached.
  always :
      (P : Shape → Type 0)
      → P (shape (init w))
      → ((a b : Shape) → Move c a b → P a → P b)
      → (s : System W) → Reach h c (init w) s
      → P (shape s)
  always P first keep s Reach.here = first
  always P first keep s (Reach.next {t} before step) =
      keep (shape t) (shape s) (Step-Move h c t s step) (always P first keep t before)

  first_Bounded : Bounded c (shape (init w))
  unfolding init
  first_Bounded = record { within = omega arith; limited = omega arith; unstarted = λ _. refl }

  first_Apart : Apart c (shape (init w))
  unfolding init
  first_Apart = record { once = λ _. omega arith; issued = λ _ _. refl }

  first_Usable : Usable c (shape (init w))
  unfolding init
  first_Usable = record { free = tt; tasks = tt }

  -- In every state that the system can reach, the workers that are free, leased, or in the hands of
  -- a thread, with the threads that still try to place one, are at most as many as `start` has
  -- reported to have placed, and so at most `pool_size`.
  pub workers_bounded :
      (s : System W)
      → Reach h c (init w) s
      → (length s.pool.free + length s.held + length s.pool.tasks + length s.threads
          ≤ placed_of s.pool.start_report)
        × (placed_of s.pool.start_report ≤ rounds c.pool_size)
  workers_bounded s r =
      let b = always (Bounded c) first_Bounded (Move-Bounded c) s r in (b.within, b.limited)

  -- In every state that the system can reach, the workers of one name that are free, leased, or in
  -- the hands of a thread are one at most: no two callers hold the same worker, and what a caller
  -- holds is neither free, nor being wiped, nor being replaced.
  pub held_once : (s : System W) → Reach h c (init w) s → (n : Text) → occurrences n (shape s) ≤ 1
  held_once s r = (always (Apart c) first_Apart (Move-Apart c) s r).once

  -- With a configuration that `validate` accepts, in every state that the system can reach, every
  -- free worker has been used less often than `max_uses`.
  pub free-IsUsable :
      (ws : List Resource)
      → validate c ≡ ok ws
      → (s : System W) → Reach h c (init w) s
      → All (IsUsable c) s.pool.free
  free-IsUsable ws v s r =
      let valid = validate-Valid c ws v in
      (always (Usable c) first_Usable (Move-Usable c (ground arith)) s r).free

  -- In every state that the system can reach, `stats` reports no more free workers than placed ones,
  -- and no more placed ones than `pool_size`.
  pub stats_bounded :
      (s : System W)
      → Reach h c (init w) s
      → let st = stats c s.pool in (st.free ≤ st.placed) × (st.placed ≤ rounds st.pool_size)
  unfolding stats
  stats_bounded s r = let (within, limited) = workers_bounded s r in (omega arith, limited)
