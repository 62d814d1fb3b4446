-- ===== src/Pool/Cluster/Polling.antt =====
-- The polling loop of `_delete` in src/vomero_sandbox/runner.py, and its bound.
use vomero_sandbox.Common.{
  ℕ, zero, suc, ◌+◌, ◌*◌, ◌≤◌, ◌≡◌, refl, Bool, true, false, pos, ltb_ℤ, Text, if◌then◌else◌, arith,
}
use vomero_sandbox.Errors.{Outcome, ok, raise}
use vomero_sandbox.Config.{SandboxConfig}
use vomero_sandbox.Host.{Host}
use vomero_sandbox.Pool.State.{M, State, pure, ◌>>=◌, ◌>>◌, then_with, try_except, call, call_world}
use vomero_sandbox.Pool.Cluster.{has_status, poll_gone, delete_polls}

-- What is relied on of `time.monotonic`, `time.sleep` and the reading of a pod: the clock never runs
-- back, and a pause lasts as long as was asked for.
pub record Clocked {W : Type 0} (h : Host W) (clock : W → ℕ) : Type 0 where
  pub now : (w : W) → (h.monotonic w).0 ≡ pos (clock w)
  pub after_now : (w : W) → clock w ≤ clock (h.monotonic w).1
  pub after_read : (ns n : Text) (w : W) → clock w ≤ clock (h.read_pod ns n w).1
  pub after_pause : (d : ℕ) (w : W) → clock w + d ≤ clock (h.sleep (pos d) w)

module _ {W : Type 0} (h : Host W) (c : SandboxConfig) where
  -- One reading of the pod.
  abbrev look : Text → M W Bool
  look name =
      try_except (call (h.read_pod c.namespace name) >> pure false) (has_status 404)
        (λ _. pure true)

  abbrev pause : M W (Unit {0}) → M W (Unit {0})
  pause again = call_world (h.sleep (pos 200_000_000)) >> again

  looked-same :
      (m k : M W (Unit {0})) (q : Outcome Bool) (t : State W)
      → (m (record t { world = h.sleep (pos 200_000_000) t.world })
          ≡ k (record t { world = h.sleep (pos 200_000_000) t.world }))
      → then_with (λ gone. if gone then pure tt else pause m) q t
        ≡ then_with (λ gone. if gone then pure tt else pause k) q t
  unfolding ◌>>=◌
  looked-same m k (raise e) t same = refl
  looked-same m k (ok true) t same = refl
  looked-same m k (ok false) t same = same

  polled-same :
      (m k : M W (Unit {0})) (early : Bool) (name : Text) (s : State W)
      → (early ≡ true
          → m (record (look name s).1 { world = h.sleep (pos 200_000_000) (look name s).1.world })
            ≡ k (record (look name s).1 {
              world = h.sleep (pos 200_000_000) (look name s).1.world;
            }))
      → (if early then (look name >>= λ gone. if gone then pure tt else pause m) else pure tt) s
        ≡ (if early then (look name >>= λ gone. if gone then pure tt else pause k) else pure tt) s
  unfolding ◌>>=◌
  polled-same m k false name s same = refl
  polled-same m k true name s same = looked-same m k (look name s).0 (look name s).1 (same refl)

  module _ (clock : W → ℕ) (clocked : Clocked h clock) where
    look-clock : (name : Text) (s : State W) → clock s.world ≤ clock (look name s).1.world
    unfolding ◌>>=◌ try_except
    look-clock name s = ground (arith, clocked.after_read c.namespace name s.world)

    poll_more :
        (fuel more deadline : ℕ) (name : Text) (s : State W)
        → deadline ≤ clock s.world + fuel * 200_000_000
        → fuel ≤ more
        → poll_gone h c (suc fuel) (pos deadline) name s
          ≡ poll_gone h c (suc more) (pos deadline) name s
    unfolding poll_gone ◌>>=◌
    poll_more zero more deadline name s l below =
        let time = clocked.now s.world in
        polled-same (poll_gone h c zero (pos deadline) name)
          (poll_gone h c more (pos deadline) name) (ltb_ℤ (h.monotonic s.world).0 (pos deadline))
          name (record s { world = (h.monotonic s.world).1 }) (λ e. absurd (ground arith))
    poll_more (suc fuel) zero deadline name s l below = absurd (omega arith)
    poll_more (suc fuel) (suc more) deadline name s l below =
        let s1 = record s { world = (h.monotonic s.world).1 } in
        let t = (look name s1).1 in
        polled-same (poll_gone h c (suc fuel) (pos deadline) name)
          (poll_gone h c (suc more) (pos deadline) name)
          (ltb_ℤ (h.monotonic s.world).0 (pos deadline)) name s1
          (λ _.
            poll_more fuel more deadline name
              (record t { world = h.sleep (pos 200_000_000) t.world })
              (omega (
                arith,
                clocked.after_now s.world,
                look-clock name s1,
                clocked.after_pause 200_000_000 t.world,
              ))
              (omega arith))

  -- On a clock that never runs back, with pauses that last as asked for, the polling of a pod for
  -- sixty seconds ends within the reads that the model allows: with more allowed, it does the same.
  pub polls_enough :
      (clock : W → ℕ)
      → Clocked h clock
      → (more asked : ℕ) (name : Text) (s : State W) → asked ≤ clock s.world
      → delete_polls ≤ more
      → poll_gone h c delete_polls (pos (asked + 60_000_000_000)) name s
        ≡ poll_gone h c more (pos (asked + 60_000_000_000)) name s
  polls_enough clock clocked zero asked name s l below = absurd (omega arith)
  polls_enough clock clocked (suc more) asked name s l below =
      poll_more clock clocked 300 more (asked + 60_000_000_000) name s (omega arith) (omega arith)
