-- ===== src/System/Replacing.antt =====
-- The retry loop of `_replace`, cut into the pieces that the system interleaves.
use vomero_sandbox.Common.{
  ℕ, zero, suc, ◌+◌, ◌≡◌, refl, Bool, true, false, Option, none, some, ◌==◌, if◌then◌else◌, arith,
}
use vomero_sandbox.Errors.{Outcome, ok, raise}
use vomero_sandbox.Config.{SandboxConfig}
use vomero_sandbox.Host.{Host}
use vomero_sandbox.Pool.State.{M, State, pure, ◌>>=◌, ◌>>◌, then_with, call_world}
use vomero_sandbox.Pool.Workers.{respawn, try_replace, backoff}
use vomero_sandbox.System.{Thread, advance, after_attempt}

-- Two for each attempt that is left, and one for the end.
abbrev pub enough : ℕ → ℕ
enough zero = 1
enough (suc left) = suc (suc (enough left))

module _ {W : Type 0} (h : Host W) (c : SandboxConfig) where
  -- Runs a thread for so many pieces.
  go_on : (Thread → M W (Unit {0})) → Option Thread → M W (Unit {0})
  go_on again none = pure tt
  go_on again (some th) = again th

  unfoldable pub pieces : ℕ → Thread → M W (Unit {0})
  unfolding go_on
  pieces zero th = pure tt
  pieces (suc n) th = advance h c th >>= go_on (pieces n)

  attempt-pieces :
      (left attempt n : ℕ) (q : Outcome Bool) (t : State W)
      → ((s : State W)
          → respawn h c left (attempt + 1) s ≡ pieces n (Thread.checking left (attempt + 1)) s)
      → then_with
          (λ placed.
            if placed
            then pure tt
            else if left == 0
            then pure tt
            else call_world (h.sleep (backoff attempt)) >> respawn h c left (attempt + 1))
          q
          t
        ≡ then_with
            (go_on (pieces n))
            (then_with (after_attempt h c left attempt) q t).0
            (then_with (after_attempt h c left attempt) q t).1
  unfolding after_attempt go_on ◌>>=◌
  attempt-pieces left attempt n (raise e) t ih = refl
  attempt-pieces left attempt n (ok true) t ih = refl
  attempt-pieces zero attempt n (ok false) t ih = refl
  attempt-pieces (suc left) attempt n (ok false) t ih =
      let more : (suc left == 0) ≡ false = ground arith in
      rw more (ih (record t { world = h.sleep (backoff attempt) t.world }))

  look-pieces :
      (left attempt n : ℕ) (closed : Bool) (s : State W)
      → ((s : State W)
          → respawn h c left (attempt + 1) s ≡ pieces n (Thread.checking left (attempt + 1)) s)
      → (if closed
            then pure tt
            else (try_replace h c >>= λ placed.
                if placed
                then pure tt
                else if left == 0
                then pure tt
                else call_world (h.sleep (backoff attempt)) >> respawn h c left (attempt + 1)))
          s
        ≡ then_with
            (go_on (pieces (suc n)))
            ((if closed then pure none else pure (some (Thread.spawning left attempt))) s).0
            ((if closed then pure none else pure (some (Thread.spawning left attempt))) s).1
  unfolding advance go_on pieces ◌>>=◌
  look-pieces left attempt n true s ih = refl
  look-pieces left attempt n false s ih =
      attempt-pieces left attempt n (try_replace h c s).0 (try_replace h c s).1 ih

  -- The loop of `_replace` over the attempts left, from any state, is the pieces of the system's
  -- thread one after the other; two pieces for each attempt and one more are enough for its end.
  pub respawn-pieces :
      (left attempt : ℕ) (s : State W)
      → respawn h c left attempt s ≡ pieces (enough left) (Thread.checking left attempt) s
  unfolding respawn advance pieces ◌>>=◌
  respawn-pieces zero attempt s = refl
  respawn-pieces (suc left) attempt s =
      look-pieces left attempt (enough left) s.closed s (respawn-pieces left (attempt + 1))
