-- ===== src/Streams/Finishing.antt =====
-- src/vomero_sandbox/runner.py, SandboxStream: its worker, through any sequence of uses of a stream.
use vomero_sandbox.Common.{
  ◌≡◌, ◌⊎◌, refl, Bool, true, false, ◌||◌, inl, inr, none, some, List, [], ◌∷◌, arith,
}
use vomero_sandbox.Errors.{Outcome, ok, raise}
use vomero_sandbox.Config.{SandboxConfig}
use vomero_sandbox.Host.{Host}
use vomero_sandbox.Pool.State.{M, State, Worker, then_with, pure, ◌>>=◌}
use vomero_sandbox.Pool.Cluster.Frames.{Outside}
use vomero_sandbox.Pool.Effects.{release-cases}
use vomero_sandbox.Pool.Dispatch.Serving.{GivenBack}
use vomero_sandbox.Streams.{Stream, Owner, on_finish, finish_held, finish, exit}
use vomero_sandbox.Streams.Iteration.{begin, resume, abandon}
use vomero_sandbox.Streams.Advancing.{Moved, begin-Moved, resume-Moved}

-- What a caller does with a stream that it has entered: a `next` on a new iterator, a `next` on the
-- one that has begun, closing that one, and leaving the `with` block, by an exception or not. The
-- caller catches what a `next` raises.
pub data Use : Type 0 where
  first next drop : Use
  leave : Bool → Use

module _ {W : Type 0} (h : Host W) (c : SandboxConfig) where
  unfoldable pub use_once : Use → Stream → M W Stream
  use_once Use.first st = begin h c st >>= λ p. pure p.0
  use_once Use.next st = resume h c st >>= λ p. pure p.0
  use_once Use.drop st = pure (abandon st)
  use_once (Use.leave b) st = exit h c b st

  unfoldable pub use_stream : List Use → Stream → M W Stream
  unfolding use_once
  use_stream [] st = pure st
  use_stream (u ∷ us) st = use_once u st >>= use_stream us

-- The stream still holds the worker, and the pool has not moved; or the stream is finished, and the
-- worker is back, once, to be replaced if the flag says so.
abbrev pub Carried :
    {W : Type 0} → SandboxConfig → Worker → Bool → State W → Outcome Stream × State W → Type 0
Carried c w b s (raise e, t) = ⊥
Carried c w b s (ok y, t) =
    ((y.finished ≡ false)
      × (y.worker ≡ some w)
      × (y.owner ≡ Owner.pooled)
      × ((b ≡ false) ⊎ (y.retire ≡ true))
      × Outside s t)
    ⊎ ((y.finished ≡ true) × (y.worker ≡ none) × (y.owner ≡ Owner.pooled) × GivenBack c w b s t)

module _ {W : Type 0} (h : Host W) (c : SandboxConfig) where
  -- What one use makes of a stream that holds the worker.
  kept :
      {A : Type 0} (w : Worker) (b : Bool) (s : State W) (st : Stream) (t : State W)
      (q : Outcome (Stream × A) × State W)
      → Moved st t q
      → Carried c w b s (ok st, t)
      → Carried c w b s (let (r, u) = q in then_with (λ p. pure p.0) r u)
  unfolding ◌>>=◌
  kept w b s st t (raise e, u) m x = absurd m
  kept w b s st t (ok (y, r), u) m x = ground arith

  dropped :
      (w : Worker) (b : Bool) (s : State W) (st : Stream) (t : State W)
      → Carried c w b s (ok st, t)
      → Carried c w b s (ok (abandon st), t)
  unfolding abandon
  dropped w b s st t x =
      elim st.running
        as (λ r.
          Carried c w b s
            (ok (elim r [ none ↦ st | some _ ↦ record st { retire = true; running = none } ]), t)) [
              | none ↦ x
              | some _ ↦ ground arith
            ]

  let_go :
      (w : Worker) (b d : Bool) (s : State W) (st : Stream) (t : State W)
      → (b ≡ false) ⊎ (d ≡ true)
      → Outside s t
      → st.finished ≡ true
      → st.worker ≡ none
      → Carried c w b s ((on_finish h c Owner.pooled w d >>= λ o. pure (record st { owner = o })) t)
  unfolding on_finish ◌>>=◌
  let_go w b d s st t i o f n =
      let (z, g) = release-cases h c w d none t in rw z (inr (f, n, refl, ground arith))

  left :
      (w : Worker) (b d : Bool) (s : State W) (st : Stream) (t : State W)
      → Carried c w b s (ok st, t)
      → Carried c w b s (exit h c d st t)
  unfolding exit finish finish_held pure
  left w b d s st t (inl (f, n, p, i, o)) =
      let r = st.retire || d in
      let y = record st { finished = true; worker = none; retire = r } in
      rw f (rw n (rw p (let_go w b r s y t (ground arith) o refl refl)))
  left w b d s st t (inr (f, n, p, g)) = rw f (inr (refl, n, p, g))

  kept_flag : (b : Bool) → (b ≡ false) ⊎ (b ≡ true)
  kept_flag b = ground arith

  used_once :
      (u : Use) (w : Worker) (b : Bool) (s : State W) (st : Stream) (t : State W)
      → Carried c w b s (ok st, t)
      → Carried c w b s (use_once h c u st t)
  unfolding use_once ◌>>=◌
  used_once Use.first w b s st t x = kept w b s st t (begin h c st t) (begin-Moved h c st t) x
  used_once Use.next w b s st t x = kept w b s st t (resume h c st t) (resume-Moved h c st t) x
  used_once Use.drop w b s st t x = dropped w b s st t x
  used_once (Use.leave d) w b s st t x = left w b d s st t x

  used_after :
      (us : List Use) (w : Worker) (b : Bool) (s : State W) (q : Outcome Stream × State W)
      → Carried c w b s q
      → Carried c w b s (let (r, u) = q in then_with (use_stream h c us) r u)
  unfolding use_stream ◌>>=◌
  used_after us w b s (raise e, t) x = absurd x
  used_after [] w b s (ok st, t) x = x
  used_after (u ∷ us) w b s (ok st, t) x =
      used_after us w b s (use_once h c u st t) (used_once u w b s st t x)

  -- However its caller iterates over a pooled stream that holds a worker, drops the iterator and leaves,
  -- in any order and as often as it likes, without entering it again, either the stream still holds the worker and the pool's own state is as it was; or the
  -- stream is finished, and the worker has been given back exactly once: queued to be replaced if the
  -- stream was to be retired at the beginning, else replaced, wiped or freed.
  pub worker_returned_once :
      (us : List Use) (w : Worker) (st : Stream) (s : State W)
      → st.owner ≡ Owner.pooled
      → st.worker ≡ some w
      → st.finished ≡ false
      → Carried c w st.retire s (use_stream h c us st s)
  unfolding ◌>>=◌
  worker_returned_once us w st s p n f =
      used_after us w st.retire s (ok st, s) (inl (f, n, p, kept_flag st.retire, refl))
