-- ===== src/System/Streaming.antt =====
-- A pooled stream, src/vomero_sandbox/runner.py, as a caller of the system.
use vomero_sandbox.Common.{
  ◌≡◌, ◌⊎◌, refl, ap, ◌∙◌, sym, inl, inr, Bool, true, false, ◌||◌, none, some, List, [], ◌∷◌, ◌++◌,
  arith,
}
use vomero_sandbox.Errors.{Outcome, ok, raise}
use vomero_sandbox.Config.{SandboxConfig}
use vomero_sandbox.Host.{Host}
use vomero_sandbox.Pool.State.{State, Worker, then_with, pure, ◌>>=◌}
use vomero_sandbox.Pool.Cluster.Frames.{Outside}
use vomero_sandbox.Pool.Workers.{release}
use vomero_sandbox.Pool.Effects.{release-cases}
use vomero_sandbox.Streams.{Stream, Owner, on_finish, finish_held, finish, exit}
use vomero_sandbox.Streams.Iteration.{begin, resume, abandon}
use vomero_sandbox.Streams.Advancing.{Follows, Moved, begin-Moved, resume-Moved}
use vomero_sandbox.Streams.Finishing.{Use, use_once, use_stream}
use vomero_sandbox.System.{System, Step, Reach}

-- Where the stream's worker is: with the caller still, between others that it may hold; or gone.
abbrev pub Holding : {W : Type 0} → List Worker → Worker → List Worker → Stream → System W → Type 0
Holding xs w ys y t =
    ((y.owner ≡ Owner.pooled)
      × (y.worker ≡ some w)
      × (y.finished ≡ false)
      × (t.held ≡ xs ++ w ∷ ys))
    ⊎ ((y.owner ≡ Owner.pooled) × (y.worker ≡ none) × (y.finished ≡ true) × (t.held ≡ xs ++ ys))

module _ {W : Type 0} (h : Host W) (c : SandboxConfig) (xs : List Worker) (w : Worker)
    (ys : List Worker) where
  -- The system can be where the stream and the pool are.
  abbrev pub Tracks : System W → Outcome Stream × State W → Type 0
  Tracks s (raise e, p) = ⊥
  Tracks s (ok y, p) = (t : System W) × Reach h c s t × (t.pool ≡ p) × Holding xs w ys y t

  -- The world moves, and the stream follows.
  drifted :
      (s : System W) (y z : Stream) (p q : State W)
      → Tracks s (ok y, p)
      → Follows y z
      → Outside p q
      → Tracks s (ok z, q)
  drifted s y z p q (t, r, e, i) f o =
      let u = record t { pool = record t.pool { world = q.world } } in
      (
        u,
        Reach.next r (Step.outside q.world refl),
        ap (λ (a : State W). record a { world = q.world }) e ∙ sym o,
        ground arith,
      )

  went_on :
      {A : Type 0} (s : System W) (y : Stream) (p : State W) (q : Outcome (Stream × A) × State W)
      → Moved y p q
      → Tracks s (ok y, p)
      → Tracks s (let (r, u) = q in then_with (λ x. pure x.0) r u)
  unfolding ◌>>=◌
  went_on s y p (raise e, u) m i = absurd m
  went_on s y p (ok (z, r), u) (f, a, o) i = drifted s y z p u i f o

  Follows-abandon : (y : Stream) → Follows y (abandon y)
  unfolding abandon
  Follows-abandon y =
      elim y.running
        as (λ r.
          Follows y (elim r [ none ↦ y | some _ ↦ record y { retire = true; running = none } ])) [
            | none ↦ (refl, refl, refl, refl, refl, λ r. r)
            | some _ ↦ (refl, refl, refl, refl, refl, λ r. refl)
          ]

  -- The caller gives the worker back, and the stream is finished.
  given_back :
      (s t : System W) (y : Stream) (p : State W) (d : Bool)
      → Reach h c s t
      → t.pool ≡ p
      → t.held ≡ xs ++ w ∷ ys
      → y.finished ≡ true
      → y.worker ≡ none
      → Tracks s ((on_finish h c Owner.pooled w d >>= λ o. pure (record y { owner = o })) p)
  unfolding on_finish ◌>>=◌
  given_back s t y p d r e k f n =
      let (z, g) = release-cases h c w d none p in
      let u = record t { pool = (release h c w d none t.pool).1; held = xs ++ ys } in
      let step = Step.gives_back xs w ys d none k refl in
      rw z (u, Reach.next r step, ap (λ a. (release h c w d none a).1) e, inr (refl, n, f, refl))

  exited :
      (s : System W) (y : Stream) (p : State W) (d : Bool)
      → Tracks s (ok y, p)
      → Tracks s (exit h c d y p)
  unfolding exit finish finish_held pure
  exited s y p d (t, r, e, inl (o, n, f, k)) =
      let z = record y { finished = true; worker = none; retire = y.retire || d } in
      rw f (rw n (rw o (given_back s t z p (y.retire || d) r e k refl refl)))
  exited s y p d (t, r, e, inr (o, n, f, k)) = rw f (t, r, e, inr (o, n, refl, k))

  tracked_once :
      (u : Use) (s : System W) (y : Stream) (p : State W)
      → Tracks s (ok y, p)
      → Tracks s (use_once h c u y p)
  unfolding use_once ◌>>=◌
  tracked_once Use.first s y p i = went_on s y p (begin h c y p) (begin-Moved h c y p) i
  tracked_once Use.next s y p i = went_on s y p (resume h c y p) (resume-Moved h c y p) i
  tracked_once Use.drop s y p i = drifted s y (abandon y) p p i (Follows-abandon y) refl
  tracked_once (Use.leave d) s y p i = exited s y p d i

  tracked :
      (us : List Use) (s : System W) (q : Outcome Stream × State W)
      → Tracks s q
      → Tracks s (let (r, u) = q in then_with (use_stream h c us) r u)
  unfolding use_stream ◌>>=◌
  tracked us s (raise e, p) i = i
  tracked [] s (ok y, p) i = i
  tracked (u ∷ us) s (ok y, p) i = tracked us s (use_once h c u y p) (tracked_once u s y p i)

  -- However its caller iterates over a pooled stream that it has entered, drops the iterator and leaves,
  -- in any order and as often as it likes, without entering it again, that is a run of the steps of the
  -- system: one that ends in the pool that the stream leaves,
  -- with the worker among those that the caller holds until the stream is finished, and not after.
  pub stream-Reach :
      (us : List Use) (y : Stream) (s : System W)
      → y.owner ≡ Owner.pooled
      → y.worker ≡ some w
      → y.finished ≡ false
      → s.held ≡ xs ++ w ∷ ys
      → Tracks s (use_stream h c us y s.pool)
  unfolding ◌>>=◌
  stream-Reach us y s o n f k = tracked us s (ok y, s.pool) (s, Reach.here, refl, inl (o, n, f, k))
