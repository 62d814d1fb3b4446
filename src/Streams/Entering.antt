-- ===== src/Streams/Entering.antt =====
-- `__enter__` of SandboxStream, src/vomero_sandbox/runner.py.
use vomero_sandbox.Common.{◌≡◌, ◌⊎◌, refl, true, false, inl, inr, none, some, arith}
use vomero_sandbox.Errors.{Exc, Outcome, ok, raise, is_exception}
use vomero_sandbox.Config.{SandboxConfig}
use vomero_sandbox.Host.{Host}
use vomero_sandbox.Pool.State.{State, Worker, Task, pure, ◌>>=◌, capture}
use vomero_sandbox.Pool.Keeps.{Keeps, keeping}
use vomero_sandbox.Pool.Cluster.Frames.{Outside, Outside-frame}
use vomero_sandbox.Pool.Execution.{check_size, clean_if, upload_given}
use vomero_sandbox.Pool.Quiet.{clean_workspace-Outside, upload-Outside}
use vomero_sandbox.Pool.Workers.{release, used}
use vomero_sandbox.Pool.Effects.{Queued, release-cases}
use vomero_sandbox.Streams.{
  Stream, Owner, on_finish, finish_held, finish, fail, prepare, prepared, enter_with,
}

-- The exception has left a stream that is finished, whose worker is queued once to be replaced.
abbrev pub Dropped :
    {W : Type 0} → Worker → State W → Exc → Outcome (Stream × Outcome (Unit {0})) × State W → Type 0
Dropped w s e (raise _, t) = ⊥
Dropped w s e (ok (y, p), t) =
    (p ≡ raise e) × (y.finished ≡ true) × (y.worker ≡ none) × Queued (Task.replacing (used w)) s t

-- How entering a stream ends, by the end of the preparation of its worker.
abbrev pub Entered :
    {W : Type 0}
    → Stream
    → Worker
    → State W
    → Outcome (Unit {0})
    → Outcome (Stream × Outcome (Unit {0})) × State W
    → Type 0
Entered st w s (ok _) (q, t) = (q ≡ ok (record st { worker = some w }, ok tt)) × Outside s t
Entered st w s (raise Exc.upload_error) x = Dropped w s Exc.sandbox_error x
Entered st w s (raise e) (q, t) =
    ((is_exception e ≡ true) × Dropped w s e (q, t))
    ⊎ ((is_exception e ≡ false) × (q ≡ ok (record st { worker = some w }, raise e)) × Outside s t)

module _ {W : Type 0} (h : Host W) (c : SandboxConfig) where
  prepare-Outside : (w : Worker) (st : Stream) → Keeps Outside (prepare h c w st)
  unfolding prepare check_size upload_given clean_if
  prepare-Outside w st =
      search (keeping, Outside-frame, clean_workspace-Outside, upload-Outside) depth 20

  discarded :
      (st : Stream) (w : Worker) (s : State W)
      → let (q, t) = release h c w true none s in (q ≡ ok tt) × Queued (Task.replacing (used w)) s t
  discarded st w s = let (z, g) = release-cases h c w true none s in ground arith

  released_Dropped :
      (st : Stream) (w : Worker) (s t : State W) (e : Exc)
      → st.finished ≡ true
      → st.worker ≡ none
      → Outside s t
      → Dropped w s e (
          (on_finish h c Owner.pooled w true >>= (λ o. pure (record st { owner = o })) >>= λ y.
          pure (y, raise e))
            t)
  unfolding on_finish ◌>>=◌
  released_Dropped st w s t e f n o =
      let (z, g) = discarded st w t in rw z (refl, f, n, ground arith)

  fail-Dropped :
      (st : Stream) (w : Worker) (s t : State W) (e : Exc)
      → st.owner ≡ Owner.pooled
      → st.worker ≡ some w
      → st.finished ≡ false
      → Outside s t
      → Dropped w s e (fail h c st e t)
  unfolding finish finish_held
  fail-Dropped st w s t e p n f o =
      let y = record st { finished = true; worker = none; retire = true } in
      rw f (rw n (rw p (released_Dropped y w s t e refl refl o)))

  prepared-Entered :
      (st : Stream) (w : Worker) (o : Outcome (Unit {0})) (s t : State W)
      → st.owner ≡ Owner.pooled
      → st.finished ≡ false
      → Outside s t
      → Entered st w s o (prepared h c (record st { worker = some w }) o t)
  unfolding prepared pure
  prepared-Entered st w (ok _) s t p f o = (refl, o)
  prepared-Entered st w (raise Exc.upload_error) s t p f o =
      fail-Dropped (record st { worker = some w }) w s t Exc.sandbox_error p refl f o
  prepared-Entered st w (raise Exc.interrupt) s t p f o = inr (refl, refl, o)
  prepared-Entered st w (raise Exc.blocked) s t p f o = inr (refl, refl, o)
  prepared-Entered st w (raise e) s t p f o =
      inl (refl, fail-Dropped (record st { worker = some w }) w s t e p refl f o)

  -- Entering a pooled stream on the worker that it has leased: if the preparation (the size check,
  -- the wipe, the upload) succeeds, the stream holds the worker, and the pool's own state is as it
  -- was. If it fails of an `Exception`, the caller gets that exception (for a failed upload, the
  -- sandbox error), the stream is finished, and its worker is queued once to be replaced. Any other
  -- exception leaves the worker with the stream.
  pub enter_settles :
      (st : Stream) (w : Worker) (s : State W)
      → st.owner ≡ Owner.pooled
      → st.finished ≡ false
      → Entered st w s
          (prepare h c w (record st { worker = some w }) s).0
          (enter_with h c st (ok w) s)
  unfolding enter_with ◌>>=◌ capture
  enter_settles st w s p f =
      let y = record st { worker = some w } in
      let (o, t) = prepare h c w y s in
      prepared-Entered st w o s t p f ((prepare-Outside w y).after s)
