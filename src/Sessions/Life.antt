-- ===== src/Sessions/Life.antt =====
-- The methods of a session, by what they leave of it and of its worker.
use vomero_sandbox.Common.{
  ◌≡◌, ◌⊎◌, refl, Bool, true, false, Option, none, some, ℤ, inl, inr, arith,
}
use vomero_sandbox.Errors.{Exc, Outcome, ok, raise, is_exception}
use vomero_sandbox.Config.{SandboxConfig}
use vomero_sandbox.Host.{Host}
use vomero_sandbox.Models.{RunResult, Files}
use vomero_sandbox.Pool.State.{State, Worker, Task, ◌>>=◌, capture}
use vomero_sandbox.Pool.Cluster.Frames.{Outside}
use vomero_sandbox.Pool.Execution.{Run, exec_on_worker}
use vomero_sandbox.Pool.Quiet.{exec_on_worker-Outside}
use vomero_sandbox.Pool.Workers.{used, release, retire, clean_and_return}
use vomero_sandbox.Pool.Effects.{Queued, spent-cases}
use vomero_sandbox.Pool.Dispatch.Serving.{Answers, ended}
use vomero_sandbox.Sessions.{
  Session, require_live, retire_held, retire_now, give_up, settle_call, call_live, session_call,
  checkpoint, give_back, leave,
}

-- Whether the end of a run is the end of its session: any exception is, but not an interrupt.
abbrev pub ends_session : Outcome RunResult → Bool
ends_session (ok _) = false
ends_session (raise e) = is_exception e

-- The session is as it was, and the pool too, if the run does not end it; else the session is over, and
-- its worker is with a thread that replaces it.
abbrev pub KeptOrRetired :
    {W : Type 0} → Session → Worker → Outcome RunResult → State W → Session → State W → Type 0
KeptOrRetired x w o s y t =
    ((ends_session o ≡ false) × (y ≡ x) × Outside s t)
    ⊎ ((ends_session o ≡ true)
        × (y.worker ≡ none)
        × (y.dead ≡ true)
        × Queued (Task.replacing w) s t)

-- How a call ends, and what it leaves.
abbrev pub Settled :
    {W : Type 0}
    → Session
    → Worker
    → Outcome RunResult
    → State W
    → Outcome (Session × Outcome RunResult) × State W
    → Type 0
Settled x w o s (raise e, t) = ⊥
Settled x w o s (ok (y, p), t) = Answers w o p × KeptOrRetired x w o s y t

module _ {W : Type 0} (h : Host W) (c : SandboxConfig) where
  abbrev pub held : Bool → Files → Worker → Session
  held dead files w = record { restore = files; worker = some w; dead = dead }

  settle_call-cases :
      (files : Files) (w : Worker) (t0 : ℤ) (o : Outcome RunResult) (s : State W)
      → Settled (held false files w) w o s (settle_call h c (held false files w) w t0 o s)
  unfolding settle_call give_up retire_now retire_held retire ◌>>=◌
  settle_call-cases files w t0 (ok r) s = (refl, inl (refl, refl, refl))
  settle_call-cases files w t0 (raise Exc.exec_timeout) s =
      ((_, refl), inr (refl, refl, refl, refl))
  settle_call-cases files w t0 (raise Exc.upload_error) s = (refl, inr (refl, refl, refl, refl))
  settle_call-cases files w t0 (raise Exc.interrupt) s = (refl, inl (refl, refl, refl))
  settle_call-cases files w t0 (raise Exc.blocked) s = (refl, inl (refl, refl, refl))
  settle_call-cases files w t0 (raise e) s = (refl, inr (refl, refl, refl, refl))

  Settled-after :
      (x : Session) (w : Worker) (o : Outcome RunResult) (s t : State W)
      (q : Outcome (Session × Outcome RunResult) × State W)
      → Outside s t
      → Settled x w o t q
      → Settled x w o s q
  Settled-after x w o s t (raise e, u) f i = i
  Settled-after x w o s t (ok (y, p), u) f i = (i.0, ground arith)

  -- A call on a session that holds a worker gives the answer to the end of its run. If the run returns
  -- or is interrupted, the call leaves the session and the pool's own state as they were; if it times
  -- out or ends by another exception, the session is over, and its worker queued once to be replaced.
  pub call_settles :
      (files : Files) (w : Worker) (run : Run) (s : State W)
      → Settled
          (held false files w)
          w
          (ended h c w run s)
          s
          (session_call h c (held false files w) run s)
  unfolding session_call call_live require_live ◌>>=◌ capture
  call_settles files w run s =
      let (t0, w1) = h.monotonic s.world in
      let s1 = record s { world = w1 } in
      let away = (exec_on_worker-Outside h c w run false).after s1 in
      let (o, s2) = exec_on_worker h c w run false s1 in
      Settled-after (held false files w) w o s s2 _ (ground arith)
        (settle_call-cases files w t0 o s2)

  -- On a session without a worker, a call and a checkpoint raise the sandbox error, and they and
  -- leaving it change nothing.
  pub over_refused :
      (x : Session) (run : Run) (t : Option ℤ) (s : State W)
      → x.worker ≡ none
      → (session_call h c x run s ≡ (ok (x, raise Exc.sandbox_error), s))
        × (checkpoint h c x t s ≡ (raise Exc.sandbox_error, s))
        × (leave h c x s ≡ (ok x, s))
  unfolding session_call checkpoint require_live leave give_back ◌>>=◌
  over_refused x run t s e = ground arith

  give_back-cases :
      (dead : Bool) (w : Worker) (s : State W)
      → let (q, t) = give_back h c dead (some w) s in
        (q ≡ ok tt)
        × (Queued (Task.replacing w) s t
            ⊎ Queued (Task.replacing (used w)) s t
            ⊎ Queued (Task.cleaning (used w)) s t)
  unfolding give_back release retire clean_and_return ◌>>=◌
  give_back-cases true w s = ground arith
  give_back-cases false w s = ground (arith, spent-cases h c (used w) s)

  -- Leaving a session that holds a worker queues the worker once, to be wiped or to be replaced,
  -- whatever the configuration says of wiping between runs; it is never freed as it is.
  pub leave_wipes :
      (x : Session) (w : Worker) (s : State W)
      → x.worker ≡ some w
      → let (q, t) = leave h c x s in
        (q ≡ ok (record x { worker = none }))
        × (Queued (Task.replacing w) s t
            ⊎ Queued (Task.replacing (used w)) s t
            ⊎ Queued (Task.cleaning (used w)) s t)
  unfolding leave ◌>>=◌
  leave_wipes x w s e = rw e (ground (arith, give_back-cases x.dead w s))
