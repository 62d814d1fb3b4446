-- ===== src/Streams/Pinning.antt =====
-- src/vomero_sandbox/runner.py, SandboxStream on the worker of a session.
use vomero_sandbox.Common.{
  ◌≡◌, Bool, true, false, ◌||◌, none, some, [], ◌∷◌, ◌++◌, if◌then◌else◌, arith,
}
use vomero_sandbox.Errors.{ok}
use vomero_sandbox.Config.{SandboxConfig}
use vomero_sandbox.Host.{Host}
use vomero_sandbox.Models.{Files}
use vomero_sandbox.Pool.State.{State, Worker, Task, ◌>>=◌}
use vomero_sandbox.Pool.Workers.{retire}
use vomero_sandbox.Sessions.{retire_held, retire_now}
use vomero_sandbox.Sessions.Life.{held}
use vomero_sandbox.Streams.{Stream, Owner, on_finish, finish_held, finish, exit}

module _ {W : Type 0} (h : Host W) (c : SandboxConfig) where
  -- Leaving a session's stream that is to be retired, or leaving it by an exception, ends the session
  -- and queues its worker once to be replaced; otherwise the session keeps the worker, and the pool
  -- is as it was. Leaving the stream again does nothing.
  pub session_follows :
      (files : Files) (w : Worker) (d b : Bool) (st : Stream) (s : State W)
      → st.owner ≡ Owner.pinned w (held h c false files w)
      → st.worker ≡ some w
      → st.finished ≡ false
      → let y = record st { retire = st.retire || d; finished = true; worker = none } in
        let over = record (held h c true files w) { worker = none } in
        let z = record y { owner = Owner.pinned w over } in
        let away = record s { tasks = s.tasks ++ Task.replacing w ∷ [] } in
        (exit h c d st s ≡ (if y.retire then (ok z, away) else (ok y, s)))
        × (exit h c b y s ≡ (ok (record y { retire = y.retire || b }), s))
  unfolding exit finish finish_held on_finish retire_held retire_now retire ◌>>=◌
  session_follows files w d b st s p n f = ground arith
