-- ===== src/Streams/Consuming.antt =====
-- src/vomero_sandbox/runner.py, SandboxStream in a `for` loop that runs to its end.
use vomero_sandbox.Common.{
  ℕ, zero, suc, ◌≡◌, ◌⊎◌, true, false, Option, none, some, List, [], ◌∷◌, ℤ,
}
use vomero_sandbox.Errors.{Exc, Outcome, ok, raise}
use vomero_sandbox.Config.{SandboxConfig}
use vomero_sandbox.Exec.{Generated}
use vomero_sandbox.Exec
use vomero_sandbox.Host.{Host}
use vomero_sandbox.Models.{StreamChunk, RunResult}
use vomero_sandbox.Pool.State.{M, State, Worker, pure, ◌>>=◌}
use vomero_sandbox.Pool.Dispatch.{timeout_result}
use vomero_sandbox.Streams.{Stream}
use vomero_sandbox.Streams.Iteration.{timed_out, begin, resume}

-- How the loop over a stream ends: the stream, the chunks that the body has been given, and the
-- exception that has left the loop, if any; none if the fuel is spent first.
abbrev pub Loop : Type 0
Loop = Option (Stream × List StreamChunk × Outcome (Unit {0}))

abbrev prepend : StreamChunk → Loop → Loop
prepend k none = none
prepend k (some (st, ks, o)) = some (st, k ∷ ks, o)

module _ {W : Type 0} (h : Host W) (c : SandboxConfig) where
  unfoldable pub go_on : ℕ → Stream × Outcome (Option StreamChunk) → M W Loop
  go_on fuel (st, raise e) = pure (some (st, [], raise e))
  go_on fuel (st, ok none) = pure (some (st, [], ok tt))
  go_on zero (st, ok (some k)) = pure none
  go_on (suc fuel) (st, ok (some k)) = resume h c st >>= go_on fuel >>= λ l. pure (prepend k l)

  -- `for chunk in stream:` with a body that neither breaks nor raises.
  unfoldable pub for_each : ℕ → Stream → M W Loop
  unfolding go_on
  for_each fuel st = begin h c st >>= go_on fuel

-- The end of a loop whose command ended so. An exit code is the result's, unless the collection of
-- files or the clock raised; a time-out is a result that says `timed_out`; another exception leaves
-- the loop. Only a stream that has a result with an exit code is not to be retired for its end.
abbrev pub Ends : Stream → Worker → Outcome ℤ → Stream → Outcome (Unit {0}) → Type 0
Ends st w (ok code) y o =
    ((r : RunResult) × (y.result ≡ some r)
      × (r.exit_code ≡ some code)
      × (r.timed_out ≡ false)
      × (r.sandbox_id ≡ w.name)
      × (y.retire ≡ st.retire)
      × (o ≡ ok tt))
    ⊎ ((e : Exc) × (y.result ≡ st.result) × (y.retire ≡ true) × (o ≡ raise e))
Ends st w (raise Exc.exec_timeout) y o =
    (d : ℤ) × (y.result ≡ some (timeout_result d w.name)) × (y.retire ≡ true) × (o ≡ ok tt)
Ends st w (raise e) y o = (y.result ≡ st.result) × (y.retire ≡ true) × (o ≡ raise e)

abbrev pub Looped :
    {W : Type 0} → Stream → Worker → List StreamChunk → Outcome ℤ → Outcome Loop × State W → Type 0
Looped st w ks q (raise e, t) = ⊥
Looped st w ks q (ok none, t) = ⊥
Looped st w ks q (ok (some (y, ls, o)), t) = (ls ≡ ks) × Ends st w q y o
