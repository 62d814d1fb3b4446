-- ===== src/Streams/Advancing.antt =====
-- `__iter__` of SandboxStream: what a `next` leaves of the stream and of the pool.
use vomero_sandbox.Common.{
  ◌≡◌, ◌⊎◌, refl, is_some, true, false, inl, inr, Option, none, some, List, [], ◌∷◌, ℤ, Text, arith,
  if◌then◌else◌,
}
use vomero_sandbox.Errors.{Exc, Outcome, ok, raise}
use vomero_sandbox.Config.{SandboxConfig}
use vomero_sandbox.Exec.{Response}
use vomero_sandbox.Host.{Host}
use vomero_sandbox.Models.{StreamChunk, RunResult}
use vomero_sandbox.Pool.State.{State, Worker, pure, ◌>>=◌, capture}
use vomero_sandbox.Pool.Keeps.{Keeps, keeping}
use vomero_sandbox.Pool.Cluster.Frames.{Outside, Outside-frame}
use vomero_sandbox.Pool.Execution.{with_env, collect_wanted}
use vomero_sandbox.Pool.Quiet.{collect_files-Outside}
use vomero_sandbox.Streams.{Stream}
use vomero_sandbox.Streams.Iteration.{
  complete, completed, timed_out, ended, deliver, opened, open_stream, begin_held, begin, proceed,
  resume,
}

-- The stream is the same but for how far its run has come; one that is to be retired stays so.
abbrev pub Follows : Stream → Stream → Type 0
Follows st y =
    (y.owner ≡ st.owner)
    × (y.worker ≡ st.worker)
    × (y.finished ≡ st.finished)
    × (y.argv ≡ st.argv)
    × (y.env ≡ st.env)
    × (st.retire ≡ true → y.retire ≡ true)

-- The run is to be retired, still going on, or over with a result.
abbrev pub IsKnown : Stream → Type 0
IsKnown st = (st.retire ≡ true) ⊎ (is_some st.running ≡ true) ⊎ (is_some st.result ≡ true)

-- What a `next` leaves.
abbrev pub Advanced : {W A : Type 0} → Stream → State W → Outcome (Stream × A) × State W → Type 0
Advanced st s (raise e, t) = ⊥
Advanced st s (ok (y, _), t) = Follows st y × IsKnown y × Outside s t

module _ {W : Type 0} (h : Host W) (c : SandboxConfig) where
  collect_wanted-Outside :
      (w : Worker) (st : Stream) → Keeps Outside (collect_wanted h c w st.wish st.timeout)
  unfolding collect_wanted
  collect_wanted-Outside w st = search (keeping, Outside-frame, collect_files-Outside) depth 12

  complete-Outside :
      (o : Option Worker) (code : ℤ) (st : Stream) → Keeps Outside (complete h c o code st)
  unfolding complete
  complete-Outside none code st = search (keeping, Outside-frame) depth 12
  complete-Outside (some w) code st =
      search (keeping, Outside-frame, collect_wanted-Outside) depth 12

  completed-Advanced :
      (st : Stream) (s t : State W) (r : Outcome RunResult)
      → Outside s t
      → Advanced st s (completed h c st r t)
  unfolding completed ◌>>=◌
  completed-Advanced st s t (ok r) o = ground arith
  completed-Advanced st s t (raise e) o = ground arith

  timed_out-Advanced :
      (st : Stream) (w : Option Worker) (s t : State W)
      → Outside s t
      → Advanced st s (timed_out h c w st t)
  unfolding timed_out ◌>>=◌
  timed_out-Advanced st none s t o = ground arith
  timed_out-Advanced st (some w) s t o = ground arith

  ended-Advanced :
      (st : Stream) (s t : State W) (q : Outcome ℤ) → Outside s t → Advanced st s (ended h c st q t)
  unfolding ended ◌>>=◌ capture
  ended-Advanced st s t (ok code) o =
      let (r, u) = complete h c st.worker code st t in
      let k = (complete-Outside st.worker code st).after t in
      completed-Advanced st s u r (ground arith)
  ended-Advanced st s t (raise Exc.exec_timeout) o = timed_out-Advanced st st.worker s t o
  ended-Advanced st s t (raise e) o = ground arith

  deliver-Advanced :
      (st : Stream) (s t : State W) (ks : List StreamChunk) (q : Outcome ℤ)
      → Outside s t
      → Advanced st s (deliver h c ks q st t)
  unfolding deliver ◌>>=◌
  deliver-Advanced st s t [] q o = ended-Advanced st s t q o
  deliver-Advanced st s t (k ∷ ks) q o = ground arith

  opened-Advanced :
      (st : Stream) (s t : State W) (r : Outcome Response)
      → Outside s t
      → Advanced st s (opened h c st r t)
  unfolding opened
  opened-Advanced st s t (raise e) o = ended-Advanced st s t (raise e) o
  opened-Advanced st s t (ok resp) o = deliver-Advanced st s t _ _ o

  open_stream-Advanced :
      (w : Worker) (st : Stream) (s : State W) (argv : List Text)
      → Advanced st s (open_stream h c w (record st { iterated = true }) (ok argv) s)
  unfolding open_stream ◌>>=◌ capture
  open_stream-Advanced w st s argv = opened-Advanced (record st { iterated = true }) s _ _ refl

-- Each stream that has been iterated, but for one whose environment `env` was refused, is known.
abbrev pub IsAccounted : Stream → Type 0
IsAccounted st =
    IsKnown st ⊎ (st.iterated ≡ false) ⊎ ((e : Exc) × (with_env st.argv st.env ≡ raise e))

abbrev pub Moved : {W A : Type 0} → Stream → State W → Outcome (Stream × A) × State W → Type 0
Moved st s (raise e, t) = ⊥
Moved st s (ok (y, _), t) = Follows st y × (IsAccounted st → IsAccounted y) × Outside s t

Advanced-Moved :
    {W A : Type 0} (st : Stream) (s : State W) (q : Outcome (Stream × A) × State W)
    → Advanced st s q
    → Moved st s q
Advanced-Moved st s (raise e, t) a = a
Advanced-Moved st s (ok (y, _), t) (f, k, o) = (f, λ _. inl k, o)

module _ {W : Type 0} (h : Host W) (c : SandboxConfig) where
  begin_env-Moved :
      (w : Worker) (st : Stream) (s : State W) (q : Outcome (List Text))
      → with_env st.argv st.env ≡ q
      → Moved st s (open_stream h c w (record st { iterated = true }) q s)
  unfolding open_stream ◌>>=◌
  begin_env-Moved w st s (ok argv) e =
      Advanced-Moved st s (open_stream h c w (record st { iterated = true }) (ok argv) s)
        (open_stream-Advanced h c w st s argv)
  begin_env-Moved w st s (raise x) e =
      ((refl, refl, refl, refl, refl, λ r. r), λ a. inr (inr (x, e)), refl)

  begin_held-Moved :
      (o : Option Worker) (st : Stream) (s : State W) → Moved st s (begin_held h c o st s)
  unfolding begin_held ◌>>=◌
  begin_held-Moved none st s = ((refl, refl, refl, refl, refl, λ r. r), λ a. a, refl)
  begin_held-Moved (some w) st s = begin_env-Moved w st s (with_env st.argv st.env) refl

  pub begin-Moved : (st : Stream) (s : State W) → Moved st s (begin h c st s)
  unfolding begin ◌>>=◌
  begin-Moved st s =
      elim st.iterated
        as (λ b.
          Moved st s
            ((if b then pure (st, raise Exc.sandbox_error) else begin_held h c st.worker st) s)) [
              | true ↦ ((refl, refl, refl, refl, refl, λ r. r), λ a. a, refl)
              | false ↦ begin_held-Moved st.worker st s
            ]

  proceed-Moved :
      (r : Option (List StreamChunk × Outcome ℤ)) (st : Stream) (s : State W)
      → Moved st s (proceed h c r st s)
  unfolding proceed ◌>>=◌
  proceed-Moved none st s = ((refl, refl, refl, refl, refl, λ r. r), λ a. a, refl)
  proceed-Moved (some (ks, q)) st s =
      Advanced-Moved st s (deliver h c ks q st s) (deliver-Advanced h c st s s ks q refl)

  pub resume-Moved : (st : Stream) (s : State W) → Moved st s (resume h c st s)
  unfolding resume
  resume-Moved st s = proceed-Moved st.running st s
