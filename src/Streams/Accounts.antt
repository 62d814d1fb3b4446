-- ===== src/Streams/Accounts.antt =====
-- src/vomero_sandbox/runner.py, SandboxStream: how far its run has come, through any sequence of uses
-- of a stream.
use vomero_sandbox.Common.{
  ◌≡◌, refl, Bool, true, false, ◌||◌, inl, inr, if◌then◌else◌, Option, none, some, List, [], ◌∷◌,
  arith,
}
use vomero_sandbox.Errors.{Outcome, ok, raise}
use vomero_sandbox.Config.{SandboxConfig}
use vomero_sandbox.Host.{Host}
use vomero_sandbox.Pool.State.{State, Worker, then_with, pure, ◌>>=◌}
use vomero_sandbox.Pool.Effects.{release-cases}
use vomero_sandbox.Streams.{Stream, Owner, on_finish, finish_held, finish, exit}
use vomero_sandbox.Streams.Iteration.{begin, resume, abandon}
use vomero_sandbox.Streams.Advancing.{IsAccounted, Moved, begin-Moved, resume-Moved}
use vomero_sandbox.Streams.Finishing.{Use, use_once, use_stream}

abbrev pub IsSound : {W : Type 0} → Outcome Stream × State W → Type 0
IsSound (raise e, t) = ⊥
IsSound (ok y, t) = (y.owner ≡ Owner.pooled) × IsAccounted y

module _ {W : Type 0} (h : Host W) (c : SandboxConfig) where
  IsSound-move :
      {A : Type 0} (st : Stream) (t : State W) (q : Outcome (Stream × A) × State W)
      → Moved st t q
      → IsSound (ok st, t)
      → IsSound (let (r, u) = q in then_with (λ p. pure p.0) r u)
  unfolding ◌>>=◌
  IsSound-move st t (raise e, u) m x = absurd m
  IsSound-move st t (ok (y, r), u) m x = ground arith

  IsSound-drop : (st : Stream) (t : State W) → IsSound (ok st, t) → IsSound (ok (abandon st), t)
  unfolding abandon
  IsSound-drop st t x =
      elim st.running
        as (λ r.
          IsSound
            (ok (elim r [ none ↦ st | some _ ↦ record st { retire = true; running = none } ]), t)) [
              | none ↦ x
              | some _ ↦ ground arith
            ]

  IsSound-held :
      (o : Option Worker) (st : Stream) (t : State W)
      → IsSound (ok st, t)
      → IsSound (finish_held h c o st t)
  unfolding finish_held pure on_finish ◌>>=◌
  IsSound-held none st t x = x
  IsSound-held (some w) st t (p, a) =
      let (z, g) = release-cases h c w st.retire none t in rw p (rw z (refl, a))

  -- A flag that is set, and the other fields that `_finish` writes, leave the account true.
  flagged :
      (st : Stream) (d f : Bool) (o : Option Worker)
      → IsAccounted st
      → IsAccounted (record st { retire = st.retire || d; finished = f; worker = o })
  flagged st d f o a =
      elim st.retire
          as (λ r.
            IsAccounted (record st { retire = r })
            → IsAccounted (record st { retire = r || d; finished = f; worker = o })) [
              | true ↦ λ a. a
              | false ↦ λ a. ground arith
            ]
        a

  IsSound-leave :
      (st : Stream) (d : Bool) (t : State W) → IsSound (ok st, t) → IsSound (exit h c d st t)
  unfolding exit finish pure
  IsSound-leave st d t (p, a) =
      let y = record st { retire = st.retire || d } in
      let z = record y { finished = true; worker = none } in
      elim st.finished
        as (λ f.
          IsSound
            ((if f then pure (record y { finished = f }) else finish_held h c st.worker z) t)) [
              | true ↦ (p, flagged st d true st.worker a)
              | false ↦ IsSound-held st.worker z t (p, flagged st d true none a)
            ]

  IsSound-use :
      (u : Use) (st : Stream) (t : State W) → IsSound (ok st, t) → IsSound (use_once h c u st t)
  unfolding use_once ◌>>=◌
  IsSound-use Use.first st t x = IsSound-move st t (begin h c st t) (begin-Moved h c st t) x
  IsSound-use Use.next st t x = IsSound-move st t (resume h c st t) (resume-Moved h c st t) x
  IsSound-use Use.drop st t x = IsSound-drop st t x
  IsSound-use (Use.leave d) st t x = IsSound-leave st d t x

  IsSound-after :
      (us : List Use) (q : Outcome Stream × State W)
      → IsSound q
      → IsSound (let (r, u) = q in then_with (use_stream h c us) r u)
  unfolding use_stream ◌>>=◌
  IsSound-after us (raise e, t) x = absurd x
  IsSound-after [] (ok st, t) x = x
  IsSound-after (u ∷ us) (ok st, t) x =
      IsSound-after us (use_once h c u st t) (IsSound-use u st t x)

  -- However its caller iterates over a pooled stream that has not been iterated, drops the iterator and
  -- leaves, in any order and as often as it likes, without entering it again, afterwards the stream is marked to be retired, or its iteration is still suspended at a chunk, or it has a result, or no iteration has
  -- begun, or its environment was refused.
  pub retired_or_done :
      (us : List Use) (st : Stream) (s : State W)
      → st.owner ≡ Owner.pooled
      → st.iterated ≡ false
      → IsSound (use_stream h c us st s)
  unfolding ◌>>=◌
  retired_or_done us st s p n = IsSound-after us (ok st, s) (p, inr (inl n))
