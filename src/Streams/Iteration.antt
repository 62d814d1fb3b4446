-- ===== src/Streams/Iteration.antt =====
-- `__iter__` and `_complete` of SandboxStream: each `next` on an iterator of the stream.
use vomero_sandbox.Common.{
  true, false, Option, none, some, List, [], ◌∷◌, map, ℤ, ◌-ℤ◌, Text, if◌then◌else◌,
}
use vomero_sandbox.Errors.{Exc, Outcome, ok, raise}
use vomero_sandbox.Config.{SandboxConfig}
use vomero_sandbox.Exec.{Response}
use vomero_sandbox.Exec
use vomero_sandbox.Host.{Host}
use vomero_sandbox.Models.{StreamChunk, RunResult}
use vomero_sandbox.Scripts.{Arg}
use vomero_sandbox.Pool.State.{M, Worker, pure, throw, ◌>>=◌, ◌>>◌, call, call_pure, capture}
use vomero_sandbox.Pool.Execution.{with_env, wants, collect_wanted}
use vomero_sandbox.Pool.Dispatch.{timeout_result}
use vomero_sandbox.Streams.{Stream}

module _ {W : Type 0} (h : Host W) (c : SandboxConfig) where
  -- The clause `except Exception` and the `finally` of `__iter__`.
  abbrev unwind : Stream → Exc → M W (Stream × Outcome (Option StreamChunk))
  unwind st e = pure (record st { retire = true; running = none }, raise e)

  -- `_complete`, with the worker that the stream holds then.
  unfoldable pub complete : Option Worker → ℤ → Stream → M W RunResult
  complete none code st =
      if wants st.wish
      then throw Exc.attribute_error
      else call_pure h.monotonic >> throw Exc.attribute_error
  complete (some w) code st = do
    collected ← collect_wanted h c w st.wish st.timeout
    now ← call_pure h.monotonic
    pure (record {
      out = [];
      err = [];
      exit_code = some code;
      timed_out = false;
      duration_s = now -ℤ st.t0;
      sandbox_id = w.name;
      files = collected.0;
      files_truncated = collected.1;
    })

  unfoldable pub completed :
      Stream → Outcome RunResult → M W (Stream × Outcome (Option StreamChunk))
  completed st (ok r) = pure (record st { result = some r; running = none }, ok none)
  completed st (raise e) = unwind st e

  unfoldable pub timed_out : Option Worker → Stream → M W (Stream × Outcome (Option StreamChunk))
  timed_out none st = call_pure h.monotonic >> unwind st Exc.attribute_error
  timed_out (some w) st = do
    now ← call_pure h.monotonic
    pure (
      record st {
        retire = true;
        result = some (timeout_result (now -ℤ st.t0) w.name);
        running = none;
      },
      ok none,
    )

  -- The end of the generator of `exec_stream`, as `__iter__` meets it.
  unfoldable pub ended : Stream → Outcome ℤ → M W (Stream × Outcome (Option StreamChunk))
  unfolding timed_out
  ended st (ok code) = capture (complete st.worker code st) >>= completed st
  ended st (raise Exc.exec_timeout) = timed_out st.worker st
  ended st (raise e) = unwind st e

  -- `next(gen)`: a chunk that is handed on, or the end.
  unfoldable pub deliver :
      List StreamChunk → Outcome ℤ → Stream → M W (Stream × Outcome (Option StreamChunk))
  unfolding ended
  deliver [] q st = ended st q
  deliver (k ∷ ks) q st = pure (record st { running = some (ks, q) }, ok (some k))

  unfoldable pub opened : Stream → Outcome Response → M W (Stream × Outcome (Option StreamChunk))
  opened st (raise e) = ended st (raise e)
  opened st (ok resp) =
      let g = Exec.exec_stream h.json_loads resp st.timeout in deliver g.yielded g.result st

  unfoldable pub open_stream :
      Worker → Stream → Outcome (List Text) → M W (Stream × Outcome (Option StreamChunk))
  open_stream w st (raise e) = pure (st, raise e)
  open_stream w st (ok argv) =
      capture (call (h.exec w.api_client w.name c.namespace (map Arg.text argv))) >>= opened st

  unfoldable pub begin_held : Option Worker → Stream → M W (Stream × Outcome (Option StreamChunk))
  begin_held none st = pure (st, raise Exc.sandbox_error)
  begin_held (some w) st = open_stream w (record st { iterated = true }) (with_env st.argv st.env)

  -- The first `next` on a new iterator of the stream.
  unfoldable pub begin : Stream → M W (Stream × Outcome (Option StreamChunk))
  unfolding begin_held
  begin st = if st.iterated then pure (st, raise Exc.sandbox_error) else begin_held st.worker st

  unfoldable pub proceed :
      Option (List StreamChunk × Outcome ℤ) → Stream → M W (Stream × Outcome (Option StreamChunk))
  proceed none st = pure (st, ok none)
  proceed (some (ks, q)) st = deliver ks q st

  -- A later `next` on the iterator that has begun; one that has ended has nothing more.
  unfoldable pub resume : Stream → M W (Stream × Outcome (Option StreamChunk))
  unfolding proceed
  resume st = proceed st.running st

-- The iterator is closed, as when the last reference to it is dropped after a `break`.
unfoldable pub abandon : Stream → Stream
abandon st = elim st.running [ none ↦ st | some _ ↦ record st { retire = true; running = none } ]
