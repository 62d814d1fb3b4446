-- ===== src/System/Dispatching.antt =====
-- `_dispatch` of src/vomero_sandbox/runner.py among the steps of the system.
use vomero_sandbox.Common.{
  ◌≡◌, refl, sym, subst, ◌∙◌, if◌then◌else◌, Bool, true, false, none, List, [], ◌∷◌, ◌++◌, arith,
}
use vomero_sandbox.Errors.{Exc, Outcome, ok, raise}
use vomero_sandbox.Config.{SandboxConfig}
use vomero_sandbox.Host.{Host}
use vomero_sandbox.Pool.State.{State, Worker, ◌>>=◌, ◌>>◌, throw, capture, then_with}
use vomero_sandbox.Pool.Execution.{Run, exec_on_worker}
use vomero_sandbox.Pool.Workers.{lease, release}
use vomero_sandbox.Pool.Effects.{release-cases}
use vomero_sandbox.Pool.Dispatch.{translate, unhealthy, serve, dispatch, ensure_started}
use vomero_sandbox.Pool.Dispatch.Serving.{translate-Answers, released}
use vomero_sandbox.System.{System, Step, Reach}

module _ {W : Type 0} (h : Host W) (c : SandboxConfig) where
  -- A run on a leased worker: the clock, the command, the clock once more, and the worker's return.
  serve-Reach :
      (r s t : System W) (xs : List Worker) (w : Worker) (ys : List Worker) (run : Run)
      → Reach h c r s
      → s.held ≡ xs ++ w ∷ ys
      → t ≡ record s { pool = (serve h c w run s.pool).1; held = xs ++ ys }
      → Reach h c r t
  unfolding serve ◌>>=◌ capture
  serve-Reach r s t xs w ys run before e f =
      let (t0, w1) = h.monotonic s.pool.world in
      let s1 = record s.pool { world = w1 } in
      let (o, s2) = exec_on_worker h c w run false s1 in
      let (_, y) = translate-Answers h c w t0 o s2 in
      let (q, s3) = translate h c w t0 o s2 in
      let (z, g) = release-cases h c w (unhealthy o) none s3 in
      let clock : Reach h c r (record s { pool = s1 }) = Reach.next before (Step.outside w1 refl) in
      let worked : Reach h c r (record s { pool = s2 }) =
        Reach.next clock (Step.works xs w ys run false e refl) in
      let translated : Reach h c r (record s { pool = s3 }) =
        Reach.next worked (Step.outside s3.world (ground arith)) in
      Reach.next translated (
        Step.gives_back xs w ys (unhealthy o) none e
          (rw f (rw (released h c (release h c w (unhealthy o) none) q s3 z) refl)))

  lease_raise : (s : State W) (e : Exc) → (lease h c s).0 ≡ raise e → (lease h c s).1 ≡ s
  unfolding lease
  lease_raise s e r = ground arith

  leased-Reach :
      (s : System W) (run : Run) (q : Outcome Worker) (t : State W)
      → (lease h c s.pool).0 ≡ q
      → (lease h c s.pool).1 ≡ t
      → Reach h c s (record s { pool = (then_with (λ w. serve h c w run) q t).1 })
  leased-Reach s run (raise e) t l k = rw (sym k ∙ lease_raise s.pool e l) Reach.here
  leased-Reach s run (ok w) t l k =
      let leased : Step h c s (record s { pool = t; held = w ∷ s.held }) =
        Step.leases w l (rw k refl) in
      serve-Reach s (record s { pool = t; held = w ∷ s.held }) _ [] w s.held run
        (Reach.next Reach.here leased) refl refl

  ensured : (s : State W) → s.started ≡ true → ensure_started h c s ≡ (ok tt, s)
  unfolding ensure_started ◌>>=◌
  ensured s e = ground arith

  opened-Reach :
      (s : System W) (run : Run) (closed : Bool)
      → s.pool.started ≡ true
      → Reach h c s (record s {
        pool =
            ((if closed
                then throw Exc.pool_closed
                else (ensure_started h c >> (lease h c >>= λ w. serve h c w run)))
              s.pool).1;
      })
  unfolding ◌>>=◌
  opened-Reach s run true e = Reach.here
  opened-Reach s run false e =
      subst
        (λ p.
          Reach h c s
            (record s { pool = (then_with (λ _. lease h c >>= λ w. serve h c w run) p.0 p.1).1 }))
        (sym (ensured s.pool e))
        (leased-Reach s run (lease h c s.pool).0 (lease h c s.pool).1 refl refl)

  -- From a started pool, whatever a call of `dispatch` does, in a time in which nothing else acts, is
  -- a run of the system's steps, after which the callers hold what they held before.
  pub dispatch-Reach :
      (s : System W) (run : Run)
      → s.pool.started ≡ true
      → Reach h c s (record s { pool = (dispatch h c run s.pool).1 })
  unfolding dispatch ◌>>=◌
  dispatch-Reach s run started = opened-Reach s run s.pool.closed started
