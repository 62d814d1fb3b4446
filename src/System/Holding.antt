-- ===== src/System/Holding.antt =====
-- A session, src/vomero_sandbox/runner.py, as a caller of the system.
use vomero_sandbox.Common.{
  ◌≡◌, ◌⊎◌, refl, ap, ◌∙◌, sym, subst, inl, inr, Bool, true, false, Option, none, some, List, [],
  ◌∷◌, ◌++◌, ℤ,
}
use vomero_sandbox.Errors.{Outcome, ok, raise}
use vomero_sandbox.Config.{SandboxConfig}
use vomero_sandbox.Host.{Host}
use vomero_sandbox.Models.{Files, RunResult}
use vomero_sandbox.Pool.State.{M, State, Worker, then_with, pure, capture, ◌>>=◌}
use vomero_sandbox.Pool.Keeps.{Keeps, keeping}
use vomero_sandbox.Pool.Cluster.Frames.{Outside, Outside-frame}
use vomero_sandbox.Pool.Quiet.{collect_files-Outside}
use vomero_sandbox.Pool.Execution.{Run}
use vomero_sandbox.Pool.Workers.{release, retire}
use vomero_sandbox.Pool.Effects.{release-cases}
use vomero_sandbox.Sessions.{
  Session, session_call, checkpoint, take_worker, enter, leave, give_back, require_live,
}
use vomero_sandbox.Sessions.Entering.{Prepared, enter_prepares}
use vomero_sandbox.Sessions.Life.{held, Settled, call_settles}
use vomero_sandbox.System.{System, Step, Reach}
use vomero_sandbox.System.Arriving.{
  Leased, take-Leased, Arrives, Outside-Arrives, Queued-Arrives, both,
}

-- What a caller does with a session, but for its streams.
pub data Use : Type 0 where
  entering leaving : Use
  calling : Run → Use
  saving : Option ℤ → Use

-- The session has no worker, or one of those that callers hold.
abbrev pub IsBacked : {W : Type 0} → Session → System W → Type 0
IsBacked x t =
    (x.worker ≡ none)
    ⊎ ((w : Worker) × (xs : List Worker) × (ys : List Worker) × (x.worker ≡ some w)
        × (t.held ≡ xs ++ w ∷ ys))

module _ {W : Type 0} (h : Host W) (c : SandboxConfig) where
  unfoldable pub use_session : Use → Session → M W Session
  use_session Use.entering x = enter h c x >>= λ p. pure p.0
  use_session Use.leaving x = leave h c x
  use_session (Use.calling run) x = session_call h c x run >>= λ p. pure p.0
  use_session (Use.saving t) x = capture (checkpoint h c x t) >>= λ _. pure x

  unfoldable pub use_sessions : List Use → Session → M W Session
  use_sessions [] x = pure x
  use_sessions (u ∷ us) x = use_session u x >>= use_sessions us

  -- The system can be where the session and the pool are.
  abbrev pub Backs : System W → Outcome Session × State W → Type 0
  Backs s (raise e, p) = ⊥
  Backs s (ok y, p) = (t : System W) × Reach h c s t × (t.pool ≡ p) × IsBacked y t

  -- A session with the worker at the place between `xs` and `ys`, or none.
  with_worker :
      (s : System W) (y : Session) (v : State W) (xs : List Worker) (w : Worker) (ys : List Worker)
      → y.worker ≡ some w
      → Arrives h c s v (xs ++ w ∷ ys)
      → Backs s (ok y, v)
  with_worker s y v xs w ys e (u, r, p, k) = (u, r, p, inr (w, xs, ys, e, k))

  without_worker :
      (s : System W) (y : Session) (v : State W) (ws : List Worker)
      → y.worker ≡ none
      → Arrives h c s v ws
      → Backs s (ok y, v)
  without_worker s y v ws e (u, r, p, k) = (u, r, p, inl e)

  -- Entering, from where a worker has been leased.
  prepared-Backs :
      (s t : System W) (x : Session) (w : Worker) (ws : List Worker)
      (q : Outcome (Session × Outcome (Unit {0})) × State W)
      → Reach h c s t
      → t.held ≡ w ∷ ws
      → Prepared h c x w t.pool q
      → Backs s (let (r, v) = q in then_with (λ p. pure p.0) r v)
  unfolding pure
  prepared-Backs s t x w ws (raise e, v) r k i = absurd i
  prepared-Backs s t x w ws (ok (y, ok _), v) r k (same, restored, away) =
      with_worker s y v [] w ws (ap (λ z. z.worker) same)
        (subst (Arrives h c s v) k (Outside-Arrives h c s t v r away))
  prepared-Backs s t x w ws (ok (y, raise e), v) r k (_, inl (f, same, q)) =
      without_worker s y v ws (ap (λ z. z.worker) same) (Queued-Arrives h c s t v [] w ws r k q)
  prepared-Backs s t x w ws (ok (y, raise e), v) r k (_, inr (f, same, away)) =
      with_worker s y v [] w ws (ap (λ z. z.worker) same)
        (subst (Arrives h c s v) k (Outside-Arrives h c s t v r away))

  IsBacked-held : (x : Session) (t u : System W) → u.held ≡ t.held → IsBacked x t → IsBacked x u
  IsBacked-held x t u e (inl n) = inl n
  IsBacked-held x t u e (inr (w, xs, ys, k, l)) = inr (w, xs, ys, k, e ∙ l)

  entered :
      (s t : System W) (x : Session)
      → Reach h c s t
      → IsBacked x t
      → Backs s (use_session Use.entering x t.pool)
  unfolding use_session ◌>>=◌ pure
  entered s t x r b = elim (enter_prepares h c x t.pool) [
    | inl (e, q, f) ↦
        let (u, m, p, k) : Leased h c t (raise e, (take_worker h c t.pool).1) =
          subst (λ o. Leased h c t (o, (take_worker h c t.pool).1)) q (take-Leased h c t) in
        subst (λ o. Backs s (let (a, v) = o in then_with (λ p. pure p.0) a v)) (sym f)
          (u, both h c r m, p, IsBacked-held x t u k b)
    | inr (w, q, prep) ↦
        let (u, m, p, k) : Leased h c t (ok w, (take_worker h c t.pool).1) =
          subst (λ o. Leased h c t (o, (take_worker h c t.pool).1)) q (take-Leased h c t) in
        prepared-Backs s u x w t.held (enter h c x t.pool) (both h c r m) k
          (subst (λ a. Prepared h c x w a (enter h c x t.pool)) (sym p) prep)
  ]

  -- A call on a session that holds a worker.
  settled-Backs :
      (s t : System W) (files : Files) (w : Worker) (xs ys : List Worker) (o : Outcome RunResult)
      (q : Outcome (Session × Outcome RunResult) × State W)
      → Reach h c s t
      → t.held ≡ xs ++ w ∷ ys
      → Settled (held h c false files w) w o t.pool q
      → Backs s (let (r, v) = q in then_with (λ p. pure p.0) r v)
  unfolding pure
  settled-Backs s t files w xs ys o (raise e, v) r k i = absurd i
  settled-Backs s t files w xs ys o (ok (y, p), v) r k (_, inl (_, same, away)) =
      with_worker s y v xs w ys (ap (λ z. z.worker) same)
        (subst (Arrives h c s v) k (Outside-Arrives h c s t v r away))
  settled-Backs s t files w xs ys o (ok (y, p), v) r k (_, inr (_, none_left, dead, q)) =
      without_worker s y v (xs ++ ys) none_left (Queued-Arrives h c s t v xs w ys r k q)

  -- The place of the worker that a session holds.
  placed_at :
      (t : System W) (files : Files) (d : Bool) (w : Worker)
      → IsBacked (held h c d files w) t
      → (xs : List Worker) × (ys : List Worker) × (t.held ≡ xs ++ w ∷ ys)
  placed_at t files d w (inl n) = absurd (cc)
  placed_at t files d w (inr (v, xs, ys, e, k)) =
      let same : v ≡ w = cc in (xs, ys, k ∙ ap (λ a. xs ++ a ∷ ys) same)

  called :
      (s t : System W) (run : Run) (files : Files) (o : Option Worker) (d : Bool)
      → Reach h c s t
      → let x : Session = record { restore = files; worker = o; dead = d } in
        IsBacked x t → Backs s (use_session (Use.calling run) x t.pool)
  unfolding use_session session_call require_live ◌>>=◌ pure
  called s t run files o true r b = (t, r, refl, b)
  called s t run files none false r b = (t, r, refl, b)
  called s t run files (some w) false r b =
      let (xs, ys, k) = placed_at t files false w b in
      settled-Backs s t files w xs ys _ _ r k (call_settles h c files w run t.pool)

  left :
      (s t : System W) (files : Files) (o : Option Worker) (d : Bool)
      → Reach h c s t
      → let x : Session = record { restore = files; worker = o; dead = d } in
        IsBacked x t → Backs s (use_session Use.leaving x t.pool)
  unfolding use_session leave give_back retire ◌>>=◌ pure
  left s t files none d r b = (t, r, refl, inl refl)
  left s t files (some w) true r b =
      let (xs, ys, k) = placed_at t files true w b in
      let u = record t { pool = (retire w t.pool).1; held = xs ++ ys } in
      (u, Reach.next r (Step.retires xs w ys k refl), refl, inl refl)
  left s t files (some w) false r b =
      let (xs, ys, k) = placed_at t files false w b in
      let (z, g) = release-cases h c w false (some true) t.pool in
      let u = record t { pool = (release h c w false (some true) t.pool).1; held = xs ++ ys } in
      rw z (u, Reach.next r (Step.gives_back xs w ys false (some true) k refl), refl, inl refl)

  checkpoint-Outside : (x : Session) (t : Option ℤ) → Keeps Outside (checkpoint h c x t)
  unfolding checkpoint
  checkpoint-Outside x t = search (keeping, Outside-frame, collect_files-Outside) depth 14

  saved :
      (s t : System W) (x : Session) (o : Option ℤ)
      → Reach h c s t
      → IsBacked x t
      → Backs s (use_session (Use.saving o) x t.pool)
  unfolding use_session capture ◌>>=◌ pure
  saved s t x o r b =
      let v = (checkpoint h c x o t.pool).1 in
      let (u, m, p, k) = Outside-Arrives h c s t v r ((checkpoint-Outside x o).after t.pool) in
      (u, m, p, IsBacked-held x t u k b)

  used_once :
      (u : Use) (s : System W) (x : Session) (p : State W)
      → Backs s (ok x, p)
      → Backs s (use_session u x p)
  used_once u s x p (t, r, e, b) = subst (λ a. Backs s (use_session u x a)) e (of u)
    where
      of : (u : Use) → Backs s (use_session u x t.pool)
      of Use.entering = entered s t x r b
      of Use.leaving = left s t x.restore x.worker x.dead r b
      of (Use.calling run) = called s t run x.restore x.worker x.dead r b
      of (Use.saving o) = saved s t x o r b

  used :
      (us : List Use) (s : System W) (q : Outcome Session × State W)
      → Backs s q
      → Backs s (let (r, v) = q in then_with (use_sessions us) r v)
  unfolding use_sessions ◌>>=◌ pure
  used us s (raise e, p) i = i
  used [] s (ok y, p) i = i
  used (u ∷ us) s (ok y, p) i = used us s (use_session u y p) (used_once u s y p i)

  -- However its caller enters a session that is new or has been resumed, makes calls that are not
  -- streamed, takes checkpoints and leaves, in any order and as often as it likes, on a pool that may
  -- not be started or may be closed, that is a run of the steps of the system. It ends in the pool that the session
  -- leaves, and a worker that the session then has is one that the callers hold.
  pub session-Reach :
      (us : List Use) (x : Session) (s : System W)
      → x.worker ≡ none
      → Backs s (use_sessions us x s.pool)
  session-Reach us x s n = used us s (ok x, s.pool) (s, Reach.here, refl, inl n)
