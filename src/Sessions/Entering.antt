-- ===== src/Sessions/Entering.antt =====
-- Entering a session, by what it leaves of the session, its worker and the pool.
use vomero_sandbox.Common.{
  ◌≡◌, ◌⊎◌, refl, Bool, true, false, none, some, [], ℤ, inl, inr, arith, max_ℤ, is_empty,
  Bool-cases, if◌then◌else◌,
}
use vomero_sandbox.Errors.{Exc, Outcome, ok, raise, is_exception}
use vomero_sandbox.Config.{SandboxConfig, seconds}
use vomero_sandbox.Host.{Host}
use vomero_sandbox.Pool.State.{M, State, Worker, Task, ◌>>=◌, capture, then_with, pure}
use vomero_sandbox.Pool.Keeps.{Keeps, keeping}
use vomero_sandbox.Pool.Cluster.Frames.{Outside, Outside-frame}
use vomero_sandbox.Pool.Execution.{clean_workspace, upload}
use vomero_sandbox.Pool.Quiet.{clean_workspace-Outside, upload-Outside}
use vomero_sandbox.Pool.Workers.{retire}
use vomero_sandbox.Pool.Effects.{Queued}
use vomero_sandbox.Sessions.{
  Session, seed, seeded, retire_held, retire_now, give_up, take_worker, take_up, enter,
}

second :
    {W : Type 0} (b : Bool) (m k : M W (Unit {0})) (s : State W)
    → b ≡ false
    → ((if b then m else k) s).0 ≡ ok tt
    → (k s).0 ≡ ok tt
second true m k s e f = absurd (cc)
second false m k s e f = f

module _ {W : Type 0} (h : Host W) (c : SandboxConfig) where
  abbrev pub prep_timeout : ℤ
  prep_timeout = max_ℤ c.default_timeout_s (seconds 30)

  seed-Outside : (x : Session) (w : Worker) → Keeps Outside (seed h c x w)
  unfolding seed
  seed-Outside x w =
      search (keeping, Outside-frame, clean_workspace-Outside, upload-Outside) depth 12

  -- The worker was wiped, and then the files to restore, if there are any, were uploaded to it.
  abbrev pub Restored : Session → Worker → State W → Type 0
  Restored x w u =
      ((clean_workspace h c w prep_timeout u).0 ≡ ok tt)
      × ((is_empty x.restore ≡ true)
          ⊎ ((upload h c w x.restore prep_timeout (clean_workspace h c w prep_timeout u).1).0
              ≡ ok tt))

  Restored-seed :
      (x : Session) (w : Worker) (u : State W) → (seed h c x w u).0 ≡ ok tt → Restored x w u
  unfolding seed ◌>>=◌ pure
  Restored-seed x w u e = after (clean_workspace h c w prep_timeout u).0 refl e
    where
      after :
          (r : Outcome (Unit {0}))
          → (clean_workspace h c w prep_timeout u).0 ≡ r
          → (then_with
              (λ _ s.
                (if is_empty x.restore then pure tt else upload h c w x.restore prep_timeout) s)
              r
              (clean_workspace h c w prep_timeout u).1).0
            ≡ ok tt
          → Restored x w u
      after (raise z) q f = absurd (cc)
      after (ok _) q f = elim (Bool-cases (is_empty x.restore)) [
        | inl b ↦ (q, inl b)
        | inr b ↦ (
          q,
          inr (second (is_empty x.restore) (pure tt) (upload h c w x.restore prep_timeout) _ b f),
        )
      ]

  -- What a session that leases `w` in the state `u` becomes, what its caller gets, and the pool.
  abbrev pub Prepared :
      Session → Worker → State W → Outcome (Session × Outcome (Unit {0})) × State W → Type 0
  Prepared x w u (raise e, t) = ⊥
  Prepared x w u (ok (y, ok _), t) =
      (y ≡ record x { restore = []; worker = some w }) × Restored x w u × Outside u t
  Prepared x w u (ok (y, raise e), t) =
      ((seed h c x w u).0 ≡ raise e)
      × (((is_exception e ≡ true)
            × (y ≡ record x { worker = none; dead = true })
            × Queued (Task.replacing w) u t)
          ⊎ ((is_exception e ≡ false) × (y ≡ record x { worker = some w }) × Outside u t))

  seeded-cases :
      (x : Session) (w : Worker) (o : Outcome (Unit {0})) (u v : State W)
      → Outside u v
      → (seed h c x w u).0 ≡ o
      → Prepared x w u (seeded h c (record x { worker = some w }) o v)
  unfolding seeded give_up retire_now retire_held retire ◌>>=◌ pure
  seeded-cases x w (ok _) u v away e = (refl, Restored-seed x w u e, away)
  seeded-cases x w (raise e) u v away q = elim (Bool-cases (is_exception e)) [
    | inl f ↦ rw f (q, inl (f, refl, ground arith))
    | inr f ↦ rw f (q, inr (f, refl, away))
  ]

  -- Entering a session raises before it has a worker, and leaves it as it is; or it has leased a
  -- worker. Then it returns with the worker held, which has been wiped, and then given the files to
  -- restore, which are uploaded once; or it raises the exception of that, and the session is over,
  -- with the worker queued once to be replaced; or it is interrupted, and still holds the worker.
  pub enter_prepares :
      (x : Session) (s : State W)
      → let (o, u) = take_worker h c s in
        ((e : Exc) × (o ≡ raise e) × (enter h c x s ≡ (ok (x, raise e), u)))
        ⊎ ((w : Worker) × (o ≡ ok w) × Prepared x w u (enter h c x s))
  unfolding enter take_up ◌>>=◌ capture pure
  enter_prepares x s = entered (take_worker h c s).0 refl
    where
      entered :
          (o : Outcome Worker)
          → (take_worker h c s).0 ≡ o
          → ((e : Exc) × ((take_worker h c s).0 ≡ raise e)
              × (enter h c x s ≡ (ok (x, raise e), (take_worker h c s).1)))
            ⊎ ((w : Worker) × ((take_worker h c s).0 ≡ ok w)
                × Prepared x w (take_worker h c s).1 (enter h c x s))
      entered (raise e) q = inl (e, q, rw q refl)
      entered (ok w) q = inr (
        w,
        q,
        rw q (
            let u = (take_worker h c s).1 in
            seeded-cases x w (seed h c x w u).0 u (seed h c x w u).1 ((seed-Outside x w).after u)
              refl),
      )
