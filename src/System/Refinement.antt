-- ===== src/System/Refinement.antt =====
-- The abstract view of the system, and the move that each of its steps is.
use vomero_sandbox.Common.{
  ℕ, zero, suc, ◌+◌, ◌≤◌, ◌<◌, ◌≡◌, ◌≢◌, ◌⊎◌, inl, inr, refl, Bool, true, false, Bool-cases, Option,
  none, some, List, [], ◌∷◌, ◌++◌, ◌==◌, arith,
}
use vomero_sandbox.Errors.{Outcome, ok, raise}
use vomero_sandbox.Config.{SandboxConfig}
use vomero_sandbox.Host.{Host}
use vomero_sandbox.Models.{PoolStartReport}
pub use vomero_sandbox.Pool.Lifecycle.Hooks.{placed_of}
use vomero_sandbox.Pool.State.{State, Worker, Task, ◌>>=◌, then_with, start_thread}
use vomero_sandbox.Pool.Cluster.{worker_name}
use vomero_sandbox.Pool.Cluster.Spawning.{try_spawn-cases}
use vomero_sandbox.Pool.Quiet.{exec_on_worker-Outside, close_client-Outside}
use vomero_sandbox.Pool.Workers.{lease, used, release, retire, clean_task, discard, try_replace}
use vomero_sandbox.Pool.Effects.{release-cases, clean_task-cases, discard-cases, try_replace-cases}
use vomero_sandbox.Pool.Lifecycle.{start}
use vomero_sandbox.Pool.Lifecycle.Starting.{delete_workers-Prepared, Starts, start-Starts}
use vomero_sandbox.System.{
  System, Thread, Step, after_attempt, advance, resume_thread, begin_thread,
}
use vomero_sandbox.System.Moves.{Shape, Move}

abbrev pub shape : {W : Type 0} → System W → Shape
shape s = record {
  free = s.pool.free;
  held = s.held;
  tasks = s.pool.tasks;
  threads = s.threads;
  serial = s.pool.serial;
  started = s.pool.started;
  limit = placed_of s.pool.start_report;
}

-- What an attempt at a replacement does: it adds a worker of a number that is given out anew, or
-- none.
abbrev Attempts : {W : Type 0} → SandboxConfig → State W → Outcome Bool × State W → Type 0
Attempts c s (q, t) =
    ((w : Worker) × (k : ℕ) × (s.serial < k)
      × (w.name ≡ worker_name c k)
      × (w.uses ≡ 0)
      × (q ≡ ok true)
      × (t.serial ≡ k)
      × (t.free ≡ s.free ++ w ∷ [])
      × (t.tasks ≡ s.tasks)
      × (t.started ≡ s.started)
      × (t.start_report ≡ s.start_report))
    ⊎ ((q ≢ ok true)
        × (s.serial ≤ t.serial)
        × (t.free ≡ s.free)
        × (t.tasks ≡ s.tasks)
        × (t.started ≡ s.started)
        × (t.start_report ≡ s.start_report))

module _ {W : Type 0} (h : Host W) (c : SandboxConfig) where
  lease-cases :
      (fs : List Worker) (w : Worker) (s : State W)
      → s.free ≡ fs
      → (lease h c s).0 ≡ ok w
      → (rest : List Worker) × (s.free ≡ w ∷ rest) × ((lease h c s).1 ≡ record s { free = rest })
  unfolding lease
  lease-cases [] w s f e = absurd (ground arith)
  lease-cases (v ∷ rest) w s f e = (rest, ground arith, ground arith)

  start-Move :
      (s : System W) (q : Outcome (Option PoolStartReport)) (t : State W)
      → s.pool.started ≡ false
      → Starts h c s.pool (q, t)
      → Move c (shape s) (shape (record s { pool = t }))
  start-Move s (ok none) t f x = absurd x
  start-Move s (ok (some r)) t f (ws, placed, req, l, hi, n, e) =
      Move.warm ws t.serial f l n (ground arith)
  start-Move s (raise e) t f x = Move.stay t.serial x.1 (ground arith)

  release-Move :
      (s : System W) (xs : List Worker) (w : Worker) (ys : List Worker) (unhealthy : Bool)
      (clean : Option Bool)
      → s.held ≡ xs ++ w ∷ ys
      → Move c
          (shape s)
          (shape (record s { pool = (release h c w unhealthy clean s.pool).1; held = xs ++ ys }))
  release-Move s xs w ys unhealthy clean e = elim (release-cases h c w unhealthy clean s.pool).1 [
    | inl q ↦ Move.queue xs w ys (Task.replacing (used w)) e refl tt (ground arith)
    | inr (_, u, inl q) ↦ Move.queue xs w ys (Task.cleaning (used w)) e refl u (ground arith)
    | inr (_, u, inr q) ↦ Move.put xs w (used w) ys e refl u (ground arith)
  ]

  wipe-Move :
      (s : System W) (xs : List Task) (w : Worker) (ys : List Task)
      → s.pool.tasks ≡ xs ++ Task.cleaning w ∷ ys
      → Move c
          (shape s)
          (shape (record s { pool = (clean_task h c w (record s.pool { tasks = xs ++ ys })).1 }))
  wipe-Move s xs w ys e = elim (clean_task-cases h c w (record s.pool { tasks = xs ++ ys })) [
    | inl (q, _) ↦ Move.wiped xs w ys e (ground arith)
    | inr (inl q) ↦ Move.dirty xs w ys e (ground arith)
    | inr (inr q) ↦ Move.gone xs _ ys e (ground arith)
  ]

  replace-Move :
      (s : System W) (xs : List Task) (w : Worker) (ys : List Task) (q : Outcome (Unit {0}))
      (t : State W)
      → s.pool.tasks ≡ xs ++ Task.replacing w ∷ ys
      → (t.free ≡ s.pool.free)
        × (t.tasks ≡ xs ++ ys)
        × (t.serial ≡ s.pool.serial)
        × (t.started ≡ s.pool.started)
        × (t.start_report ≡ s.pool.start_report)
      → Move c (shape s) (shape (record s { pool = t; threads = begin_thread q s.threads }))
  replace-Move s xs w ys (ok _) t e f = Move.retry xs _ ys (Thread.checking 3 0) e (ground arith)
  replace-Move s xs w ys (raise _) t e f = Move.gone xs _ ys e (ground arith)

  try_replace-Attempts : (s : State W) → Attempts c s (try_replace h c s)
  try_replace-Attempts s =
      let (counted, recorded) = try_spawn-cases h c s in
      elim (try_replace-cases h c s) [
        | inl (w, e, eq, et) ↦ inl (
          w,
          s.serial + 1,
          omega arith,
          ground arith,
          ground arith,
          eq,
          ground arith,
          ground arith,
          ground arith,
          ground arith,
          ground arith,
        )
        | inr (e, ne, et) ↦
            inr (ne, ground arith, ground arith, ground arith, ground arith, ground arith)
      ]

  spawning-Move :
      (s : System W) (xs : List Thread) (th : Thread) (ys : List Thread) (left attempt : ℕ)
      (q : Outcome Bool) (t : State W)
      → s.threads ≡ xs ++ th ∷ ys
      → Attempts c s.pool (q, t)
      → let (r, u) = then_with (after_attempt h c left attempt) q t in
        Move c (shape s) (shape (record s { pool = u; threads = resume_thread r (xs ++ ys) }))
  unfolding after_attempt ◌>>=◌
  spawning-Move s xs th ys left attempt (ok true) t e
        (inl (w, k, l, name, uses, eq, es, ef, et, ea, er)) =
      Move.hire xs th ys w k e l name uses (ground arith)
  spawning-Move s xs th ys left attempt (ok true) t e (inr a) = absurd (a.0 refl)
  spawning-Move s xs th ys left attempt (ok false) t e (inl a) = absurd (ground arith)
  spawning-Move s xs th ys left attempt (ok false) t e (inr a) = elim (Bool-cases (left == 0)) [
    | inl last ↦ Move.give_up xs th ys t.serial e a.1 (ground arith)
    | inr more ↦
        Move.go_on xs th ys (Thread.checking left (attempt + 1)) t.serial e a.1 (ground arith)
  ]
  spawning-Move s xs th ys left attempt (raise x) t e (inl a) = absurd (ground arith)
  spawning-Move s xs th ys left attempt (raise x) t e (inr a) =
      Move.give_up xs th ys t.serial e a.1 (ground arith)

  advance-Move :
      (s : System W) (xs : List Thread) (th : Thread) (ys : List Thread)
      → s.threads ≡ xs ++ th ∷ ys
      → Move c (shape s) (
          shape (record s {
            pool = (advance h c th s.pool).1;
            threads = resume_thread (advance h c th s.pool).0 (xs ++ ys);
          }))
  unfolding advance ◌>>=◌
  advance-Move s xs (Thread.checking zero a) ys e =
      Move.give_up xs _ ys s.pool.serial e (omega arith) refl
  advance-Move s xs (Thread.checking (suc left) a) ys e = elim (Bool-cases s.pool.closed) [
    | inl over ↦ Move.give_up xs _ ys s.pool.serial e (omega arith) (ground arith)
    | inr open_ ↦
        Move.go_on xs _ ys (Thread.spawning left a) s.pool.serial e (omega arith) (ground arith)
  ]
  advance-Move s xs (Thread.spawning left a) ys e =
      spawning-Move s xs _ ys left a (try_replace h c s.pool).0 (try_replace h c s.pool).1 e
        (try_replace-Attempts s.pool)

  -- Every step of the system, of a caller, a thread or `close`, on any state, is a move of the
  -- abstract view.
  pub Step-Move : (s t : System W) → Step h c s t → Move c (shape s) (shape t)
  unfolding retire start_thread
  Step-Move s t (Step.outside w e) = Move.stay s.pool.serial (omega arith) (ground arith)
  Step-Move s t (Step.starts f e) =
      rw e (start-Move s (start h c s.pool).0 (start h c s.pool).1 f (start-Starts h c s.pool f))
  Step-Move s t (Step.leases w l e) =
      let (rest, f, g) = lease-cases s.pool.free w s.pool refl l in
      Move.take w rest f (ground arith)
  Step-Move s t (Step.works xs w ys run clean f e) =
      let o = (exec_on_worker-Outside h c w run clean).after s.pool in
      Move.stay s.pool.serial (omega arith) (ground arith)
  Step-Move s t (Step.gives_back xs w ys unhealthy clean f e) =
      rw e (release-Move s xs w ys unhealthy clean f)
  Step-Move s t (Step.retires xs w ys f e) =
      Move.queue xs w ys (Task.replacing w) f refl tt (ground arith)
  Step-Move s t (Step.wipes xs w ys f e) = rw e (wipe-Move s xs w ys f)
  Step-Move s t (Step.replaces xs w ys f e) =
      let (q, u) = discard h c w (record s.pool { tasks = xs ++ ys }) in
      rw e (
        replace-Move s xs w ys q u f
          (ground (arith, discard-cases h c w (record s.pool { tasks = xs ++ ys }))))
  Step-Move s t (Step.advances xs th ys f e) = rw e (advance-Move s xs th ys f)
  Step-Move s t (Step.closes e) = Move.stay s.pool.serial (omega arith) (ground arith)
  Step-Move s t (Step.sweeps f e) =
      let p = (delete_workers-Prepared h c).after s.pool in
      Move.stay s.pool.serial (omega arith) (ground arith)
  Step-Move s t (Step.drops w rest f g e) =
      let o = (close_client-Outside h c w).after (record s.pool { free = rest }) in
      Move.drop w rest g (ground arith)
