-- ===== src/Pool/Effects.antt =====
-- The effects of `_release`, `_clean_and_return` and `_replace` on the state of the pool, by cases.
use vomero_sandbox.Common.{
  ◌+◌, ◌≡◌, ◌≢◌, ◌⊎◌, refl, Bool, true, false, inl, inr, Bool-cases, Option, none, some, [], ◌∷◌,
  ◌++◌, pos, leb_ℤ, max_ℤ, arith,
}
use vomero_sandbox.Errors.{Outcome, ok, raise, is_exception, succeeded}
use vomero_sandbox.Config.{SandboxConfig, seconds}
use vomero_sandbox.Host.{Host}
use vomero_sandbox.Pool.State.{
  State, Event, Worker, Task, ◌>>=◌, ◌>>◌, try_except, then_with, handle, pure, put_free,
}
use vomero_sandbox.Pool.Cluster.{Spawned, delete, require_worker, try_spawn, spawn}
use vomero_sandbox.Pool.Cluster.Frames.{Outside, Abandoned, delete-events}
use vomero_sandbox.Pool.Cluster.Spawning.{hired}
use vomero_sandbox.Pool.Quiet.{clean_workspace-Outside, close_client-Outside}
use vomero_sandbox.Pool.Workers.{
  spent, retire, clean_and_return, used, release, clean_task, try_replace, discard,
}

-- The pool has gained this in the free queue, or among the threads, and the world has moved.
abbrev pub Freed : {W : Type 0} → Worker → State W → State W → Type 0
Freed w s t = t ≡ record s { free = s.free ++ w ∷ []; world = t.world }

abbrev pub Queued : {W : Type 0} → Task → State W → State W → Type 0
Queued k s t = t ≡ record s { tasks = s.tasks ++ k ∷ []; world = t.world }

module _ {W : Type 0} (h : Host W) (c : SandboxConfig) where
  pub spent-cases :
      (w : Worker) (s : State W)
      → let (q, t) = spent h c w s in
        Outside s t × ((q ≡ ok true) ⊎ ((q ≡ ok false) × (leb_ℤ c.max_uses (pos w.uses) ≡ false)))
  unfolding spent ◌>>=◌
  spent-cases w s = ground arith

  -- Giving a worker back queues it to be replaced; or, if it is healthy and not used up, queues it
  -- to be wiped, or frees it.
  pub release-cases :
      (w : Worker) (unhealthy : Bool) (clean : Option Bool) (s : State W)
      → let (q, t) = release h c w unhealthy clean s in
        (q ≡ ok tt)
        × (Queued (Task.replacing (used w)) s t
            ⊎ ((unhealthy ≡ false)
                × (leb_ℤ c.max_uses (pos (used w).uses) ≡ false)
                × (Queued (Task.cleaning (used w)) s t ⊎ Freed (used w) s t)))
  unfolding release retire clean_and_return ◌>>=◌
  release-cases w true clean s = ground arith
  release-cases w false clean s = ground (arith, spent-cases (used w) s)

  -- The wiping thread frees the worker, queues it to be replaced, or ends without it: when the pool
  -- is closed, or by an interrupt.
  pub clean_task-cases :
      (w : Worker) (s : State W)
      → let (q, t) = clean_task h c w s in
        (Freed w s t × (s.closed ≡ false)) ⊎ Queued (Task.replacing w) s t ⊎ Outside s t
  unfolding clean_task retire ◌>>=◌ try_except
  clean_task-cases w s = ground (
    arith,
    (clean_workspace-Outside h c w (max_ℤ c.default_timeout_s (seconds 15))).after s,
    (close_client-Outside h c w).after s,
  )

  -- Discarding a worker records the deletion of its pod first; only a raise keeps it from being
  -- counted.
  pub discard-cases :
      (w : Worker) (s : State W)
      → let (q, t) = discard h c w s in
        ((q ≡ ok tt)
          × (t ≡ record s {
            events = Event.deleted w.name ∷ s.events;
            retired = s.retired + 1;
            world = t.world;
          }))
        ⊎ ((succeeded q ≡ false) × Abandoned w.name s t)
  unfolding discard ◌>>=◌
  discard-cases w s =
      let t = (delete h c w.name s).1 in
      ground (arith, delete-events h c w.name s, (close_client-Outside h c w).after t)

  -- What an attempt at a replacement makes of the end of `_try_spawn`: it frees the new worker, or
  -- frees none.
  abbrev Replaces : Outcome Spawned → State W → Outcome Bool × State W → Type 0
  Replaces r u (q, t) =
      ((w : Worker) × (hired r ≡ some w)
        × (q ≡ ok true)
        × (t ≡ record u { free = u.free ++ w ∷ [] }))
      ⊎ ((hired r ≡ none) × (q ≢ ok true) × (t ≡ u))

  replaces :
      (r : Outcome Spawned) (u : State W)
      → let (a, v) = then_with require_worker r u in
        let (b, x) = then_with (λ w. put_free w >> pure true) a v in
        Replaces r u (handle is_exception (λ _. pure false) b x)
  unfolding ◌>>=◌ require_worker
  replaces (ok (Spawned.worker w)) u = inl (w, refl, refl, refl)
  replaces (ok (Spawned.refused _)) u = inr (refl, λ e. cc, refl)
  replaces (raise e) u = elim (Bool-cases (is_exception e)) [
    | inl y ↦ rw y (inr (refl, λ x. cc, refl))
    | inr n ↦ rw n (inr (refl, λ x. cc, refl))
  ]

  pub try_replace-cases :
      (s : State W) → let (r, u) = try_spawn h c s in Replaces r u (try_replace h c s)
  unfolding try_replace spawn ◌>>=◌ try_except
  try_replace-cases s = replaces (try_spawn h c s).0 (try_spawn h c s).1
