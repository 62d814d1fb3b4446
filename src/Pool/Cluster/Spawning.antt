-- ===== src/Pool/Cluster/Spawning.antt =====
-- `_try_spawn` of src/vomero_sandbox/runner.py, by its ends, with what it has recorded of the pod.
use vomero_sandbox.Common.{
  ◌+◌, ◌≡◌, ◌≢◌, ◌⊎◌, refl, Bool, true, false, inl, inr, Option, none, some, List, ◌∷◌, Text,
  text_eq_refl, text_eq_ne, is_some, arith,
}
use vomero_sandbox.Errors.{Exc, Outcome, ok, raise}
use vomero_sandbox.Config.{SandboxConfig}
use vomero_sandbox.Host.{Host}
use vomero_sandbox.Pool.State.{State, Event, Worker, ◌>>=◌, outstanding}
use vomero_sandbox.Pool.Cluster.{
  Spawned, worker_name, delete, create, confirm, adopt, settle, place_pod, try_spawn,
}
use vomero_sandbox.Pool.Cluster.Frames.{
  Outside, Abandoned, delete-events, create-cases, confirm-cases,
}

-- The worker that a call of `_try_spawn` returns, if it returns one.
abbrev pub hired : Outcome Spawned → Option Worker
hired (ok (Spawned.worker w)) = some w
hired (ok (Spawned.refused _)) = none
hired (raise _) = none

abbrev pub interrupted {ℓ} : {A : Type ℓ} → Outcome A → Bool
interrupted (ok _) = false
interrupted (raise Exc.interrupt) = true
interrupted (raise Exc.blocked) = true
interrupted (raise _) = false

-- A worker as it is new.
abbrev pub IsNew : Text → Outcome Spawned → Type 0
IsNew name q = (w : Worker) × (hired q ≡ some w) × (w.name ≡ name) × (w.uses ≡ 0)

-- The counters and the two records have moved; nothing else of the pool has.
abbrev pub Counted : {W : Type 0} → State W → State W → Type 0
Counted s u = u ≡ record s {
  serial = s.serial + 1;
  spawned = s.spawned + 1;
  events = u.events;
  world = u.world;
}

-- What has been recorded about the pod of the next name, with the end of the call.
abbrev pub Recorded : Text → List Event → Outcome Spawned → List Event → Type 0
Recorded n es q fs =
    (IsNew n q × (fs ≡ Event.created n ∷ Event.deleted n ∷ es))
    ⊎ ((hired q ≡ none) × (fs ≡ Event.deleted n ∷ es))
    ⊎ ((hired q ≡ none) × (fs ≡ Event.deleted n ∷ Event.created n ∷ Event.deleted n ∷ es))
    ⊎ ((hired q ≡ none) × (interrupted q ≡ true) × (fs ≡ Event.created n ∷ Event.deleted n ∷ es))

module _ {W : Type 0} (h : Host W) (c : SandboxConfig) where
  adopt-cases :
      (name : Text) (b : Bool) (s : State W)
      → let (q, u) = adopt h c name b s in
        (IsNew name q × Outside s u) ⊎ ((hired q ≡ none) × Abandoned name s u)
  unfolding adopt ◌>>=◌
  adopt-cases name true s = inl ((_, refl, refl, refl), refl)
  adopt-cases name false s = inr (ground (arith, delete-events h c name s))

  settle-cases :
      (name : Text) (s : State W)
      → let (q, u) = settle h c name s in
        (IsNew name q × Outside s u)
        ⊎ ((hired q ≡ none) × Abandoned name s u)
        ⊎ ((hired q ≡ none) × (interrupted q ≡ true) × Outside s u)
  unfolding settle ◌>>=◌
  settle-cases name s = elim (confirm-cases h c name s) [
    | inl (b, e, o) ↦ ground (arith, adopt-cases name b (confirm h c name s).1)
    | inr (inl (e, o)) ↦ ground arith
    | inr (inr (x, e, i, o)) ↦ ground arith
  ]

  abbrev Placing : Text → State W → Outcome Spawned × State W → Type 0
  Placing n s (q, u) =
      (u ≡ record s { events = u.events; world = u.world })
      × ((IsNew n q × (u.events ≡ Event.created n ∷ s.events))
          ⊎ ((hired q ≡ none) × (u.events ≡ s.events))
          ⊎ ((hired q ≡ none) × (u.events ≡ Event.deleted n ∷ Event.created n ∷ s.events))
          ⊎ ((hired q ≡ none) × (interrupted q ≡ true) × (u.events ≡ Event.created n ∷ s.events)))

  place_pod-cases : (n : Text) (s : State W) → Placing n s (place_pod h c n s)
  unfolding place_pod ◌>>=◌
  place_pod-cases n s = ground (arith, create-cases h c n s, settle-cases n (create h c n s).1)

  pub try_spawn-cases :
      (s : State W)
      → let (q, u) = try_spawn h c s in
        Counted s u × Recorded (worker_name c (s.serial + 1)) s.events q u.events
  unfolding try_spawn ◌>>=◌
  try_spawn-cases s =
      let n = worker_name c (s.serial + 1) in
      let s1 = record s { serial = s.serial + 1; spawned = s.spawned + 1 } in
      ground (arith, delete-events h c n s1, place_pod-cases n (delete h c n s1).1)

  Recorded-self :
      (n : Text) (es : List Event) (q : Outcome Spawned) (fs : List Event)
      → Recorded n es q fs
      → interrupted q ≡ false
      → outstanding n fs ≡ is_some (hired q)
  unfolding outstanding
  Recorded-self n es q fs r i = ground (arith, text_eq_refl n)

  Recorded-other :
      (n m : Text) (es : List Event) (q : Outcome Spawned) (fs : List Event)
      → Recorded n es q fs
      → n ≢ m
      → outstanding m fs ≡ outstanding m es
  unfolding outstanding
  Recorded-other n m es q fs r ne = ground (arith, text_eq_ne n m ne)

  -- If no interrupt ends a call of `_try_spawn`, then either it returns a worker, which has the next
  -- name and no uses, and whose pod is created with no deletion asked for since; or it returns none,
  -- and no pod of that name is created without a deletion asked for since. What is recorded of a pod
  -- of any other name stays what it was, and so do the free queue, the threads and the flags; both
  -- counters go up by one.
  pub try_spawn_accounts :
      (s : State W) (m : Text)
      → interrupted (try_spawn h c s).0 ≡ false
      → worker_name c (s.serial + 1) ≢ m
      → let n = worker_name c (s.serial + 1) in
        let (q, u) = try_spawn h c s in
        ((IsNew n q × (outstanding n u.events ≡ true))
          ⊎ ((hired q ≡ none) × (outstanding n u.events ≡ false)))
        × (outstanding m u.events ≡ outstanding m s.events)
        × Counted s u
  try_spawn_accounts s m i ne =
      let (counted, recorded) = try_spawn-cases s in
      let self = Recorded-self _ _ _ _ recorded i in
      (ground arith, Recorded-other _ m _ _ _ recorded ne, counted)
