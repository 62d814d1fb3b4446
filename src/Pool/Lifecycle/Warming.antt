-- ===== src/Pool/Lifecycle/Warming.antt =====
-- The loop of `start` that warms the pool.
use vomero_sandbox.Common.{
  ℕ, zero, suc, ◌+◌, ◌≤◌, ◌<◌, ◌≡◌, ◌⊎◌, refl, sym, ◌∙◌, inl, inr, none, List, [], ◌∷◌, ◌++◌, Text,
  length, append-nil, append_assoc, arith,
}
use vomero_sandbox.Errors.{Outcome, ok, raise}
use vomero_sandbox.Config.{SandboxConfig}
use vomero_sandbox.Host.{Host}
use vomero_sandbox.Pool.State.{State, Event, Worker, ◌>>=◌, then_with}
use vomero_sandbox.Pool.Cluster.{Spawned, worker_name, try_spawn}
use vomero_sandbox.Pool.Cluster.Spawning.{hired, IsNew, Counted, Recorded, try_spawn-cases}
use vomero_sandbox.Pool.Lifecycle.{place, place_next}

-- New workers, of names numbered upwards above `lo` and up to `hi`, none of them used.
abbrev pub Named : SandboxConfig → ℕ → List Worker → ℕ → Type 0
Named c lo [] hi = lo ≤ hi
Named c lo (w ∷ ws) hi =
    (k : ℕ) × (lo < k) × (w.name ≡ worker_name c k) × (w.uses ≡ 0) × Named c k ws hi

pub Named-weaken :
    (c : SandboxConfig) (lo lo' : ℕ) (ws : List Worker) (hi : ℕ)
    → lo ≤ lo'
    → Named c lo' ws hi
    → Named c lo ws hi
Named-weaken c lo lo' [] hi h n = omega arith
Named-weaken c lo lo' (w ∷ ws) hi h (k, a, name, uses, rest) = (k, omega arith, name, uses, rest)

-- The counters and the records have moved.
abbrev pub Grown : {W : Type 0} → State W → State W → Type 0
Grown s t =
    (t ≡ record s { serial = t.serial; spawned = t.spawned; events = t.events; world = t.world })
    × (s.serial ≤ t.serial)

Counted-Grown : {W : Type 0} (s t u : State W) → Counted s t → Grown t u → Grown s u
Counted-Grown s t u a b = ground arith

-- What the loop has placed behind `acc`, if it returns.
abbrev pub Warmed :
    SandboxConfig → ℕ → List Worker → ℕ → Outcome (List Worker × List Text) → ℕ → Type 0
Warmed c n acc lo (raise e) hi = Unit {0}
Warmed c n acc lo (ok (ws, reasons)) hi =
    (new : List Worker) × (ws ≡ acc ++ new) × (length new ≤ n) × Named c lo new hi

module _ {W : Type 0} (h : Host W) (c : SandboxConfig) where
  abbrev pub Warms :
      ℕ → List Worker → State W → Outcome (List Worker × List Text) × State W → Type 0
  Warms n acc s (q, t) = Grown s t × Warmed c n acc s.serial q t.serial

  Warmed-cons :
      (n : ℕ) (acc : List Worker) (w : Worker) (lo k : ℕ) (q : Outcome (List Worker × List Text))
      (hi : ℕ)
      → lo < k
      → w.name ≡ worker_name c k
      → w.uses ≡ 0
      → Warmed c n (acc ++ w ∷ []) k q hi
      → Warmed c (suc n) acc lo q hi
  Warmed-cons n acc w lo k (raise e) hi l en eu x = tt
  Warmed-cons n acc w lo k (ok (ws, rs)) hi l en eu (new, e, m, named) =
      (w ∷ new, e ∙ append_assoc acc (w ∷ []) new, omega arith, (k, l, en, eu, named))

  step-Warms :
      (n : ℕ) (acc : List Worker) (s : State W) (r : Outcome Spawned) (u : State W)
      → ((a : List Worker) (t : State W) → Warms n a t (place h c n a t))
      → Counted s u
      → IsNew (worker_name c (s.serial + 1)) r ⊎ (hired r ≡ none)
      → Warms (suc n) acc s (then_with (place_next (place h c n) acc) r u)
  unfolding place_next ◌>>=◌
  step-Warms n acc s (raise e) u ih counted new = (ground arith, tt)
  step-Warms n acc s (ok (Spawned.refused reason)) u ih counted new =
      (ground arith, ([], sym (append-nil acc), omega arith, ground arith))
  step-Warms n acc s (ok (Spawned.worker w)) u ih counted (inr e) = absurd (cc)
  step-Warms n acc s (ok (Spawned.worker w)) u ih counted (inl (v, e, en, eu)) =
      let (grown, warmed) = ih (acc ++ w ∷ []) u in
      (
        Counted-Grown s u _ counted grown,
        Warmed-cons n acc w s.serial u.serial _ _ (ground arith) (ground arith) (ground arith)
            warmed,
      )

  Recorded-IsNew :
      (n : Text) (es : List Event) (r : Outcome Spawned) (fs : List Event)
      → Recorded n es r fs
      → IsNew n r ⊎ (hired r ≡ none)
  Recorded-IsNew n es r fs rec = ground arith

  pub place-Warms : (n : ℕ) (acc : List Worker) (s : State W) → Warms n acc s (place h c n acc s)
  unfolding place ◌>>=◌
  place-Warms zero acc s =
      ((refl, omega arith), ([], sym (append-nil acc), omega arith, omega arith))
  place-Warms (suc n) acc s =
      let (counted, recorded) = try_spawn-cases h c s in
      step-Warms n acc s (try_spawn h c s).0 (try_spawn h c s).1 (place-Warms n) counted
        (Recorded-IsNew _ _ _ _ recorded)
