-- ===== src/System/Arriving.antt =====
-- How the steps of the system give a session its worker, and take the worker away again.
use vomero_sandbox.Common.{
  ◌≡◌, refl, ap, ◌∙◌, sym, Bool, true, false, Option, List, ◌∷◌, ◌++◌, arith, if◌then◌else◌,
}
use vomero_sandbox.Errors.{Exc, Outcome, ok, raise}
use vomero_sandbox.Config.{SandboxConfig}
use vomero_sandbox.Host.{Host}
use vomero_sandbox.Models.{PoolStartReport}
use vomero_sandbox.Pool.State.{State, Worker, Task, then_with, pure, throw, gets, ◌>>=◌, ◌>>◌}
use vomero_sandbox.Pool.Cluster.Frames.{Outside}
use vomero_sandbox.Pool.Lifecycle.{start}
use vomero_sandbox.Pool.Dispatch.{ensure_started}
use vomero_sandbox.Pool.Workers.{lease, retire}
use vomero_sandbox.Pool.Effects.{Queued}
use vomero_sandbox.Sessions.{take_worker}
use vomero_sandbox.System.{System, Step, Reach}

module _ {W : Type 0} (h : Host W) (c : SandboxConfig) where
  lease_raises : (s : State W) (e : Exc) → (lease h c s).0 ≡ raise e → (lease h c s).1 ≡ s
  unfolding lease
  lease_raises s e r = ground arith

  -- Where a lease, or what comes before it, leaves the system.
  abbrev pub Leased : System W → Outcome Worker × State W → Type 0
  Leased s (raise e, u) = (t : System W) × Reach h c s t × (t.pool ≡ u) × (t.held ≡ s.held)
  Leased s (ok w, u) = (t : System W) × Reach h c s t × (t.pool ≡ u) × (t.held ≡ w ∷ s.held)

  lease-Leased : (s t : System W) → Reach h c s t → t.held ≡ s.held → Leased s (lease h c t.pool)
  lease-Leased s t r e = of (lease h c t.pool).0 (lease h c t.pool).1 refl refl
    where
      of :
          (q : Outcome Worker) (u : State W)
          → (lease h c t.pool).0 ≡ q
          → (lease h c t.pool).1 ≡ u
          → Leased s (q, u)
      of (raise x) u l k = (t, r, sym (lease_raises t.pool x l) ∙ k, e)
      of (ok w) u l k = (
        record t { pool = u; held = w ∷ t.held },
        Reach.next r (Step.leases w l (rw k refl)),
        refl,
        ap (λ ws. w ∷ ws) e,
      )

  begun-Leased :
      (s t : System W) (q : Outcome (Option PoolStartReport))
      → Reach h c s t
      → t.held ≡ s.held
      → let (r, u) = then_with (λ _. pure tt) q t.pool in Leased s (then_with (λ _. lease h c) r u)
  unfolding pure
  begun-Leased s t (ok _) r e = lease-Leased s t r e
  begun-Leased s t (raise x) r e = (t, r, refl, e)

  started-Leased :
      (s : System W) (b : Bool)
      → s.pool.started ≡ b
      → Leased s (((if b then pure tt else (start h c >> pure tt)) >> lease h c) s.pool)
  unfolding ◌>>=◌ pure
  started-Leased s true e = lease-Leased s s Reach.here refl
  started-Leased s false e =
      begun-Leased s (record s { pool = (start h c s.pool).1 }) (start h c s.pool).0
        (Reach.next Reach.here (Step.starts e refl)) refl

  open-Leased :
      (s : System W) (b : Bool)
      → Leased s ((if b then throw Exc.pool_closed else (ensure_started h c >> lease h c)) s.pool)
  unfolding ensure_started ◌>>=◌ gets throw
  open-Leased s true = (s, Reach.here, refl, refl)
  open-Leased s false = started-Leased s s.pool.started refl

  pub take-Leased : (s : System W) → Leased s (take_worker h c s.pool)
  unfolding take_worker ◌>>=◌ gets
  take-Leased s = open-Leased s s.pool.closed

  -- Where the system is when the pool is at `v` and the callers hold `ws`.
  abbrev pub Arrives : System W → State W → List Worker → Type 0
  Arrives s v ws = (u : System W) × Reach h c s u × (u.pool ≡ v) × (u.held ≡ ws)

  pub Outside-Arrives :
      (s t : System W) (v : State W) → Reach h c s t → Outside t.pool v → Arrives s v t.held
  Outside-Arrives s t v r o =
      let u = record t { pool = record t.pool { world = v.world } } in
      (u, Reach.next r (Step.outside v.world refl), sym o, refl)

  pub Queued-Arrives :
      (s t : System W) (v : State W) (xs : List Worker) (w : Worker) (ys : List Worker)
      → Reach h c s t
      → t.held ≡ xs ++ w ∷ ys
      → Queued (Task.replacing w) t.pool v
      → Arrives s v (xs ++ ys)
  unfolding retire ◌>>=◌
  Queued-Arrives s t v xs w ys r k q =
      let t1 = record t { pool = record t.pool { world = v.world } } in
      let moved : Reach h c s t1 = Reach.next r (Step.outside v.world refl) in
      let u = record t1 { pool = (retire w t1.pool).1; held = xs ++ ys } in
      (u, Reach.next moved (Step.retires xs w ys k refl), sym q, refl)

  pub both : {s t u : System W} → Reach h c s t → Reach h c t u → Reach h c s u
  both r Reach.here = r
  both r (Reach.next q st) = Reach.next (both r q) st
