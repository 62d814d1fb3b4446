-- ===== src/Pool/Cluster/Frames.antt =====
-- The parts of `_try_spawn` and `_delete`: what they move of the state of the pool.
use vomero_sandbox.Common.{
  ℕ, zero, suc, ◌≡◌, ◌≢◌, ◌⊎◌, refl, Bool, true, false, inl, inr, Bool-cases, ◌∷◌, Text, ℤ, arith,
}
use vomero_sandbox.Errors.{Exc, Outcome, ok, raise, is_exception, succeeded}
use vomero_sandbox.Config.{SandboxConfig}
use vomero_sandbox.Host.{Host}
use vomero_sandbox.Pool.State.{State, Event, ◌>>=◌, ◌>>◌, try_except, handle, throw}
use vomero_sandbox.Pool.Keeps.{Frame, Keeps, keeping}
use vomero_sandbox.Pool.Cluster.{poll_gone, request_delete, delete, wait_placed, create, confirm}

-- Only the world has moved.
abbrev pub Outside : {W : Type 0} → State W → State W → Type 0
Outside s t = t ≡ record s { world = t.world }

-- Only a deletion of the pod has been recorded, and the world has moved.
abbrev pub Abandoned : {W : Type 0} → Text → State W → State W → Type 0
Abandoned name s t = t ≡ record s { events = Event.deleted name ∷ s.events; world = t.world }

pub Outside-frame : {W : Type 0} → Frame (Outside {W = W})
Outside-frame = record { same = λ s. refl; trans = λ s t u e f. ground arith; out = λ s w. refl }

module _ {W : Type 0} (h : Host W) (c : SandboxConfig) where
  pub poll_gone-Outside :
      (fuel : ℕ) (deadline : ℤ) (name : Text) → Keeps Outside (poll_gone h c fuel deadline name)
  unfolding poll_gone
  poll_gone-Outside zero deadline name = search (keeping, Outside-frame)
  poll_gone-Outside (suc fuel) deadline name =
      let ih = poll_gone-Outside fuel deadline name in search (keeping, Outside-frame) depth 12

  pub request_delete-Outside : (name : Text) → Keeps Outside (request_delete h c name)
  unfolding request_delete
  request_delete-Outside name =
      let poll = poll_gone-Outside in search (keeping, poll, Outside-frame) depth 12

  -- A deletion is recorded, and moves nothing else of the pool.
  pub delete-events :
      (name : Text) (s : State W)
      → (delete h c name s).1
        ≡ record s { events = Event.deleted name ∷ s.events; world = (delete h c name s).1.world }
  unfolding delete ◌>>=◌
  delete-events name s =
      (request_delete-Outside name).after (record s { events = Event.deleted name ∷ s.events })

  pub wait_placed-Outside : (name : Text) → Keeps Outside (wait_placed h c name)
  unfolding wait_placed
  wait_placed-Outside name = search (keeping, Outside-frame)

  -- A creation is recorded exactly if it succeeded.
  pub create-cases :
      (name : Text) (s : State W)
      → let (r, t) = create h c name s in
        ((r ≡ ok true) × (t ≡ record s { events = Event.created name ∷ s.events; world = t.world }))
        ⊎ ((r ≢ ok true) × Outside s t)
  unfolding create ◌>>=◌ try_except
  create-cases name s = ground arith

  handle-cases :
      (name : Text) (s : State W) (r : Outcome Bool) (t : State W)
      → Outside s t
      → let (q, u) = handle is_exception (λ e. delete h c name >> throw e) r t in
        ((b : Bool) × (q ≡ ok b) × Outside s u)
        ⊎ ((succeeded q ≡ false) × Abandoned name s u)
        ⊎ ((e : Exc) × (q ≡ raise e) × (is_exception e ≡ false) × Outside s u)
  unfolding ◌>>=◌
  handle-cases name s (ok b) t o = inl (b, refl, o)
  handle-cases name s (raise e) t o = elim (Bool-cases (is_exception e)) [
    | inl y ↦ inr (inl (ground (arith, delete-events name t)))
    | inr n ↦ inr (inr (e, rw n refl, n, rw n o))
  ]

  pub confirm-cases :
      (name : Text) (s : State W)
      → let (q, u) = confirm h c name s in
        ((b : Bool) × (q ≡ ok b) × Outside s u)
        ⊎ ((succeeded q ≡ false) × Abandoned name s u)
        ⊎ ((e : Exc) × (q ≡ raise e) × (is_exception e ≡ false) × Outside s u)
  unfolding confirm try_except
  confirm-cases name s =
      handle-cases name s (wait_placed h c name s).0 (wait_placed h c name s).1
        ((wait_placed-Outside name).after s)
