-- ===== src/Pool/Keeps.antt =====
-- Rules for the relation between the state before a method and the state after it, however the
-- method ends: a relation that is reflexive and transitive is kept by what is built of its keepers.
use vomero_sandbox.Common.{Bool, true, false, if◌then◌else◌}
use vomero_sandbox.Errors.{Exc, Outcome, ok, raise}
use vomero_sandbox.Pool.State.{
  M, State, ◌>>=◌, then_with, handle, try_except, try_finally, pure, throw, lift, gets, call,
  call_pure, call_world, capture,
}

-- A relation that a method's parts can keep one after the other; it does not look at the world.
pub record Frame {W : Type 0} (R : State W → State W → Type 0) : Type 0 where
  pub same : (s : State W) → R s s
  pub trans : (s t u : State W) → R s t → R t u → R s u
  pub out : (s : State W) (w : W) → R s (record s { world = w })

pub record Keeps {W A : Type 0} (R : State W → State W → Type 0) (m : M W A) : Type 0 where
  pub after : (s : State W) → R s (m s).1

module _ {W : Type 0} {A : Type 0} {R : State W → State W → Type 0} (p : Frame R) where
  pub pure-Keeps : (a : A) → Keeps R (pure a)
  unfolding pure
  pure-Keeps a = record { after = p.same }

  pub throw-Keeps : (e : Exc) → Keeps R (throw {A = A} e)
  unfolding throw
  throw-Keeps e = record { after = p.same }

  pub lift-Keeps : (r : Outcome A) → Keeps R (lift r)
  unfolding lift
  lift-Keeps r = record { after = p.same }

  pub gets-Keeps : (f : State W → A) → Keeps R (gets f)
  unfolding gets
  gets-Keeps f = record { after = p.same }

  pub call-Keeps : (f : W → Outcome A × W) → Keeps R (call f)
  unfolding call
  call-Keeps f = record { after = λ s. p.out s (f s.world).1 }

  pub call_pure-Keeps : (f : W → A × W) → Keeps R (call_pure f)
  unfolding call_pure
  call_pure-Keeps f = record { after = λ s. p.out s (f s.world).1 }

  pub if-Keeps : (b : Bool) (m k : M W A) → Keeps R m → Keeps R k → Keeps R (if b then m else k)
  if-Keeps true m k km kk = km
  if-Keeps false m k km kk = kk

  handle-Keeps :
      (caught : Exc → Bool) (f : Exc → M W A) (s : State W) (r : Outcome A) (t : State W)
      → ((e : Exc) → Keeps R (f e))
      → R s t
      → R s (handle caught f r t).1
  handle-Keeps caught f s (ok a) t k e = e
  handle-Keeps caught f s (raise x) t k e =
      elim (caught x) as (λ b. R s (if b then f x t else (raise x, t)).1) [
        | true ↦ p.trans s t _ e ((k x).after t)
        | false ↦ e
      ]

  pub try_except-Keeps :
      (m : M W A) (caught : Exc → Bool) (f : Exc → M W A)
      → Keeps R m
      → ((e : Exc) → Keeps R (f e))
      → Keeps R (try_except m caught f)
  unfolding try_except
  try_except-Keeps m caught f km kf = record {
    after = λ s. handle-Keeps caught f s (m s).0 (m s).1 kf (km.after s);
  }

module _ {W : Type 0} {A B : Type 0} {R : State W → State W → Type 0} (p : Frame R) where
  then_with-Keeps :
      (f : A → M W B) (s : State W) (r : Outcome A) (t : State W)
      → ((a : A) → Keeps R (f a))
      → R s t
      → R s (then_with f r t).1
  then_with-Keeps f s (ok a) t k e = p.trans s t _ e ((k a).after t)
  then_with-Keeps f s (raise x) t k e = e

  pub bind-Keeps :
      (m : M W A) (f : A → M W B) → Keeps R m → ((a : A) → Keeps R (f a)) → Keeps R (m >>= f)
  unfolding ◌>>=◌
  bind-Keeps m f km kf = record { after = λ s. then_with-Keeps f s (m s).0 (m s).1 kf (km.after s) }

module _ {W : Type 0} {R : State W → State W → Type 0} (p : Frame R) where
  pub try_finally-Keeps :
      {A : Type 0} (m : M W A) (k : M W (Unit {0}))
      → Keeps R m
      → Keeps R k
      → Keeps R (try_finally m k)
  unfolding try_finally
  try_finally-Keeps m k km kk = record {
    after = λ s.
        let t = (m s).1 in
        then_with-Keeps p (λ _ v. ((m s).0, v)) s (k t).0 (k t).1 (λ _. record { after = p.same })
          (p.trans s t _ (km.after s) (kk.after t));
  }

  pub capture-Keeps : {A : Type 0} (m : M W A) → Keeps R m → Keeps R (capture m)
  unfolding capture
  capture-Keeps m km = record { after = km.after }

  pub call_world-Keeps : (f : W → W) → Keeps R (call_world f)
  unfolding call_world
  call_world-Keeps f = record { after = λ s. p.out s (f s.world) }

pub ruleset keeping = (
  pure-Keeps, throw-Keeps, lift-Keeps, gets-Keeps, call-Keeps, call_pure-Keeps, call_world-Keeps,
  if-Keeps, bind-Keeps, try_except-Keeps, try_finally-Keeps, capture-Keeps,
)
