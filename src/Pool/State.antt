-- ===== src/Pool/State.antt =====
-- The pool's mutable state, its workers, the threads that it has started, and the monad of its
-- methods: state and exceptions, where what was written stays written after a raise.
use vomero_sandbox.Common.{
  ℕ, Bool, true, false, Option, List, [], ◌∷◌, ◌++◌, ℤ, Text, text_eq, if◌then◌else◌,
}
use vomero_sandbox.Errors.{Exc, Outcome, ok, raise}
use vomero_sandbox.Models.{PoolStartReport}

-- `class _Worker`
pub record Worker : Type 0 where
  pub name : Text
  pub created_at : ℤ
  pub uses : ℕ
  pub api_client : Option ℕ

-- A daemon thread that was started and has not run yet, by its target.
pub data Task : Type 0 where
  replacing cleaning : Worker → Task

-- The requests that create and delete pods, which no code of the library reads: a ghost, newest
-- first. A creation is recorded when it succeeds, a deletion when it is asked for.
pub data Event : Type 0 where
  created deleted : Text → Event

-- `free` is the queue of free workers, its head the next to be taken.
pub record State (W : Type 0) : Type 0 where
  pub free : List Worker
  pub serial : ℕ
  pub spawned : ℕ
  pub retired : ℕ
  pub started : Bool
  pub closed : Bool
  pub start_report : Option PoolStartReport
  pub cleanup_installed : Bool
  pub tasks : List Task
  pub events : List Event
  pub world : W

abbrev pub M : Type 0 → Type 0 → Type 0
M W A = State W → Outcome A × State W

module _ {W : Type 0} {A : Type 0} where
  unfoldable pub pure : A → M W A
  pure a s = (ok a, s)

  unfoldable pub throw : Exc → M W A
  throw e s = (raise e, s)

  unfoldable pub gets : (State W → A) → M W A
  gets f s = (ok (f s), s)

  -- A call of the world outside.
  unfoldable pub call : (W → Outcome A × W) → M W A
  call f s = let (r, w) = f s.world in (r, record s { world = w })

  unfoldable pub call_pure : (W → A × W) → M W A
  call_pure f s = let (a, w) = f s.world in (ok a, record s { world = w })

  -- A result that needs no state.
  unfoldable pub lift : Outcome A → M W A
  lift r s = (r, s)

module _ {W : Type 0} where
  unfoldable pub modify : (State W → State W) → M W (Unit {0})
  modify f s = (ok tt, f s)

  unfoldable pub call_world : (W → W) → M W (Unit {0})
  call_world f s = (ok tt, record s { world = f s.world })

  -- `threading.Thread(target=..., daemon=True).start()`
  unfoldable pub start_thread : Task → M W (Unit {0})
  start_thread t s = (ok tt, record s { tasks = s.tasks ++ t ∷ [] })

  -- `self._free.put(worker)`
  unfoldable pub put_free : Worker → M W (Unit {0})
  put_free w s = (ok tt, record s { free = s.free ++ w ∷ [] })

  unfoldable pub note : Event → M W (Unit {0})
  note e s = (ok tt, record s { events = e ∷ s.events })

  abbrev pub then_with : {A B : Type 0} → (A → M W B) → Outcome A → State W → Outcome B × State W
  then_with f (ok a) s = f a s
  then_with f (raise e) s = (raise e, s)

  -- Opening this opens all that the methods are built of.
  infixl 5 ◌>>=◌ ◌>>◌
  unfoldable pub ◌>>=◌ : {A B : Type 0} → M W A → (A → M W B) → M W B
  unfolding pure throw gets call call_pure lift call_world modify start_thread put_free note
  ◌>>=◌ m f s = let (r, t) = m s in then_with f r t

  abbrev pub ◌>>◌ : {A B : Type 0} → M W A → M W B → M W B
  m >> k = m >>= λ _. k

  abbrev pub handle :
      {A : Type 0} → (Exc → Bool) → (Exc → M W A) → Outcome A → State W → Outcome A × State W
  handle caught h (ok a) s = (ok a, s)
  handle caught h (raise e) s = if caught e then h e s else (raise e, s)

  -- `try: m` with `except` for the exceptions that pass the test.
  unfoldable pub try_except : {A : Type 0} → M W A → (Exc → Bool) → (Exc → M W A) → M W A
  try_except m caught h s = let (r, t) = m s in handle caught h r t

  -- How `m` ends, as a value: for code that goes on after any end.
  unfoldable pub capture : {A : Type 0} → M W A → M W (Outcome A)
  capture m s = let (r, t) = m s in (ok r, t)

  -- `try: m finally: k`
  unfoldable pub try_finally : {A : Type 0} → M W A → M W (Unit {0}) → M W A
  try_finally m k s = let (r, t) = m s in let (q, u) = k t in then_with (λ _ v. (r, v)) q u

-- Whether a pod that was created under the name has not been asked to be deleted since.
unfoldable pub outstanding : Text → List Event → Bool
outstanding n [] = false
outstanding n (Event.created m ∷ es) = if text_eq m n then true else outstanding n es
outstanding n (Event.deleted m ∷ es) = if text_eq m n then false else outstanding n es
