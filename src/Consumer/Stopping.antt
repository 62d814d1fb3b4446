-- ===== src/Consumer/Stopping.antt =====
-- `main` ends its consumers with a sentinel each.
use vomero_sandbox.Common.{
  ℕ, zero, suc, ◌+◌, ◌≡◌, ◌≤◌, refl, sym, ap, ◌∙◌, subst, Bool, true, false, List, [], ◌∷◌, ◌++◌,
  length, All, Text, if◌then◌else◌, arith,
}
use vomero_sandbox.Errors.{Outcome, ok, raise}
use vomero_sandbox.Config.{SandboxConfig}
use vomero_sandbox.Host.{Host}
use vomero_sandbox.Projects.{Node}
use vomero_sandbox.Pool.State.{State, pure}
use vomero_sandbox.Consumer.{
  Message, task_done, Phase, waiting, over, busy, handled, next_phase, Service, serve_message, Move,
  takes, handles, acknowledges, Step, moves, publishes, elsewhere, Reach, here_is, next, idle,
  launched,
}
use vomero_sandbox.Consumer.Balance.{tally, join_returns}

abbrev pub is_stop : Message → Bool
is_stop Message.stop = true
is_stop (Message.work _) = false

-- How many consumers have left their loop.
abbrev pub gone : List Phase → ℕ
gone [] = 0
gone (Phase.over ∷ cs) = 1 + gone cs
gone (_ ∷ cs) = gone cs

pub gone-append : (xs ys : List Phase) → gone (xs ++ ys) ≡ gone xs + gone ys
gone-append [] ys = omega arith
gone-append (Phase.waiting ∷ xs) ys = gone-append xs ys
gone-append (Phase.over ∷ xs) ys = omega (arith, gone-append xs ys)
gone-append (Phase.busy m ∷ xs) ys = gone-append xs ys
gone-append (Phase.handled m r ∷ xs) ys = gone-append xs ys

pub gone-change :
    (xs : List Phase) (a b : Phase) (ys : List Phase)
    → gone (xs ++ a ∷ ys) + gone (b ∷ []) ≡ gone (xs ++ b ∷ ys) + gone (a ∷ [])
gone-change xs a b ys = omega (
  arith,
  gone-append xs (a ∷ ys),
  gone-append xs (b ∷ ys),
  gone-append (a ∷ []) ys,
  gone-append (b ∷ []) ys,
)

length-change :
    (xs : List Phase) (a b : Phase) (ys : List Phase)
    → length (xs ++ a ∷ ys) ≡ length (xs ++ b ∷ ys)
length-change [] a b ys = refl
length-change (x ∷ xs) a b ys = ap suc (length-change xs a b ys)

-- The sentinel was handled by leaving the loop.
abbrev pub IsSound : Phase → Type 0
IsSound (Phase.handled Message.stop r) = r ≡ ok false
IsSound _ = Unit

module _ (P : Phase → Type 0) where
  pub All-at : (xs : List Phase) (a : Phase) (ys : List Phase) → All P (xs ++ a ∷ ys) → P a
  All-at [] a ys h = h.0
  All-at (x ∷ xs) a ys h = All-at xs a ys h.1

  pub All-change :
      (xs : List Phase) (a b : Phase) (ys : List Phase)
      → All P (xs ++ a ∷ ys)
      → P b
      → All P (xs ++ b ∷ ys)
  All-change [] a b ys (h, k) l = (l, k)
  All-change (x ∷ xs) a b ys (h, k) l = (h, All-change xs a b ys k l)

pub record Tracks (n : ℕ) (finished : List Message) (cs : List Phase) : Type 0 where
  pub size : length cs ≡ n
  pub stopped : tally is_stop finished ≤ gone cs
  pub sound : All IsSound cs

-- One consumer changes its phase.
changed :
    {n : ℕ} {before : List Message} {cs : List Phase} (after : List Message) (xs : List Phase)
    (a b : Phase) (ys : List Phase)
    → Tracks n before cs
    → cs ≡ xs ++ a ∷ ys
    → tally is_stop after + gone (a ∷ []) ≤ tally is_stop before + gone (b ∷ [])
    → (IsSound a → IsSound b)
    → Tracks n after (xs ++ b ∷ ys)
changed {n} {before} {cs} after xs a b ys t at less keeps =
    let all : All IsSound (xs ++ a ∷ ys) = subst (All IsSound) at t.sound in
    record {
      size = length-change xs b a ys ∙ sym (ap length at) ∙ t.size;
      stopped = omega (arith, t.stopped, ap gone at, gone-change xs a b ys);
      sound = All-change IsSound xs a b ys all (keeps (All-at IsSound xs a ys all));
    }

next_phase-stops :
    (m : Message) (r : Outcome Bool) (d : Outcome (Unit {0}))
    → IsSound (handled m r)
    → (if is_stop m then 1 else 0) ≤ gone (next_phase r d ∷ [])
unfolding next_phase
next_phase-stops Message.stop (ok true) d h = absurd (cc)
next_phase-stops Message.stop (ok false) d h = omega arith
next_phase-stops Message.stop (raise e) d h = absurd (cc)
next_phase-stops (Message.work j) r d h = omega arith

next_phase-IsSound : (r : Outcome Bool) (d : Outcome (Unit {0})) → IsSound (next_phase r d)
unfolding next_phase
next_phase-IsSound (ok true) (ok _) = tt
next_phase-IsSound (ok true) (raise e) = tt
next_phase-IsSound (ok false) d = tt
next_phase-IsSound (raise e) d = tt

idle-Tracks : (n : ℕ) → Tracks n [] (idle n)
idle-Tracks zero = record { size = refl; stopped = omega arith; sound = tt }
idle-Tracks (suc n) =
    let t = idle-Tracks n in
    record { size = ap suc t.size; stopped = omega arith; sound = (tt, t.sound) }

gone-le : (cs : List Phase) → gone cs ≤ length cs
gone-le [] = omega arith
gone-le (Phase.waiting ∷ cs) = omega (arith, gone-le cs)
gone-le (Phase.over ∷ cs) = omega (arith, gone-le cs)
gone-le (Phase.busy m ∷ cs) = omega (arith, gone-le cs)
gone-le (Phase.handled m r ∷ cs) = omega (arith, gone-le cs)

all_over : (cs : List Phase) → length cs ≤ gone cs → All (λ ph. ph ≡ over) cs
all_over [] l = tt
all_over (Phase.over ∷ cs) l = (refl, all_over cs (omega arith))
all_over (Phase.waiting ∷ cs) l = absurd (omega (arith, gone-le cs))
all_over (Phase.busy m ∷ cs) l = absurd (omega (arith, gone-le cs))
all_over (Phase.handled m r ∷ cs) l = absurd (omega (arith, gone-le cs))

module _ {W : Type 0} (h : Host W) (c : SandboxConfig) (here : Text) (host : Text → Node) where
  serve-IsSound :
      (m : Message) (p : State W) → IsSound (handled m (serve_message h c here host m p).0)
  unfolding serve_message pure
  serve-IsSound Message.stop p = refl
  serve-IsSound (Message.work j) p = tt

  abbrev pub IsStopping : ℕ → Service W → Type 0
  IsStopping n s = Tracks n s.finished s.consumers

  Move-IsStopping :
      (n : ℕ) {s t : Service W} → Move h c here host s t → IsStopping n s → IsStopping n t
  Move-IsStopping n {s} (takes xs ys m b at got e) t =
      rw e (changed s.finished xs waiting (busy m) ys t at (omega arith) (λ _. tt))
  Move-IsStopping n {s} (handles xs m ys at free e) t =
      let (r, p) = serve_message h c here host m s.pool in
      rw e (
        changed s.finished xs (busy m) (handled m r) ys t at (omega arith)
          (λ _. serve-IsSound m s.pool))
  Move-IsStopping n {s} (acknowledges xs m r ys at e) t =
      let d = (task_done s.broker).0 in
      let was : IsSound (handled m r) =
        All-at IsSound xs (handled m r) ys (subst (All IsSound) at t.sound) in
      rw e (
        changed (m ∷ s.finished) xs (handled m r) (next_phase r d) ys t at
          (omega (arith, next_phase-stops m r d was)) (λ _. next_phase-IsSound r d))

  Step-IsStopping :
      (n : ℕ) {s t : Service W} → Step h c here host s t → IsStopping n s → IsStopping n t
  Step-IsStopping n (moves mv) t = Move-IsStopping n mv t
  Step-IsStopping n (publishes m e) t = rw e t
  Step-IsStopping n (elsewhere u v o st e) t = rw e t

  pub Reach-IsStopping :
      (n : ℕ) (p : State W) {s : Service W} → Reach h c here host (launched n p) s → IsStopping n s
  unfolding launched
  Reach-IsStopping n p here_is = idle-Tracks n
  Reach-IsStopping n p (next r st) = Step-IsStopping n st (Reach-IsStopping n p r)

  -- In every order of the steps: once as many sentinels have been put as there are consumers, and the
  -- queue counts no message as unfinished, so that `join` would return, every consumer has left its loop, so that the `join` of each thread returns.
  pub all_returned :
      (n : ℕ) (p : State W) {s : Service W}
      → Reach h c here host (launched n p) s
      → s.broker.unfinished ≡ 0
      → n ≤ tally is_stop s.published
      → All (λ ph. ph ≡ over) s.consumers
  all_returned n p {s} r z enough =
      let t = Reach-IsStopping n p r in
      let done = (join_returns h c here host n p r z).0 is_stop in
      all_over s.consumers (omega (arith, t.size, t.stopped))
