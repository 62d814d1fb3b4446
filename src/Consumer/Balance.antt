-- ===== src/Consumer/Balance.antt =====
-- Each message is acknowledged once, and `join` waits for all of them.
use vomero_sandbox.Common.{
  ℕ, zero, suc, ◌+◌, ◌≡◌, ◌≤◌, ◌<◌, refl, ap, ◌⊎◌, Bool, true, false, some, List, [], ◌∷◌, ◌++◌,
  if◌then◌else◌, arith,
}
use vomero_sandbox.Errors.{Outcome, ok, raise}
use vomero_sandbox.Config.{SandboxConfig}
use vomero_sandbox.Host.{Host}
use vomero_sandbox.Common.{Text}
use vomero_sandbox.Projects.{Node}
use vomero_sandbox.Pool.State.{State}
use vomero_sandbox.Consumer.{
  Message, Broker, put, get, head_of, task_done, Phase, waiting, busy, handled, next_phase, Service,
  serve_message, Move, takes, handles, acknowledges, Step, moves, publishes, elsewhere, Reach,
  here_is, next, idle, launched,
}

-- How many messages of a list pass a test.
abbrev pub tally : (Message → Bool) → List Message → ℕ
tally p [] = 0
tally p (m ∷ ms) = (if p m then 1 else 0) + tally p ms

-- How many consumers have a message in hand that passes it.
abbrev pub held : (Message → Bool) → List Phase → ℕ
held p [] = 0
held p (Phase.busy m ∷ cs) = (if p m then 1 else 0) + held p cs
held p (Phase.handled m _ ∷ cs) = (if p m then 1 else 0) + held p cs
held p (_ ∷ cs) = held p cs

abbrev pub any_message : Message → Bool
any_message _ = true

pub tally-append :
    (p : Message → Bool) (xs ys : List Message) → tally p (xs ++ ys) ≡ tally p xs + tally p ys
tally-append p [] ys = omega arith
tally-append p (x ∷ xs) ys = omega (arith, tally-append p xs ys)

pub held-append :
    (p : Message → Bool) (xs ys : List Phase) → held p (xs ++ ys) ≡ held p xs + held p ys
held-append p [] ys = omega arith
held-append p (Phase.waiting ∷ xs) ys = held-append p xs ys
held-append p (Phase.over ∷ xs) ys = held-append p xs ys
held-append p (Phase.busy m ∷ xs) ys = omega (arith, held-append p xs ys)
held-append p (Phase.handled m r ∷ xs) ys = omega (arith, held-append p xs ys)

-- A consumer goes from one phase to another.
held-change :
    (p : Message → Bool) (xs : List Phase) (a b : Phase) (ys : List Phase)
    → held p (xs ++ a ∷ ys) + held p (b ∷ []) ≡ held p (xs ++ b ∷ ys) + held p (a ∷ [])
held-change p xs a b ys = omega (
  arith,
  held-append p xs (a ∷ ys),
  held-append p xs (b ∷ ys),
  held-append p (a ∷ []) ys,
  held-append p (b ∷ []) ys,
)

pub get-some :
    (b b' : Broker) (m : Message)
    → get b ≡ some (m, b')
    → (b.items ≡ m ∷ b'.items) × (b'.unfinished ≡ b.unfinished)
unfolding get
get-some b b' m e = taken b.items refl e
  where
    taken :
        (ms : List Message)
        → ms ≡ b.items
        → head_of ms b ≡ some (m, b')
        → (b.items ≡ m ∷ b'.items) × (b'.unfinished ≡ b.unfinished)
    taken [] i e = absurd (cc)
    taken (n ∷ ms) i e = ground arith

pub task_done-counts :
    (b : Broker)
    → 0 < b.unfinished
    → ((task_done b).0 ≡ ok tt)
      × ((task_done b).1.items ≡ b.items)
      × ((task_done b).1.unfinished + 1 ≡ b.unfinished)
unfolding task_done
task_done-counts b l = ground arith

held-next_phase :
    (p : Message → Bool) (r : Outcome Bool) (d : Outcome (Unit {0}))
    → held p (next_phase r d ∷ []) ≡ 0
unfolding next_phase
held-next_phase p (ok true) (ok _) = refl
held-next_phase p (ok true) (raise e) = refl
held-next_phase p (ok false) d = refl
held-next_phase p (raise e) d = refl

tally-le : (p : Message → Bool) (ms : List Message) → tally p ms ≤ tally any_message ms
tally-le p [] = omega arith
tally-le p (m ∷ ms) = ground (arith, tally-le p ms)

held-le : (p : Message → Bool) (cs : List Phase) → held p cs ≤ held any_message cs
held-le p [] = omega arith
held-le p (Phase.waiting ∷ cs) = held-le p cs
held-le p (Phase.over ∷ cs) = held-le p cs
held-le p (Phase.busy m ∷ cs) = ground (arith, held-le p cs)
held-le p (Phase.handled m r ∷ cs) = ground (arith, held-le p cs)

pub none_left : (ms : List Message) → tally any_message ms ≡ 0 → ms ≡ []
none_left [] e = refl
none_left (m ∷ ms) e = absurd (omega arith)

-- Every message that was put is finished, on the queue, or in the hands of a consumer; the last two
-- are those that the queue counts.
pub record IsBalanced {W : Type 0} (s : Service W) : Type 0 where
  pub counted :
      s.broker.unfinished ≡ tally any_message s.broker.items + held any_message s.consumers
  pub kept :
      (p : Message → Bool)
      → tally p s.published ≡ tally p s.finished + (tally p s.broker.items + held p s.consumers)

pub put-IsBalanced :
    {W : Type 0} (s : Service W) (m : Message)
    → IsBalanced s
    → IsBalanced (record s { broker = put m s.broker; published = m ∷ s.published })
unfolding put
put-IsBalanced s m inv = record {
  counted = omega (arith, inv.counted, tally-append any_message s.broker.items (m ∷ []));
  kept = λ p. omega (arith, inv.kept p, tally-append p s.broker.items (m ∷ []));
}

module _ {W : Type 0} {h : Host W} {c : SandboxConfig} {here : Text} {host : Text → Node} where
  Move-IsBalanced : {s t : Service W} → Move h c here host s t → IsBalanced s → IsBalanced t
  Move-IsBalanced {s} (takes xs ys m b at got e) inv =
      let (items, same) = get-some s.broker b m got in
      rw e (record {
        counted = omega (
          arith,
          inv.counted,
          same,
          ap (tally any_message) items,
          ap (held any_message) at,
          held-change any_message xs waiting (busy m) ys,
        );
        kept = λ p. omega (
          arith,
          inv.kept p,
          ap (tally p) items,
          ap (held p) at,
          held-change p xs waiting (busy m) ys,
        );
      })
  Move-IsBalanced {s} (handles xs m ys at free e) inv =
      let r = (serve_message h c here host m s.pool).0 in
      rw e (record {
        counted = omega (
          arith,
          inv.counted,
          ap (held any_message) at,
          held-change any_message xs (busy m) (handled m r) ys,
        );
        kept = λ p.
            omega (arith, inv.kept p, ap (held p) at, held-change p xs (busy m) (handled m r) ys);
      })
  Move-IsBalanced {s} (acknowledges xs m r ys at e) inv =
      let after = next_phase r (task_done s.broker).0 in
      let pending : 0 < s.broker.unfinished = omega (
        arith,
        inv.counted,
        ap (held any_message) at,
        held-append any_message xs (handled m r ∷ ys),
      ) in
      let (fine, items, less) = task_done-counts s.broker pending in
      rw e (record {
        counted = omega (
          arith,
          inv.counted,
          less,
          ap (tally any_message) items,
          ap (held any_message) at,
          held-change any_message xs (handled m r) after ys,
          held-next_phase any_message r (task_done s.broker).0,
        );
        kept = λ p. omega (
          arith,
          inv.kept p,
          ap (tally p) items,
          ap (held p) at,
          held-change p xs (handled m r) after ys,
          held-next_phase p r (task_done s.broker).0,
        );
      })

  pub Step-IsBalanced : {s t : Service W} → Step h c here host s t → IsBalanced s → IsBalanced t
  Step-IsBalanced (moves mv) inv = Move-IsBalanced mv inv
  Step-IsBalanced {s} (publishes m e) inv = rw e (put-IsBalanced s m inv)
  Step-IsBalanced (elsewhere u v o st e) inv =
      rw e (record { counted = inv.counted; kept = inv.kept })

held-idle : (p : Message → Bool) (n : ℕ) → held p (idle n) ≡ 0
held-idle p zero = refl
held-idle p (suc n) = held-idle p n

module _ {W : Type 0} (h : Host W) (c : SandboxConfig) (here : Text) (host : Text → Node) where
  pub Reach-IsBalanced :
      (n : ℕ) (p : State W) {s : Service W} → Reach h c here host (launched n p) s → IsBalanced s
  unfolding launched
  Reach-IsBalanced n p here_is = record {
    counted = omega (arith, held-idle any_message n);
    kept = λ q. omega (arith, held-idle q n);
  }
  Reach-IsBalanced n p (next r st) = Step-IsBalanced st (Reach-IsBalanced n p r)

  -- In every state that the consumers, the producer and the pool can reach, in any order: each
  -- message that was put is on the queue, in the hands of one consumer, or acknowledged, and as
  -- often as it was put; and a consumer with a message can acknowledge it, as the queue's count is
  -- not exhausted.
  pub delivered_once :
      (n : ℕ) (p : State W) {s : Service W}
      → Reach h c here host (launched n p) s
      → ((q : Message → Bool)
          → tally q s.published
            ≡ tally q s.finished + (tally q s.broker.items + held q s.consumers))
        × ((held any_message s.consumers ≡ 0) ⊎ ((task_done s.broker).0 ≡ ok tt))
  unfolding task_done
  delivered_once n p {s} r =
      let inv = Reach-IsBalanced n p r in (inv.kept, ground (arith, inv.counted))

  -- When `join` can return, every message that was put is acknowledged, as often as it was put,
  -- none is on the queue, and no consumer has one in hand.
  pub join_returns :
      (n : ℕ) (p : State W) {s : Service W}
      → Reach h c here host (launched n p) s
      → s.broker.unfinished ≡ 0
      → ((q : Message → Bool) → tally q s.published ≡ tally q s.finished)
        × (s.broker.items ≡ [])
        × (held any_message s.consumers ≡ 0)
  join_returns n p {s} r z =
      let inv = Reach-IsBalanced n p r in
      (
        (λ q.
            omega
              (arith, inv.kept q, inv.counted, tally-le q s.broker.items, held-le q s.consumers)),
        none_left s.broker.items (omega (arith, inv.counted)),
        omega (arith, inv.counted),
      )
