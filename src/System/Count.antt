-- ===== src/System/Count.antt =====
-- Counting a name among the workers of a place.
use vomero_sandbox.Common.{
  ℕ, ◌+◌, ◌⊎◌, ap, sym, subst, ◌∙◌, ◌≤◌, ◌<◌, ◌≡◌, refl, true, false, Bool-cases, inl, inr, List,
  [], ◌∷◌, ◌++◌, Text, text_eq, text_eq_ne, text_eq→eq, codes, decimal-injective,
  append_cancel_left, if◌then◌else◌, arith,
}
use vomero_sandbox.Config.{SandboxConfig}
use vomero_sandbox.Pool.State.{Worker, Task}
use vomero_sandbox.Pool.Cluster.{worker_name}
use vomero_sandbox.Pool.Lifecycle.Warming.{Named}

abbrev pub named : Text → Worker → ℕ
named n w = if text_eq w.name n then 1 else 0

abbrev pub count : Text → List Worker → ℕ
count n [] = 0
count n (w ∷ ws) = named n w + count n ws

-- The worker that a thread was started for.
abbrev pub worker_of : Task → Worker
worker_of (Task.replacing w) = w
worker_of (Task.cleaning w) = w

abbrev pub count_tasks : Text → List Task → ℕ
count_tasks n [] = 0
count_tasks n (k ∷ ks) = named n (worker_of k) + count_tasks n ks

pub count-append : (n : Text) (xs ys : List Worker) → count n (xs ++ ys) ≡ count n xs + count n ys
count-append n [] ys = omega arith
count-append n (x ∷ xs) ys = omega (arith, count-append n xs ys)

pub count_tasks-append :
    (n : Text) (xs ys : List Task) → count_tasks n (xs ++ ys) ≡ count_tasks n xs + count_tasks n ys
count_tasks-append n [] ys = omega arith
count_tasks-append n (x ∷ xs) ys = omega (arith, count_tasks-append n xs ys)

-- The pool numbers its workers apart.
pub worker_name-injective :
    (c : SandboxConfig) (j k : ℕ) → worker_name c j ≡ worker_name c k → j ≡ k
unfolding worker_name
worker_name-injective c j k e =
    decimal-injective j k (append_cancel_left (c.app_label ++ codes "-") e)

worker_name-apart :
    (c : SandboxConfig) (j k : ℕ) → j < k → text_eq (worker_name c j) (worker_name c k) ≡ false
worker_name-apart c j k l =
    text_eq_ne _ _ (λ e. absurd (omega (arith, worker_name-injective c j k e)))

worker_name-apart' :
    (c : SandboxConfig) (j k : ℕ) → j < k → text_eq (worker_name c k) (worker_name c j) ≡ false
worker_name-apart' c j k l =
    text_eq_ne _ _ (λ e. absurd (omega (arith, worker_name-injective c k j e)))

pub Named-le : (c : SandboxConfig) (lo : ℕ) (ws : List Worker) (hi : ℕ) → Named c lo ws hi → lo ≤ hi
Named-le c lo [] hi n = n
Named-le c lo (w ∷ ws) hi (k, a, name, uses, rest) = omega (arith, Named-le c k ws hi rest)

-- Workers of new names: none has a number outside the range, and no two have one name.
pub count-Named_above :
    (c : SandboxConfig) (lo : ℕ) (ws : List Worker) (hi k : ℕ)
    → Named c lo ws hi
    → hi < k
    → count (worker_name c k) ws ≡ 0
count-Named_above c lo [] hi k n l = refl
count-Named_above c lo (w ∷ ws) hi k (j, a, name, uses, rest) l =
    rw (name, worker_name-apart c j k (omega (arith, Named-le c j ws hi rest)))
      (omega (arith, count-Named_above c j ws hi k rest l))

pub count-Named_below :
    (c : SandboxConfig) (lo : ℕ) (ws : List Worker) (hi k : ℕ)
    → Named c lo ws hi
    → k ≤ lo
    → count (worker_name c k) ws ≡ 0
count-Named_below c lo [] hi k n l = refl
count-Named_below c lo (w ∷ ws) hi k (j, a, name, uses, rest) l =
    rw (name, worker_name-apart' c k j (omega arith))
      (omega (arith, count-Named_below c j ws hi k rest (omega arith)))

pub count-Named :
    (c : SandboxConfig) (lo : ℕ) (ws : List Worker) (hi : ℕ) (n : Text)
    → Named c lo ws hi
    → count n ws ≤ 1
count-Named c lo [] hi n h = omega arith
count-Named c lo (w ∷ ws) hi n (j, a, name, uses, rest) = elim (Bool-cases (text_eq w.name n)) [
  | inl e ↦ rw e (omega (arith, again e))
  | inr e ↦ rw e (omega (arith, count-Named c j ws hi n rest))
]
  where
    again : text_eq w.name n ≡ true → count n ws ≡ 0
    again e =
        subst (λ m. count m ws ≡ 0) (sym name ∙ text_eq→eq w.name n e)
          (count-Named_below c j ws hi j rest (omega arith))

-- A name is new, or none of the new workers has it.
pub count-Named_cases :
    (c : SandboxConfig) (lo : ℕ) (ws : List Worker) (hi : ℕ) (n : Text)
    → Named c lo ws hi
    → (count n ws ≡ 0) ⊎ ((j : ℕ) × (lo < j) × (j ≤ hi) × (n ≡ worker_name c j))
count-Named_cases c lo [] hi n h = inl refl
count-Named_cases c lo (w ∷ ws) hi n (j, a, name, uses, rest) =
    elim (Bool-cases (text_eq w.name n)) [
      | inl e ↦ inr (j, a, Named-le c j ws hi rest, sym (text_eq→eq w.name n e) ∙ name)
      | inr e ↦ elim (count-Named_cases c j ws hi n rest) [
        | inl z ↦ inl (rw e (omega (arith, z)))
        | inr (i, b, d, m) ↦ inr (i, omega arith, d, m)
      ]
    ]

pub named_cases :
    (c : SandboxConfig) (w : Worker) (k : ℕ) (n : Text)
    → w.name ≡ worker_name c k
    → (named n w ≡ 0) ⊎ ((named n w ≡ 1) × (n ≡ worker_name c k))
named_cases c w k n name = elim (Bool-cases (text_eq w.name n)) [
  | inl e ↦ inr (rw e refl, sym (text_eq→eq w.name n e) ∙ name)
  | inr e ↦ inl (rw e refl)
]

pub named_apart :
    (c : SandboxConfig) (w : Worker) (j k : ℕ)
    → w.name ≡ worker_name c j
    → j < k
    → named (worker_name c k) w ≡ 0
named_apart c w j k name l = rw (name, worker_name-apart c j k l) refl

pub named_same : (n : Text) (v w : Worker) → v.name ≡ w.name → named n v ≡ named n w
named_same n v w e = ap (λ m. if text_eq m n then 1 else 0) e

pub count-split :
    (n : Text) (l xs : List Worker) (w : Worker) (ys : List Worker)
    → l ≡ xs ++ w ∷ ys
    → count n l ≡ named n w + count n (xs ++ ys)
count-split n l xs w ys e = rw e (omega (arith, count-append n xs (w ∷ ys), count-append n xs ys))

pub count_tasks-split :
    (n : Text) (l xs : List Task) (k : Task) (ys : List Task)
    → l ≡ xs ++ k ∷ ys
    → count_tasks n l ≡ named n (worker_of k) + count_tasks n (xs ++ ys)
count_tasks-split n l xs k ys e =
    rw e (omega (arith, count_tasks-append n xs (k ∷ ys), count_tasks-append n xs ys))
