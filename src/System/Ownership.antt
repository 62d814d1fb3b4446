-- ===== src/System/Ownership.antt =====
-- The places of a name and the number of workers, under the moves of the abstract view.
use vomero_sandbox.Common.{
  ℕ, suc, ◌+◌, ◌≤◌, ◌<◌, ◌≡◌, ◌⊎◌, inl, inr, false, List, [], ◌∷◌, ◌++◌, Text, length,
  length-append, arith,
}
use vomero_sandbox.Config.{SandboxConfig}
use vomero_sandbox.Pool.State.{Task}
use vomero_sandbox.Pool.Cluster.{worker_name}
use vomero_sandbox.Pool.Lifecycle.{rounds}
use vomero_sandbox.System.Count.{
  count, count_tasks, count-append, count_tasks-append, count-Named, Named-le,
  worker_name-injective, count-Named_cases, named_cases, named_same, count-split, count_tasks-split,
  Named-le, worker_name-injective, count-Named_cases, named_cases, named_same, count-split,
  count_tasks-split,
}
use vomero_sandbox.System.Moves.{Shape, Move}

abbrev pub occurrences : Text → Shape → ℕ
occurrences n a = count n a.free + count n a.held + count_tasks n a.tasks

abbrev pub population : Shape → ℕ
population a = length a.free + length a.held + length a.tasks + length a.threads

-- The number of workers and of threads that owe one stays within what was placed.
pub record Bounded (c : SandboxConfig) (a : Shape) : Type 0 where
  pub within : population a ≤ a.limit
  pub limited : a.limit ≤ rounds c.pool_size
  pub unstarted : a.started ≡ false → a.limit ≡ 0

length-split :
    {A : Type 0} (l xs : List A) (x : A) (ys : List A)
    → l ≡ xs ++ x ∷ ys
    → length l ≡ suc (length (xs ++ ys))
length-split l xs x ys e = rw e (omega (arith, length-append xs (x ∷ ys), length-append xs ys))

pub Move-Bounded : (c : SandboxConfig) (a b : Shape) → Move c a b → Bounded c a → Bounded c b
Move-Bounded c a b (Move.stay k l e) i = ground arith
Move-Bounded c a b (Move.warm ws k f l n e) i = ground (arith, length-append a.free ws)
Move-Bounded c a b (Move.take w rest f e) i = ground arith
Move-Bounded c a b (Move.drop w rest f e) i = ground arith
Move-Bounded c a b (Move.queue xs w ys k f n u e) i =
    ground (arith, length-split a.held xs w ys f, length-append a.tasks (k ∷ []))
Move-Bounded c a b (Move.put xs w v ys f n u e) i =
    ground (arith, length-split a.held xs w ys f, length-append a.free (v ∷ []))
Move-Bounded c a b (Move.wiped xs w ys f e) i =
    ground (arith, length-split a.tasks xs _ ys f, length-append a.free (w ∷ []))
Move-Bounded c a b (Move.dirty xs w ys f e) i =
    ground (arith, length-split a.tasks xs _ ys f, length-append (xs ++ ys) (Task.replacing w ∷ []))
Move-Bounded c a b (Move.gone xs k ys f e) i = ground (arith, length-split a.tasks xs k ys f)
Move-Bounded c a b (Move.retry xs k ys th f e) i = ground (arith, length-split a.tasks xs k ys f)
Move-Bounded c a b (Move.go_on xs th ys th' k f l e) i =
    ground (arith, length-split a.threads xs th ys f)
Move-Bounded c a b (Move.give_up xs th ys k f l e) i =
    ground (arith, length-split a.threads xs th ys f)
Move-Bounded c a b (Move.hire xs th ys w k f l n u e) i =
    ground (arith, length-split a.threads xs th ys f, length-append a.free (w ∷ []))

-- The name of a worker stands in one place at most, and no name stands anywhere before its number
-- has been given out.
pub record Apart (c : SandboxConfig) (a : Shape) : Type 0 where
  pub once : (n : Text) → occurrences n a ≤ 1
  pub issued : (k : ℕ) → a.serial < k → occurrences (worker_name c k) a ≡ 0

-- By how much a move adds to the occurrences of a name: not at all, unless it brings new workers.
abbrev Adds : SandboxConfig → Shape → Shape → Text → Type 0
Adds c a b n =
    (occurrences n b ≤ occurrences n a)
    ⊎ ((j : ℕ) × (a.serial < j)
        × (j ≤ b.serial)
        × (n ≡ worker_name c j)
        × (occurrences n b ≤ occurrences n a + 1))

Move-Adds : (c : SandboxConfig) (a b : Shape) (n : Text) → Move c a b → Adds c a b n
Move-Adds c a b n (Move.stay k l e) = inl (ground arith)
Move-Adds c a b n (Move.warm ws k f l m e) = elim (count-Named_cases c a.serial ws k n m) [
  | inl z ↦ inl (ground (arith, count-append n a.free ws, z))
  | inr (j, lo, hi, name) ↦ inr (
    j,
    lo,
    ground arith,
    name,
    ground (arith, count-append n a.free ws, count-Named c a.serial ws k n m),
  )
]
Move-Adds c a b n (Move.take w rest f e) = inl (ground arith)
Move-Adds c a b n (Move.drop w rest f e) = inl (ground arith)
Move-Adds c a b n (Move.queue xs w ys k f m u e) = inl (
    ground (
      arith,
      count-split n a.held xs w ys f,
      count_tasks-append n a.tasks (k ∷ []),
      named_same n _ _ m,
    ))
Move-Adds c a b n (Move.put xs w v ys f m u e) = inl (
    ground
      (arith, count-split n a.held xs w ys f, count-append n a.free (v ∷ []), named_same n _ _ m))
Move-Adds c a b n (Move.wiped xs w ys f e) =
    inl (ground (arith, count_tasks-split n a.tasks xs _ ys f, count-append n a.free (w ∷ [])))
Move-Adds c a b n (Move.dirty xs w ys f e) = inl (
    ground (
      arith,
      count_tasks-split n a.tasks xs _ ys f,
      count_tasks-append n (xs ++ ys) (Task.replacing w ∷ []),
    ))
Move-Adds c a b n (Move.gone xs k ys f e) =
    inl (ground (arith, count_tasks-split n a.tasks xs k ys f))
Move-Adds c a b n (Move.retry xs k ys th f e) =
    inl (ground (arith, count_tasks-split n a.tasks xs k ys f))
Move-Adds c a b n (Move.go_on xs th ys th' k f l e) = inl (ground arith)
Move-Adds c a b n (Move.give_up xs th ys k f l e) = inl (ground arith)
Move-Adds c a b n (Move.hire xs th ys w k f l m u e) = elim (named_cases c w k n m) [
  | inl z ↦ inl (ground (arith, count-append n a.free (w ∷ []), z))
  | inr (o, name) ↦
      inr (k, l, ground arith, name, ground (arith, count-append n a.free (w ∷ []), o))
]

Move-serial : (c : SandboxConfig) (a b : Shape) → Move c a b → a.serial ≤ b.serial
Move-serial c a b (Move.stay k l e) = ground arith
Move-serial c a b (Move.warm ws k f l m e) = ground (arith, Named-le c a.serial ws k m)
Move-serial c a b (Move.go_on xs th ys th' k f l e) = ground arith
Move-serial c a b (Move.give_up xs th ys k f l e) = ground arith
Move-serial c a b (Move.hire xs th ys w k f l m u e) = ground arith
Move-serial c a b (Move.take w rest f e) = ground arith
Move-serial c a b (Move.drop w rest f e) = ground arith
Move-serial c a b (Move.queue xs w ys k f m u e) = ground arith
Move-serial c a b (Move.put xs w v ys f m u e) = ground arith
Move-serial c a b (Move.wiped xs w ys f e) = ground arith
Move-serial c a b (Move.dirty xs w ys f e) = ground arith
Move-serial c a b (Move.gone xs k ys f e) = ground arith
Move-serial c a b (Move.retry xs k ys th f e) = ground arith

pub Move-Apart : (c : SandboxConfig) (a b : Shape) → Move c a b → Apart c a → Apart c b
Move-Apart c a b m i = record {
  once = λ n. elim (Move-Adds c a b n m) [
    | inl same ↦ omega (arith, i.once n)
    | inr (j, lo, hi, name, more) ↦
        let none_yet : occurrences n a ≡ 0 = rw name (i.issued j lo) in omega (arith, none_yet)
  ];
  issued = λ k l. elim (Move-Adds c a b (worker_name c k) m) [
    | inl same ↦ omega (arith, i.issued k (omega (arith, Move-serial c a b m)))
    | inr (j, lo, hi, name, more) ↦ absurd (omega (arith, worker_name-injective c k j name))
  ];
}
