-- ===== src/System/Usable.antt =====
-- The uses of the free workers, under the moves of the abstract view.
use vomero_sandbox.Common.{
  ℕ, ◌≡◌, subst, false, List, [], ◌∷◌, ◌++◌, pos, leb_ℤ, All, All-append, arith,
}
use vomero_sandbox.Config.{SandboxConfig}
use vomero_sandbox.Pool.State.{Worker, Task}
use vomero_sandbox.Pool.Lifecycle.Warming.{Named}
use vomero_sandbox.System.Moves.{Shape, Move, IsUsable, IsFit}

pub record Usable (c : SandboxConfig) (a : Shape) : Type 0 where
  pub free : All (IsUsable c) a.free
  pub tasks : All (IsFit c) a.tasks

All-middle :
    {A : Type 0} (P : A → Type 0) (xs : List A) (x : A) (ys : List A)
    → All P (xs ++ x ∷ ys)
    → P x × All P (xs ++ ys)
All-middle P [] x ys h = h
All-middle P (y ∷ xs) x ys h = let (px, rest) = All-middle P xs x ys h.1 in (px, (h.0, rest))

All-remove :
    {A : Type 0} (P : A → Type 0) (l xs : List A) (x : A) (ys : List A)
    → l ≡ xs ++ x ∷ ys
    → All P l
    → P x × All P (xs ++ ys)
All-remove P l xs x ys e h = All-middle P xs x ys (subst (All P) e h)

module _ (c : SandboxConfig) (positive : leb_ℤ c.max_uses (pos 0) ≡ false) where
  Named-IsUsable : (lo : ℕ) (ws : List Worker) (hi : ℕ) → Named c lo ws hi → All (IsUsable c) ws
  Named-IsUsable lo [] hi n = tt
  Named-IsUsable lo (w ∷ ws) hi (k, a, name, uses, rest) =
      (rw uses positive, Named-IsUsable k ws hi rest)

  pub Move-Usable : (a b : Shape) → Move c a b → Usable c a → Usable c b
  Move-Usable a b (Move.stay k l e) i = ground arith
  Move-Usable a b (Move.warm ws k f l n e) i =
      ground (arith, All-append (IsUsable c) a.free ws i.free (Named-IsUsable a.serial ws k n))
  Move-Usable a b (Move.take w rest f e) i =
      ground (arith, All-remove (IsUsable c) a.free [] w rest f i.free)
  Move-Usable a b (Move.drop w rest f e) i =
      ground (arith, All-remove (IsUsable c) a.free [] w rest f i.free)
  Move-Usable a b (Move.queue xs w ys k f n u e) i =
      ground (arith, All-append (IsFit c) a.tasks (k ∷ []) i.tasks (u, tt))
  Move-Usable a b (Move.put xs w v ys f n u e) i =
      ground (arith, All-append (IsUsable c) a.free (v ∷ []) i.free (u, tt))
  Move-Usable a b (Move.wiped xs w ys f e) i =
      let (u, rest) = All-remove (IsFit c) a.tasks xs (Task.cleaning w) ys f i.tasks in
      ground (arith, All-append (IsUsable c) a.free (w ∷ []) i.free (u, tt))
  Move-Usable a b (Move.dirty xs w ys f e) i =
      let (u, rest) = All-remove (IsFit c) a.tasks xs (Task.cleaning w) ys f i.tasks in
      ground (arith, All-append (IsFit c) (xs ++ ys) (Task.replacing w ∷ []) rest (tt, tt))
  Move-Usable a b (Move.gone xs k ys f e) i =
      ground (arith, All-remove (IsFit c) a.tasks xs k ys f i.tasks)
  Move-Usable a b (Move.retry xs k ys th f e) i =
      ground (arith, All-remove (IsFit c) a.tasks xs k ys f i.tasks)
  Move-Usable a b (Move.go_on xs th ys th' k f l e) i = ground arith
  Move-Usable a b (Move.give_up xs th ys k f l e) i = ground arith
  Move-Usable a b (Move.hire xs th ys w k f l n u e) i =
      ground (arith, All-append (IsUsable c) a.free (w ∷ []) i.free (rw u positive, tt))
