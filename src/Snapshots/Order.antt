-- ===== src/Snapshots/Order.antt =====
-- `sorted` on the keys of a dict: the order of str, and the sorted list of a dict's items.
use vomero_sandbox.Common.{
  IsDict, assign, ◌≤◌, ◌≡◌, ◌⊎◌, refl, sym, ap, ◌∙◌, inl, inr, true, false, List, [], ◌∷◌, ℕ, Text,
  text_eq, text_eq_ne, All, All-insert, All-sort, text_ltb, insert, sort, arith, Bool-cases,
  text_eq_refl, subst, length, ◌+◌,
}
use mathlib.Core.List.{Permᴰ}
use vomero_sandbox.Models.{Files}
use vomero_sandbox.Pool.Execution.{total_size}

pub text_ltb-asym : (s t : Text) → text_ltb s t ≡ true → text_ltb t s ≡ false
unfolding text_ltb
text_ltb-asym [] [] e = refl
text_ltb-asym [] (b ∷ t) e = refl
text_ltb-asym (a ∷ s) [] e = absurd (cc)
text_ltb-asym (a ∷ s) (b ∷ t) e = ground (arith, text_ltb-asym s t)

text_ltb-total : (s t : Text) → text_ltb s t ≡ false → text_ltb t s ≡ false → s ≡ t
unfolding text_ltb
text_ltb-total [] [] e f = refl
text_ltb-total [] (b ∷ t) e f = absurd (cc)
text_ltb-total (a ∷ s) [] e f = absurd (cc)
text_ltb-total (a ∷ s) (b ∷ t) e f = ground (arith, text_ltb-total s t)

-- What is not above `z` is below all that is above `z`.
text_ltb-between : (z x y : Text) → text_ltb z y ≡ true → text_ltb z x ≡ false → text_ltb x y ≡ true
unfolding text_ltb
text_ltb-between z x [] e f = absurd (cc)
text_ltb-between [] [] (b ∷ y) e f = refl
text_ltb-between [] (a ∷ x) (b ∷ y) e f = absurd (cc)
text_ltb-between (c ∷ z) [] (b ∷ y) e f = refl
text_ltb-between (c ∷ z) (a ∷ x) (b ∷ y) e f = ground (arith, text_ltb-between z x y)

-- Of two keys, one is below the other, and not the other way round.
apart :
    (j k : Text)
    → text_eq j k ≡ false
    → ((text_ltb j k ≡ true) × (text_ltb k j ≡ false))
      ⊎ ((text_ltb j k ≡ false) × (text_ltb k j ≡ true))
apart j k n = ground (
  arith,
  text_ltb-asym j k,
  text_ltb-total j k,
  text_eq_refl j,
  Bool-cases (text_ltb j k),
  Bool-cases (text_ltb k j),
)

insert-swap :
    (j k : Text) (v w : List ℕ) (d : Files)
    → text_eq j k ≡ false
    → insert j v (insert k w d) ≡ insert k w (insert j v d)
unfolding insert
insert-swap j k v w [] n = elim (apart j k n) [
  | inl (a, b) ↦ rw a (rw b refl)
  | inr (a, b) ↦ rw a (rw b refl)
]
insert-swap j k v w ((i, u) ∷ d) n =
    ground
      (arith, apart j k n, text_ltb-between i j k, text_ltb-between i k j, insert-swap j k v w d n)

pub text_eq_flip : (s t : Text) → text_eq s t ≡ false → text_eq t s ≡ false
text_eq_flip s t n =
    text_eq_ne t s λ e.
      let both : true ≡ false = sym (text_eq_refl t) ∙ ap (λ x. text_eq x t) e ∙ n in absurd (cc)

IsDict-insert :
    (k : Text) (v : List ℕ) (d : Files)
    → All (λ f. text_eq f.0 k ≡ false) d
    → IsDict d
    → IsDict (insert k v d)
unfolding insert
IsDict-insert k v [] n a = (tt, tt)
IsDict-insert k v ((j, w) ∷ d) (n, m) (a, b) = elim (Bool-cases (text_ltb j k)) [
  | inl e ↦ rw e (
    All-insert (λ f. text_eq f.0 j ≡ false) k v d (text_eq_flip j k n) a,
    IsDict-insert k v d m b,
  )
  | inr e ↦ rw e ((n, m), (a, b))
]

pub IsDict-sort : (d : Files) → IsDict d → IsDict (sort d)
unfolding sort
IsDict-sort [] a = tt
IsDict-sort ((k, v) ∷ d) (a, b) =
    IsDict-insert k v (sort d) (All-sort (λ f. text_eq f.0 k ≡ false) d a) (IsDict-sort d b)

All-perm : (P : Text × List ℕ → Type 0) {c d : Files} → Permᴰ c d → All P c → All P d
All-perm P Permᴰ.nil a = a
All-perm P (Permᴰ.cons e p) (x, a) = (subst P e x, All-perm P p a)
All-perm P (Permᴰ.swap e f) (x, (y, a)) = (subst P f y, (subst P e x, a))
All-perm P (Permᴰ.trans p q) a = All-perm P q (All-perm P p a)

IsDict-perm : {c d : Files} → Permᴰ c d → IsDict c → IsDict d
IsDict-perm Permᴰ.nil a = a
IsDict-perm (Permᴰ.cons {a = (j, v)} {l₂ = d} e p) (n, a) =
    subst (λ x. IsDict (x ∷ d)) e (All-perm (λ f. text_eq f.0 j ≡ false) p n, IsDict-perm p a)
IsDict-perm (Permᴰ.swap {a = a} {b = b} {b' = z} {l = d} e f) ((n, m), (o, r)) =
    subst (λ x. IsDict (x ∷ z ∷ d)) f
      (subst (λ y. IsDict (b ∷ y ∷ d)) e ((text_eq_flip b.0 a.0 n, o), (m, r)))
IsDict-perm (Permᴰ.trans p q) a = IsDict-perm q (IsDict-perm p a)

pub sort-perm : {c d : Files} → Permᴰ c d → IsDict c → sort c ≡ sort d
unfolding sort
sort-perm Permᴰ.nil a = refl
sort-perm (Permᴰ.cons {a = a} {l₁ = c} {l₂ = d} e p) (n, q) =
    subst (λ x. insert a.0 a.1 (sort c) ≡ insert x.0 x.1 (sort d)) e
      (ap (insert a.0 a.1) (sort-perm p q))
sort-perm (Permᴰ.swap {a = a} {b = b} {b' = z} {l = d} e f) ((n, m), (o, r)) =
    let left = insert a.0 a.1 (insert b.0 b.1 (sort d)) in
    subst (λ x. left ≡ insert x.0 x.1 (insert z.0 z.1 (sort d))) f
      (subst (λ y. left ≡ insert b.0 b.1 (insert y.0 y.1 (sort d))) e
        (insert-swap a.0 b.0 a.1 b.1 (sort d) (text_eq_flip b.0 a.0 n)))
sort-perm (Permᴰ.trans p q) a = sort-perm p a ∙ sort-perm q (IsDict-perm p a)

total_size-insert :
    (k : Text) (v : List ℕ) (d : Files) → total_size (insert k v d) ≡ length v + total_size d
unfolding insert total_size
total_size-insert k v [] = refl
total_size-insert k v ((j, w) ∷ d) = ground (arith, total_size-insert k v d)

pub total_size-sort : (d : Files) → total_size (sort d) ≡ total_size d
unfolding sort total_size
total_size-sort [] = refl
total_size-sort ((k, v) ∷ d) = omega (arith, total_size-insert k v (sort d), total_size-sort d)

pub total_size-assign :
    (k : Text) (v : List ℕ) (d : Files) → total_size (assign k v d) ≤ length v + total_size d
unfolding assign total_size
total_size-assign k v [] = omega arith
total_size-assign k v ((j, w) ∷ d) = ground (arith, total_size-assign k v d)
