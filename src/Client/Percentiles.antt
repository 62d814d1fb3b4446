-- ===== src/Client/Percentiles.antt =====
-- What the reported percentiles say of the latencies.
use vomero_sandbox.Common.{
  ℕ, zero, suc, ◌+◌, ◌-◌, ◌*◌, ◌/◌, ◌≡◌, ◌≤◌, ◌<◌, ◌⊎◌, inl, inr, refl, sym, ap, ◌∙◌, Bool, true,
  List, [], ◌∷◌, ℤ, ◌≤ℤ◌, ltb_ℤ, leb_ℤ, leb, length, All, Bool-cases, if◌then◌else◌, arith,
}
use native.Mathlib.Nat.{mul-div-le, lt-mul-div-succ}
use vomero_sandbox.Client.{insert_time, sort_times, time_at, min, percentile}

-- How many values pass a test.
abbrev pub count : (ℤ → Bool) → List ℤ → ℕ
count p [] = 0
count p (x ∷ xs) = (if p x then 1 else 0) + count p xs

abbrev IsSorted : List ℤ → Type 0
IsSorted [] = Unit
IsSorted (x ∷ xs) = All (λ y. x ≤ℤ y) xs × IsSorted xs

count-insert_time :
    (p : ℤ → Bool) (v : ℤ) (xs : List ℤ) → count p (insert_time v xs) ≡ count p (v ∷ xs)
unfolding insert_time
count-insert_time p v [] = refl
count-insert_time p v (x ∷ xs) = elim (Bool-cases (leb_ℤ v x)) [
  | inl e ↦ rw e refl
  | inr e ↦ rw e (omega (arith, count-insert_time p v xs))
]

count-sort_times : (p : ℤ → Bool) (xs : List ℤ) → count p (sort_times xs) ≡ count p xs
unfolding sort_times
count-sort_times p [] = refl
count-sort_times p (x ∷ xs) =
    omega (arith, count-insert_time p x (sort_times xs), count-sort_times p xs)

length-count : (xs : List ℤ) → count (λ _. true) xs ≡ length xs
length-count [] = refl
length-count (x ∷ xs) = omega (arith, length-count xs)

length-sort_times : (xs : List ℤ) → length (sort_times xs) ≡ length xs
length-sort_times xs =
    sym (length-count (sort_times xs)) ∙ count-sort_times (λ _. true) xs ∙ length-count xs

All-insert_time :
    (b v : ℤ) (xs : List ℤ) → b ≤ℤ v → All (λ y. b ≤ℤ y) xs → All (λ y. b ≤ℤ y) (insert_time v xs)
unfolding insert_time
All-insert_time b v [] l a = (l, tt)
All-insert_time b v (x ∷ xs) l a = elim (Bool-cases (leb_ℤ v x)) [
  | inl e ↦ rw e (l, a)
  | inr e ↦ rw e (a.0, All-insert_time b v xs l a.1)
]

All-from : (v x : ℤ) (xs : List ℤ) → v ≤ℤ x → All (λ y. x ≤ℤ y) xs → All (λ y. v ≤ℤ y) xs
All-from v x [] l a = tt
All-from v x (y ∷ ys) l (b, a) = (omega arith, All-from v x ys l a)

insert_time-IsSorted : (v : ℤ) (xs : List ℤ) → IsSorted xs → IsSorted (insert_time v xs)
unfolding insert_time
insert_time-IsSorted v [] s = (tt, tt)
insert_time-IsSorted v (x ∷ xs) (a, s) = elim (Bool-cases (leb_ℤ v x)) [
  | inl e ↦ let l : v ≤ℤ x = ground arith in rw e ((l, All-from v x xs l a), (a, s))
  | inr e ↦
      let l : x ≤ℤ v = ground arith in
      rw e (All-insert_time x v xs l a, insert_time-IsSorted v xs s)
]

sort_times-IsSorted : (xs : List ℤ) → IsSorted (sort_times xs)
unfolding sort_times
sort_times-IsSorted [] = tt
sort_times-IsSorted (x ∷ xs) = insert_time-IsSorted x (sort_times xs) (sort_times-IsSorted xs)

none_below : (v : ℤ) (xs : List ℤ) → All (λ y. v ≤ℤ y) xs → count (λ x. ltb_ℤ x v) xs ≡ 0
none_below v [] a = refl
none_below v (x ∷ xs) (l, a) = ground (arith, none_below v xs a)

at_least : (v : ℤ) (xs : List ℤ) (i : ℕ) → All (λ y. v ≤ℤ y) xs → i < length xs → v ≤ℤ time_at xs i
at_least v [] i a l = absurd (omega arith)
at_least v (x ∷ xs) zero a l = a.0
at_least v (x ∷ xs) (suc i) a l = at_least v xs i a.1 (omega arith)

-- The rank of the value at a place of a sorted list.
below :
    (xs : List ℤ) (i : ℕ) → IsSorted xs → i < length xs → count (λ x. ltb_ℤ x (time_at xs i)) xs ≤ i
below [] i s l = absurd (omega arith)
below (x ∷ xs) zero s l = ground (arith, none_below x xs s.0)
below (x ∷ xs) (suc i) s l = ground (arith, below xs i s.1 (omega arith))

up_to :
    (xs : List ℤ) (i : ℕ) → IsSorted xs → i < length xs → i < count (λ x. leb_ℤ x (time_at xs i)) xs
up_to [] i s l = absurd (omega arith)
up_to (x ∷ xs) zero s l = ground arith
up_to (x ∷ xs) (suc i) s l =
    ground (arith, up_to xs i s.1 (omega arith), at_least x xs i s.0 (omega arith))

scaled_low : (den d a lower : ℕ) → den * d ≤ a → lower ≤ d → lower * den ≤ a
scaled_low den d a lower e l = grind arith

scaled_high : (den d a upper : ℕ) → a < den * (d + 1) → d < upper → a < den * upper
scaled_high den d a upper e l = grind arith

ranked :
    (num den n i lower upper : ℕ)
    → 0 < den
    → i ≡ min (n - 1) (num * n / den)
    → lower ≤ i
    → i < upper
    → upper ≤ n
    → (lower * den ≤ num * n) × ((num * n < den * upper) ⊎ (upper ≡ n))
ranked num den n i lower upper pos_den at l u m =
    let d = num * n / den in
    let low : den * d ≤ num * n = mul-div-le (num * n) den in
    elim (Bool-cases (leb (n - 1) d)) [
      | inl e ↦
          let last : i ≡ n - 1 = ground arith in
          (scaled_low den d (num * n) lower low (ground arith), inr (omega arith))
      | inr e ↦
          let found : i ≡ d = ground arith in
          (
            scaled_low den d (num * n) lower low (omega arith),
            inl (
                scaled_high den d (num * n) upper (lt-mul-div-succ (num * n) pos_den)
                  (omega arith)),
          )
    ]

count-le : (p : ℤ → Bool) (xs : List ℤ) → count p xs ≤ length xs
count-le p [] = omega arith
count-le p (x ∷ xs) = ground (arith, count-le p xs)

-- The percentile of a fraction that is reported of some latencies: the share of the latencies below
-- it is at most the fraction, and the share of those up to it is more, or all.
pub percentile_rank :
    (ls : List ℤ) (num den : ℕ)
    → 0 < length ls
    → 0 < den
    → let v = percentile (sort_times ls) num den in
      (count (λ x. ltb_ℤ x v) ls * den ≤ num * length ls)
      × ((num * length ls < den * count (λ x. leb_ℤ x v) ls)
          ⊎ (count (λ x. leb_ℤ x v) ls ≡ length ls))
unfolding percentile
percentile_rank ls num den filled pos_den =
    let xs = sort_times ls in
    let size : length xs ≡ length ls = length-sort_times ls in
    let i = min (length xs - 1) (num * length xs / den) in
    let v = time_at xs i in
    let inside : i < length xs = ground arith in
    let sorted = sort_times-IsSorted ls in
    ranked num den (length ls) i (count (λ x. ltb_ℤ x v) ls) (count (λ x. leb_ℤ x v) ls) pos_den
      (ap (λ n. min (n - 1) (num * n / den)) size)
      (omega (arith, below xs i sorted inside, count-sort_times (λ x. ltb_ℤ x v) ls))
      (omega (arith, up_to xs i sorted inside, count-sort_times (λ x. leb_ℤ x v) ls))
      (count-le (λ x. leb_ℤ x v) ls)
