-- ===== src/Pod/Hardening.antt =====
-- The idle watchdog of src/vomero_sandbox/_pod.py.
use vomero_sandbox.Common.{ℕ, ◌*◌, ◌/◌, ltb, Bool-cases, inl, inr, ◌≤◌, ◌≡◌, pos, arith}
use vomero_sandbox.Pod.{poll_interval}

-- The watchdog of a worker waits between one second and half a minute between its looks at the
-- processes, and at most a quarter of the idle time where that is four seconds at least.
pub poll_interval_bounds :
    (ttl : ℕ)
    → (n : ℕ) × (poll_interval (pos ttl) ≡ pos n)
      × (1_000_000_000 ≤ n)
      × (n ≤ 30_000_000_000)
      × ((4_000_000_000 ≤ ttl) → n * 4 ≤ ttl)
poll_interval_bounds ttl = elim (Bool-cases (ltb (ttl / 4) 30_000_000_000)) [
  | inl short ↦ elim (Bool-cases (ltb 1_000_000_000 (ttl / 4))) [
    | inl long ↦ (ttl / 4, ground arith, ground arith, ground arith, λ _. omega arith)
    | inr tiny ↦ (1_000_000_000, ground arith, omega arith, omega arith, λ l. omega arith)
  ]
  | inr long ↦ (30_000_000_000, ground arith, omega arith, omega arith, λ l. ground arith)
]
