-- ===== src/Models/Reports.antt =====
-- The derived properties of `PoolStartReport` in src/vomero_sandbox/models.py.
use vomero_sandbox.Common.{◌≡◌, ◌↔◌, true, arith, pos, ◌-ℤ◌}
use vomero_sandbox.Models.{PoolStartReport, complete, shortfall}

-- A start report is complete exactly if its shortfall is 0.
pub complete-iff-shortfall : (r : PoolStartReport) → (complete r ≡ true) ↔ (shortfall r ≡ pos 0)
unfolding complete shortfall ◌-ℤ◌
complete-iff-shortfall r = ground arith
