-- ===== src/Tests/Workers.antt =====
-- The programs that run in a worker, on small working directories.
use vomero_sandbox.Common.{
  ◌≡◌, ◌⊎◌, refl, true, false, Option, none, some, List, [], ◌∷◌, ℕ, pos, ltb_ℤ, Text, codes,
  text_eq, if◌then◌else◌,
}
use vomero_sandbox.Pool.Execution.{total_size}
use vomero_sandbox.Upload.{contains}
use vomero_sandbox.Programs.{Access, Item, Items, empty, item, no_items, run_cleaner, run_collector}
use vomero_sandbox.Programs.Collecting.{Accounts, run_collector-Accounts}
use vomero_sandbox.Programs.Clearing.{run_cleaner-removable, all_removable}

-- A folder that a run has closed stays for the next one, behind the cleaner's CLEAN_OK.
abbrev hidden : Items
hidden =
    item (codes "cache") (Item.folder Access.shut (item (codes "secret") Item.leaf empty)) empty

closed_stays : run_cleaner hidden ≡ (codes "CLEAN_OK\n", hidden)
unfolding run_cleaner
closed_stays = refl

run_cleaner-removable_example :
    let (out, left) = run_cleaner hidden in
    (contains (codes "CLEAN_OK") out ≡ true) × (no_items left ≡ all_removable hidden)
run_cleaner-removable_example = run_cleaner-removable hidden

abbrev small : Text → Option (List ℕ)
small name = if text_eq name (codes "a") then some (1 ∷ 2 ∷ []) else none

a_read : small (codes "a") ≡ some (1 ∷ 2 ∷ [])
unfolding text_eq
a_read = refl

run_collector-Accounts_example :
    let t = run_collector small (pos 1) (codes "a" ∷ []) none in
    Accounts (pos 1) (codes "a") (1 ∷ 2 ∷ []) t
    × ((total_size t.out ≡ 0) ⊎ (ltb_ℤ (pos 1) (pos (total_size t.out)) ≡ false))
unfolding text_eq
run_collector-Accounts_example =
    run_collector-Accounts small (pos 1) (codes "a" ∷ []) none (codes "a") (1 ∷ 2 ∷ []) a_read refl
