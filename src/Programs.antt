-- ===== src/Programs.antt =====
-- src/vomero_sandbox/runner.py, the programs `_COLLECTOR` and `_CLEANER`, which run inside a worker.
pub mod Clearing
pub mod Collecting
use vomero_sandbox.Common.{
  ℕ, ◌+◌, Bool, true, false, Option, none, some, List, [], ◌∷◌, ◌++◌, ℤ, pos, ltb_ℤ, Text, codes,
  is_empty, length, assign, get_or, if◌then◌else◌,
}
use vomero_sandbox.Models.{Files}

-- What the program may do with a folder: not open it; list it, but reach nothing in it; enter what is
-- in it, but not change it; or change it too.
pub data Access : Type 0 where
  shut listed entered changed : Access

-- What lies in the working directory: a file or a link; a folder.
mutual
  pub data Item : Type 0 where
    leaf : Item
    folder : Access → Items → Item

  pub data Items : Type 0 where
    empty : Items
    item : Text → Item → Items → Items

abbrev pub no_items : Items → Bool
no_items empty = true
no_items (item _ _ _) = false

-- What is left of a folder that was opened, by what is left in it: `os.rmdir` removes an empty one.
abbrev pub remains : Access → Items → Option Item
remains a empty = none
remains a (item name x xs) = some (Item.folder a (item name x xs))

abbrev pub prepend : Text → Option Item → Items → Items
prepend name none xs = xs
prepend name (some x) xs = item name x xs

-- What is left of a folder, by what stays in it if its entries can be removed, and if only those
-- below them can.
abbrev pub folder_left : Access → Items → Items → Items → Option Item
folder_left Access.shut xs gone kept = some (Item.folder Access.shut xs)
folder_left Access.listed xs gone kept = remains Access.listed xs
folder_left Access.entered xs gone kept = remains Access.entered kept
folder_left Access.changed xs gone kept = remains Access.changed gone

-- What is left of a folder that cannot itself be removed.
abbrev pub folder_kept : Access → Items → Items → Items → Item
folder_kept Access.entered xs gone kept = Item.folder Access.entered kept
folder_kept Access.changed xs gone kept = Item.folder Access.changed gone
folder_kept a xs gone kept = Item.folder a xs

unfoldable mutual
  -- `shutil.rmtree(p, ignore_errors=True)`, or `os.remove(p)`, with what is left of the entry.
  pub remove : Item → Option Item
  remove Item.leaf = none
  remove (Item.folder a xs) =
      let gone = remove_all xs in let kept = clear_all xs in folder_left a xs gone kept

  pub remove_all : Items → Items
  remove_all empty = empty
  remove_all (item name x xs) = prepend name (remove x) (remove_all xs)

  -- The same of an entry of a folder that may not be changed, which stays.
  pub clear : Item → Item
  clear Item.leaf = Item.leaf
  clear (Item.folder a xs) =
      let gone = remove_all xs in let kept = clear_all xs in folder_kept a xs gone kept

  pub clear_all : Items → Items
  clear_all empty = empty
  clear_all (item name x xs) = item name (clear x) (clear_all xs)

-- `_CLEANER`: its output, and what it leaves in the working directory.
unfoldable pub run_cleaner : Items → Text × Items
unfolding remove_all
run_cleaner xs = (codes "CLEAN_OK\n", remove_all xs)

-- The variables `out`, `trunc` and `total` of the collector.
pub record Collected : Type 0 where
  pub out : Files
  pub trunc : List Text
  pub total : ℕ

-- `read` is the contents of the working directory's files, none for one that cannot be read.
module _ (read : Text → Option (List ℕ)) (maxb : ℤ) where
  abbrev add_read : Text → Option (List ℕ) → Collected → Collected
  add_read rel none t = t
  add_read rel (some d) t =
      if ltb_ℤ maxb (pos (t.total + length d))
      then record t { trunc = t.trunc ++ rel ∷ [] }
      else record t { total = t.total + length d; out = assign rel d t.out }

  -- `add`
  unfoldable pub add : Text → Collected → Collected
  add rel t = add_read rel (read rel) t

  unfoldable pub add_all : List Text → Collected → Collected
  unfolding add
  add_all [] t = t
  add_all (rel ∷ rels) t = add_all rels (add rel t)

  -- `_COLLECTOR`; `walked` is the files that its `os.walk` finds, `want` is what is asked for.
  unfoldable pub run_collector : List Text → Option (List Text) → Collected
  unfolding add_all
  run_collector walked want =
      add_all (get_or want walked) (record { out = []; trunc = []; total = 0 })
