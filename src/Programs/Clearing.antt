-- ===== src/Programs/Clearing.antt =====
-- `_CLEANER` of src/vomero_sandbox/runner.py: what it leaves behind.
use vomero_sandbox.Common.{
  ◌≡◌, refl, ap, ◌∙◌, Bool, true, false, ◌&&◌, not, Option, none, some, Text, codes, is_some, arith,
}
use vomero_sandbox.Upload.{contains}
use vomero_sandbox.Programs.{
  Access, Item, Items, empty, item, folder_left, clear_all, no_items, remains, prepend, remove,
  remove_all, run_cleaner,
}

-- A folder, by whether it is empty and whether what is in it is removable.
abbrev folder_removable : Access → Bool → Bool → Bool
folder_removable Access.shut none_in rest = false
folder_removable Access.changed none_in rest = rest
folder_removable _ none_in rest = none_in

-- Each folder, at any depth, can be opened, and is empty or may be changed.
unfoldable mutual
  pub removable : Item → Bool
  removable Item.leaf = true
  removable (Item.folder a xs) =
      let rest = all_removable xs in folder_removable a (no_items xs) rest

  pub all_removable : Items → Bool
  all_removable empty = true
  all_removable (item name x xs) = removable x && all_removable xs

is_some-remains : (a : Access) (xs : Items) → is_some (remains a xs) ≡ not (no_items xs)
is_some-remains a empty = refl
is_some-remains a (item _ _ _) = refl

no_items-clear_all : (xs : Items) → no_items (clear_all xs) ≡ no_items xs
unfolding clear_all
no_items-clear_all empty = refl
no_items-clear_all (item name x xs) = refl

no_items-prepend :
    (name : Text) (o : Option Item) (xs : Items)
    → no_items (prepend name o xs) ≡ (not (is_some o) && no_items xs)
no_items-prepend name none xs = refl
no_items-prepend name (some x) xs = refl

folder-removable :
    (a : Access) (xs gone kept : Items)
    → no_items gone ≡ all_removable xs
    → no_items kept ≡ no_items xs
    → is_some (folder_left a xs gone kept) ≡ not (removable (Item.folder a xs))
unfolding removable
folder-removable Access.shut xs gone kept e f = refl
folder-removable Access.listed xs gone kept e f = is_some-remains Access.listed xs
folder-removable Access.entered xs gone kept e f = is_some-remains Access.entered kept ∙ ap not f
folder-removable Access.changed xs gone kept e f = is_some-remains Access.changed gone ∙ ap not e

mutual
  unfolding remove removable

  remove-removable : (x : Item) → is_some (remove x) ≡ not (removable x)
  remove-removable Item.leaf = refl
  remove-removable (Item.folder a xs) =
      folder-removable a xs (remove_all xs) (clear_all xs) (remove_all-removable xs)
        (no_items-clear_all xs)

  remove_all-removable : (xs : Items) → no_items (remove_all xs) ≡ all_removable xs
  remove_all-removable empty = refl
  remove_all-removable (item name x xs) =
      let i = remove_all-removable xs in
      let r = remove-removable x in
      let p = no_items-prepend name (remove x) (remove_all xs) in ground (arith, i, r, p)

-- Whatever lies in the working directory, the cleaner's output passes for that of a clean one; and the
-- directory is empty afterwards exactly if each folder in it, at any depth, can be opened, and is empty
-- or may be changed.
pub run_cleaner-removable :
    (xs : Items)
    → let (out, left) = run_cleaner xs in
      (contains (codes "CLEAN_OK") out ≡ true) × (no_items left ≡ all_removable xs)
unfolding run_cleaner contains
run_cleaner-removable xs = (refl, remove_all-removable xs)
