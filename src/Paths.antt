-- ===== src/Paths.antt =====
-- src/vomero_sandbox/runner.py, `_safe_member_name`, with the functions of Python's posixpath and str
-- that it and `_unpack_snapshot` call.
pub mod Normal
pub mod Inside
use vomero_sandbox.Common.{
  ℕ, Bool, true, false, not, ◌&&◌, ◌||◌, List, [], ◌∷◌, ◌++◌, Text, codes, text_eq, is_empty, ◌==◌,
  if◌then◌else◌,
}
use vomero_sandbox.Upload.{is_prefix, replicate}

abbrev pub slash : ℕ
slash = 47

abbrev pub push : ℕ → List Text → List Text
push c [] = (c ∷ []) ∷ []
push c (p ∷ ps) = (c ∷ p) ∷ ps

-- `s.split("/")`
unfoldable pub split : Text → List Text
split [] = [] ∷ []
split (c ∷ s) = let rest = split s in if c == slash then [] ∷ rest else push c rest

-- `"/".join(ps)`
unfoldable pub join : List Text → Text
join [] = []
join (p ∷ []) = p
join (p ∷ q ∷ ps) = p ++ slash ∷ join (q ∷ ps)

-- How many slashes a normalised path begins with.
abbrev pub initial_slashes : Text → ℕ
initial_slashes s =
    if is_prefix (codes "///") s
    then 1
    else if is_prefix (codes "//") s
    then 2
    else if is_prefix (codes "/") s
    then 1
    else 0

abbrev pub is_dotdot : Text → Bool
is_dotdot p = text_eq p (codes "..")

abbrev pub is_dot : Text → Bool
is_dot p = text_eq p (codes ".")

-- `new_comps[-1] == dotdot`, where there is a last one.
abbrev pub ends_dotdot : List Text → Bool
ends_dotdot [] = false
ends_dotdot (p ∷ []) = is_dotdot p
ends_dotdot (p ∷ q ∷ ps) = ends_dotdot (q ∷ ps)

-- `new_comps.pop()`, where there is a last one.
abbrev pub drop_last : List Text → List Text
drop_last [] = []
drop_last (p ∷ []) = []
drop_last (p ∷ q ∷ ps) = p ∷ drop_last (q ∷ ps)

-- One round of the loop of `normpath`, told whether there is no initial slash.
abbrev pub normal_step : Bool → List Text → Text → List Text
normal_step relative acc p =
    if is_empty p || is_dot p
    then acc
    else if not (is_dotdot p) || (relative && is_empty acc) || ends_dotdot acc
    then acc ++ p ∷ []
    else drop_last acc

unfoldable pub normal_parts : Bool → List Text → List Text → List Text
normal_parts relative acc [] = acc
normal_parts relative acc (p ∷ ps) = normal_parts relative (normal_step relative acc p) ps

abbrev pub or_dot : Text → Text
or_dot s = if is_empty s then codes "." else s

-- `posixpath.normpath`
unfoldable pub normpath : Text → Text
unfolding split join normal_parts
normpath s =
    let n = initial_slashes s in
    or_dot (replicate n slash ++ join (normal_parts (n == 0) [] (split s)))

-- `any(part in ("..", "") for part in ps if part != ".")`
abbrev pub any_unsafe : List Text → Bool
any_unsafe [] = false
any_unsafe (p ∷ ps) =
    let rest = any_unsafe ps in (not (is_dot p) && (is_dotdot p || is_empty p)) || rest

-- `_safe_member_name`
unfoldable pub safe_member_name : Text → Bool
unfolding split
safe_member_name name = if is_prefix (codes "/") name then false else not (any_unsafe (split name))
