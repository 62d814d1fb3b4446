-- ===== src/Server/Packages.antt =====
-- examples/stress_server.py, `_package_dir`, with the functions of posixpath that it calls.
pub mod Registered
use vomero_sandbox.Common.{
  Bool, true, false, not, ◌||◌, [], ◌∷◌, ◌++◌, Text, codes, text_eq, is_empty, ◌==◌, if◌then◌else◌,
}
use vomero_sandbox.Errors.{Exc, Outcome, ok, raise}
use vomero_sandbox.Paths.{slash, is_dot, is_dotdot}
use vomero_sandbox.Pool.Execution.{has_code}
use vomero_sandbox.Projects.{Node}
use vomero_sandbox.Upload.{is_prefix}

-- `posixpath.basename`: what stands behind the last slash.
unfoldable pub basename : Text → Text
basename [] = []
basename (c ∷ s) =
    let deeper = basename s in if has_code slash s then deeper else if c == slash then s else c ∷ s

abbrev pub ends_slash : Text → Bool
ends_slash [] = false
ends_slash (c ∷ []) = c == slash
ends_slash (_ ∷ d ∷ s) = ends_slash (d ∷ s)

-- `posixpath.join`
unfoldable pub join_path : Text → Text → Text
join_path a b =
    if is_prefix (codes "/") b
    then b
    else if is_empty a || ends_slash a
    then a ++ b
    else a ++ slash ∷ b

-- `REGISTRY`, from the directory that the program stands in.
unfoldable pub registry : Text → Text
unfolding join_path
registry here = join_path here (codes "package_registry")

-- `os.path.isdir`, of what stands under a path.
unfoldable pub is_dir : Node → Bool
is_dir (Node.dir _) = true
is_dir (Node.linked_dir _) = true
is_dir _ = false

unfoldable pub invalid_name : Text → Bool
unfolding basename
invalid_name name =
    not (text_eq name (basename name)) || is_empty name || is_dot name || is_dotdot name

-- The node that stands under each path of the host is given.
unfoldable pub package_dir : Text → (Text → Node) → Text → Outcome Text
unfolding invalid_name registry join_path
package_dir here host name =
    if invalid_name name
    then raise Exc.value_error
    else let path = join_path (registry here) name in
      if is_dir (host path) then ok path else raise Exc.value_error
