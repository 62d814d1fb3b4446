-- ===== src/Projects.antt =====
-- src/vomero_sandbox/runner.py, `_read_project_tree` and the two methods `run_project`, over the file
-- tree of the caller's host.
pub mod Selecting
pub mod Walking
pub mod Sizes
pub mod Giving
pub mod Covering
use vomero_sandbox.Common.{
  ℕ, ◌+◌, Bool, true, false, Option, none, some, List, [], ◌∷◌, ◌++◌, ℤ, pos, ltb_ℤ, Text, codes,
  is_empty, assign, update, sort, if◌then◌else◌,
}
use vomero_sandbox.Errors.{Exc, Outcome, ok, raise, ◌>>=◌}
use vomero_sandbox.Config.{SandboxConfig}
use vomero_sandbox.Globs.{excluded}
use vomero_sandbox.Host.{Host}
use vomero_sandbox.Models.{Files, RunResult}
use vomero_sandbox.Paths.{join}
use vomero_sandbox.Pool.State.{M, throw, pure}
use vomero_sandbox.Pool.Execution.{Env, Collect, Run}
use vomero_sandbox.Pool.Dispatch.{default_timeout, dispatch}
use vomero_sandbox.Sessions.{Session, session_call}

-- What stands under a name: a file, with the size that `getsize` gives and what reading it gives; a
-- directory; a link that leads to a file or to a directory; a directory, or a link to one, that cannot
-- be listed, with what is in it; anything else, as a broken link or what `isfile` may not look at. An
-- entry's name has no slash and is not `.` or `..`.
mutual
  pub data Node : Type 0 where
    file linked_file : ℕ → Outcome (List ℕ) → Node
    dir linked_dir closed_dir : Entries → Node
    other : Node

  pub data Entries : Type 0 where
    end : Entries
    entry : Text → Node → Entries → Entries

-- The variables `total` and `files`.
abbrev pub Taken : Type 0
Taken = ℕ × Files

-- `dirnames` and `filenames` of `os.walk`: a link to a directory is one of the first.
abbrev pub filenames : Entries → List (Text × Node)
filenames end = []
filenames (entry name (Node.dir _) es) = filenames es
filenames (entry name (Node.linked_dir _) es) = filenames es
filenames (entry name (Node.closed_dir _) es) = filenames es
filenames (entry name n es) = (name, n) ∷ filenames es

-- What a walk of a directory does from the path of the directory and what was taken before.
abbrev pub Walk : Type 0
Walk = List Text → Taken → Outcome Taken

module _ (exclude : List Text) (max_bytes : ℤ) (follow : Bool) where
  -- The part of the inner loop behind the tests.
  unfoldable pub take : ℕ → Outcome (List ℕ) → List Text → Taken → Outcome Taken
  take size contents path (total, files) =
      if ltb_ℤ max_bytes (pos (total + size))
      then raise Exc.value_error
      else (contents >>= λ bytes. ok (total + size, assign (join path) bytes files))

  unfoldable pub take_node : Node → List Text → Taken → Outcome Taken
  unfolding take
  take_node (Node.file size contents) path t = take size contents path t
  take_node (Node.linked_file size contents) path t =
      if follow then take size contents path t else ok t
  take_node _ path t = ok t

  -- The inner loop, over the sorted names.
  unfoldable pub take_files : List (Text × Node) → Walk
  unfolding take_node excluded
  take_files [] here t = ok t
  take_files ((name, n) ∷ ns) here t =
      let skipped = take_files ns here t in
      if excluded name exclude
      then skipped
      else (take_node n (here ++ name ∷ []) t >>= take_files ns here)

  -- The walks of the directories below one, in their order.
  unfoldable pub run_walks : List (Text × Walk) → Walk
  run_walks [] here t = ok t
  run_walks ((name, w) ∷ ws) here t = w (here ++ name ∷ []) t >>= run_walks ws here

  -- One directory, and then those below it.
  unfoldable pub visit : List (Text × Node) → List (Text × Walk) → Walk
  unfolding take_files run_walks
  visit ns ws here t = take_files (sort ns) here t >>= run_walks (sort ws) here

  unfoldable pub walks : Entries → List (Text × Walk)
  unfolding excluded
  walks end = []
  walks (entry name (Node.dir ds) es) =
      let rest = walks es in
      let w = visit (filenames ds) (walks ds) in
      if excluded name exclude then rest else (name, w) ∷ rest
  walks (entry name (Node.linked_dir ds) es) =
      let rest = walks es in
      let w = visit (filenames ds) (walks ds) in
      if excluded name exclude then rest else if follow then (name, w) ∷ rest else rest
  walks (entry name _ es) = walks es

  -- `os.walk` with the body of the loop. It passes over a directory that cannot be listed.
  unfoldable pub walk : Entries → Walk
  unfolding visit walks
  walk es = visit (filenames es) (walks es)

  abbrev pub all_taken : Taken → Outcome Files
  all_taken (total, files) = if is_empty files then raise Exc.value_error else ok files

  unfoldable pub read_entries : Entries → Outcome Files
  unfolding walk
  read_entries es = walk es [] (0, []) >>= all_taken

  -- `_read_project_tree`, of what stands under the path of the project.
  unfoldable pub read_project_tree : Node → Outcome Files
  unfolding read_entries
  read_project_tree (Node.dir es) = read_entries es
  read_project_tree (Node.linked_dir es) = read_entries es
  read_project_tree _ = raise Exc.value_error

unfoldable pub default_excludes : List Text
default_excludes =
    codes "__pycache__"
    ∷ codes "*.pyc"
    ∷ codes "*.pyo"
    ∷ codes "*.egg-info"
    ∷ codes ".git"
    ∷ codes ".hg"
    ∷ codes ".svn"
    ∷ codes ".venv"
    ∷ codes "venv"
    ∷ codes "env"
    ∷ codes "node_modules"
    ∷ codes ".mypy_cache"
    ∷ codes ".pytest_cache"
    ∷ codes ".ruff_cache"
    ∷ codes ".tox"
    ∷ codes ".DS_Store"
    ∷ codes ".ipynb_checkpoints"
    ∷ []

-- The files of `run_project`: those of the tree, overlaid by `extra_files`.
unfoldable pub project_files : SandboxConfig → Node → List Text → Bool → Files → Outcome Files
unfolding read_project_tree update
project_files c root exclude follow extra =
    read_project_tree exclude c.max_upload_bytes follow root >>= λ files. ok (update files extra)

module _ {W : Type 0} (h : Host W) (c : SandboxConfig) where
  unfoldable pub run_project :
      Node → List Text → Option ℤ → Collect → Env → List Text → Bool → Files → M W RunResult
  run_project root entrypoint t wish env exclude follow extra =
      if is_empty entrypoint
      then throw Exc.value_error
      else elim (project_files c root exclude follow extra) [
        | raise e ↦ throw e
        | ok files ↦ dispatch h c (record {
          argv = entrypoint;
          timeout = default_timeout h c t;
          wish = wish;
          env = env;
          input_files = files;
        })
      ]

  unfoldable pub session_run_project :
      Session
      → Node
      → List Text
      → Option ℤ
      → Collect
      → Env
      → List Text
      → Bool
      → Files
      → M W (Session × Outcome RunResult)
  session_run_project x root entrypoint t wish env exclude follow extra =
      if is_empty entrypoint
      then pure (x, raise Exc.value_error)
      else elim (project_files c root exclude follow extra) [
        | raise e ↦ pure (x, raise e)
        | ok files ↦ session_call h c x (record {
          argv = entrypoint;
          timeout = default_timeout h c t;
          wish = wish;
          env = env;
          input_files = files;
        })
      ]
