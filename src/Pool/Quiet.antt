-- ===== src/Pool/Quiet.antt =====
-- The methods of `SandboxPool` that move only the world: runs, wipes, collections, uploads.
use vomero_sandbox.Common.{ℕ, Bool, ℤ, Text, Option, none, some, List}
use vomero_sandbox.Config.{SandboxConfig}
use vomero_sandbox.Host.{Host}
use vomero_sandbox.Models.{Files}
use vomero_sandbox.Scripts.{Arg}
use vomero_sandbox.Pool.State.{Worker}
use vomero_sandbox.Pool.Keeps.{Keeps, keeping}
use vomero_sandbox.Pool.Cluster.Frames.{Outside, Outside-frame}
use vomero_sandbox.Pool.Execution.{
  Collect, Run, run_command, clean_workspace, collect_files, collect_reply, upload, check_size,
  upload_given, collect_wanted, clean_if, exec_on_worker,
}
use vomero_sandbox.Pool.Workers.{close_client, close_connection, spent}

module _ {W : Type 0} (h : Host W) (c : SandboxConfig) where
  pub run_command-Outside :
      (w : Worker) (argv : List Arg) (timeout : ℤ) → Keeps Outside (run_command h c w argv timeout)
  unfolding run_command
  run_command-Outside w argv timeout = search (keeping, Outside-frame)

  pub clean_workspace-Outside :
      (w : Worker) (timeout : ℤ) → Keeps Outside (clean_workspace h c w timeout)
  unfolding clean_workspace
  clean_workspace-Outside w timeout = search (keeping, Outside-frame, run_command-Outside) depth 12

  collect_reply-Outside : (r : Option (Text × Text × ℤ)) → Keeps Outside (collect_reply h r)
  unfolding collect_reply
  collect_reply-Outside none = search (keeping, Outside-frame) depth 12
  collect_reply-Outside (some r) = search (keeping, Outside-frame) depth 12

  pub collect_files-Outside :
      (w : Worker) (wish : Collect) (timeout : ℤ) → Keeps Outside (collect_files h c w wish timeout)
  unfolding collect_files
  collect_files-Outside w wish timeout =
      search (keeping, Outside-frame, run_command-Outside, collect_reply-Outside) depth 12

  pub upload-Outside :
      (w : Worker) (files : Files) (timeout : ℤ) → Keeps Outside (upload h c w files timeout)
  unfolding upload
  upload-Outside w files timeout = search (keeping, Outside-frame) depth 12

  pub exec_on_worker-Outside :
      (w : Worker) (run : Run) (clean : Bool) → Keeps Outside (exec_on_worker h c w run clean)
  unfolding exec_on_worker check_size upload_given collect_wanted clean_if
  exec_on_worker-Outside w run clean =
      search
        (
          keeping, Outside-frame, run_command-Outside, collect_files-Outside,
          clean_workspace-Outside, upload-Outside,
        )
        depth 20

  close_connection-Outside : (o : Option ℕ) → Keeps Outside (close_connection h o)
  unfolding close_connection
  close_connection-Outside none = search (keeping, Outside-frame)
  close_connection-Outside (some n) = search (keeping, Outside-frame)

  pub close_client-Outside : (w : Worker) → Keeps Outside (close_client h w)
  unfolding close_client
  close_client-Outside w = close_connection-Outside w.api_client

  pub spent-Outside : (w : Worker) → Keeps Outside (spent h c w)
  unfolding spent
  spent-Outside w = search (keeping, Outside-frame) depth 12
