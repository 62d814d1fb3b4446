-- ===== src/Tests/Restored.antt =====
-- A session that is resumed from a checkpoint and entered.
use vomero_sandbox.Common.{ℕ, ◌≡◌, ◌⊎◌, refl, none, some, [], sort, codes, ◌+ℤ◌}
use vomero_sandbox.Errors
use vomero_sandbox.Snapshots.Packing.{resume-checkpoint}
use vomero_sandbox.Errors.{Exc, ok, raise}
use vomero_sandbox.Config.{default_config}
use vomero_sandbox.Exec.{exec_capture}
use vomero_sandbox.Host.{Host}
use vomero_sandbox.Pool.State.{Worker, ◌>>=◌, try_except, capture}
use vomero_sandbox.Pool.Dispatch.{ensure_started}
use vomero_sandbox.Pool.Execution.{clean_workspace, run_command, upload, total_size}
use vomero_sandbox.Pool.Workers.{lease}
use vomero_sandbox.Sessions.{Session, session, take_up, seed, seeded, take_worker, enter}
use vomero_sandbox.Sessions.Entering.{Prepared, enter_prepares}
use vomero_sandbox.Snapshots.Restoring.{Holds, checkpoint_restored}
use vomero_sandbox.Snapshots.{checkpoint_blob, resume_blob}
use vomero_sandbox.Upload.{contains, upload_files}
use vomero_sandbox.Tests.Toy.{toy, alice, small_pool}
use vomero_sandbox.Tests.Serving.{said}
use vomero_sandbox.Tests.Blobs.{finder, found, live, collected, kept, IsTidy-a}

-- A cluster whose workers wipe their workspace and take uploads.
abbrev keeper : Host ℕ
keeper = record toy {
  exec = λ conn n ns argv t. (ok (said (codes "CLEAN_OK")), t);
  exec_stdin = λ conn n ns argv text t. (ok (ok tt, said (codes "UPLOAD_OK")), t);
}

abbrev back : Session
back = record session { restore = sort found }

enter_prepares_example :
    let (o, u) = take_worker keeper default_config small_pool in
    ((e : Exc) × (o ≡ raise e)
      × (enter keeper default_config back small_pool ≡ (ok (back, raise e), u)))
    ⊎ ((w : Worker) × (o ≡ ok w)
        × Prepared keeper default_config back w u (enter keeper default_config back small_pool))
enter_prepares_example = enter_prepares keeper default_config back small_pool

resumed_back :
    Errors.◌>>=◌
      (checkpoint_blob kept finder default_config live none small_pool).0
      (resume_blob kept default_config)
    ≡ ok back
unfolding total_size
resumed_back =
    resume-checkpoint kept found finder default_config default_config live none small_pool collected
      refl (tt, tt) (IsTidy-a, tt)

abbrev live_again : Session
live_again = record session { worker = some alice }

entered :
    enter keeper default_config back small_pool
    ≡ (ok (live_again, ok tt), record small_pool { free = [] })
unfolding enter ◌>>=◌ capture take_up take_worker ensure_started lease seeded seed clean_workspace
    try_except run_command exec_capture ◌+ℤ◌ contains sort upload upload_files
entered = refl

checkpoint_restored_example :
    Holds keeper default_config back live_again small_pool (record small_pool { free = [] })
checkpoint_restored_example =
    checkpoint_restored keeper default_config kept found finder default_config live back live_again
      none small_pool small_pool (record small_pool { free = [] }) collected refl (tt, tt)
      (IsTidy-a, tt) resumed_back entered
