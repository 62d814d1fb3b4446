-- ===== src/Snapshots/Restoring.antt =====
-- A session that is resumed from a checkpoint, entered: src/vomero_sandbox/runner.py, `checkpoint`,
-- `resume` and `__enter__` of SandboxSession, one after the other.
use vomero_sandbox.Common.{
  IsDict, ◌≡◌, arith, sym, ◌∙◌, subst, inl, inr, Bool-cases, Option, some, [], All, sort, ℤ, pos,
  ltb_ℤ, if◌then◌else◌,
}
use vomero_sandbox.Errors.{Exc, ok, raise, ◌>>=◌}
use vomero_sandbox.Config.{SandboxConfig}
use vomero_sandbox.Host.{Host}
use vomero_sandbox.Models.{Files}
use vomero_sandbox.Pool.State.{State, Worker}
use vomero_sandbox.Pool.Cluster.Frames.{Outside}
use vomero_sandbox.Pool.Execution.{total_size}
use vomero_sandbox.Sessions.{Session, session, checkpoint, take_worker, enter}
use vomero_sandbox.Sessions.Entering.{Restored, Prepared, enter_prepares}
use vomero_sandbox.Snapshots.{Archive, resume_blob, checkpoint_blob}
use vomero_sandbox.Snapshots.Packing.{HasTidyName, IsReadBack, resume-checkpoint}

resumed :
    (files : Files) (d : SandboxConfig) (y : Session)
    → (if ltb_ℤ d.max_upload_bytes (pos (total_size files))
        then raise Exc.value_error
        else ok (record session { restore = sort files }))
      ≡ ok y
    → record session { restore = sort files } ≡ y
resumed files d y e = elim (Bool-cases (ltb_ℤ d.max_upload_bytes (pos (total_size files)))) [
  | inl b ↦ absurd (ground arith)
  | inr b ↦ ground arith
]

module _ {W : Type 0} (h : Host W) (d : SandboxConfig) where
  -- A session that was entered holds the worker that it leased, prepared for it.
  pub record Holds (y z : Session) (u v : State W) : Type 0 where
    pub worker : Worker
    pub leased : (take_worker h d u).0 ≡ ok worker
    pub restored : Restored h d y worker (take_worker h d u).1
    pub held : z ≡ record y { restore = []; worker = some worker }
    pub away : Outside (take_worker h d u).1 v

  entered-Holds :
      (y z : Session) (u v : State W) → enter h d y u ≡ (ok (z, ok tt), v) → Holds y z u v
  entered-Holds y z u v e = elim (enter_prepares h d y u) [
    | inl (x, q, f) ↦ absurd (cc)
    | inr (w, q, p) ↦
        let (same, restored, away) = subst (Prepared h d y w (take_worker h d u).1) e p in
        record { worker = w; leased = q; restored = restored; held = same; away = away }
  ]

  -- From a checkpoint whose collection gave files with distinct tidy names, by an archive that
  -- gives back what was written to it: if a session is resumed, on whatever pool, and entered, its
  -- worker was wiped, and then exactly the files of the checkpoint were uploaded to it, in the order
  -- of their names.
  pub checkpoint_restored :
      {V Blob : Type 0} (a : Archive Blob) (files : Files) (g : Host V) (c : SandboxConfig)
      (x y z : Session) (t : Option ℤ) (s : State V) (u v : State W)
      → (checkpoint g c x t s).0 ≡ ok files
      → IsReadBack a files
      → IsDict files
      → All HasTidyName files
      → ((checkpoint_blob a g c x t s).0 >>= resume_blob a d) ≡ ok y
      → enter h d y u ≡ (ok (z, ok tt), v)
      → Holds (record session { restore = sort files }) z u v
  checkpoint_restored a files g c x y z t s u v e r i n f k =
      let same = resumed files d y (sym (resume-checkpoint a files g c d x t s e r i n) ∙ f) in
      subst (λ q. Holds q z u v) (sym same) (entered-Holds y z u v k)
