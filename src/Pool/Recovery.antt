-- ===== src/Pool/Recovery.antt =====
-- `_replace` and `_clean_and_return` of src/vomero_sandbox/runner.py on a cluster that does what it is
-- asked.
pub mod Draining
use vomero_sandbox.Common.{
  ℕ, zero, suc, ◌<◌, ◌*◌, length-append, ◌+◌, ◌≤◌, ◌≡◌, ◌⊎◌, refl, inl, inr, Bool, true, false,
  Option, none, some, List, [], ◌∷◌, ◌++◌, length, ℤ, ◌+ℤ◌, max_ℤ, Text, codes, subst, Bool-cases,
  if◌then◌else◌, arith,
}
use vomero_sandbox.Errors.{is_calm, Exc, Outcome, ok, raise, is_exception, ◌>>=◌}
use vomero_sandbox.Config.{SandboxConfig, seconds}
use vomero_sandbox.Exec.{exec_capture}
use vomero_sandbox.Host.{Host}
use vomero_sandbox.Pod.{Pod, build_worker_pod}
use vomero_sandbox.Scripts.{Arg, Script}
use vomero_sandbox.Pool.State.{M, State, Worker, Task, Event, try_except}
use vomero_sandbox.Pool.State
use vomero_sandbox.Pool.Cluster.{
  Spawned, delete, request_delete, poll_gone, delete_polls, verdict, try_spawn, place_pod, create,
  settle, confirm, wait_placed, adopt, worker_name, whole_seconds,
}
use vomero_sandbox.Pool.Cluster.Spawning.{hired, try_spawn-cases}
use vomero_sandbox.Pool.Execution.{clean_workspace, run_command}
use vomero_sandbox.Pool.Quiet.{clean_workspace-Outside}
use vomero_sandbox.Pool.Effects.{Freed, Queued, discard-cases, try_replace-cases}
use vomero_sandbox.Pool.Workers.{
  retire, close_client, close_connection, discard, replace, respawn, try_replace, clean_task,
  run_task,
}

-- The cluster creates and places each pod, a pod that is deleted is gone at the next look, and nobody
-- interrupts a command.
pub record Reliable {W : Type 0} (h : Host W) : Type 0 where
  pub creates : (ns : Text) (p : Pod) (w : W) → (h.create_pod ns p w).0 ≡ ok tt
  pub deletes : (ns n : Text) (w : W) → (h.delete_pod ns n w).0 ≡ ok tt
  pub gone : (ns n : Text) (w : W) → (h.read_pod ns n w).0 ≡ raise (Exc.api_error 404)
  pub places :
      (ns n : Text) (d : ℤ) (w : W)
      → let watched = (h.watch_pod ns n d w).0 in verdict watched.statuses watched.ending ≡ ok true
  pub closes : (n : ℕ) (w : W) → (h.close_client n w).0 ≡ ok tt
  pub calm :
      (o : Option ℕ) (ns n : Text) (argv : List Arg) (t : ℤ) (w : W)
      → is_calm ((h.exec o ns n argv w).0 >>= λ resp. exec_capture h.json_loads resp t) ≡ true

-- One worker more is free, and nothing else of the queue, the threads and the flag has moved.
abbrev pub Regained : {W : Type 0} → State W → State W → Type 0
Regained s t =
    (v : Worker) × (t.free ≡ s.free ++ v ∷ []) × (t.tasks ≡ s.tasks) × (t.closed ≡ s.closed)

module _ {W : Type 0} (h : Host W) (c : SandboxConfig) (p : Reliable h) where
  poll_gone_ok :
      (fuel : ℕ) (deadline : ℤ) (name : Text) (s : State W)
      → (poll_gone h c (suc fuel) deadline name s).0 ≡ ok tt
  unfolding poll_gone State.◌>>=◌ try_except
  poll_gone_ok fuel deadline name s =
      ground (arith, p.gone c.namespace name (h.monotonic s.world).1)

  delete_ok : (name : Text) (s : State W) → (delete h c name s).0 ≡ ok tt
  unfolding delete request_delete State.◌>>=◌ try_except
  delete_ok name s =
      let s1 = record s { events = Event.deleted name ∷ s.events } in
      let s2 = record s1 { world = (h.delete_pod c.namespace name s.world).1 } in
      let (now, w) = h.monotonic s2.world in
      rw (p.deletes c.namespace name s.world)
        (poll_gone_ok 300 (now +ℤ seconds 60) name (record s2 { world = w }))

  place_pod_ok :
      (name : Text) (s : State W)
      → (w : Worker) × ((place_pod h c name s).0 ≡ ok (Spawned.worker w))
  unfolding place_pod create settle confirm wait_placed adopt State.◌>>=◌ try_except
  place_pod_ok name s =
      let pod = build_worker_pod c name in
      let w = (h.create_pod c.namespace pod s.world).1 in
      rw (p.creates c.namespace pod s.world)
        (rw (p.places c.namespace name (whole_seconds c.startup_timeout_s) w) (_, refl))

  try_spawn_ok : (s : State W) → (w : Worker) × ((try_spawn h c s).0 ≡ ok (Spawned.worker w))
  unfolding try_spawn State.◌>>=◌
  try_spawn_ok s =
      let name = worker_name c (s.serial + 1) in
      let s1 = record s { serial = s.serial + 1; spawned = s.spawned + 1 } in
      rw (delete_ok name s1) (place_pod_ok name (delete h c name s1).1)

  close_connection_ok : (o : Option ℕ) (s : State W) → (close_connection h o s).0 ≡ ok tt
  unfolding close_connection State.◌>>=◌ try_except
  close_connection_ok none s = refl
  close_connection_ok (some n) s = rw (p.closes n s.world) refl

  close_client_ok : (w : Worker) (s : State W) → (close_client h w s).0 ≡ ok tt
  unfolding close_client
  close_client_ok w s = close_connection_ok w.api_client s

  discard_ok : (w : Worker) (s : State W) → (discard h c w s).0 ≡ ok tt
  unfolding discard State.◌>>=◌
  discard_ok w s = rw (delete_ok w.name s) (rw (close_client_ok w (delete h c w.name s).1) refl)

  try_replace_ok : (s : State W) → let (q, t) = try_replace h c s in (q ≡ ok true) × Regained s t
  try_replace_ok s =
      let (w, e) = try_spawn_ok s in
      let (counted, rec) = try_spawn-cases h c s in
      elim (try_replace-cases h c s) [
        | inl (v, k, q, z) ↦ (q, (v, ground arith, ground arith, ground arith))
        | inr (k, n, z) ↦
            let x : hired (ok (Spawned.worker w)) ≡ none = subst (λ r. hired r ≡ none) e k in
            absurd (cc)
      ]

  respawn_once :
      (left attempt : ℕ) (s : State W)
      → s.closed ≡ false
      → (try_replace h c s).0 ≡ ok true
      → respawn h c (suc left) attempt s ≡ (ok tt, (try_replace h c s).1)
  unfolding respawn State.◌>>=◌
  respawn_once left attempt s o e = ground arith

  pub replace_ok :
      (w : Worker) (s : State W)
      → s.closed ≡ false
      → let (q, t) = replace h c w s in (q ≡ ok tt) × Regained s t
  unfolding replace State.◌>>=◌
  replace_ok w s o =
      let e = discard_ok w s in
      let d = discard-cases h c w s in
      let t = (discard h c w s).1 in
      let (q, (v, f, k, g)) = try_replace_ok t in
      rw e (
        rw (respawn_once 2 0 t (ground arith) q)
          (refl, (v, ground arith, ground arith, ground arith)))

  run_command_calm :
      (w : Worker) (argv : List Arg) (t : ℤ) (s : State W)
      → is_calm (run_command h c w argv t s).0 ≡ true
  unfolding run_command State.◌>>=◌
  run_command_calm w argv t s =
      ground (arith, p.calm w.api_client w.name c.namespace argv t s.world)

  clean_workspace_calm :
      (w : Worker) (t : ℤ) (s : State W) → is_calm (clean_workspace h c w t s).0 ≡ true
  unfolding clean_workspace State.◌>>=◌ try_except
  clean_workspace_calm w t s =
      let argv =
        Arg.text (codes "python")
        ∷ Arg.text (codes "-c")
        ∷ Arg.script (Script.cleaner c.scratch_dir)
        ∷ [] in
      ground (arith, run_command_calm w argv (max_ℤ t (seconds 15)) s)

  pub clean_task_ok :
      (w : Worker) (s : State W)
      → s.closed ≡ false
      → let (q, t) = clean_task h c w s in
        (q ≡ ok tt) × (Freed w s t ⊎ Queued (Task.replacing w) s t)
  unfolding clean_task retire State.◌>>=◌ try_except
  clean_task_ok w s o =
      let limit = max_ℤ c.default_timeout_s (seconds 15) in
      ground (arith, clean_workspace_calm w limit s, (clean_workspace-Outside h c w limit).after s)
