-- ===== src/Pool/Lifecycle/Starting.antt =====
-- `start` of src/vomero_sandbox/runner.py: the state that it leaves, by its ends.
use vomero_sandbox.Common.{
  ◌≤◌, ◌≡◌, ◌⊎◌, refl, sym, ap, subst, inl, inr, true, false, Bool-cases, Option, none, some, List,
  [], ◌∷◌, ◌++◌, Text, pos, ltb_ℤ, if◌then◌else◌, length, append-nil, append_assoc, arith,
}
use vomero_sandbox.Errors.{Outcome, ok, raise, succeeded}
use vomero_sandbox.Config.{SandboxConfig}
use vomero_sandbox.Host.{Host}
use vomero_sandbox.Models.{PoolStartReport}
use vomero_sandbox.Pool.State.{State, Worker, ◌>>=◌, then_with, pure, modify, gets}
use vomero_sandbox.Pool.Keeps.{Frame, Keeps, keeping}
use vomero_sandbox.Pool.Cluster.{delete}
use vomero_sandbox.Pool.Cluster.Frames.{delete-events}
use vomero_sandbox.Pool.Quiet.{close_client-Outside}
use vomero_sandbox.Pool.Workers.{close_client}
use vomero_sandbox.Pool.Lifecycle.{
  install_cleanup_hooks, ensure_namespace, ensure_network_policy, delete_all, delete_workers,
  reclaim_orphans, tear_down, put_all, provision, report_of, conclude_start, warm_up, start, place,
  rounds, floor,
}
use vomero_sandbox.Pool.Lifecycle.Warming.{Named, Grown, Warmed, place-Warms}

-- The records, the hooks and the world have moved.
abbrev pub Prepared : {W : Type 0} → State W → State W → Type 0
Prepared s t =
    t ≡ record s { cleanup_installed = t.cleanup_installed; events = t.events; world = t.world }

pub Prepared-frame : {W : Type 0} → Frame (Prepared {W = W})
Prepared-frame = record { same = λ s. refl; trans = λ s t u e f. ground arith; out = λ s w. refl }

module _ {W : Type 0} (h : Host W) (c : SandboxConfig) where
  delete-Prepared : (n : Text) → Keeps Prepared (delete h c n)
  delete-Prepared n = record { after = λ s. ground (arith, delete-events h c n s) }

  close_client-Prepared : (w : Worker) → Keeps Prepared (close_client h w)
  close_client-Prepared w = record {
    after = λ s. ground (arith, (close_client-Outside h c w).after s);
  }

  delete_all-Prepared : (ns : List Text) → Keeps Prepared (delete_all h c ns)
  unfolding delete_all
  delete_all-Prepared [] = search (keeping, Prepared-frame)
  delete_all-Prepared (n ∷ ns) =
      let rest = delete_all-Prepared ns in search (keeping, Prepared-frame, delete-Prepared)

  pub delete_workers-Prepared : Keeps Prepared (delete_workers h c)
  unfolding delete_workers
  delete_workers-Prepared = search (keeping, Prepared-frame, delete_all-Prepared) depth 12

  pub tear_down-Prepared : (ws : List Worker) → Keeps Prepared (tear_down h c ws)
  unfolding tear_down
  tear_down-Prepared [] = search (keeping, Prepared-frame)
  tear_down-Prepared (w ∷ ws) =
      let rest = tear_down-Prepared ws in
      search (keeping, Prepared-frame, delete-Prepared, close_client-Prepared)

  mark-Prepared : Keeps {W = W} Prepared (modify (λ s. record s { cleanup_installed = true }))
  unfolding modify
  mark-Prepared = record { after = λ s. refl }

  install_cleanup_hooks-Prepared : Keeps Prepared (install_cleanup_hooks h c)
  unfolding install_cleanup_hooks
  install_cleanup_hooks-Prepared = search (keeping, Prepared-frame, mark-Prepared) depth 12

  provision-Prepared : Keeps Prepared (provision h c)
  unfolding provision ensure_namespace ensure_network_policy reclaim_orphans
  provision-Prepared =
      search (keeping, Prepared-frame, install_cleanup_hooks-Prepared, delete_workers-Prepared)
        depth 16

  put_all-lem :
      (ws : List Worker) (s : State W)
      → put_all h c ws s ≡ (ok tt, record s { free = s.free ++ ws })
  unfolding put_all ◌>>=◌
  put_all-lem [] s = rw append-nil
  put_all-lem (w ∷ ws) s = rw (put_all-lem ws (record s { free = s.free ++ w ∷ [] }), append_assoc)

  -- Nothing of the pool has moved but the counters, the records, the hooks and the world.
  abbrev pub Unstarted : State W → State W → Type 0
  Unstarted s t = t ≡ record s {
    serial = t.serial;
    spawned = t.spawned;
    cleanup_installed = t.cleanup_installed;
    events = t.events;
    world = t.world;
  }

  -- The pool is as `s` but for the workers `ws` and the report on them.
  abbrev pub Started : List Worker → PoolStartReport → State W → State W → Type 0
  Started ws r s t = t ≡ record s {
    free = s.free ++ ws;
    serial = t.serial;
    spawned = t.spawned;
    started = true;
    start_report = some r;
    cleanup_installed = t.cleanup_installed;
    events = t.events;
    world = t.world;
  }

  -- How a call of `start` ends, with the state it leaves.
  abbrev pub Starts : State W → Outcome (Option PoolStartReport) × State W → Type 0
  Starts s (ok none, t) = ⊥
  Starts s (ok (some r), t) =
      (ws : List Worker) × (r.placed ≡ length ws)
      × (r.requested ≡ c.pool_size)
      × (length ws ≤ rounds c.pool_size)
      × (ltb_ℤ (pos (length ws)) (floor c) ≡ false)
      × Named c s.serial ws t.serial
      × Started ws r s t
  Starts s (raise e, t) = Unstarted s t × (s.serial ≤ t.serial)

  -- How the part behind the warming loop ends, from `u`.
  abbrev Concludes : List Worker → List Text → State W → Outcome PoolStartReport × State W → Type 0
  Concludes ws rs u (q, t) =
      ((q ≡ ok (report_of h c ws rs))
        × (ltb_ℤ (pos (length ws)) (floor c) ≡ false)
        × (t ≡ record u {
          free = u.free ++ ws;
          start_report = some (report_of h c ws rs);
          started = true;
        }))
      ⊎ ((succeeded q ≡ false) × (ltb_ℤ (pos (length ws)) (floor c) ≡ true) × Prepared u t)

  conclude-cases :
      (ws : List Worker) (rs : List Text) (u : State W)
      → Concludes ws rs u (conclude_start h c (ws, rs) u)
  unfolding conclude_start ◌>>=◌
  conclude-cases ws rs u = elim (Bool-cases (ltb_ℤ (pos (length ws)) (floor c))) [
    | inl low ↦ rw low (ground (arith, (tear_down-Prepared ws).after u))
    | inr high ↦ rw high (rw (put_all-lem ws u) (inl (refl, refl, refl)))
  ]

  module _ (s u v : State W) (p : Prepared s u) (g : Grown u v) where
    report-Starts :
        (ws : List Worker) (rs : List Text) (q : Outcome PoolStartReport) (t : State W)
        → length ws ≤ rounds c.pool_size
        → Named c s.serial ws v.serial
        → Concludes ws rs v (q, t)
        → Starts s (then_with (λ r. pure (some r)) q t)
    unfolding pure
    report-Starts ws rs (ok r) t l n (inl (eq, high, et)) = (
      ws,
      ground arith,
      ground arith,
      l,
      high,
      subst (Named c s.serial ws) (ap (λ (x : State W). x.serial) (sym et)) n,
      ground arith,
    )
    report-Starts ws rs (ok r) t l n (inr (eq, low, et)) = absurd (cc)
    report-Starts ws rs (raise e) t l n (inl (eq, high, et)) = absurd (cc)
    report-Starts ws rs (raise e) t l n (inr (eq, low, et)) = ground arith

    conclude-Starts :
        (q : Outcome (List Worker × List Text))
        → Warmed c (rounds c.pool_size) [] s.serial q v.serial
        → Starts s (then_with (λ ws. conclude_start h c ws >>= λ r. pure (some r)) q v)
    unfolding ◌>>=◌
    conclude-Starts (raise e) w = ground arith
    conclude-Starts (ok (ws, rs)) (new, e, l, n) =
        report-Starts ws rs _ _ (rw e l) (rw e n) (conclude-cases ws rs v)

  provision-Starts :
      (s : State W) (r : Outcome (Unit {0})) (u : State W)
      → Prepared s u
      → Starts s (
          then_with
            (λ _. place h c (rounds c.pool_size) [] >>= λ ws.
              conclude_start h c ws >>= λ r. pure (some r))
            r
            u)
  unfolding ◌>>=◌
  provision-Starts s (raise e) u p = ground arith
  provision-Starts s (ok _) u p =
      let (q, v) = place h c (rounds c.pool_size) [] u in
      let (grown, warmed) = place-Warms h c (rounds c.pool_size) [] u in
      conclude-Starts s u v p grown q (
        subst (λ k. Warmed c (rounds c.pool_size) [] k q v.serial)
          (ap (λ (x : State W). x.serial) p) warmed)

  warm_up-Starts : (s : State W) → Starts s (warm_up h c s)
  unfolding warm_up ◌>>=◌
  warm_up-Starts s =
      provision-Starts s (provision h c s).0 (provision h c s).1 (provision-Prepared.after s)

  -- On a pool that is not started, `start` either raises, and then no worker is free that was not
  -- and the pool is still not started; or it reports as placed the workers that it has freed, which
  -- are new ones of different names, no more than the configured size and no fewer than the floor.
  pub start-Starts : (s : State W) → s.started ≡ false → Starts s (start h c s)
  unfolding start ◌>>=◌ gets
  start-Starts s fresh =
      subst (λ b. Starts s ((if b then gets (λ (t : State W). t.start_report) else warm_up h c) s))
        (sym fresh) (warm_up-Starts s)
