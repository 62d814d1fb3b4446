-- ===== src/Pool/Lifecycle.antt =====
-- Starting the pool and closing it.
pub mod Warming
pub mod Starting
pub mod Egress
pub mod Hooks
use vomero_sandbox.Common.{
  ℕ, zero, suc, Bool, true, false, not, ◌||◌, Option, none, some, List, [], ◌∷◌, ◌++◌, ℤ, pos,
  negsuc, ltb_ℤ, Text, codes, text_eq, length, if◌then◌else◌,
}
use vomero_sandbox.Errors.{Exc}
use vomero_sandbox.Config.{SandboxConfig}
use vomero_sandbox.Host.{Host, NetworkPolicy, EgressRule}
use vomero_sandbox.Models.{PoolStartReport}
use vomero_sandbox.Pod.{worker_role, given}
use vomero_sandbox.Pool.State.{
  M, Worker, pure, throw, ◌>>=◌, ◌>>◌, gets, modify, call, call_world, try_except, put_free,
}
use vomero_sandbox.Pool.Cluster.{Spawned, delete, try_spawn, has_status}
use vomero_sandbox.Pool.Workers.{close_client}

-- `except client.ApiException`
abbrev pub is_api_error : Exc → Bool
is_api_error (Exc.api_error _) = true
is_api_error _ = false

abbrev member : Text → List Text → Bool
member n [] = false
member n (m ∷ ms) = text_eq m n || member n ms

abbrev pub proxy_rule : Text → Option Text → List EgressRule
proxy_rule label none = []
proxy_rule label (some _) = record { to_app = some label; ports = (codes "TCP", 3128) ∷ [] } ∷ []

-- The policy that `_ensure_network_policy` builds.
unfoldable pub network_policy : SandboxConfig → NetworkPolicy
network_policy c = record {
  name = c.app_label ++ codes "-deny-egress";
  app = c.app_label;
  policy_types = codes "Egress" ∷ [];
  egress =
      record { to_app = none; ports = (codes "UDP", 53) ∷ (codes "TCP", 53) ∷ [] }
      ∷ proxy_rule c.egress_proxy_label (given c.egress_proxy);
}

-- `self.config.min_pool_size or requested`
abbrev pub floor : SandboxConfig → ℤ
floor c = elim c.min_pool_size [ none ↦ c.pool_size | some (pos zero) ↦ c.pool_size | some m ↦ m ]

-- `range(n)`, as the number of rounds.
abbrev pub rounds : ℤ → ℕ
rounds (pos n) = n
rounds (negsuc _) = 0

-- The body of the warming loop, with the rounds that follow it.
unfoldable pub place_next :
    {W : Type 0}
    → (List Worker → M W (List Worker × List Text))
    → List Worker
    → Spawned
    → M W (List Worker × List Text)
place_next again placed (Spawned.refused reason) = pure (placed, reason ∷ [])
place_next again placed (Spawned.worker w) = again (placed ++ w ∷ [])

module _ {W : Type 0} (h : Host W) (c : SandboxConfig) where
  unfoldable pub install_cleanup_hooks : M W (Unit {0})
  install_cleanup_hooks = do
    installed ← gets (λ s. s.cleanup_installed)
    if installed || not c.auto_cleanup
        then pure tt
        else (modify (λ s. record s { cleanup_installed = true }) >> call_world h.register_hooks)

  unfoldable pub ensure_namespace : M W (Unit {0})
  ensure_namespace = do
    names ← call h.list_namespaces
    if member c.namespace names then pure tt else call (h.create_namespace c.namespace)

  unfoldable pub ensure_network_policy : M W (Unit {0})
  ensure_network_policy =
      try_except (call (h.create_policy c.namespace (network_policy c))) (has_status 409)
        (λ _. call (h.replace_policy c.namespace (network_policy c)))

  unfoldable pub delete_all : List Text → M W (Unit {0})
  delete_all [] = pure tt
  delete_all (n ∷ ns) = delete h c n >> delete_all ns

  unfoldable pub delete_workers : M W (Unit {0})
  delete_workers =
      try_except (call (h.list_pods c.namespace c.app_label worker_role) >>= delete_all)
        is_api_error (λ _. pure tt)

  -- `_reclaim_orphans`
  unfoldable pub reclaim_orphans : M W (Unit {0})
  reclaim_orphans = delete_workers

  -- The loop that warms the pool, over the rounds left: the workers placed, oldest first, and why
  -- it stopped early.
  unfoldable pub place : ℕ → List Worker → M W (List Worker × List Text)
  unfolding place_next
  place zero placed = pure (placed, [])
  place (suc n) placed = try_spawn h c >>= place_next (place n) placed

  -- The teardown of a pool below its floor.
  unfoldable pub tear_down : List Worker → M W (Unit {0})
  tear_down [] = pure tt
  tear_down (w ∷ ws) = delete h c w.name >> close_client h w >> tear_down ws

  unfoldable pub put_all : List Worker → M W (Unit {0})
  put_all [] = pure tt
  put_all (w ∷ ws) = put_free w >> put_all ws

  -- The managed parts, each if the configuration asks for it.
  unfoldable pub provision : M W (Unit {0})
  provision = do
    install_cleanup_hooks
    if c.manage_namespace then ensure_namespace else pure tt
    if c.reclaim_on_start then reclaim_orphans else pure tt
    if c.manage_network_policy then ensure_network_policy else pure tt

  abbrev pub report_of : List Worker → List Text → PoolStartReport
  report_of placed reasons = record {
    requested = c.pool_size;
    placed = length placed;
    reasons = reasons;
  }

  -- What follows the warming loop.
  unfoldable pub conclude_start : List Worker × List Text → M W PoolStartReport
  conclude_start (placed, reasons) =
      if ltb_ℤ (pos (length placed)) (floor c)
      then (tear_down placed >> throw Exc.startup_error)
      else (do
        put_all placed
        modify (λ s. record s { start_report = some (report_of placed reasons); started = true })
        pure (report_of placed reasons))

  -- The body of `start` under its lock.
  unfoldable pub warm_up : M W (Option PoolStartReport)
  warm_up = do
    provision
    placed ← place (rounds c.pool_size) []
    report ← conclude_start placed
    pure (some report)

  unfoldable pub start : M W (Option PoolStartReport)
  start = do
    started ← gets (λ s. s.started)
    if started then gets (λ s. s.start_report) else warm_up

  -- The loop of `close` over the free queue.
  unfoldable pub drain : List Worker → M W (Unit {0})
  drain [] = pure tt
  drain (w ∷ ws) = modify (λ s. record s { free = ws }) >> close_client h w >> drain ws

  unfoldable pub close : M W (Unit {0})
  close = do
    modify (λ s. record s { closed = true })
    delete_workers
    left ← gets (λ s. s.free)
    drain left
