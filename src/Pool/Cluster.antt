-- ===== src/Pool/Cluster.antt =====
-- The pool's calls on the cluster: deleting a pod, and placing a worker.
pub mod Frames
pub mod Spawning
pub mod Polling
use vomero_sandbox.Common.{
  ℕ, suc, zero, ◌+◌, Bool, true, false, Option, none, some, List, [], ◌∷◌, ◌++◌, ℤ, pos, ◌+ℤ◌,
  ltb_ℤ, Text, codes, decimal, String, if◌then◌else◌, ◌||◌, ◌&&◌, ◌==◌, ◌/◌, negsuc, sub_ℕ,
}
use text.Mathlib.Text.{◌==◌ as str_eq}
use vomero_sandbox.Errors.{Exc, Outcome, ok, raise, is_exception}
use vomero_sandbox.Config.{SandboxConfig, seconds}
use vomero_sandbox.Pod.{build_worker_pod}
use vomero_sandbox.Host.{Host, PodStatus, Condition}
use vomero_sandbox.Pool.State.{
  M, Worker, Event, pure, throw, ◌>>=◌, ◌>>◌, gets, modify, call, call_pure, call_world, lift,
  try_except, note,
}

-- `e.status == 404` of an ApiException
abbrev pub has_status : ℕ → Exc → Bool
has_status n (Exc.api_error m) = m == n
has_status n _ = false

abbrev equals : Option String → String → Bool
equals none t = false
equals (some s) t = str_eq s t

-- The loop of `_is_unschedulable` over the conditions.
unfoldable pub any_unschedulable : List Condition → Bool
any_unschedulable [] = false
any_unschedulable (c ∷ cs) =
    let rest = any_unschedulable cs in
    if str_eq c.kind "PodScheduled" && str_eq c.status "False" && equals c.reason "Unschedulable"
    then true
    else rest

unfoldable pub is_unschedulable : PodStatus → Bool
unfolding any_unschedulable
is_unschedulable p = any_unschedulable p.conditions

-- `reason in terminal`
unfoldable pub is_terminal : String → Bool
is_terminal r =
    str_eq r "ImagePullBackOff"
    || str_eq r "InvalidImageName"
    || str_eq r "ImageInspectError"
    || str_eq r "RegistryUnavailable"

unfoldable pub first_terminal : List (Option String) → Option String
first_terminal [] = none
first_terminal (none ∷ cs) = first_terminal cs
first_terminal (some r ∷ cs) = if is_terminal r then some r else first_terminal cs

unfoldable pub image_pull_error : PodStatus → Option String
unfolding first_terminal
image_pull_error p = first_terminal p.waiting

-- The loop of `_wait_placed` over the watch; at its end the startup time is over.
unfoldable pub verdict : List PodStatus → Outcome (Unit {0}) → Outcome Bool
verdict [] (ok _) = raise Exc.startup_error
verdict [] (raise e) = raise e
verdict (p ∷ ps) ending =
    let rest = verdict ps ending in
    if str_eq p.phase "Running"
    then ok true
    else if str_eq p.phase "Failed"
    then raise Exc.startup_error
    else elim (image_pull_error p) [
      | some _ ↦ raise Exc.startup_error
      | none ↦ if is_unschedulable p then ok false else rest
    ]

-- The outcome of `_try_spawn`: a worker, or the reason why the cluster would not place one.
pub data Spawned : Type 0 where
  worker : Worker → Spawned
  refused : Text → Spawned

-- `int(s)` of a number of seconds.
abbrev pub whole_seconds : ℤ → ℤ
whole_seconds (pos n) = pos (n / 1_000_000_000)
whole_seconds (negsuc n) = sub_ℕ 0 (suc n / 1_000_000_000)

-- `f"{self.config.app_label}-{self._serial}"`
unfoldable pub worker_name : SandboxConfig → ℕ → Text
worker_name c n = c.app_label ++ codes "-" ++ decimal n

-- `if worker is None: raise SandboxStartupError(...)`
unfoldable pub require_worker : {W : Type 0} → Spawned → M W Worker
require_worker (Spawned.worker w) = pure w
require_worker (Spawned.refused _) = throw Exc.startup_error

-- Sixty seconds are at most 300 pauses of a fifth of a second.
abbrev pub delete_polls : ℕ
delete_polls = 301

module _ {W : Type 0} (h : Host W) (c : SandboxConfig) where
  -- The loop of `_delete`: reads the pod until it is gone or the deadline is reached. `fuel` bounds
  -- the number of reads; a loop that ends in any way but a raise returns None.
  unfoldable pub poll_gone : ℕ → ℤ → Text → M W (Unit {0})
  poll_gone zero deadline name = pure tt
  poll_gone (suc fuel) deadline name =
      let again = poll_gone fuel deadline name in
      (do
        now ← call_pure h.monotonic
        if ltb_ℤ now deadline
            then (do
              gone ←
                  try_except (call (h.read_pod c.namespace name) >> pure false) (has_status 404)
                    (λ _. pure true)
              if gone then pure tt else (call_world (h.sleep (pos 200_000_000)) >> again))
            else pure tt)

  -- The body of `_delete`.
  unfoldable pub request_delete : Text → M W (Unit {0})
  request_delete name = do
    missing ←
        try_except (call (h.delete_pod c.namespace name) >> pure false) (has_status 404)
          (λ _. pure true)
    if missing
        then pure tt
        else (do now ← call_pure h.monotonic; poll_gone delete_polls (now +ℤ seconds 60) name)

  unfoldable pub delete : Text → M W (Unit {0})
  delete name = note (Event.deleted name) >> request_delete name

  unfoldable pub wait_placed : Text → M W Bool
  wait_placed name = do
    watched ← call_pure (h.watch_pod c.namespace name (whole_seconds c.startup_timeout_s))
    lift (verdict watched.statuses watched.ending)

  -- `self._serial += 1; self._spawned += 1` under the lock, and the name.
  abbrev next_name : M W Text
  next_name = do
    modify (λ s. record s { serial = s.serial + 1; spawned = s.spawned + 1 })
    gets (λ s. worker_name c s.serial)

  -- Whether the pod was created; an admission 403 is a refusal, and all else raises.
  unfoldable pub create : Text → M W Bool
  create name =
      try_except
        (call (h.create_pod c.namespace (build_worker_pod c name))
          >> note (Event.created name)
          >> pure true)
        (has_status 403) (λ _. pure false)

  -- The wait for the verdict; an abandoned pod is deleted.
  unfoldable pub confirm : Text → M W Bool
  confirm name = try_except (wait_placed name) is_exception (λ e. delete name >> throw e)

  unfoldable pub adopt : Text → Bool → M W Spawned
  adopt name false =
      delete name
      >> pure (
          Spawned.refused
            (codes "unschedulable: no node has capacity for the worker's resource requests"))
  adopt name true = do
    now ← call_pure h.monotonic
    conn ← call_pure h.new_client
    pure (
        Spawned.worker (record { name = name; created_at = now; uses = 0; api_client = some conn }))

  -- The rest of `_try_spawn` once the pod exists.
  unfoldable pub settle : Text → M W Spawned
  unfolding confirm adopt
  settle name = confirm name >>= adopt name

  -- The creation of the pod, and what follows it.
  unfoldable pub place_pod : Text → M W Spawned
  place_pod name = do
    made ← create name
    if made
        then settle name
        else pure (Spawned.refused (codes "admission rejected (quota exhausted)"))

  unfoldable pub try_spawn : M W Spawned
  try_spawn = do name ← next_name; delete name; place_pod name

  unfoldable pub spawn : M W Worker
  unfolding require_worker
  spawn = try_spawn >>= require_worker
