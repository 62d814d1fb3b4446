-- ===== src/Tests/Runs.antt =====
-- The pool's methods on a small pool.
use vomero_sandbox.Common.{◌+ℤ◌, ◌+◌, ◌≡◌, ◌⊎◌, refl, true, false, none, [], pos, codes, arith}
use vomero_sandbox.Errors.{succeeded, ok, Exc, raise}
use vomero_sandbox.Config.{default_config}
use vomero_sandbox.Pool.State.{◌>>=◌, try_except, outstanding}
use vomero_sandbox.Pool.Cluster.{
  try_spawn, worker_name, poll_gone, delete_polls, delete, request_delete, place_pod, create,
  settle, confirm, adopt, wait_placed, verdict,
}
use vomero_sandbox.Pool.Cluster.Spawning.{hired, interrupted, IsNew, Counted, try_spawn_accounts}
use vomero_sandbox.Pool.Cluster.Polling.{polls_enough}
use vomero_sandbox.Pool.Dispatch.Closing.{close_ends}
use vomero_sandbox.Pool.Dispatch.Ending.{Answered, sigterm_closes}
use vomero_sandbox.Pool.Lifecycle.Hooks.{Handler, handle_sigterm}
use vomero_sandbox.Pool.Dispatch.{dispatch, serve}
use vomero_sandbox.Pool.Dispatch.Serving.{is_faulty, Answers, GivenBack, ended, serve_returns}
use vomero_sandbox.Pool.Lifecycle.{start, close}
use vomero_sandbox.Pool.Lifecycle.Starting.{Starts, start-Starts}
use vomero_sandbox.Pool.Effects.{Queued}
use vomero_sandbox.Pool.State.{Task}
use vomero_sandbox.Pool.Workers.{used}
use vomero_sandbox.Sessions.{session_call, leave}
use vomero_sandbox.Sessions.Life.{held, Settled, call_settles, leave_wipes}
use vomero_sandbox.Tests.Toy.{toy, toy-Clocked, alice, greet, fresh, small_pool}

polls_enough_example :
    poll_gone toy default_config delete_polls
      (pos (5 + 60_000_000_000))
      (codes "w")
      (record fresh { world = 5 })
    ≡ poll_gone toy default_config 400
        (pos (5 + 60_000_000_000))
        (codes "w")
        (record fresh { world = 5 })
polls_enough_example =
    polls_enough toy default_config (λ t. t) toy-Clocked 400 5 (codes "w")
      (record fresh { world = 5 }) (omega arith) (omega arith)

serve_returns_example :
    let (q, t) = serve toy default_config alice greet small_pool in
    Answers alice (ended toy default_config alice greet small_pool) q
    × GivenBack default_config alice
        (is_faulty (ended toy default_config alice greet small_pool))
        small_pool
        t
serve_returns_example = serve_returns toy default_config alice greet small_pool

start-Starts_example : Starts toy default_config fresh (start toy default_config fresh)
start-Starts_example = start-Starts toy default_config fresh refl

spawned_alice : interrupted (try_spawn toy default_config fresh).0 ≡ false
unfolding try_spawn delete request_delete place_pod create settle confirm adopt wait_placed verdict
    ◌>>=◌ try_except poll_gone ◌+ℤ◌
spawned_alice = refl

try_spawn_accounts_example :
    let n = worker_name default_config 1 in
    let (q, u) = try_spawn toy default_config fresh in
    ((IsNew n q × (outstanding n u.events ≡ true))
      ⊎ ((hired q ≡ none) × (outstanding n u.events ≡ false)))
    × (outstanding (codes "other") u.events ≡ false)
    × Counted fresh u
unfolding outstanding worker_name
try_spawn_accounts_example =
    try_spawn_accounts toy default_config fresh (codes "other") spawned_alice (λ e. absurd (cc))

call_settles_example :
    Settled
      (held toy default_config false [] alice)
      alice
      (ended toy default_config alice greet small_pool)
      small_pool
      (session_call toy default_config (held toy default_config false [] alice) greet small_pool)
call_settles_example = call_settles toy default_config [] alice greet small_pool

leave_wipes_example :
    let (q, t) = leave toy default_config (held toy default_config false [] alice) small_pool in
    (q ≡ ok (record (held toy default_config false [] alice) { worker = none }))
    × (Queued (Task.replacing alice) small_pool t
        ⊎ Queued (Task.replacing (used alice)) small_pool t
        ⊎ Queued (Task.cleaning (used alice)) small_pool t)
leave_wipes_example =
    leave_wipes toy default_config (held toy default_config false [] alice) alice small_pool refl

close_ends_example :
    let (q, t) = close toy default_config small_pool in
    (t.closed ≡ true)
    × ((succeeded q ≡ false) ⊎ (t.free ≡ []))
    × (dispatch toy default_config greet t ≡ (raise Exc.pool_closed, t))
close_ends_example = close_ends toy default_config small_pool greet

sigterm_closes_example :
    let (q, t) = handle_sigterm toy default_config Handler.standard small_pool in
    Answered Handler.standard (close toy default_config small_pool) q
    × (t.closed ≡ true)
    × (dispatch toy default_config greet t ≡ (raise Exc.pool_closed, t))
sigterm_closes_example = sigterm_closes toy default_config Handler.standard small_pool greet
