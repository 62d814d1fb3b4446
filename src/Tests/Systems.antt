-- ===== src/Tests/Systems.antt =====
-- The system from its beginning, over some steps.
use vomero_sandbox.Common.{none, List, ℕ, ◌+◌, ◌≤◌, refl, [], ◌∷◌, codes, length, All}
use vomero_sandbox.Pool.State.{State, Task}
use vomero_sandbox.Config.{default_config}
use vomero_sandbox.Pool.Dispatch.{dispatch}
use vomero_sandbox.Pool.Lifecycle.{start, rounds}
use vomero_sandbox.Pool.Workers.{lease}
use vomero_sandbox.System.{System, Step, Reach, init}
use vomero_sandbox.System.Moves.{Move, IsUsable}
use vomero_sandbox.System.Ownership.{occurrences}
use vomero_sandbox.System.Refinement.{shape, placed_of, Step-Move}
use vomero_sandbox.System.Reachable.{workers_bounded, held_once, free-IsUsable}
use vomero_sandbox.System.Dispatching.{dispatch-Reach}
use vomero_sandbox.System.Streaming.{Tracks, stream-Reach}
use vomero_sandbox.System.Holding.{Use, use_sessions, Backs, session-Reach}
use vomero_sandbox.Sessions.{session}
use vomero_sandbox.Streams.Finishing.{use_stream}
use vomero_sandbox.Tests.Streaming.{entered, uses}
use vomero_sandbox.Tests.Toy.{toy, greet, alice, small_pool, small_system}
use vomero_sandbox.Tests.Codecs.{default_valid}

abbrev warm_system : System ℕ
warm_system = record (init 0) { pool = (start toy default_config (init 0).pool).1 }

warm_step : Step toy default_config (init 0) warm_system
unfolding init
warm_step = Step.starts refl refl

warm : Reach toy default_config (init 0) warm_system
warm = Reach.next Reach.here warm_step

workers_bounded_example :
    let s = warm_system in
    (length s.pool.free + length s.held + length s.pool.tasks + length s.threads
      ≤ placed_of s.pool.start_report)
    × (placed_of s.pool.start_report ≤ rounds default_config.pool_size)
workers_bounded_example = workers_bounded toy default_config 0 warm_system warm

held_once_example : occurrences (codes "vomero-sandbox-1") (shape warm_system) ≤ 1
held_once_example = held_once toy default_config 0 warm_system warm (codes "vomero-sandbox-1")

free-IsUsable_example : All (IsUsable default_config) warm_system.pool.free
free-IsUsable_example = free-IsUsable toy default_config 0 [] default_valid warm_system warm

abbrev leased_system : System ℕ
leased_system = record small_system {
  pool = (lease toy default_config small_pool).1;
  held = alice ∷ [];
}

Step-Move_example : Move default_config (shape small_system) (shape leased_system)
unfolding lease
Step-Move_example =
    Step-Move toy default_config small_system leased_system (Step.leases alice refl refl)

dispatch-Reach_example :
    Reach toy default_config small_system
      (record small_system { pool = (dispatch toy default_config greet small_pool).1 })
dispatch-Reach_example = dispatch-Reach toy default_config small_system greet refl

abbrev depleted : State ℕ
depleted = record small_pool { free = []; tasks = Task.replacing alice ∷ Task.cleaning alice ∷ [] }

abbrev streaming_system : System ℕ
streaming_system = record small_system { pool = record small_pool { free = [] }; held = alice ∷ [] }

stream-Reach_example :
    Tracks toy default_config [] alice [] streaming_system
      (use_stream toy default_config uses entered streaming_system.pool)
stream-Reach_example =
    stream-Reach toy default_config [] alice [] uses entered streaming_system refl refl refl refl

abbrev a_visit : List Use
a_visit = Use.entering ∷ Use.calling greet ∷ Use.saving none ∷ Use.leaving ∷ Use.calling greet ∷ []

session-Reach_example :
    Backs toy default_config small_system
      (use_sessions toy default_config a_visit session small_system.pool)
session-Reach_example = session-Reach toy default_config a_visit session small_system refl
