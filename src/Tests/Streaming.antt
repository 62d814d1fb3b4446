-- ===== src/Tests/Streaming.antt =====
-- Streams on a small pool.
use vomero_sandbox.Common.{refl, true, false, none, some, List, [], ◌∷◌, pos, codes}
use vomero_sandbox.Errors.{ok}
use vomero_sandbox.Config.{default_config, seconds}
use vomero_sandbox.Exec
use vomero_sandbox.Pool.Execution.{Collect}
use vomero_sandbox.Sessions.Life.{held}
use vomero_sandbox.Streams.{Stream, Owner, prepare, enter_with}
use vomero_sandbox.Streams.Finishing.{Use, use_stream, Carried, worker_returned_once}
use vomero_sandbox.Streams.Accounts.{IsSound, retired_or_done}
use vomero_sandbox.Streams.Entering.{Entered, enter_settles}
use vomero_sandbox.Tests.Toy.{toy, alice, small_pool}

abbrev plain : Stream
plain = record {
  owner = Owner.pooled;
  argv = codes "ls" ∷ [];
  timeout = seconds 30;
  wish = Collect.nothing;
  env = [];
  input_files = [];
  clean = false;
  worker = none;
  result = none;
  t0 = pos 0;
  retire = false;
  iterated = false;
  finished = false;
  running = none;
}

abbrev pub entered : Stream
entered = record plain { worker = some alice }

abbrev pub uses : List Use
uses = Use.first ∷ Use.next ∷ Use.leave false ∷ Use.drop ∷ Use.leave true ∷ []

worker_returned_once_example :
    Carried default_config alice false small_pool
      (use_stream toy default_config uses entered small_pool)
worker_returned_once_example =
    worker_returned_once toy default_config uses alice entered small_pool refl refl refl

retired_or_done_example : IsSound (use_stream toy default_config uses entered small_pool)
retired_or_done_example = retired_or_done toy default_config uses entered small_pool refl refl

enter_settles_example :
    Entered plain alice small_pool
      (prepare toy default_config alice (record plain { worker = some alice }) small_pool).0
      (enter_with toy default_config plain (ok alice) small_pool)
enter_settles_example = enter_settles toy default_config plain alice small_pool refl refl

abbrev pinned : Stream
pinned = record entered { owner = Owner.pinned alice (held toy default_config false [] alice) }
