-- ===== src/Tests/Toy.antt =====
-- A cluster that places every pod at once and runs every command to its end, over a clock in
-- nanoseconds; with workers, runs and a pool for it.
use vomero_sandbox.Common.{
  ℕ, ◌+◌, refl, true, false, none, some, [], ◌∷◌, ℤ, pos, negsuc, codes, arith,
}
use vomero_sandbox.Errors.{Exc, ok, raise}
use vomero_sandbox.Config.{seconds}
use vomero_sandbox.Exec.{Round, Response}
use vomero_sandbox.Host.{Host, PodStatus}
use vomero_sandbox.Pool.State.{State, Worker}
use vomero_sandbox.Pool.Cluster.Polling.{Clocked}
use vomero_sandbox.Pool.Execution.{Run, Collect}
use vomero_sandbox.System.{System}

abbrev running : PodStatus
running = record { phase = "Running"; conditions = []; waiting = [] }

abbrev pub hello : Round
hello = record { now = pos 5; update = ok tt; out = codes "hello"; err = codes "!" }

abbrev pub greeting : ℕ → Response
greeting t = record { opened_at = pos t; rounds = record hello { now = pos t } ∷ []; status = [] }

abbrev later : ℤ → ℕ → ℕ
later (pos d) t = t + d
later (negsuc d) t = t

abbrev pub toy : Host ℕ
toy = record {
  create_pod = λ ns p t. (ok tt, t);
  delete_pod = λ ns n t. (ok tt, t);
  read_pod = λ ns n t. (raise (Exc.api_error 404), t);
  list_pods = λ ns app role t. (ok [], t);
  watch_pod = λ ns n d t. (record { statuses = running ∷ []; ending = ok tt }, t);
  list_namespaces = λ t. (ok [], t);
  create_namespace = λ ns t. (ok tt, t);
  create_policy = λ ns p t. (ok tt, t);
  replace_policy = λ ns p t. (ok tt, t);
  new_client = λ t. (7, t);
  close_client = λ n t. (ok tt, t);
  exec = λ conn n ns argv t. (ok (greeting t), t);
  exec_stdin = λ conn n ns argv text t. (ok (ok tt, greeting t), t);
  register_hooks = λ t. t;
  monotonic = λ t. (pos t, t);
  sleep = later;
  json_loads = λ s. raise Exc.value_error;
  b64decode = λ j. ok [];
  dumps_files = λ fs. codes "{}";
}

pub toy-Clocked : Clocked toy (λ t. t)
toy-Clocked = record {
  now = λ t. refl;
  after_now = λ t. omega arith;
  after_read = λ ns n t. omega arith;
  after_pause = λ d t. omega arith;
}

abbrev pub alice : Worker
alice = record {
  name = codes "vomero-sandbox-1";
  created_at = pos 0;
  uses = 0;
  api_client = some 7;
}

abbrev pub greet : Run
greet = record {
  argv = codes "echo" ∷ codes "hello" ∷ [];
  timeout = seconds 30;
  wish = Collect.nothing;
  env = [];
  input_files = [];
}

-- A pool before `start`.
abbrev pub fresh : State ℕ
fresh = record {
  free = [];
  serial = 0;
  spawned = 0;
  retired = 0;
  started = false;
  closed = false;
  start_report = none;
  cleanup_installed = false;
  tasks = [];
  events = [];
  world = 0;
}

abbrev pub small_pool : State ℕ
small_pool = record fresh { free = alice ∷ []; serial = 1; spawned = 1; started = true }

abbrev pub small_system : System ℕ
small_system = record { pool = small_pool; held = []; threads = [] }
