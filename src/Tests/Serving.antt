-- ===== src/Tests/Serving.antt =====
-- The job server and the queue's consumers over a small registry.
use vomero_sandbox.Common.{
  ℕ, ◌≡◌, ◌↔◌, refl, true, false, none, some, [], ◌∷◌, ◌++◌, pos, Text, codes, text_eq,
  if◌then◌else◌, arith, ◌+ℤ◌, ◌-ℤ◌, assign, update, sort, value,
}
use vomero_sandbox.Errors.{Exc, ok, raise}
use vomero_sandbox.Config.{default_config}
use vomero_sandbox.Exec.{exec_capture, Response}
use vomero_sandbox.Host.{Host}
use vomero_sandbox.Json.{Json, field, end}
use vomero_sandbox.Paths.{slash, split, join}
use vomero_sandbox.Paths.Normal.{IsPlain}
use vomero_sandbox.Pool.State.{State}
use vomero_sandbox.Projects.{Node, Entries, entry}
use vomero_sandbox.Server.Packages.{registry, is_dir, package_dir}
use vomero_sandbox.Server.Packages.Registered.{package_dir_iff}
use vomero_sandbox.Server.Jobs.{Job, JobResult, run_job}
use vomero_sandbox.Server.Jobs.Running.{Ran, run_job_runs}
use vomero_sandbox.Tests.Toy.{toy, hello, alice, small_pool}

abbrev pub tree : Node
tree = Node.dir (entry (codes "__main__.py") (Node.file 1 (ok (7 ∷ []))) Entries.end)

abbrev place : Text
place = codes "/app/package_registry/stats"

abbrev disk : Text → Node
disk path = if text_eq path place then tree else Node.other

package_dir_iff_example : (package_dir (codes "/app") disk (codes "stats") ≡ ok place) ↔ (
    IsPlain (codes "stats")
    × (place ≡ registry (codes "/app") ++ slash ∷ codes "stats")
    × (split place ≡ split (registry (codes "/app")) ++ codes "stats" ∷ [])
    × (is_dir (disk place) ≡ true))
package_dir_iff_example = package_dir_iff (codes "/app") disk (codes "stats") place

traversal_refused : package_dir (codes "/app") disk (codes "../stats") ≡ raise Exc.value_error
unfolding package_dir text_eq
traversal_refused = refl

abbrev pub said : Text → Response
said out = record { opened_at = pos 0; rounds = record hello { out = out } ∷ []; status = [] }

-- A cluster whose workers take uploads and produce one artifact.
abbrev producer : Host ℕ
producer = record toy {
  exec = λ conn n ns argv t. (ok (said (codes " done ")), t);
  exec_stdin = λ conn n ns argv text t. (ok (ok tt, said (codes "UPLOAD_OK")), t);
  json_loads = λ s. ok (
      Json.obj (field (codes "files") (Json.obj (field (codes "out.json") (Json.str []) end)) end));
  b64decode = λ j. ok (52 ∷ 50 ∷ []);
}

abbrev question : Job
question = record {
  package_name = codes "stats";
  files = field (codes "input.json") (Json.str (codes "[1]")) end;
  env = [];
  timeout = none;
}

abbrev pub answer : JobResult
answer = record {
  run_ok = true;
  exit_code = some (pos 0);
  timed_out = false;
  duration_s = pos 0;
  sandbox_id = alice.name;
  out = codes "done";
  artifact = codes "42";
}

-- The pool after the job.
served : State ℕ
served = (run_job producer default_config (codes "/app") disk question small_pool).1

job_ran : (run_job producer default_config (codes "/app") disk question small_pool).0 ≡ ok answer
unfolding run_job package_dir text_eq is_dir vomero_sandbox.Projects.run_project
    vomero_sandbox.Projects.project_files sort assign update value
    vomero_sandbox.Projects.default_excludes vomero_sandbox.Pool.Dispatch.dispatch
    vomero_sandbox.Pool.State.◌>>=◌ vomero_sandbox.Pool.Dispatch.ensure_started
    vomero_sandbox.Pool.Workers.lease vomero_sandbox.Pool.Dispatch.serve
    vomero_sandbox.Pool.State.capture vomero_sandbox.Pool.Workers.release
    vomero_sandbox.Pool.Execution.exec_on_worker vomero_sandbox.Pool.Execution.check_size join
    vomero_sandbox.Pool.Execution.upload_given vomero_sandbox.Pool.Execution.with_env
    vomero_sandbox.Pool.Execution.collect_wanted vomero_sandbox.Pool.Execution.collect_files
    vomero_sandbox.Pool.Execution.run_command vomero_sandbox.Pool.Execution.decode_collected
    vomero_sandbox.Pool.Execution.total_size vomero_sandbox.Pool.Execution.upload
    vomero_sandbox.Upload.upload_files exec_capture vomero_sandbox.Pool.State.try_except ◌+ℤ◌
    vomero_sandbox.Pool.Dispatch.translate vomero_sandbox.Pool.Execution.clean_if
    vomero_sandbox.Pool.Workers.spent ◌-ℤ◌ vomero_sandbox.Pool.Workers.clean_and_return
    vomero_sandbox.Pool.State.gets vomero_sandbox.Pool.State.pure vomero_sandbox.Pool.State.throw
job_ran = refl

run_job_runs_example :
    Ran producer default_config (codes "/app") disk question small_pool answer served
unfolding served
run_job_runs_example =
    run_job_runs producer default_config (codes "/app") disk question small_pool answer served
      (omega arith, tt) (λ i. (job_ran i, served))
