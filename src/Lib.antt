-- ===== src/Lib.antt =====
-- vomero_sandbox: a pool of hardened Kubernetes pods that run untrusted code, one run at a time
-- each. The package is in src/vomero_sandbox/ of the repository.
--
-- The parts. A `SandboxConfig` is checked once, by `validate`. `SandboxPool.start` creates worker
-- pods through the Kubernetes API and puts those that the cluster has placed into a queue of free
-- workers. A call of `run`, `shell` or `exec` takes a worker from the queue, uploads the input
-- files, runs the command over a websocket, collects the output files, and gives the worker back.
-- A worker that is given back goes to a daemon thread that wipes its workspace and frees it, or to
-- one that deletes its pod and places another. A stream holds a worker while its caller iterates
-- over the output, a session for several calls; a checkpoint of a session is a blob that another
-- session can be resumed from. `close` deletes the pods and empties the queue.
--
-- The files.
--   Errors      errors.py, the internal exceptions of _exec.py, and Python's raise and except.
--   Models      models.py: RunResult and PoolStartReport.
--   Config      config.py: SandboxConfig, _parse_quantity (Config/Parse), _check_resources, validate.
--   Scripts     the templates of the programs that are sent into a worker, with their parameters.
--   Pod         _pod.py: build_worker_pod.
--   Json        the JSON values that the library takes apart, and `int(...)` of one.
--   Exec        _exec.py: exec_stream, exec_capture, _exit_code.
--   Upload      _exec.py: upload_files, and the framing that _UPLOADER reads.
--   Host        what the library calls: the Kubernetes client, clock, JSON and base64.
--   Pool        runner.py, SandboxPool. Pool/State has its attributes and the monad of its methods,
--               Pool/Cluster the calls on pods (_try_spawn, _wait_placed, _delete), Pool/Workers
--               the lease, the release and the daemon threads (_lease, _release, _clean_and_return,
--               _replace), Pool/Execution one command (_exec_on_worker, _with_env, _collect),
--               Pool/Lifecycle start and close, with Pool/Lifecycle/Hooks for the exit hooks and stats,
--               Pool/Dispatch the entry points and _dispatch. Pool/Recovery says what a cluster that
--               does what it is asked is.
--   Sessions    runner.py, SandboxSession: entering, calls, checkpoint and closing.
--   Streams     runner.py, SandboxStream, and the methods that make one: Streams/Environment has
--               _stream_env, Streams/Iteration each `next` on the iterator of a stream.
--   Paths       runner.py, _safe_member_name, with posixpath.normpath and str.split.
--   Snapshots   runner.py, _pack_snapshot and _unpack_snapshot, and checkpoint and resume over them.
--   Globs       Python's fnmatch, for _excluded.
--   Projects    runner.py, _read_project_tree, over the file tree of the host, and run_project.
--   Programs    runner.py, _COLLECTOR and _CLEANER, which run inside a worker.
--   System      the pool with all its callers and threads at once, as a step relation; System/Moves
--               is an abstract view of it, which knows only where the workers are; System/Dispatching,
--               System/Streaming and System/Holding relate the callers of the pool to its steps.
--   Server      examples/stress_server.py: Server/Packages has _package_dir, Server/Utf8 Python's UTF-8,
--               Server/Jobs JobRunner and Server/Handling one HTTP request.
--   Consumer    examples/queue_consumer.py: the broker and its consumers, as a step relation.
--   Client      examples/stress_client.py: requests, the count of what came back, percentiles.
--   Harness     examples/stateful_agent.py: what with_stdlib_harness runs around the code of an agent.
--   Tests       a cluster over a clock, concrete runs, and the theorems at concrete inputs.
-- A definition has the name of the function that it models, without a leading underscore; `run` is
-- run_code. A method is a function from the pool's state to an outcome and a state, so that what was
-- written before a raise stays written. A branch of a method that follows a test is often a
-- definition of its own. The daemon threads that are started are entries of the state's `tasks`;
-- the field `events` is a ghost that records the creations and deletions of pods.
--
-- Bounds. Times are whole nanoseconds, durations are not rounded. Python's integers are unbounded.
-- Quantities are exact fractions where Python has floats. The polling of a pod that is deleted is
-- bounded by 301 reads: it lasts 60 seconds, and each read is followed by a pause of a fifth of a
-- second. All other loops run over a finite list: the rounds that a websocket delivers, the statuses
-- that a watch delivers, the workers, the attempts of _replace. A method whose call of the queue
-- would wait for another thread ends in the outcome `blocked`, and changes nothing: the caller's
-- call stands for its last, successful attempt.
--
-- Atomicity. The steps of System are coarser than the code's. An attempt of `_replace` behind its test
-- of `_closed`, with the whole `_spawn` in it, is one step, although only the serial is taken under the
-- lock; and so is `_clean_and_return`, with its test, the wipe and the put. A `close`, a lease or another
-- replacement that falls between the parts of one of these is not a state of the model, and no theorem
-- speaks of it. In Consumer, the whole handling of a message is one step.
--
-- What is not modelled. Texts of exceptions and of reasons beyond their first words; the commands
-- that run inside the workers; in `int(...)` of a text, digits other than ASCII's, and Python's
-- limit on their number; a project with a
-- cycle of links, which is no tree; the programs of examples/ that call the library and print. Of
-- the job server, the decoding of `env` and `timeout_s` is left out: its runner is any, and
-- `JobRunner.run` has arguments of the types that it declares. The Kubernetes API, the clock, json and base64 are parameters, the record Host, and so are tarfile and
-- gzip, the record Archive: theorems hold for every one of them, and a theorem that relies on their
-- behaviour says so.
pub mod Common
pub mod Errors
pub mod Models
pub mod Config
pub mod Scripts
pub mod Pod
pub mod Json
pub mod Exec
pub mod Upload
pub mod Host
pub mod Pool
pub mod Sessions
pub mod Streams
pub mod Paths
pub mod Snapshots
pub mod Globs
pub mod Projects
pub mod Programs
pub mod System
pub mod Server
pub mod Consumer
pub mod Client
pub mod Harness
pub mod Tests
