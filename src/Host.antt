-- ===== src/Host.antt =====
-- What the library calls and does not implement: the Kubernetes client, the clock, and the
-- standard library's JSON and base64. `W` is the state of the world outside the process; each call
-- reads and changes it, and may raise. Other processes act within the calls.
use vomero_sandbox.Common.{Option, List, ℕ, ℤ, Text, String}
use vomero_sandbox.Errors.{Outcome}
use vomero_sandbox.Exec.{Response}
use vomero_sandbox.Json.{Json}
use vomero_sandbox.Models.{Files}
use vomero_sandbox.Pod.{Pod}
use vomero_sandbox.Scripts.{Arg}

-- A condition of `pod.status.conditions`; a field that is None equals no text.
pub record Condition : Type 0 where
  pub kind : String
  pub status : String
  pub reason : Option String

-- `pod.status`. A container's entry is the reason it waits for, if it has a state, that state says
-- that it waits, and the wait has a reason.
pub record PodStatus : Type 0 where
  pub phase : String
  pub conditions : List Condition
  pub waiting : List (Option String)

-- A rule of the egress policy: the pods that it opens, by their `app` label (none: any
-- destination), and the ports.
pub record EgressRule : Type 0 where
  pub to_app : Option Text
  pub ports : List (Text × ℕ)

pub record NetworkPolicy : Type 0 where
  pub name : Text
  pub app : Text
  pub policy_types : List Text
  pub egress : List EgressRule

-- A watch: the statuses that it delivers, and how it ends.
pub record Watched : Type 0 where
  pub statuses : List PodStatus
  pub ending : Outcome (Unit {0})

pub record Host (W : Type 0) : Type 0 where
  -- `CoreV1Api`: the namespace first.
  pub create_pod : Text → Pod → W → Outcome (Unit {0}) × W
  pub delete_pod : Text → Text → W → Outcome (Unit {0}) × W
  pub read_pod : Text → Text → W → Outcome (Unit {0}) × W
  -- The names of the pods with the labels `app` and `role`.
  pub list_pods : Text → Text → Text → W → Outcome (List Text) × W
  -- The pod of a name, for so many seconds.
  pub watch_pod : Text → Text → ℤ → W → Watched × W
  pub list_namespaces : W → Outcome (List Text) × W
  pub create_namespace : Text → W → Outcome (Unit {0}) × W
  -- `NetworkingV1Api`
  pub create_policy : Text → NetworkPolicy → W → Outcome (Unit {0}) × W
  pub replace_policy : Text → NetworkPolicy → W → Outcome (Unit {0}) × W
  -- `ApiClient(configuration)`, by a number for the object, and its `close`.
  pub new_client : W → ℕ × W
  pub close_client : ℕ → W → Outcome (Unit {0}) × W
  -- `stream(connect_get_namespaced_pod_exec, ...)` on a client, a pod and a command.
  pub exec : Option ℕ → Text → Text → List Arg → W → Outcome Response × W
  -- The same with standard input, and how writing the text there ends.
  pub exec_stdin :
      Option ℕ → Text → Text → List Arg → Text → W → Outcome (Outcome (Unit {0}) × Response) × W
  -- `atexit.register` of the pool's close, and the handler of SIGTERM.
  pub register_hooks : W → W
  -- `time.monotonic` and `time.sleep`
  pub monotonic : W → ℤ × W
  pub sleep : ℤ → W → W
  -- `json.loads`, `base64.b64decode`, and `json.dumps` of a dict of base64 texts
  pub json_loads : Text → Outcome Json
  pub b64decode : Json → Outcome (List ℕ)
  pub dumps_files : Files → Text
