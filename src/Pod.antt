-- ===== src/Pod.antt =====
-- src/vomero_sandbox/_pod.py: the hardened pod of a worker, for a configuration and a name.
pub mod Hardening
use vomero_sandbox.Common.{
  ℕ, ◌/◌, Bool, true, false, Option, none, some, List, [], ◌∷◌, ◌++◌, ℤ, pos, negsuc, max_ℤ, min_ℤ,
  Text, codes, if◌then◌else◌,
}
use vomero_sandbox.Config.{SandboxConfig, seconds}
use vomero_sandbox.Scripts.{Arg, Script}

pub record SecurityContext : Type 0 where
  pub run_as_non_root : Bool
  pub run_as_user : ℤ
  pub run_as_group : ℤ
  pub allow_privilege_escalation : Bool
  pub read_only_root_filesystem : Bool
  pub drop : Option (List Text)

pub record Resources : Type 0 where
  pub request_cpu : Text
  pub request_memory : Text
  pub limit_cpu : Text
  pub limit_memory : Text

-- The `scratch` mount, and an `emptyDir` volume of its name.
pub record Mount : Type 0 where
  pub volume : Text
  pub mount_path : Text

pub record EnvVar : Type 0 where
  pub name : Text
  pub value : Text

pub record Container : Type 0 where
  pub name : Text
  pub image : Text
  pub command : List Arg
  pub image_pull_policy : Text
  pub working_dir : Text
  pub security_context : SecurityContext
  pub resources : Resources
  pub volume_mounts : List Mount
  pub env : List EnvVar

pub record Pod : Type 0 where
  pub name : Text
  pub app : Text
  pub role : Text
  pub restart_policy : Text
  pub termination_grace_period_seconds : ℕ
  pub automount_service_account_token : Bool
  pub runtime_class_name : Option Text
  pub seccomp_profile : Option Text
  pub empty_dirs : List Text
  pub container : Container

abbrev pub worker_role : Text
worker_role = codes "worker"

-- `s / 4`, to a nanosecond.
abbrev quarter : ℤ → ℤ
quarter (pos n) = pos (n / 4)
quarter (negsuc n) = negsuc (n / 4)

abbrev pub poll_interval : ℤ → ℤ
poll_interval ttl = max_ℤ (seconds 1) (min_ℤ (seconds 30) (quarter ttl))

unfoldable pub worker_command : SandboxConfig → List Arg
worker_command c = elim c.idle_shutdown_s [
  | none ↦ Arg.text (codes "sleep") ∷ Arg.text (codes "infinity") ∷ []
  | some ttl ↦
      Arg.text (codes "python")
      ∷ Arg.text (codes "-c")
      ∷ Arg.script (Script.watchdog ttl (poll_interval ttl))
      ∷ []
]

-- `if cfg.egress_proxy:` is false of None and of the empty string.
abbrev pub given : Option Text → Option Text
given none = none
given (some []) = none
given (some (c ∷ s)) = some (c ∷ s)

abbrev proxy_env : Option Text → List EnvVar
proxy_env none = []
proxy_env (some url) =
    record { name = codes "HTTPS_PROXY"; value = url }
    ∷ record { name = codes "HTTP_PROXY"; value = url }
    ∷ record { name = codes "NO_PROXY"; value = codes "localhost,127.0.0.1,.svc,.cluster.local" }
    ∷ []

abbrev drop_of : Bool → Option (List Text)
drop_of true = some (codes "ALL" ∷ [])
drop_of false = none

abbrev seccomp_of : Bool → Option Text
seccomp_of true = some (codes "RuntimeDefault")
seccomp_of false = none

unfoldable pub build_worker_pod : SandboxConfig → Text → Pod
unfolding worker_command
build_worker_pod c name = record {
  name = name;
  app = c.app_label;
  role = worker_role;
  restart_policy = codes "Never";
  termination_grace_period_seconds = 2;
  automount_service_account_token = c.automount_service_account_token;
  runtime_class_name = c.runtime_class;
  seccomp_profile = seccomp_of c.seccomp_runtime_default;
  empty_dirs = codes "scratch" ∷ [];
  container = record {
    name = codes "runner";
    image = c.image;
    command = worker_command c;
    image_pull_policy = c.image_pull_policy;
    working_dir = c.scratch_dir;
    security_context = record {
      run_as_non_root = true;
      run_as_user = c.run_as_user;
      run_as_group = c.run_as_group;
      allow_privilege_escalation = false;
      read_only_root_filesystem = c.read_only_root_filesystem;
      drop = drop_of c.drop_all_capabilities;
    };
    resources = record {
      request_cpu = c.cpu_request;
      request_memory = c.memory_request;
      limit_cpu = c.cpu_limit;
      limit_memory = c.memory_limit;
    };
    volume_mounts = record { volume = codes "scratch"; mount_path = c.scratch_dir } ∷ [];
    env =
        record { name = codes "TMPDIR"; value = c.scratch_dir } ∷ proxy_env (given c.egress_proxy);
  };
}
