-- ===== src/Config.antt =====
-- src/vomero_sandbox/config.py: the pool's configuration and its validation.
mod Parse
pub mod Checks
pub use Parse.{Quantity, is_zero, exceeds, overcommits}
unfoldable pub use Parse.{parse_quantity}
use vomero_sandbox.Common.{
  ℕ, ◌*◌, Bool, true, false, not, ◌&&◌, ◌||◌, Option, none, some, List, [], ◌∷◌, ◌++◌, ℤ, pos,
  ltb_ℤ, leb_ℤ, Text, codes, is_empty, if◌then◌else◌,
}
use vomero_sandbox.Errors.{Exc, Outcome, ok, raise, ◌>>=◌, ◌>>◌, raise_if}

-- `class SandboxConfig`. Seconds are counted in nanoseconds.
pub record SandboxConfig : Type 0 where
  pub namespace : Text
  pub kube_context : Option Text
  pub image : Text
  pub interpreter : List Text
  pub image_pull_policy : Text
  pub pool_size : ℤ
  pub min_pool_size : Option ℤ
  pub max_uses : ℤ
  pub max_age_s : ℤ
  pub default_timeout_s : ℤ
  pub startup_timeout_s : ℤ
  pub acquire_timeout_s : Option ℤ
  pub max_collect_bytes : ℤ
  pub max_upload_bytes : ℤ
  pub cpu_request : Text
  pub cpu_limit : Text
  pub memory_request : Text
  pub memory_limit : Text
  pub run_as_user : ℤ
  pub run_as_group : ℤ
  pub drop_all_capabilities : Bool
  pub read_only_root_filesystem : Bool
  pub automount_service_account_token : Bool
  pub seccomp_runtime_default : Bool
  pub scratch_dir : Text
  pub fresh_workdir_per_run : Bool
  pub runtime_class : Option Text
  pub egress_proxy : Option Text
  pub egress_proxy_label : Text
  pub manage_namespace : Bool
  pub manage_network_policy : Bool
  pub idle_shutdown_s : Option ℤ
  pub auto_cleanup : Bool
  pub reclaim_on_start : Bool
  pub app_label : Text

abbrev pub seconds : ℕ → ℤ
seconds n = pos (n * 1_000_000_000)

-- `SandboxConfig()`
abbrev pub default_config : SandboxConfig
default_config = record {
  namespace = codes "sandbox";
  kube_context = none;
  image = codes "python:3.13-slim";
  interpreter = codes "python" ∷ codes "-c" ∷ [];
  image_pull_policy = codes "IfNotPresent";
  pool_size = pos 3;
  min_pool_size = none;
  max_uses = pos 25;
  max_age_s = seconds 600;
  default_timeout_s = seconds 30;
  startup_timeout_s = seconds 90;
  acquire_timeout_s = none;
  max_collect_bytes = pos 33_554_432;
  max_upload_bytes = pos 33_554_432;
  cpu_request = codes "100m";
  cpu_limit = codes "500m";
  memory_request = codes "64Mi";
  memory_limit = codes "256Mi";
  run_as_user = pos 1000;
  run_as_group = pos 1000;
  drop_all_capabilities = true;
  read_only_root_filesystem = true;
  automount_service_account_token = false;
  seccomp_runtime_default = true;
  scratch_dir = codes "/scratch";
  fresh_workdir_per_run = true;
  runtime_class = none;
  egress_proxy = none;
  egress_proxy_label = codes "egress-proxy";
  manage_namespace = true;
  manage_network_policy = true;
  idle_shutdown_s = some (seconds 1800);
  auto_cleanup = true;
  reclaim_on_start = false;
  app_label = codes "vomero-sandbox";
}

-- A pair of a request and its limit, under the name of the resource.
pub data Resource : Type 0 where
  cpu memory : Resource

-- One round of the loop of `_check_resources`: whether it warns of overcommitment.
unfoldable pub check_resource : Text → Text → Outcome Bool
check_resource req_s lim_s = do
  req ← parse_quantity req_s
  lim ← parse_quantity lim_s
  raise_if (is_zero req || is_zero lim) Exc.config_error
  raise_if (exceeds req lim) Exc.config_error
  ok (overcommits req lim)

abbrev warn_if : Resource → Bool → List Resource
warn_if r true = r ∷ []
warn_if r false = []

-- The resources that are warned of. A warning that a raise follows is not told of.
unfoldable pub check_resources : SandboxConfig → Outcome (List Resource)
unfolding check_resource
check_resources c = do
  cpu_warns ← check_resource c.cpu_request c.cpu_limit
  memory_warns ← check_resource c.memory_request c.memory_limit
  ok (warn_if Resource.cpu cpu_warns ++ warn_if Resource.memory memory_warns)

-- `x is not None and x <= 0`
abbrev pub not_positive : Option ℤ → Bool
not_positive none = false
not_positive (some x) = leb_ℤ x (pos 0)

-- `m is not None and not (1 <= m <= n)`
abbrev pub outside : Option ℤ → ℤ → Bool
outside none n = false
outside (some m) n = not (leb_ℤ (pos 1) m && leb_ℤ m n)

unfoldable pub validate : SandboxConfig → Outcome (List Resource)
validate c = do
  raise_if (ltb_ℤ c.pool_size (pos 1)) Exc.config_error
  raise_if (outside c.min_pool_size c.pool_size) Exc.config_error
  raise_if (ltb_ℤ c.max_uses (pos 1)) Exc.config_error
  raise_if (leb_ℤ c.default_timeout_s (pos 0)) Exc.config_error
  raise_if (not_positive c.acquire_timeout_s) Exc.config_error
  raise_if (not_positive c.idle_shutdown_s) Exc.config_error
  raise_if (is_empty c.interpreter) Exc.config_error
  raise_if (c.read_only_root_filesystem && is_empty c.scratch_dir) Exc.config_error
  check_resources c
