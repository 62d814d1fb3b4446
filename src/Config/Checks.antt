-- ===== src/Config/Checks.antt =====
-- `validate` and `_check_resources` of src/vomero_sandbox/config.py, read backwards.
use vomero_sandbox.Common.{
  Text, ◌≡◌, List, Bool, false, pos, ltb_ℤ, leb_ℤ, is_empty, ◌&&◌, ◌||◌, arith,
}
use vomero_sandbox.Errors.{ok, bind_ok, passed}
use vomero_sandbox.Config.{
  SandboxConfig, Resource, Quantity, is_zero, exceeds, outside, not_positive, check_resource,
  parse_quantity, validate, check_resources,
}

-- The request and the limit are quantities above zero, and the request is within the limit.
abbrev pub Fits : Text → Text → Type 0
Fits req_s lim_s =
    (req : Quantity) × (lim : Quantity) × (parse_quantity req_s ≡ ok req)
    × (parse_quantity lim_s ≡ ok lim)
    × (is_zero req ≡ false)
    × (is_zero lim ≡ false)
    × (exceeds req lim ≡ false)

-- What the checks of `validate` are for.
pub record Valid (c : SandboxConfig) : Type 0 where
  pub pool : ltb_ℤ c.pool_size (pos 1) ≡ false
  pub least : outside c.min_pool_size c.pool_size ≡ false
  pub uses : ltb_ℤ c.max_uses (pos 1) ≡ false
  pub timeout : leb_ℤ c.default_timeout_s (pos 0) ≡ false
  pub acquire : not_positive c.acquire_timeout_s ≡ false
  pub idle : not_positive c.idle_shutdown_s ≡ false
  pub interpreter : is_empty c.interpreter ≡ false
  pub scratch : (c.read_only_root_filesystem && is_empty c.scratch_dir) ≡ false
  pub cpu : Fits c.cpu_request c.cpu_limit
  pub memory : Fits c.memory_request c.memory_limit

check_resource-Fits : (r l : Text) (b : Bool) → check_resource r l ≡ ok b → Fits r l
unfolding check_resource
check_resource-Fits r l b e =
    let (req, re, e1) = bind_ok (parse_quantity r) _ b e in
    let (lim, le, e2) = bind_ok (parse_quantity l) _ b e1 in
    let (z, e3) = passed (is_zero req || is_zero lim) _ _ b e2 in
    let (x, e4) = passed (exceeds req lim) _ _ b e3 in
    (req, lim, re, le, ground (arith, z), ground (arith, z), x)

-- A configuration that `validate` accepts, with whatever warnings, satisfies every condition that
-- it checks.
pub validate-Valid : (c : SandboxConfig) (ws : List Resource) → validate c ≡ ok ws → Valid c
unfolding validate check_resources
validate-Valid c ws e =
    let (pool, e1) = passed (ltb_ℤ c.pool_size (pos 1)) _ _ ws e in
    let (least, e2) = passed (outside c.min_pool_size c.pool_size) _ _ ws e1 in
    let (uses, e3) = passed (ltb_ℤ c.max_uses (pos 1)) _ _ ws e2 in
    let (timeout, e4) = passed (leb_ℤ c.default_timeout_s (pos 0)) _ _ ws e3 in
    let (acquire, e5) = passed (not_positive c.acquire_timeout_s) _ _ ws e4 in
    let (idle, e6) = passed (not_positive c.idle_shutdown_s) _ _ ws e5 in
    let (interpreter, e7) = passed (is_empty c.interpreter) _ _ ws e6 in
    let (scratch, e8) = passed (c.read_only_root_filesystem && is_empty c.scratch_dir) _ _ ws e7 in
    let (p, cpu, e9) = bind_ok (check_resource c.cpu_request c.cpu_limit) _ ws e8 in
    let (q, memory, _) = bind_ok (check_resource c.memory_request c.memory_limit) _ ws e9 in
    record {
      pool = pool;
      least = least;
      uses = uses;
      timeout = timeout;
      acquire = acquire;
      idle = idle;
      interpreter = interpreter;
      scratch = scratch;
      cpu = check_resource-Fits c.cpu_request c.cpu_limit p cpu;
      memory = check_resource-Fits c.memory_request c.memory_limit q memory;
    }
