-- ===== src/Pool/Execution.antt =====
-- Running one command on a worker that is held: the environment, the uploads, the wipe, the exec
-- and the collection of output files.
use vomero_sandbox.Common.{
  ℕ, ◌+◌, Bool, true, false, Option, none, some, List, [], ◌∷◌, ◌++◌, map, ℤ, pos, negsuc, ◌-ℤ◌,
  ltb_ℤ, max_ℤ, Text, codes, is_empty, length, ◌==◌, ◌||◌, if◌then◌else◌,
}
use vomero_sandbox.Errors.{Exc, Outcome, ok, raise}
use vomero_sandbox.Errors
use vomero_sandbox.Config.{SandboxConfig, seconds}
use vomero_sandbox.Exec.{exec_capture}
use vomero_sandbox.Host.{Host}
use vomero_sandbox.Json.{Json, Items, nil, cons, Fields, field, get, strip_left}
use vomero_sandbox.Models.{RunResult, Files}
use vomero_sandbox.Scripts.{Arg, Script}
use vomero_sandbox.Upload.{frame, upload_files, contains}
use vomero_sandbox.Pool.State.{
  M, Worker, pure, throw, ◌>>=◌, ◌>>◌, call, call_pure, lift, try_except,
}

abbrev pub Env : Type 0
Env = List (Text × Text)

abbrev pub has_code : ℕ → Text → Bool
has_code n [] = false
has_code n (c ∷ s) = c == n || has_code n s

-- `not k or "=" in k or "\x00" in k or "\x00" in str(v)`
abbrev pub bad_variable : Text → Text → Bool
bad_variable k v = is_empty k || has_code 61 k || has_code 0 k || has_code 0 v

unfoldable pub env_pairs : Env → Outcome (List Text)
env_pairs [] = ok []
env_pairs ((k, v) ∷ env) =
    let rest = env_pairs env in
    if bad_variable k v
    then raise Exc.value_error
    else Errors.◌>>=◌ rest (λ pairs. ok ((k ++ codes "=" ++ v) ∷ pairs))

-- `None` is the empty dict here: the test `if not env` tells neither apart.
unfoldable pub with_env : List Text → Env → Outcome (List Text)
unfolding env_pairs
with_env argv [] = ok argv
with_env argv (kv ∷ env) =
    Errors.◌>>=◌ (env_pairs (kv ∷ env)) (λ pairs. ok (codes "env" ∷ (pairs ++ argv)))

-- The argument `collect`; a list of no paths is false, as `False` is.
pub data Collect : Type 0 where
  nothing everything : Collect
  paths : List Text → Collect

abbrev pub wants : Collect → Bool
wants Collect.nothing = false
wants Collect.everything = true
wants (Collect.paths ps) = if is_empty ps then false else true

abbrev wanted : Collect → Option (List Text)
wanted Collect.nothing = some []
wanted Collect.everything = none
wanted (Collect.paths ps) = some ps

-- `sum(len(v) for v in files.values())`
unfoldable pub total_size : Files → ℕ
total_size [] = 0
total_size ((_, contents) ∷ files) = length contents + total_size files

abbrev items_list : Items → List Json
items_list nil = []
items_list (cons x xs) = x ∷ items_list xs

abbrev keys_list : Fields → List Json
keys_list Fields.end = []
keys_list (field k _ d) = Json.str k ∷ keys_list d

-- `tuple(v)`
unfoldable pub tuple_of : Json → Outcome (List Json)
tuple_of (Json.arr xs) = ok (items_list xs)
tuple_of (Json.obj d) = ok (keys_list d)
tuple_of (Json.str s) = ok (map (λ c. Json.str (c ∷ [])) s)
tuple_of _ = raise Exc.type_error

-- `{k: base64.b64decode(v) for k, v in ....items()}`
unfoldable pub decode_fields : (Json → Outcome (List ℕ)) → Fields → Outcome Files
decode_fields b64 Fields.end = ok []
decode_fields b64 (field k v d) =
    let rest = decode_fields b64 d in
    Errors.◌>>=◌ (b64 v) (λ bytes. Errors.◌>>=◌ rest (λ files. ok ((k, bytes) ∷ files)))

unfoldable pub decode_files : (Json → Outcome (List ℕ)) → Json → Outcome Files
unfolding decode_fields
decode_files b64 (Json.obj d) = decode_fields b64 d
decode_files b64 _ = raise Exc.attribute_error

-- The `try` of `_collect` around the decoding of the collector's output.
unfoldable pub decode_collected :
    (Text → Outcome Json) → (Json → Outcome (List ℕ)) → Text → Outcome (Files × List Json)
unfolding tuple_of decode_files get
decode_collected loads b64 out = Errors.◌>>=◌ (loads out) λ reply.
    Errors.◌>>=◌ (get reply (codes "files") (Json.obj Fields.end)) λ fs.
      Errors.◌>>=◌ (decode_files b64 fs) λ files.
        Errors.◌>>=◌ (get reply (codes "trunc") (Json.arr nil))
          λ tr. Errors.◌>>=◌ (tuple_of tr) λ trunc. ok (files, trunc)

abbrev pub is_timeout : Exc → Bool
is_timeout Exc.exec_timeout = true
is_timeout _ = false

-- `except (ValueError, TypeError)`
abbrev pub is_value_or_type : Exc → Bool
is_value_or_type Exc.value_error = true
is_value_or_type Exc.type_error = true
is_value_or_type _ = false

abbrev pub is_zero_code : ℤ → Bool
is_zero_code (pos n) = n == 0
is_zero_code (negsuc _) = false

abbrev pub nothing_collected : Files × List Json
nothing_collected = ([], [])

-- The arguments of a run: the command, the time limit, what to collect, the environment, and the
-- input files, with no files for `None`.
pub record Run : Type 0 where
  pub argv : List Text
  pub timeout : ℤ
  pub wish : Collect
  pub env : Env
  pub input_files : Files

module _ {W : Type 0} (h : Host W) where
  -- What the collector's run says, `none` standing for one that timed out.
  unfoldable pub collect_reply : Option (Text × Text × ℤ) → M W (Files × List Json)
  collect_reply none = pure nothing_collected
  collect_reply (some (out, err, code)) =
      if is_zero_code code
      then (if is_empty (strip_left out)
          then pure nothing_collected
          else try_except (lift (decode_collected h.json_loads h.b64decode out)) is_value_or_type
              (λ _. pure nothing_collected))
      else pure nothing_collected

module _ {W : Type 0} (h : Host W) (c : SandboxConfig) where
  -- `exec_capture` of a command on a worker.
  unfoldable pub run_command : Worker → List Arg → ℤ → M W (Text × Text × ℤ)
  run_command w argv timeout = do
    resp ← call (h.exec w.api_client w.name c.namespace argv)
    lift (exec_capture h.json_loads resp timeout)

  abbrev python : Script → List Arg
  python code = Arg.text (codes "python") ∷ Arg.text (codes "-c") ∷ Arg.script code ∷ []

  unfoldable pub clean_workspace : Worker → ℤ → M W (Unit {0})
  clean_workspace w timeout = do
    r ←
        try_except
          (run_command w (python (Script.cleaner c.scratch_dir)) (max_ℤ timeout (seconds 15)))
          is_timeout (λ _. throw Exc.sandbox_error)
    if is_zero_code r.2
        then (if contains (codes "CLEAN_OK") r.0 then pure tt else throw Exc.sandbox_error)
        else throw Exc.sandbox_error

  -- `_collect`: empty if the collector timed out or failed.
  unfoldable pub collect_files : Worker → Collect → ℤ → M W (Files × List Json)
  unfolding collect_reply
  collect_files w wish timeout = do
    r ←
        try_except
          (run_command w (python (Script.collector c.scratch_dir (wanted wish) c.max_collect_bytes))
              (max_ℤ timeout (seconds 15))
            >>= λ r. pure (some r))
          is_timeout (λ _. pure none)
    collect_reply h r

  unfoldable pub upload : Worker → Files → ℤ → M W (Unit {0})
  upload w files timeout = do
    r ← call (
        h.exec_stdin w.api_client w.name c.namespace (python (Script.uploader c.scratch_dir))
          (frame (h.dumps_files files)))
    lift (upload_files r.0 r.1 timeout)

  -- `if input_files:` with its check of the size.
  unfoldable pub check_size : Files → M W (Unit {0})
  check_size files =
      if is_empty files
      then pure tt
      else if ltb_ℤ c.max_upload_bytes (pos (total_size files))
      then throw Exc.value_error
      else pure tt

  unfoldable pub upload_given : Worker → Files → ℤ → M W (Unit {0})
  upload_given w files timeout = if is_empty files then pure tt else upload w files timeout

  unfoldable pub collect_wanted : Worker → Collect → ℤ → M W (Files × List Json)
  collect_wanted w wish timeout =
      if wants wish then collect_files w wish timeout else pure nothing_collected

  unfoldable pub clean_if : Bool → Worker → ℤ → M W (Unit {0})
  clean_if clean w timeout = if clean then clean_workspace w timeout else pure tt

  unfoldable pub exec_on_worker : Worker → Run → Bool → M W RunResult
  exec_on_worker w run clean = do
    check_size run.input_files
    argv ← lift (with_env run.argv run.env)
    t0 ← call_pure h.monotonic
    clean_if clean w run.timeout
    upload_given w run.input_files run.timeout
    r ← run_command w (map Arg.text argv) run.timeout
    collected ← collect_wanted w run.wish run.timeout
    now ← call_pure h.monotonic
    pure (record {
      out = r.0;
      err = r.1;
      exit_code = some r.2;
      timed_out = false;
      duration_s = now -ℤ t0;
      sandbox_id = w.name;
      files = collected.0;
      files_truncated = collected.1;
    })
