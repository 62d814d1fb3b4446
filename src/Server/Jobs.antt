-- ===== src/Server/Jobs.antt =====
-- examples/stress_server.py, `JobRunner.run`: a decoded request becomes a run of a project. The body of
-- a request gives the values of `files`; the other arguments have the types that their signature says.

pub mod Running
use vomero_sandbox.Common.{
  ℕ, ◌/◌, ◌+◌, sub_ℕ, zero, suc, ◌+◌, Bool, true, false, ◌&&◌, ◌||◌, Option, none, some, List, [],
  ◌∷◌, ◌++◌, ℤ, pos, negsuc, Text, codes, text_eq, value, get_or, leb, ◌==◌, if◌then◌else◌,
}
use vomero_sandbox.Errors.{Exc, Outcome, ok, raise, ◌>>=◌}
use vomero_sandbox.Config.{SandboxConfig}
use vomero_sandbox.Host.{Host}
use vomero_sandbox.Json.{Json, Items, nil, cons, Fields, end, field}
use vomero_sandbox.Models.{Files, RunResult, is_ok}
use vomero_sandbox.Pool.State.{M, State, throw, lift, then_with}
use vomero_sandbox.Pool.Execution.{Env, Collect}
use vomero_sandbox.Projects.{Node, default_excludes, run_project}
use vomero_sandbox.Server.Packages.{package_dir}
use vomero_sandbox.Server.Utf8.{within, encode, decode}
use vomero_sandbox.Upload.{replicate}

-- What `str.isspace` says of a character.
abbrev pub is_blank : ℕ → Bool
is_blank c =
    within 9 13 c
    || within 28 32 c
    || c == 0x85
    || c == 0xa0
    || c == 0x1680
    || within 0x2000 0x200a c
    || within 0x2028 0x2029 c
    || c == 0x202f
    || c == 0x205f
    || c == 0x3000

abbrev pub all_blank : Text → Bool
all_blank [] = true
all_blank (c ∷ s) = is_blank c && all_blank s

unfoldable pub strip_right : Text → Text
strip_right [] = []
strip_right (c ∷ s) = let rest = c ∷ strip_right s in if all_blank (c ∷ s) then [] else rest

unfoldable pub strip_front : Text → Text
strip_front [] = []
strip_front (c ∷ s) = let rest = strip_front s in if is_blank c then rest else c ∷ s

-- `text.strip()`
unfoldable pub strip : Text → Text
unfolding strip_front strip_right
strip s = strip_right (strip_front s)

-- One element of a list that `bytes` is called with.
unfoldable pub byte_of : Json → Outcome ℕ
byte_of (Json.num (pos n)) = if leb n 255 then ok n else raise Exc.value_error
byte_of (Json.num (negsuc n)) = raise Exc.value_error
byte_of (Json.bool b) = ok (if b then 1 else 0)
byte_of _ = raise Exc.type_error

unfoldable pub bytes_of_items : Items → Outcome (List ℕ)
unfolding byte_of
bytes_of_items nil = ok []
bytes_of_items (cons v xs) = byte_of v >>= λ b. bytes_of_items xs >>= λ bytes. ok (b ∷ bytes)

-- `bytes(v)`: so many zeros for a number, and the elements of a list.
unfoldable pub bytes_of : Json → Outcome (List ℕ)
unfolding bytes_of_items
bytes_of (Json.num (pos n)) = ok (replicate n 0)
bytes_of (Json.num (negsuc n)) = raise Exc.value_error
bytes_of (Json.bool b) = ok (if b then 0 ∷ [] else [])
bytes_of (Json.arr xs) = bytes_of_items xs
bytes_of (Json.obj end) = ok []
bytes_of _ = raise Exc.type_error

-- `v.encode() if isinstance(v, str) else bytes(v)`
unfoldable pub contents_of : Json → Outcome (List ℕ)
unfolding encode bytes_of
contents_of (Json.str s) = encode s
contents_of v = bytes_of v

-- The dict `extra`.
unfoldable pub extra_files : Fields → Outcome Files
unfolding contents_of
extra_files end = ok []
extra_files (field rel v d) =
    contents_of v >>= λ bytes. extra_files d >>= λ files. ok ((rel, bytes) ∷ files)

-- The arguments of `run`.
pub record Job : Type 0 where
  pub package_name : Text
  pub files : Fields
  pub env : Env
  pub timeout : Option ℤ

-- The dict that `run` returns.
pub record JobResult : Type 0 where
  pub run_ok : Bool
  pub exit_code : Option ℤ
  pub timed_out : Bool
  pub duration_s : ℤ
  pub sandbox_id : Text
  pub out : Text
  pub artifact : Text

-- A duration in seconds, of which `real` keeps the whole ones.
abbrev pub whole_seconds : ℤ → ℤ
whole_seconds (pos n) = pos (n / 1_000_000_000)
whole_seconds (negsuc n) = sub_ℕ 0 ((n + 1) / 1_000_000_000)

abbrev pub code_json : Option ℤ → Json
code_json none = Json.null
code_json (some n) = Json.num n

-- The dict as JSON.
unfoldable pub job_json : JobResult → Json
job_json x = Json.obj (
    field (codes "ok") (Json.bool x.run_ok) (
      field (codes "exit_code") (code_json x.exit_code) (
        field (codes "timed_out") (Json.bool x.timed_out) (
          field (codes "duration_s") (Json.real (whole_seconds x.duration_s)) (
            field (codes "sandbox_id") (Json.str x.sandbox_id) (
              field (codes "stdout") (Json.str x.out)
                (field (codes "artifact") (Json.str x.artifact) end)))))))

abbrev pub out_json : Text
out_json = codes "out.json"

-- `r.files.get("out.json", b"")`
abbrev pub artifact_bytes : RunResult → List ℕ
artifact_bytes r = get_or (value out_json r.files) []

unfoldable pub job_result : RunResult → Outcome JobResult
unfolding is_ok strip decode value
job_result r = decode (artifact_bytes r) >>= λ artifact. ok (record {
  run_ok = is_ok r;
  exit_code = r.exit_code;
  timed_out = r.timed_out;
  duration_s = r.duration_s;
  sandbox_id = r.sandbox_id;
  out = strip r.out;
  artifact = artifact;
})

module _ {W : Type 0} (h : Host W) (c : SandboxConfig) (here : Text) (host : Text → Node) where
  unfoldable pub run_package : Text → Files → Job → M W RunResult
  run_package path files job =
      run_project h c (host path) (codes "python" ∷ codes "." ∷ []) job.timeout
        (Collect.paths (out_json ∷ [])) job.env default_excludes false files

  unfoldable pub run_job : Job → M W JobResult
  unfolding extra_files run_package job_result lift
  run_job job s =
      then_with
        (λ (path, files) t. let (r, u) = run_package path files job t in (r >>= job_result, u))
        (package_dir here host job.package_name >>= λ path.
          extra_files job.files >>= λ files. ok (path, files))
        s
