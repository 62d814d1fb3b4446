-- ===== src/Server/Jobs/Running.antt =====
-- What the job server runs, and what it sends back.
use vomero_sandbox.Common.{
  ℕ, subst, ◌≡◌, ◌≤◌, refl, ap, ◌∙◌, inl, inr, true, List, [], ◌∷◌, ◌++◌, Text, All, arith,
  Bool-cases,
}
use vomero_sandbox.Errors.{Exc, Outcome, ok, raise, ◌>>=◌, bind_ok}
use vomero_sandbox.Config.{SandboxConfig}
use vomero_sandbox.Host.{Host}
use vomero_sandbox.Json.{Json, Fields, end, field}
use vomero_sandbox.Models.{Files, RunResult, is_ok}
use vomero_sandbox.Paths.{slash}
use vomero_sandbox.Paths.Normal.{IsPlain}
use vomero_sandbox.Pool.State.{State, then_with}
use vomero_sandbox.Projects.{Node}
use vomero_sandbox.Server.Packages.{registry, is_dir, invalid_name, join_path, package_dir}
use vomero_sandbox.Server.Packages.Registered.{package_dir_iff}
use vomero_sandbox.Server.Utf8.{decode}
use vomero_sandbox.Server.Utf8.Decoding.{decode-encode}
use vomero_sandbox.Server.Jobs.{
  contents_of, extra_files, Job, JobResult, artifact_bytes, job_result, run_package, run_job,
}

-- A text that Python can hold.
abbrev pub IsText : Json → Type 0
IsText (Json.str t) = All (λ c. c ≤ 0x10ffff) t
IsText _ = Unit

abbrev pub AllTexts : Fields → Type 0
AllTexts end = Unit
AllTexts (field _ v d) = IsText v × AllTexts d

-- The bytes say what the value says: those of a text decode to it.
abbrev pub Says : Json → List ℕ → Type 0
Says (Json.str t) bytes = decode bytes ≡ ok t
Says _ bytes = Unit

-- The files of a request, one by one and in their order.
abbrev pub Carries : Fields → Files → Type 0
Carries end [] = Unit
Carries end (_ ∷ _) = ⊥
Carries (field _ _ _) [] = ⊥
Carries (field rel v d) ((name, bytes) ∷ files) = (name ≡ rel) × Says v bytes × Carries d files

contents_of-Says : (v : Json) (bytes : List ℕ) → IsText v → contents_of v ≡ ok bytes → Says v bytes
unfolding contents_of
contents_of-Says (Json.str t) bytes u e = decode-encode t bytes u e
contents_of-Says Json.null bytes u e = tt
contents_of-Says v bytes u e = tt

extra_files-Carries :
    (d : Fields) (files : Files) → AllTexts d → extra_files d ≡ ok files → Carries d files
unfolding extra_files
extra_files-Carries end [] u e = tt
extra_files-Carries end (f ∷ fs) u e = absurd (ground arith)
extra_files-Carries (field rel v d) files (u, us) e =
    let (bytes, held, e') = bind_ok (contents_of v) _ files e in
    let (rest, more, e'') = bind_ok (extra_files d) _ files e' in
    let whole : (rel, bytes) ∷ rest ≡ files = cc in
    subst (Carries (field rel v d)) whole
      (refl, contents_of-Says v bytes u held, extra_files-Carries d rest us more)

unregistered :
    (here : Text) (host : Text → Node) (name : Text)
    → ((path : Text) → package_dir here host name ≡ ok path → ⊥)
    → package_dir here host name ≡ raise Exc.value_error
unfolding package_dir
unregistered here host name n = elim (Bool-cases (invalid_name name)) [
  | inl bad ↦ rw bad refl
  | inr good ↦ elim (Bool-cases (is_dir (host (join_path (registry here) name)))) [
    | inl d ↦ absurd (n (join_path (registry here) name) (rw (good, d) refl))
    | inr d ↦ rw (good, d) refl
  ]
]

prepared :
    {W A B : Type 0} (prep : Outcome A) (k : A → State W → Outcome B × State W) (s : State W)
    (b : B) (t : State W)
    → then_with k prep s ≡ (ok b, t)
    → (a : A) × (prep ≡ ok a) × (k a s ≡ (ok b, t))
prepared (ok a) k s b t e = (a, refl, e)
prepared (raise x) k s b t e = absurd (failed x (ap (λ p. p.0) e))
  where
    failed : (x : Exc) → raise x ≡ ok b → ⊥
    failed x e = cc

shown :
    (r : RunResult) (x : JobResult)
    → job_result r ≡ ok x
    → (x.run_ok ≡ is_ok r) × (decode (artifact_bytes r) ≡ ok x.artifact)
unfolding job_result
shown r x e =
    let (artifact, clean, same) = bind_ok (decode (artifact_bytes r)) _ x e in
    (cc, clean ∙ ap ok (cc))

chosen :
    {A B : Type 0} (m : Outcome A) (n : Outcome B) (a : A) (b : B)
    → ◌>>=◌ {B = A × B} m (λ x. ◌>>=◌ {B = A × B} n (λ y. ok (x, y))) ≡ ok (a, b)
    → (m ≡ ok a) × (n ≡ ok b)
chosen (ok x) (ok y) a b e = (cc, cc)
chosen (ok x) (raise z) a b e = absurd (cc)
chosen (raise z) n a b e = absurd (cc)

module _ {W : Type 0} (h : Host W) (c : SandboxConfig) (here : Text) (host : Text → Node) where
  -- What a job that returns has run.
  pub record Ran (job : Job) (s : State W) (x : JobResult) (t : State W) : Type 0 where
    pub path : Text
    pub files : Files
    pub result : RunResult
    pub plain : IsPlain job.package_name
    pub below : path ≡ registry here ++ slash ∷ job.package_name
    pub there : is_dir (host path) ≡ true
    pub carried : Carries job.files files
    pub ran : run_package h c here host path files job s ≡ (ok result, t)
    pub judged : x.run_ok ≡ is_ok result
    pub read : decode (artifact_bytes result) ≡ ok x.artifact

  ended-Ran :
      (job : Job) (s : State W) (x : JobResult) (t : State W) (path : Text) (files : Files)
      → AllTexts job.files
      → package_dir here host job.package_name ≡ ok path
      → extra_files job.files ≡ ok files
      → ((run_package h c here host path files job s).0 >>= job_result) ≡ ok x
      → (run_package h c here host path files job s).1 ≡ t
      → Ran job s x t
  ended-Ran job s x t path files u found coded e l =
      let (plain, below, parts, there) =
        (package_dir_iff here host job.package_name path).0 found in
      let run = run_package h c here host path files job s in
      let (result, good, made) = bind_ok run.0 job_result x e in
      let (judged, read) = shown result x made in
      record {
        path = path;
        files = files;
        result = result;
        plain = plain;
        below = below;
        there = there;
        carried = extra_files-Carries job.files files u coded;
        ran = λ i. (good i, l i);
        judged = judged;
        read = read;
      }

  -- A job that returns has run the directory of the registry under the name of its package, a name
  -- of one part, once, with the files of the request (each text as bytes that decode to it), and
  -- gives back whether the run was ok, and the text that the bytes of its out.json decode to.
  pub run_job_runs :
      (job : Job) (s : State W) (x : JobResult) (t : State W)
      → AllTexts job.files
      → run_job h c here host job s ≡ (ok x, t)
      → Ran job s x t
  unfolding run_job
  run_job_runs job s x t u e =
      let ((path, files), ready, ended) = prepared _ _ s x t e in
      let (found, coded) =
        chosen (package_dir here host job.package_name) (extra_files job.files) path files ready in
      ended-Ran job s x t path files u found coded (ap (λ p. p.0) ended) (ap (λ p. p.1) ended)

  -- A job whose package is not in the registry raises ValueError before anything of the pool is touched.
  pub job_refused :
      (job : Job) (s : State W)
      → ((path : Text) → package_dir here host job.package_name ≡ ok path → ⊥)
      → run_job h c here host job s ≡ (raise Exc.value_error, s)
  unfolding run_job
  job_refused job s n = rw (unregistered here host job.package_name n) refl
