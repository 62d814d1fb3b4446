-- ===== src/Errors.antt =====
-- src/vomero_sandbox/errors.py, the two internal exceptions of src/vomero_sandbox/_exec.py, and
-- Python's raise, `try: ... except`, and `finally`, over an explicit state.
use vomero_sandbox.Common.{ℕ, Bool, true, false, ◌≡◌, refl, arith}

-- An exception in flight, without its message. `api_error` is the client's `ApiException` with its
-- HTTP status; `interrupt` is any that is no `Exception` (KeyboardInterrupt, SystemExit). `blocked`
-- is none of Python's: the call waits for another thread, and has changed nothing.
pub data Exc : Type 0 where
  sandbox_error config_error startup_error pool_closed : Exc
  exec_timeout upload_error value_error key_error type_error attribute_error other_error interrupt
        blocked :
      Exc
  api_error : ℕ → Exc

-- What `except Exception` catches.
abbrev pub is_exception : Exc → Bool
is_exception Exc.interrupt = false
is_exception Exc.blocked = false
is_exception _ = true

pub data Outcome {ℓ} (A : Type ℓ) : Type ℓ where
  ok : A → Outcome A
  raise : Exc → Outcome A

-- An outcome that is no interrupt.
abbrev pub is_calm : {A : Type 0} → Outcome A → Bool
is_calm (ok _) = true
is_calm (raise e) = is_exception e

infixl 5 ◌>>=◌ ◌>>◌
abbrev pub ◌>>=◌ {ℓ κ} : {A : Type ℓ} {B : Type κ} → Outcome A → (A → Outcome B) → Outcome B
ok a >>= f = f a
raise e >>= f = raise e

abbrev pub ◌>>◌ {ℓ} : {B : Type ℓ} → Outcome (Unit {0}) → Outcome B → Outcome B
m >> k = m >>= λ _. k

-- `if bad: raise e`
abbrev pub raise_if : Bool → Exc → Outcome (Unit {0})
raise_if true e = raise e
raise_if false e = ok tt

abbrev pub succeeded {ℓ} : {A : Type ℓ} → Outcome A → Bool
succeeded (ok _) = true
succeeded (raise _) = false

-- A chain that ends well has gone through each of its parts.
pub bind_ok {ℓ κ} :
    {A : Type ℓ} {B : Type κ} (m : Outcome A) (f : A → Outcome B) (b : B)
    → (m >>= f) ≡ ok b
    → (a : A) × (m ≡ ok a) × (f a ≡ ok b)
bind_ok (ok a) f b e = (a, refl, e)
bind_ok (raise x) f b e = absurd (ground arith)

pub passed {ℓ} :
    {B : Type ℓ} (bad : Bool) (x : Exc) (m : Outcome B) (b : B)
    → (raise_if bad x >> m) ≡ ok b
    → (bad ≡ false) × (m ≡ ok b)
passed true x m b e = absurd (ground arith)
passed false x m b e = (refl, e)
