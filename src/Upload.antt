-- ===== src/Upload.antt =====
-- `upload_files` of src/vomero_sandbox/_exec.py, and the reading end of it, `_UPLOADER`.
pub mod Framing
use vomero_sandbox.Common.{
  ℕ, zero, suc, ◌-◌, Bool, true, false, ◌&&◌, ◌||◌, Option, none, some, List, [], ◌∷◌, ◌++◌, ℤ,
  ◌+ℤ◌, ltb_ℤ, Text, codes, decimal, length, is_empty, ◌==◌, if◌then◌else◌,
}
use vomero_sandbox.Errors.{Exc, Outcome, ok, raise, ◌>>=◌, ◌>>◌}
use vomero_sandbox.Exec.{Round, Response}
use vomero_sandbox.Json.{Json, to_int}

abbrev pub replicate : ℕ → ℕ → Text
replicate zero c = []
replicate (suc n) c = c ∷ replicate n c

-- `f"{n:016d}"`
unfoldable pub header : ℕ → Text
header n = replicate (16 - length (decimal n)) 48 ++ decimal n

-- What is written to the worker's standard input.
unfoldable pub frame : Text → Text
unfolding header
frame payload = header (length payload) ++ payload

abbrev pub is_prefix : Text → Text → Bool
is_prefix [] s = true
is_prefix (_ ∷ _) [] = false
is_prefix (a ∷ p) (b ∷ s) = a == b && is_prefix p s

-- `p in s`
unfoldable pub contains : Text → Text → Bool
contains p [] = is_empty p
contains p (c ∷ s) = is_prefix p (c ∷ s) || contains p s

abbrev pub confirmation : Text
confirmation = codes "UPLOAD_OK"

-- The loop of `upload_files`, with what standard output has delivered so far.
unfoldable pub await_confirmation : ℤ → Text → List Round → Outcome (Unit {0})
unfolding contains
await_confirmation deadline out [] =
    if contains confirmation out then ok tt else raise Exc.upload_error
await_confirmation deadline out (r ∷ rounds) =
    let rest = await_confirmation deadline (out ++ r.out) rounds in
    if ltb_ℤ deadline r.now then raise Exc.upload_error else elim r.update [
      | raise e ↦ raise e
      | ok _ ↦ if contains confirmation (out ++ r.out) then ok tt else rest
    ]

-- `written` is how `resp.write_stdin` ends.
unfoldable pub upload_files : Outcome (Unit {0}) → Response → ℤ → Outcome (Unit {0})
unfolding await_confirmation
upload_files written resp timeout_s =
    written >> await_confirmation (resp.opened_at +ℤ timeout_s) [] resp.rounds

-- `readn` of the uploader on what is left of standard input, with what it leaves: each read hands on
-- some of the characters still wanted, or none at the end, so the loop takes the first `n` that are
-- there, whatever the pieces.
unfoldable pub readn : ℕ → Text → Text × Text
readn zero s = ([], s)
readn (suc n) [] = ([], [])
readn (suc n) (c ∷ s) = let (buf, rest) = readn n s in (c ∷ buf, rest)

-- `readn(int(readn(16)))`
unfoldable pub receive : Text → Outcome Text
unfolding readn
receive stdin =
    let (head, body) = readn 16 stdin in
    elim (to_int (Json.str head)) [
      | raise e ↦ raise e
      | ok (ℤ.pos n) ↦ ok (readn n body).0
      | ok (ℤ.negsuc n) ↦ ok []
    ]
