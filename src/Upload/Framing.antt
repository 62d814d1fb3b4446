-- ===== src/Upload/Framing.antt =====
-- The framing of `upload_files` with the reading end, `_UPLOADER`, of src/vomero_sandbox/_exec.py.
use vomero_sandbox.Common.{
  ℕ, zero, suc, ◌-◌, ◌^◌, ◌<◌, ◌≡◌, refl, sym, ap, ℤ, subst, ◌∙◌, [], ◌∷◌, ◌++◌, pos, Text, All,
  All-append, length, length-append, append_assoc, decimal, decimal-IsDigits, length-decimal,
  IsDigit, read_digits, read_digits-decimal, arith,
}
use vomero_sandbox.Errors.{Outcome, ok, raise}
use vomero_sandbox.Json.{Json, to_int}
use vomero_sandbox.Json.Integers.{to_int-digits}
use vomero_sandbox.Upload.{replicate, header, frame, readn, receive}

replicate-IsDigits : (k : ℕ) → All IsDigit (replicate k 48)
replicate-IsDigits zero = tt
replicate-IsDigits (suc k) = ((omega arith, omega arith), replicate-IsDigits k)

length-replicate : (k c : ℕ) → length (replicate k c) ≡ k
length-replicate zero c = refl
length-replicate (suc k) c = ap suc (length-replicate k c)

read_digits-zeros : (k : ℕ) (s : Text) → read_digits 0 (replicate k 48 ++ s) ≡ read_digits 0 s
unfolding read_digits
read_digits-zeros zero s = refl
read_digits-zeros (suc k) s = read_digits-zeros k s

readn-append : (s t : Text) → readn (length s) (s ++ t) ≡ (s, t)
unfolding readn
readn-append [] t = refl
readn-append (c ∷ s) t = rw (readn-append s t) refl

header-IsDigits : (n : ℕ) → All IsDigit (header n)
unfolding header
header-IsDigits n =
    All-append IsDigit (replicate (16 - length (decimal n)) 48) (decimal n)
      (replicate-IsDigits (16 - length (decimal n))) (decimal-IsDigits n)

length-header : (n : ℕ) → n < 10 ^ 16 → length (header n) ≡ 16
unfolding header
length-header n l =
    let short = length-decimal n 16 (omega arith) l in
    omega (
      arith,
      short,
      length-append (replicate (16 - length (decimal n)) 48) (decimal n),
      length-replicate (16 - length (decimal n)) 48,
    )

to_int-header : (n : ℕ) (s : Text) → s ≡ header n → length s ≡ 16 → to_int (Json.str s) ≡ ok (pos n)
unfolding header
to_int-header n [] e l = absurd (omega arith)
to_int-header n (c ∷ s) e l =
    to_int-digits c s (subst (All IsDigit) (sym e) (header-IsDigits n))
    ∙ ap (λ m. ok (pos m))
        (ap (read_digits 0) e
          ∙ read_digits-zeros (16 - length (decimal n)) (decimal n)
          ∙ read_digits-decimal n)

-- `receive`, from where the header has been read.
abbrev taken : Text → Outcome ℤ → Outcome Text
taken body size = elim size [
  | raise e ↦ raise e
  | ok (ℤ.pos n) ↦ ok (readn n body).0
  | ok (ℤ.negsuc n) ↦ ok []
]

receive_lem :
    (s head body : Text) (n : ℕ)
    → readn 16 s ≡ (head, body)
    → to_int (Json.str head) ≡ ok (pos n)
    → receive s ≡ ok (readn n body).0
unfolding receive
receive_lem s head body n e f =
    subst (λ p. taken p.1 (to_int (Json.str p.0)) ≡ ok (readn n body).0) (sym e)
      (subst (λ o. taken body o ≡ ok (readn n body).0) (sym f) refl)

-- What the worker's uploader reads of a framed payload of fewer than 10 ^ 16 characters is the
-- payload, whatever follows it.
pub receive-frame :
    (payload rest : Text) → length payload < 10 ^ 16 → receive (frame payload ++ rest) ≡ ok payload
unfolding receive frame
receive-frame payload rest l =
    let size = length-header (length payload) l in
    let n = to_int-header (length payload) (header (length payload)) refl size in
    let cut : readn 16 ((header (length payload) ++ payload) ++ rest)
        ≡ (header (length payload), payload ++ rest) =
      rw (append_assoc (header (length payload)) payload rest) (
        ap (λ k. readn k (header (length payload) ++ (payload ++ rest))) (sym size)
        ∙ readn-append (header (length payload)) (payload ++ rest)) in
    receive_lem (frame payload ++ rest) _ _ _ cut n ∙ ap (λ p. ok p.0) (readn-append payload rest)
