-- ===== src/Server/Utf8.antt =====
-- examples/stress_server.py: Python's `str.encode()` and `bytes.decode()`: UTF-8, in its strict form. A text may hold surrogates,
-- as those of JSON do; UTF-8 has none.
pub mod Decoding
use vomero_sandbox.Common.{
  ℕ, ◌+◌, ◌-◌, ◌*◌, ◌/◌, ◌%◌, Bool, ◌&&◌, ◌||◌, List, [], ◌∷◌, ◌++◌, Text, ltb, leb, if◌then◌else◌,
}
use vomero_sandbox.Errors.{Exc, Outcome, ok, raise, ◌>>=◌}

abbrev pub within : ℕ → ℕ → ℕ → Bool
within lo hi c = leb lo c && leb c hi

abbrev pub is_surrogate : ℕ → Bool
is_surrogate c = within 0xd800 0xdfff c

unfoldable pub encode_char : ℕ → List ℕ
encode_char c =
    if ltb c 0x80
    then c ∷ []
    else if ltb c 0x800
    then (192 + c / 64) ∷ (128 + c % 64) ∷ []
    else if ltb c 0x10000
    then (224 + c / 4096) ∷ (128 + c / 64 % 64) ∷ (128 + c % 64) ∷ []
    else (240 + c / 262144) ∷ (128 + c / 4096 % 64) ∷ (128 + c / 64 % 64) ∷ (128 + c % 64) ∷ []

-- `text.encode()`
unfoldable pub encode : Text → Outcome (List ℕ)
unfolding encode_char
encode [] = ok []
encode (c ∷ s) =
    let rest = encode s in
    if is_surrogate c
    then raise Exc.value_error
    else (rest >>= λ bytes. ok (encode_char c ++ bytes))

-- A decoder between two bytes: how many are missing, the bits so far, and the least code point that
-- may be written in so many bytes.
pub record Pending : Type 0 where
  pub missing : ℕ
  pub bits : ℕ
  pub least : ℕ

abbrev pub settled : Pending
settled = record { missing = 0; bits = 0; least = 0 }

-- Where a byte leaves the decoder: it is wrong, or it completes a code point, or more must follow.
pub data Decoded : Type 0 where
  wrong : Decoded
  point : ℕ → Decoded
  more : Pending → Decoded

unfoldable pub lead_byte : ℕ → Decoded
lead_byte b =
    if ltb b 128
    then Decoded.point b
    else if within 194 223 b
    then Decoded.more (record { missing = 1; bits = b - 192; least = 0x80 })
    else if within 224 239 b
    then Decoded.more (record { missing = 2; bits = b - 224; least = 0x800 })
    else if within 240 244 b
    then Decoded.more (record { missing = 3; bits = b - 240; least = 0x10000 })
    else Decoded.wrong

abbrev pub complete_point : ℕ → ℕ → Decoded
complete_point least c =
    if ltb c least || is_surrogate c || ltb 0x10ffff c then Decoded.wrong else Decoded.point c

unfoldable pub next_byte : Pending → ℕ → Decoded
next_byte p b =
    if within 128 191 b
    then if leb p.missing 1
      then complete_point p.least (p.bits * 64 + (b - 128))
      else Decoded.more (record p { missing = p.missing - 1; bits = p.bits * 64 + (b - 128) })
    else Decoded.wrong

abbrev pub read_byte : Pending → ℕ → Decoded
read_byte p b = if leb p.missing 0 then lead_byte b else next_byte p b

unfoldable pub decode_from : Pending → List ℕ → Outcome Text
unfolding lead_byte next_byte
decode_from p [] = if leb p.missing 0 then ok [] else raise Exc.value_error
decode_from p (b ∷ s) = elim (read_byte p b) [
  | Decoded.wrong ↦ raise Exc.value_error
  | Decoded.point c ↦ decode_from settled s >>= λ t. ok (c ∷ t)
  | Decoded.more q ↦ decode_from q s
]

-- `contents.decode()`
unfoldable pub decode : List ℕ → Outcome Text
unfolding decode_from
decode s = decode_from settled s
