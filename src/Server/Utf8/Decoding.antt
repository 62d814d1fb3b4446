-- ===== src/Server/Utf8/Decoding.antt =====
-- The bytes that a text is encoded in decode to the text.
use vomero_sandbox.Common.{
  subst, ℕ, ◌+◌, ◌/◌, ◌%◌, ◌*◌, ◌≡◌, ◌≤◌, ◌<◌, refl, false, true, List, [], ◌∷◌, ◌++◌, Text, ltb,
  All, arith, ◌∙◌, Bool-cases, inl, inr,
}
use vomero_sandbox.Errors.{Outcome, ok, ◌>>=◌, bind_ok}
use vomero_sandbox.Server.Utf8.{
  is_surrogate, encode_char, encode, Pending, settled, Decoded, lead_byte, read_byte, next_byte,
  decode_from, decode,
}

next_more :
    (m x lo b : ℕ)
    → next_byte (record { missing = m + 2; bits = x; least = lo }) (128 + b % 64)
      ≡ Decoded.more (record { missing = m + 1; bits = x * 64 + b % 64; least = lo })
unfolding next_byte
next_more m x lo b = ground arith

next_point :
    (x lo b c : ℕ)
    → c ≡ x * 64 + b % 64
    → lo ≤ c
    → c ≤ 0x10ffff
    → is_surrogate c ≡ false
    → next_byte (record { missing = 1; bits = x; least = lo }) (128 + b % 64) ≡ Decoded.point c
unfolding next_byte
next_point x lo b c e l u s = ground arith

decode-more :
    (p q : Pending) (b : ℕ) (s : List ℕ)
    → read_byte p b ≡ Decoded.more q
    → decode_from p (b ∷ s) ≡ decode_from q s
unfolding decode_from
decode-more p q b s e = rw (e, decode_from) refl

decode-point :
    (p : Pending) (b c : ℕ) (s : List ℕ)
    → read_byte p b ≡ Decoded.point c
    → decode_from p (b ∷ s) ≡ (decode_from settled s >>= λ t. ok (c ∷ t))
unfolding decode_from
decode-point p b c s e = rw (e, decode_from) refl

lead_two :
    (x : ℕ)
    → 2 ≤ x
    → x < 32
    → lead_byte (192 + x) ≡ Decoded.more (record { missing = 1; bits = x; least = 0x80 })
unfolding lead_byte
lead_two x l u = ground arith

lead_three :
    (x : ℕ)
    → x < 16
    → lead_byte (224 + x) ≡ Decoded.more (record { missing = 2; bits = x; least = 0x800 })
unfolding lead_byte
lead_three x u = ground arith

lead_four :
    (x : ℕ)
    → x < 5
    → lead_byte (240 + x) ≡ Decoded.more (record { missing = 3; bits = x; least = 0x10000 })
unfolding lead_byte
lead_four x u = ground arith

module _ (c : ℕ) (s : List ℕ) (u : c ≤ 0x10ffff) (n : is_surrogate c ≡ false) where
  abbrev behind : Outcome Text
  behind = decode_from settled s >>= λ t. ok (c ∷ t)

  decode_one : ltb c 0x80 ≡ true → decode_from settled (c ∷ s) ≡ behind
  unfolding lead_byte
  decode_one l = decode-point settled c c s (rw l refl)

  decode_two :
      ltb c 0x80 ≡ false
      → ltb c 0x800 ≡ true
      → decode_from settled ((192 + c / 64) ∷ (128 + c % 64) ∷ s) ≡ behind
  decode_two l h =
      decode-more settled _ _ _ (lead_two (c / 64) (ground arith) (ground arith))
      ∙ decode-point _ _ c s (next_point (c / 64) 0x80 c c (omega arith) (ground arith) u n)

  decode_three :
      ltb c 0x800 ≡ false
      → ltb c 0x10000 ≡ true
      → decode_from settled ((224 + c / 4096) ∷ (128 + c / 64 % 64) ∷ (128 + c % 64) ∷ s) ≡ behind
  decode_three l h =
      decode-more settled _ _ _ (lead_three (c / 4096) (ground arith))
      ∙ decode-more _ _ _ _ (next_more 0 (c / 4096) 0x800 (c / 64))
      ∙ decode-point _ _ c s (next_point _ 0x800 c c (omega arith) (ground arith) u n)

  decode_four :
      ltb c 0x10000 ≡ false
      → decode_from settled
          ((240 + c / 262144) ∷ (128 + c / 4096 % 64) ∷ (128 + c / 64 % 64) ∷ (128 + c % 64) ∷ s)
        ≡ behind
  decode_four l =
      decode-more settled _ _ _ (lead_four (c / 262144) (omega arith))
      ∙ decode-more _ _ _ _ (next_more 1 (c / 262144) 0x10000 (c / 4096))
      ∙ decode-more _ _ _ _ (next_more 0 _ 0x10000 (c / 64))
      ∙ decode-point _ _ c s (next_point _ 0x10000 c c (omega arith) (ground arith) u n)

  decode-char : decode_from settled (encode_char c ++ s) ≡ behind
  unfolding encode_char
  decode-char = elim (Bool-cases (ltb c 0x80)) [
    | inl one ↦ rw one (decode_one one)
    | inr l ↦ elim (Bool-cases (ltb c 0x800)) [
      | inl two ↦ rw (l, two) (decode_two l two)
      | inr m ↦ elim (Bool-cases (ltb c 0x10000)) [
        | inl three ↦ rw (l, m, three) (decode_three m three)
        | inr h ↦ rw (l, m, h) (decode_four h)
      ]
    ]
  ]

encode_char-encode :
    (c : ℕ) (t : Text) (s : List ℕ)
    → is_surrogate c ≡ false
    → encode (c ∷ t) ≡ ok s
    → (encode t >>= λ bytes. ok (encode_char c ++ bytes)) ≡ ok s
unfolding encode
encode_char-encode c t s n e = ground arith

-- A text of code points up to 0x10ffff that encodes comes back from its bytes.
pub decode-encode :
    (t : Text) (s : List ℕ) → All (λ c. c ≤ 0x10ffff) t → encode t ≡ ok s → decode s ≡ ok t
unfolding encode decode
decode-encode [] s u e = let n : [] ≡ s = cc in subst (λ x. decode_from settled x ≡ ok []) n refl
decode-encode (c ∷ t) s (u, us) e = elim (Bool-cases (is_surrogate c)) [
  | inl bad ↦ absurd (ground arith)
  | inr n ↦
      let (bytes, coded, e') = bind_ok (encode t) _ s (encode_char-encode c t s n e) in
      let back : decode_from settled bytes ≡ ok t = decode-encode t bytes us coded in
      let whole : encode_char c ++ bytes ≡ s = cc in
      subst (λ x. decode_from settled x ≡ ok (c ∷ t)) whole (decode-char c bytes u n ∙ rw back refl)
]
