-- ===== src/Paths/Normal.antt =====
-- `posixpath.normpath` on the names that the library's own snapshots hold.
use vomero_sandbox.Common.{
  ◌≡◌, refl, sym, ap, ◌∙◌, Bool, true, false, List, [], ◌∷◌, ◌++◌, append_assoc, append-nil, subst,
  ℕ, All, Text, codes, is_empty, ◌==◌, arith,
}
use vomero_sandbox.Upload.{is_prefix}
use vomero_sandbox.Paths.{
  slash, split, join, is_dot, is_dotdot, normal_parts, normpath, any_unsafe, safe_member_name,
  initial_slashes,
}

-- A part of a path that names a file or a directory: not empty, without a slash, not `.` or `..`.
abbrev pub IsPlain : Text → Type 0
IsPlain p =
    (is_empty p ≡ false)
    × All (λ c. (c == slash) ≡ false) p
    × (is_dot p ≡ false)
    × (is_dotdot p ≡ false)

-- A relative path of such parts.
pub record IsTidy (name : Text) : Type 0 where
  pub first : Text
  pub rest : List Text
  pub plain : All IsPlain (first ∷ rest)
  pub named : name ≡ join (first ∷ rest)

split-part :
    (p s : Text) (q : Text) (qs : List Text)
    → All (λ c. (c == slash) ≡ false) p
    → split s ≡ q ∷ qs
    → split (p ++ s) ≡ (p ++ q) ∷ qs
unfolding split
split-part [] s q qs a e = e
split-part (c ∷ p) s q qs (a, b) e = rw a (rw (split-part p s q qs b e) refl)

pub split-join : (p : Text) (ps : List Text) → All IsPlain (p ∷ ps) → split (join (p ∷ ps)) ≡ p ∷ ps
unfolding split join
split-join p [] (a, b) =
    subst (λ x. split x ≡ x ∷ []) (append-nil p) (split-part p [] [] [] a.1 refl)
split-join p (q ∷ ps) (a, b) =
    split-part p (slash ∷ join (q ∷ ps)) [] (q ∷ ps) a.1 (ap (λ x. [] ∷ x) (split-join q ps b))
    ∙ ap (λ x. x ∷ q ∷ ps) (append-nil p)

normal_parts-plain :
    (r : Bool) (acc ps : List Text) → All IsPlain ps → normal_parts r acc ps ≡ acc ++ ps
unfolding normal_parts
normal_parts-plain r acc [] a = sym (append-nil acc)
normal_parts-plain r acc (p ∷ ps) ((n, x, d, e), b) =
    rw n (rw d (rw e (normal_parts-plain r (acc ++ p ∷ []) ps b ∙ append_assoc acc (p ∷ []) ps)))

any_unsafe-plain : (ps : List Text) → All IsPlain ps → any_unsafe ps ≡ false
any_unsafe-plain [] a = refl
any_unsafe-plain (p ∷ ps) ((n, x, d, e), b) = ground (arith, any_unsafe-plain ps b)

-- What a joined path begins with, by its first part.
abbrev tail : List Text → Text
tail [] = []
tail (q ∷ ps) = slash ∷ join (q ∷ ps)

join-cons : (p : Text) (ps : List Text) → join (p ∷ ps) ≡ p ++ tail ps
unfolding join
join-cons p [] = sym (append-nil p)
join-cons p (q ∷ ps) = refl

relative :
    (c : ℕ) (s : Text)
    → (c == slash) ≡ false
    → (initial_slashes (c ∷ s) ≡ 0) × (is_prefix (codes "/") (c ∷ s) ≡ false)
relative c s n = ground arith

begins :
    (p : Text) (ps : List Text)
    → IsPlain p
    → (initial_slashes (join (p ∷ ps)) ≡ 0)
      × (is_prefix (codes "/") (join (p ∷ ps)) ≡ false)
      × (is_empty (join (p ∷ ps)) ≡ false)
begins [] ps (n, x, d, e) = absurd (cc)
begins (c ∷ p) ps (n, x, d, e) =
    let (a, b) = relative c (p ++ tail ps) x.0 in rw (join-cons (c ∷ p) ps) (a, b, refl)

pub normpath-tidy : (name : Text) → IsTidy name → normpath name ≡ name
unfolding normpath
normpath-tidy name t =
    let (a, b, d) = begins t.first t.rest t.plain.0 in
    rw t.named (
      rw a (
        rw (split-join t.first t.rest t.plain)
          (rw (normal_parts-plain true [] (t.first ∷ t.rest) t.plain) (rw d refl))))

pub safe_member_name-tidy : (name : Text) → IsTidy name → safe_member_name name ≡ true
unfolding safe_member_name
safe_member_name-tidy name t =
    let (a, b, d) = begins t.first t.rest t.plain.0 in
    rw t.named (
      rw b (
        rw (split-join t.first t.rest t.plain)
          (rw (any_unsafe-plain (t.first ∷ t.rest) t.plain) refl)))
