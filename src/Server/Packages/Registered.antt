-- ===== src/Server/Packages/Registered.antt =====
-- Which packages the job server finds.
use vomero_sandbox.Common.{
  ◌≡◌, refl, sym, ap, ◌∙◌, ◌↔◌, ◌≤◌, true, false, ◌||◌, List, [], ◌∷◌, ◌++◌, Text, text_eq→eq,
  text_eq_refl, is_empty, length, ◌==◌, if◌then◌else◌, Bool-cases, inl, inr, arith, All,
}
use vomero_sandbox.Errors.{Exc, ok, raise}
use vomero_sandbox.Paths.{slash, split, push, is_dot, is_dotdot}
use vomero_sandbox.Paths.Normal.{IsPlain, split-join}
use vomero_sandbox.Pool.Execution.{has_code}
use vomero_sandbox.Projects.{Node}
use vomero_sandbox.Server.Packages.{
  basename, ends_slash, join_path, registry, is_dir, invalid_name, package_dir,
}

length-basename : (s : Text) → length (basename s) ≤ length s
unfolding basename
length-basename [] = omega arith
length-basename (c ∷ s) = ground (arith, length-basename s)

has_code-plain : (s : Text) → has_code slash s ≡ false → All (λ c. (c == slash) ≡ false) s
has_code-plain [] e = tt
has_code-plain (c ∷ s) e = (ground arith, has_code-plain s (ground arith))

plain-has_code : (s : Text) → All (λ c. (c == slash) ≡ false) s → has_code slash s ≡ false
plain-has_code [] e = refl
plain-has_code (c ∷ s) e = ground (arith, plain-has_code s e.1)

-- A name is its own last component just if it has no slash.
basename_plain : (s : Text) → All (λ c. (c == slash) ≡ false) s → basename s ≡ s
unfolding basename
basename_plain [] e = refl
basename_plain (c ∷ s) e = ground (arith, plain-has_code s e.1)

plain_basename : (s : Text) → s ≡ basename s → has_code slash s ≡ false
unfolding basename
plain_basename [] e = refl
plain_basename (c ∷ s) e = elim (Bool-cases (has_code slash s)) [
  | inl h ↦ absurd (ground (arith, length-basename s, ap length e))
  | inr h ↦ elim (Bool-cases (c == slash)) [
    | inl k ↦ absurd (ground (arith, ap length e))
    | inr k ↦ ground arith
  ]
]

-- A name is valid just if it is one part of a path.
invalid-plain : (name : Text) → invalid_name name ≡ false → IsPlain name
unfolding invalid_name
invalid-plain name e =
    let own : name ≡ basename name = text_eq→eq name (basename name) (ground arith) in
    (ground arith, has_code-plain name (plain_basename name own), ground arith, ground arith)

plain-invalid : (name : Text) → IsPlain name → invalid_name name ≡ false
unfolding invalid_name
plain-invalid name (filled, unslashed, no_dot, no_dots) =
    rw (basename_plain name unslashed) (ground (arith, text_eq_refl name))

ends_slash-append : (a : Text) (c : _) (b : Text) → ends_slash (a ++ c ∷ b) ≡ ends_slash (c ∷ b)
ends_slash-append [] c b = refl
ends_slash-append (d ∷ []) c b = refl
ends_slash-append (d ∷ e ∷ a) c b = ends_slash-append (e ∷ a) c b

filled-append : (a : Text) (c : _) (b : Text) → is_empty (a ++ c ∷ b) ≡ false
filled-append [] c b = refl
filled-append (_ ∷ a) c b = refl

registry-open :
    (here : Text) → (is_empty (registry here) ≡ false) × (ends_slash (registry here) ≡ false)
unfolding registry join_path
registry-open here = elim (Bool-cases (is_empty here || ends_slash here)) [
  | inl e ↦ rw e (filled-append here _ _, ends_slash-append here _ _)
  | inr e ↦ rw e (filled-append here _ _, ends_slash-append here _ _)
]

-- A path below the registry.
join-registry :
    (here name : Text)
    → IsPlain name
    → join_path (registry here) name ≡ registry here ++ slash ∷ name
unfolding join_path
join-registry here [] p = absurd (ground arith)
join-registry here (c ∷ s) p = let (filled, opened) = registry-open here in ground arith

split_filled : (s : Text) → (q : Text) × (qs : List Text) × (split s ≡ q ∷ qs)
unfolding split
split_filled [] = ([], [], refl)
split_filled (c ∷ s) = elim (Bool-cases (c == slash)) [
  | inl e ↦ ([], split s, rw e refl)
  | inr e ↦ let (q, qs, h) = split_filled s in (c ∷ q, qs, rw e (rw h refl))
]

split-slash : (a b : Text) → split (a ++ slash ∷ b) ≡ split a ++ split b
unfolding split
split-slash [] b = refl
split-slash (c ∷ a) b = elim (Bool-cases (c == slash)) [
  | inl e ↦ rw e (rw (split-slash a b) refl)
  | inr e ↦ let (q, qs, h) = split_filled a in rw e (rw (split-slash a b) (rw h refl))
]

package_dir-plain :
    (here : Text) (host : Text → Node) (name : Text)
    → IsPlain name
    → package_dir here host name ≡ (
        let path = registry here ++ slash ∷ name in
        if is_dir (host path) then ok path else raise Exc.value_error)
unfolding package_dir
package_dir-plain here host name p = rw (plain-invalid name p) (rw (join-registry here name p) refl)

split-registry :
    (here name : Text)
    → IsPlain name
    → split (registry here ++ slash ∷ name) ≡ split (registry here) ++ name ∷ []
unfolding vomero_sandbox.Paths.join split
split-registry here name p =
    split-slash (registry here) name
    ∙ ap (λ ps. split (registry here) ++ ps) (split-join name [] (p, tt))

found :
    (host : Text → Node) (place path : Text)
    → (if is_dir (host place) then ok place else raise Exc.value_error) ≡ ok path
    → (path ≡ place) × (is_dir (host path) ≡ true)
found host place path e = elim (Bool-cases (is_dir (host place))) [
  | inl d ↦ let at : path ≡ place = ground arith in (at, rw at d)
  | inr d ↦ absurd (ground arith)
]

-- The job server finds a package just if its name is one part of a path (not empty, without a
-- slash, not `.` or `..`) and a directory stands under it in the registry; the path that it gives
-- has the parts of the registry's path and this one.
pub package_dir_iff :
    (here : Text) (host : Text → Node) (name path : Text)
    → (package_dir here host name ≡ ok path) ↔ (
        IsPlain name
        × (path ≡ registry here ++ slash ∷ name)
        × (split path ≡ split (registry here) ++ name ∷ [])
        × (is_dir (host path) ≡ true))
unfolding package_dir
package_dir_iff here host name path = (
  λ e. elim (Bool-cases (invalid_name name)) [
    | inl bad ↦ absurd (ground arith)
    | inr good ↦
        let p = invalid-plain name good in
        let (at, d) =
          found host (registry here ++ slash ∷ name) path
            (sym (package_dir-plain here host name p) ∙ e) in
        (p, at, ap split at ∙ split-registry here name p, d)
  ],
  λ (p, at, parts, d). package_dir-plain here host name p ∙ rw (sym at) (rw d refl),
)
