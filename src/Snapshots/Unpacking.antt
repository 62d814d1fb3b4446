-- ===== src/Snapshots/Unpacking.antt =====
-- `_unpack_snapshot` of src/vomero_sandbox/runner.py on any blob, a tampered one too.
use vomero_sandbox.Common.{
  ◌≡◌, ◌⊎◌, refl, inl, inr, Bool, true, false, if◌then◌else◌, Option, none, some, List, [], ◌∷◌, ℕ,
  Text, All, All-assign, Any, is_some,
}
use vomero_sandbox.Errors.{Exc, Outcome, ok, raise, ◌>>=◌}
use vomero_sandbox.Models.{Files}
use vomero_sandbox.Paths.{normpath, safe_member_name}
use vomero_sandbox.Paths.Inside.{location, location-safe}
use vomero_sandbox.Snapshots.{Member, Archive, store, unpack_members, unpack}

-- The name leads to a place under the directory that it is joined to, and never above it on the way.
abbrev pub IsInside : Text × List ℕ → Type 0
IsInside f = is_some (location f.0) ≡ true

abbrev pub IsAccepted : Member → Type 0
IsAccepted m = (m.is_file ≡ false) ⊎ (safe_member_name (normpath m.name) ≡ true)

-- The member is a file for which the exception is raised: its name, or what reading it raises.
abbrev pub Blames : Exc → Member → Type 0
Blames e m =
    (m.is_file ≡ true)
    × (((safe_member_name (normpath m.name) ≡ false) × (e ≡ Exc.sandbox_error))
        ⊎ (m.contents ≡ raise e))

abbrev pub Guarded : List Member → Outcome Files → Type 0
Guarded ms (ok out) = All IsInside out × All IsAccepted ms
Guarded ms (raise e) = Any (Blames e) ms

store-IsInside :
    (name : Text) (v : Option (List ℕ)) (out : Files)
    → safe_member_name name ≡ true
    → All IsInside out
    → All IsInside (store name v out)
store-IsInside name none out s a = a
store-IsInside name (some v) out s a = All-assign IsInside name v out (location-safe name s) a

Guarded-cons :
    (m : Member) (ms : List Member) (r : Outcome Files)
    → IsAccepted m
    → Guarded ms r
    → Guarded (m ∷ ms) r
Guarded-cons m ms (ok out) x (i, a) = (i, (x, a))
Guarded-cons m ms (raise e) x b = inr b

stored :
    (m : Member) (ms : List Member) (q : Outcome (Option (List ℕ))) (out : Files)
    → m.is_file ≡ true
    → m.contents ≡ q
    → safe_member_name (normpath m.name) ≡ true
    → ((v : Option (List ℕ)) → Guarded ms (unpack_members (store (normpath m.name) v out) ms))
    → Guarded (m ∷ ms) (q >>= λ v. unpack_members (store (normpath m.name) v out) ms)
stored m ms (raise e) out f c s g = inl (f, inr c)
stored m ms (ok v) out f c s g = Guarded-cons m ms _ (inr s) (g v)

-- One round of the loop, by the member's kind and the test of its name.
round-Guarded :
    (m : Member) (ms : List Member) (out : Files) (f s : Bool)
    → m.is_file ≡ f
    → safe_member_name (normpath m.name) ≡ s
    → All IsInside out
    → ((d : Files) → All IsInside d → Guarded ms (unpack_members d ms))
    → Guarded (m ∷ ms) (
        if f
        then (if s
            then (m.contents >>= λ v. unpack_members (store (normpath m.name) v out) ms)
            else raise Exc.sandbox_error)
        else unpack_members out ms)
round-Guarded m ms out false s f e a g = Guarded-cons m ms _ (inl f) (g out a)
round-Guarded m ms out true false f e a g = inl (f, inl (e, refl))
round-Guarded m ms out true true f e a g =
    stored m ms m.contents out f refl e
      λ v. g (store (normpath m.name) v out) (store-IsInside (normpath m.name) v out e a)

members-Guarded :
    (ms : List Member) (out : Files) → All IsInside out → Guarded ms (unpack_members out ms)
unfolding unpack_members
members-Guarded [] out a = (a, tt)
members-Guarded (m ∷ ms) out a =
    round-Guarded m ms out m.is_file (safe_member_name (normpath m.name)) refl refl a
      (members-Guarded ms)

module _ {Blob : Type 0} (a : Archive Blob) where
  -- Of a blob that tarfile can read, whatever is in it, unpacking gives files whose names all lead
  -- to places inside the directory they are joined to, and this only if each member that is a file
  -- has a safe name; otherwise it raises, and the exception comes from a member that is a file: the
  -- sandbox error for an unsafe name, or what reading its contents raised.
  pub unpack-Guarded :
      (blob : Blob) (ms : List Member) → a.read blob ≡ ok ms → Guarded ms (unpack a blob)
  unfolding unpack
  unpack-Guarded blob ms e = rw e (members-Guarded ms [] tt)
