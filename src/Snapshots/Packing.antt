-- ===== src/Snapshots/Packing.antt =====
-- `_pack_snapshot` and `_unpack_snapshot` of src/vomero_sandbox/runner.py, one after the other, and
-- `resume` after `checkpoint`.
use vomero_sandbox.Common.{
  IsDict, All-sort, sort, ◌≡◌, refl, ap, ◌∙◌, true, false, Option, some, List, [], ◌∷◌, ◌++◌,
  append_assoc, append-nil, map, ℕ, ℤ, pos, ltb_ℤ, Text, text_eq, assign_new, All, All-append,
  if◌then◌else◌, sym,
}
use mathlib.Core.List.{Permᴰ}
use vomero_sandbox.Errors.{Exc, ok, raise, ◌>>=◌}
use vomero_sandbox.Config.{SandboxConfig}
use vomero_sandbox.Host.{Host}
use vomero_sandbox.Models.{Files}
use vomero_sandbox.Paths.Normal.{IsTidy, normpath-tidy, safe_member_name-tidy}
use vomero_sandbox.Pool.Execution.{total_size}
use vomero_sandbox.Pool.State.{State}
use vomero_sandbox.Pool.State
use vomero_sandbox.Sessions.{Session, session, checkpoint, resume}
use vomero_sandbox.Snapshots.{
  Member, Archive, pack, unpack_members, unpack, resume_blob, checkpoint_blob,
}
use vomero_sandbox.Snapshots.Order.{text_eq_flip, total_size-sort, IsDict-sort, sort-perm}

-- The member that a packed file becomes.
abbrev pub member : Text × List ℕ → Member
member f = record { name = f.0; is_file = true; contents = ok (some f.1) }

abbrev pub HasTidyName : Text × List ℕ → Type 0
HasTidyName f = IsTidy f.0

-- No key of the second list is one of the first.
abbrev IsApart : Files → Files → Type 0
IsApart out d = All (λ f. All (λ g. text_eq g.0 f.0 ≡ false) out) d

IsApart-nil : (d : Files) → IsApart [] d
IsApart-nil [] = tt
IsApart-nil (f ∷ d) = (tt, IsApart-nil d)

IsApart-snoc :
    (out : Files) (f : Text × List ℕ) (d : Files)
    → All (λ g. text_eq g.0 f.0 ≡ false) d
    → IsApart out d
    → IsApart (out ++ f ∷ []) d
IsApart-snoc out f [] n a = tt
IsApart-snoc out f (g ∷ d) (n, m) (a, b) = (
  All-append (λ h. text_eq h.0 g.0 ≡ false) out (f ∷ []) a (text_eq_flip g.0 f.0 n, tt),
  IsApart-snoc out f d m b,
)

members_back :
    (d out : Files)
    → IsDict d
    → All HasTidyName d
    → IsApart out d
    → unpack_members out (map member d) ≡ ok (out ++ d)
unfolding unpack_members
members_back [] out i t a = ap ok (sym (append-nil out))
members_back (f ∷ d) out (n, i) (t, u) (x, a) = rw (normpath-tidy f.0 t) (
    rw (safe_member_name-tidy f.0 t) (
      rw (assign_new f.0 f.1 out x) (
        members_back d (out ++ f ∷ []) i u (IsApart-snoc out f d n a)
        ∙ ap ok (append_assoc out (f ∷ []) d))))

module _ {Blob : Type 0} (a : Archive Blob) (files : Files) where
  -- What tarfile and gzip do on these files: reading gives the members that were written.
  abbrev pub IsReadBack : Type 0
  IsReadBack = a.read (a.write (sort files)) ≡ ok (map member (sort files))

  -- Files with distinct tidy names (relative, of parts that are not empty, `.` or `..`), packed and
  -- unpacked, are the same files, in the order of their names, if the archive gives back the members
  -- that were written to it.
  pub unpack-pack :
      IsReadBack → IsDict files → All HasTidyName files → unpack a (pack a files) ≡ ok (sort files)
  unfolding unpack pack
  unpack-pack r i t = rw r (
      members_back (sort files) [] (IsDict-sort files i) (All-sort HasTidyName files t)
        (IsApart-nil (sort files)))

  -- The blob of the same files, of distinct names, is the same blob, whatever their order.
  pub pack_stable : (other : Files) → IsDict files → Permᴰ files other → pack a files ≡ pack a other
  unfolding pack
  pack_stable other i p = ap a.write (sort-perm p i)

  -- A checkpoint whose collection gave files with distinct tidy names is a blob that a pool of any
  -- configuration `d` resumes from, with exactly these files to restore, in the order of their names;
  -- or refuses with ValueError, exactly if they are more bytes than its `max_upload_bytes`.
  pub resume-checkpoint :
      {W : Type 0} (h : Host W) (c d : SandboxConfig) (x : Session) (t : Option ℤ) (s : State W)
      → (checkpoint h c x t s).0 ≡ ok files
      → IsReadBack
      → IsDict files
      → All HasTidyName files
      → ((checkpoint_blob a h c x t s).0 >>= resume_blob a d) ≡ (
          if ltb_ℤ d.max_upload_bytes (pos (total_size files))
          then raise Exc.value_error
          else ok (record session { restore = sort files }))
  unfolding checkpoint_blob resume_blob resume State.◌>>=◌
  resume-checkpoint h c d x t s e r i n =
      rw e (rw (unpack-pack r i n) (rw (total_size-sort files) refl))
