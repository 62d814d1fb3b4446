-- ===== src/Snapshots.antt =====
-- src/vomero_sandbox/runner.py, `_pack_snapshot` and `_unpack_snapshot`, and the methods `checkpoint`
-- and `resume` over them.
pub mod Order
pub mod Unpacking
pub mod Packing
pub mod Restoring
use vomero_sandbox.Common.{
  Bool, true, false, Option, none, some, List, [], ◌∷◌, map, ℕ, ℤ, Text, ltb, assign, sort,
  if◌then◌else◌,
}
use vomero_sandbox.Errors.{Exc, Outcome, ok, raise, ◌>>=◌}
use vomero_sandbox.Config.{SandboxConfig}
use vomero_sandbox.Host.{Host}
use vomero_sandbox.Models.{Files}
use vomero_sandbox.Paths.{normpath, safe_member_name}
use vomero_sandbox.Pool.State.{M}
use vomero_sandbox.Pool.State
use vomero_sandbox.Sessions.{Session, checkpoint, resume}

-- A member of a tar archive: its name, `isfile`, and what `extractfile` and `read` give.
pub record Member : Type 0 where
  pub name : Text
  pub is_file : Bool
  pub contents : Outcome (Option (List ℕ))

-- Python's tarfile and gzip. `write` makes the blob of regular members with these names and contents,
-- with the time 0 in each header; `read` gives the members of a blob, or raises.
pub record Archive (Blob : Type 0) : Type 0 where
  pub write : Files → Blob
  pub read : Blob → Outcome (List Member)

module _ {Blob : Type 0} (a : Archive Blob) where
  unfoldable pub pack : Files → Blob
  pack files = a.write (sort files)

-- `out[name] = f.read()`, if `f is not None`.
abbrev pub store : Text → Option (List ℕ) → Files → Files
store name none out = out
store name (some v) out = assign name v out

-- The loop of `_unpack_snapshot`.
unfoldable pub unpack_members : Files → List Member → Outcome Files
unfolding assign normpath safe_member_name
unpack_members out [] = ok out
unpack_members out (m ∷ ms) =
    let skipped = unpack_members out ms in
    if m.is_file
    then (let name = normpath m.name in
        if safe_member_name name
        then (m.contents >>= λ v. unpack_members (store name v out) ms)
        else raise Exc.sandbox_error)
    else skipped

module _ {Blob : Type 0} (a : Archive Blob) where
  unfoldable pub unpack : Blob → Outcome Files
  unfolding unpack_members
  unpack blob = a.read blob >>= unpack_members []

  -- `SandboxPool.resume`
  unfoldable pub resume_blob : SandboxConfig → Blob → Outcome Session
  unfolding unpack
  resume_blob c blob = unpack blob >>= resume c

  -- `SandboxSession.checkpoint`
  unfoldable pub checkpoint_blob :
      {W : Type 0} → Host W → SandboxConfig → Session → Option ℤ → M W Blob
  checkpoint_blob h c x t = State.◌>>=◌ (checkpoint h c x t) λ files. State.pure (pack a files)
