-- ===== src/Tests/Blobs.antt =====
-- Snapshots of two small files, in an archive that keeps its members as they are.
use vomero_sandbox.Common.{
  IsDict, sort, ◌≡◌, ◌+ℤ◌, refl, true, false, none, some, List, [], ◌∷◌, map, ℕ, codes, arith,
  text_eq,
}
use vomero_sandbox.Errors.{Exc, ok, raise}
use vomero_sandbox.Errors
use vomero_sandbox.Exec.{exec_capture}
use vomero_sandbox.Pool.State.{◌>>=◌, try_except}
use vomero_sandbox.Config.{default_config}
use vomero_sandbox.Models.{Files}
use vomero_sandbox.Host.{Host}
use vomero_sandbox.Json.{Json, Fields, field}
use vomero_sandbox.Paths.{join}
use vomero_sandbox.Paths.Normal.{IsTidy}
use vomero_sandbox.Pool.Execution.{total_size, collect_files, run_command, decode_collected}
use vomero_sandbox.Sessions.{Session, session, checkpoint, require_live}
use vomero_sandbox.Sessions.Life.{held}
use vomero_sandbox.Snapshots.{Member, Archive, unpack, resume_blob, checkpoint_blob}
use vomero_sandbox.Snapshots.Unpacking.{Guarded, unpack-Guarded}
use mathlib.Core.List.{Permᴰ}
use vomero_sandbox.Snapshots.{pack}
use vomero_sandbox.Snapshots.Packing.{pack_stable, member, resume-checkpoint}
use vomero_sandbox.Tests.Toy.{toy, alice, small_pool}

abbrev pub kept : Archive (List Member)
kept = record { write = map member; read = ok }

abbrev two_files : Files
two_files = (codes "b/c.txt", 1 ∷ 2 ∷ []) ∷ (codes "a.txt", 3 ∷ []) ∷ []

IsTidy-b : IsTidy (codes "b/c.txt")
unfolding join text_eq
IsTidy-b = record {
  first = codes "b";
  rest = codes "c.txt" ∷ [];
  plain = ground arith;
  named = refl;
}

pub IsTidy-a : IsTidy (codes "a.txt")
unfolding join text_eq
IsTidy-a = record { first = codes "a.txt"; rest = []; plain = ground arith; named = refl }

apart_names : IsDict two_files
unfolding text_eq
apart_names = ground arith

-- A blob with a link, and with a file that climbs out.
abbrev tampered : List Member
tampered =
    record { name = codes "x"; is_file = false; contents = ok none }
    ∷ record { name = codes "a/../../etc/passwd"; is_file = true; contents = ok (some []) }
    ∷ []

unpack-Guarded_example : Guarded tampered (unpack kept tampered)
unpack-Guarded_example = unpack-Guarded kept tampered tampered refl

tampered_refused : unpack kept tampered ≡ raise Exc.sandbox_error
unfolding unpack text_eq
tampered_refused = refl

-- A cluster whose collector finds one file.
abbrev pub finder : Host ℕ
finder = record toy {
  json_loads = λ s. ok (
      Json.obj (
        field (codes "files")
          (Json.obj (field (codes "a.txt") (Json.str (codes "Aw==")) Fields.end)) Fields.end));
  b64decode = λ j. ok (3 ∷ []);
}

abbrev pub found : Files
found = (codes "a.txt", 3 ∷ []) ∷ []

abbrev pub live : Session
live = held finder default_config false [] alice

pub collected : (checkpoint finder default_config live none small_pool).0 ≡ ok found
unfolding checkpoint require_live collect_files run_command decode_collected exec_capture try_except
    ◌>>=◌ ◌+ℤ◌
collected = refl

resume-checkpoint_example :
    Errors.◌>>=◌
      (checkpoint_blob kept finder default_config live none small_pool).0
      (resume_blob kept default_config)
    ≡ ok (record session { restore = sort found })
unfolding total_size
resume-checkpoint_example =
    resume-checkpoint kept found finder default_config default_config live none small_pool collected
      refl (tt, tt) (IsTidy-a, tt)

abbrev other_order : Files
other_order = (codes "a.txt", 3 ∷ []) ∷ (codes "b/c.txt", 1 ∷ 2 ∷ []) ∷ []

pack_stable_example : pack kept two_files ≡ pack kept other_order
pack_stable_example = pack_stable kept two_files other_order apart_names (Permᴰ.swap refl refl)
