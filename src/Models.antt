-- ===== src/Models.antt =====
-- src/vomero_sandbox/models.py: the results handed to callers.
pub mod Reports
use vomero_sandbox.Json.{Json}
use vomero_sandbox.Common.{
  ℕ, Bool, true, false, not, ◌&&◌, Option, none, some, List, ℤ, pos, leb_ℤ, ltb_ℤ, ◌-ℤ◌, max_ℤ,
  ◌==◌, Text, if◌then◌else◌,
}

pub data Channel : Type 0 where
  stdout stderr : Channel

-- `StreamChunk`: the channel and the text that it delivered.
pub record StreamChunk : Type 0 where
  pub channel : Channel
  pub text : Text

abbrev pub Files : Type 0
Files = List (Text × List ℕ)

-- `exit_code` is None when the run was killed before it exited. Durations are exact.
pub record RunResult : Type 0 where
  pub out : Text
  pub err : Text
  pub exit_code : Option ℤ
  pub timed_out : Bool
  pub duration_s : ℤ
  pub sandbox_id : Text
  pub files : Files
  pub files_truncated : List Json

-- `self.exit_code == 0`
abbrev pub exited_zero : Option ℤ → Bool
exited_zero none = false
exited_zero (some (pos n)) = n == 0
exited_zero (some (ℤ.negsuc _)) = false

unfoldable pub is_ok : RunResult → Bool
is_ok r = exited_zero r.exit_code && not r.timed_out

pub record PoolStartReport : Type 0 where
  pub requested : ℤ
  pub placed : ℕ
  pub reasons : List Text

unfoldable pub complete : PoolStartReport → Bool
complete r = leb_ℤ r.requested (pos r.placed)

unfoldable pub shortfall : PoolStartReport → ℤ
unfolding ◌-ℤ◌
shortfall r = max_ℤ (pos 0) (r.requested -ℤ pos r.placed)
