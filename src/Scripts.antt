-- ===== src/Scripts.antt =====
-- The Python programs that the library sends into a worker, as the templates `_IDLE_WATCHDOG`,
-- `_CLEANER`, `_COLLECTOR` and `_UPLOADER` with the values that are formatted into them.
use vomero_sandbox.Common.{Option, List, ℤ, Text}

pub data Script : Type 0 where
  watchdog : ℤ → ℤ → Script
  cleaner : Text → Script
  collector : Text → Option (List Text) → ℤ → Script
  uploader : Text → Script

-- An element of a command vector.
pub data Arg : Type 0 where
  text : Text → Arg
  script : Script → Arg
