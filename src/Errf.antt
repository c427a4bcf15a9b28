-- ===== src/Errf.antt =====
-- errf.c: an error is a name with the chain of the errors that caused it.
use pivy.Prelude.{Bool, true, false, String, if◌then◌else◌}
use text.Mathlib.Text.{◌==◌ as str_eq}

-- `struct errf`: `errf_name` and `errf_cause`. `no_error` is the NULL pointer (ERRF_OK). The
-- message and the place in the source are only printed.
pub data Errf : Type 0 where
  no_error : Errf
  errf : String → Errf → Errf

-- The loop of `errf_caused_by`.
unfoldable pub errf_caused_by : Errf → String → Bool
errf_caused_by no_error name = false
errf_caused_by (errf errf_name cause) name =
    if str_eq name errf_name then true else errf_caused_by cause name
