-- ===== src/Diagnostics.antt =====
-- pkg/utils/diagnostics.go, and the diagnostics of pkg/services/diagnostics.go that are reported
-- once. Messages are texts; the other fields of a protocol.Diagnostic are not modelled.
pub mod Deduplicate
use circleci_yaml_language_s.Prelude.{
  String, Bool, true, false, List, [], ◌∷◌, if◌then◌else◌, contains, string_eq,
}
use circleci_yaml_language_s.Position.{Range}

pub data Severity : Type 0 where
  error warning information hint : Severity

pub record Diagnostic : Type 0 where
  pub range : Range
  pub severity : Severity
  pub message : String

abbrev pub create_error_diagnostic_from_range : Range → String → Diagnostic
create_error_diagnostic_from_range rng msg = record { range = rng; severity = error; message = msg }

abbrev pub create_warning_diagnostic_from_range : Range → String → Diagnostic
create_warning_diagnostic_from_range rng msg = record {
  range = rng;
  severity = warning;
  message = msg;
}

-- `deduplicateDiagnosticsByRange`; `key` formats range, message and severity, and `seen` holds the
-- keys so far.
module _ (key : Diagnostic → String) where
  unfoldable pub deduplicate_from : List String → List Diagnostic → List Diagnostic
  deduplicate_from seen [] = []
  deduplicate_from seen (diag ∷ diagnostics) =
      let rest = deduplicate_from seen diagnostics in
      let fresh = deduplicate_from (key diag ∷ seen) diagnostics in
      if contains seen (key diag) then rest else diag ∷ fresh

  unfoldable pub deduplicate_diagnostics_by_range : List Diagnostic → List Diagnostic
  unfolding deduplicate_from
  deduplicate_diagnostics_by_range = deduplicate_from []
