-- ===== src/Tests/DiagnosticsTests.antt =====
-- Runs of the suppression comments and of the deduplication.
use circleci_yaml_language_s.Prelude.{
  ℕ, ◌≡◌, refl, String, true, false, some, List, [], ◌∷◌, count, contains, string_eq, string_dec,
  if◌then◌else◌, ℕ_discrete,
}
use circleci_yaml_language_s.Prelude.Dict.{lookup, insert}
use circleci_yaml_language_s.Position.{Position, Range, add_offset_to_range}
use circleci_yaml_language_s.Diagnostics.{Diagnostic, error, deduplicate_diagnostics_by_range}
use circleci_yaml_language_s.Diagnostics.Deduplicate.{
  keys_of, first_of_key, deduplicate_diagnostics_by_range_lem,
}
use circleci_yaml_language_s.Text.{codes}
use circleci_yaml_language_s.CodeActions.{ignore_actions}
use circleci_yaml_language_s.CodeActions.Comments.{Silences, ignore_actions_lem}
use circleci_yaml_language_s.Suppression.{
  Comment, parse_suppression_comments, is_diagnostic_suppressed, matches_line, matches_inline,
}
use circleci_yaml_language_s.Suppression.Comments.{Cause, parse_suppression_comments-Cause}

abbrev no_offset : Position
no_offset = record { line = 0; character = 0 }

abbrev at_line : ℕ → Range
at_line line = record {
  start = record { line = line; character = 0 };
  end = record { line = line; character = 9 };
}

abbrev comment : ℕ → String → Comment
comment line text = record { node_range = at_line line; text = codes text }

abbrev diagnostic : ℕ → String → Diagnostic
diagnostic line message = record { range = at_line line; severity = error; message = message }

abbrev comments : List Comment
comments =
    comment 2 "# cci-ignore"
    ∷ comment 4 "# cci-ignore-start"
    ∷ comment 5 "# a remark"
    ∷ comment 8 "#cci-ignore-end "
    ∷ []

runs : Unit {0}
unfolding parse_suppression_comments is_diagnostic_suppressed matches_line matches_inline lookup
    insert ℕ_discrete string_dec add_offset_to_range deduplicate_diagnostics_by_range
runs = tt

ranges_run :
    (parse_suppression_comments no_offset comments).0.suppressed_ranges
    ≡ record { start_line = 4; end_line = 8 } ∷ []
unfolding runs
ranges_run = refl

inline_run :
    is_diagnostic_suppressed
      (some (parse_suppression_comments no_offset comments).0)
      (diagnostic 2 "x")
    ≡ true
unfolding runs
inline_run = refl

outside_run :
    is_diagnostic_suppressed
      (some (parse_suppression_comments no_offset comments).0)
      (diagnostic 9 "x")
    ≡ false
unfolding runs
outside_run = refl

parse_suppression_comments-Cause_example : Cause no_offset comments 2
unfolding runs
parse_suppression_comments-Cause_example =
    parse_suppression_comments-Cause no_offset comments (diagnostic 2 "x") refl

abbrev message_key : Diagnostic → String
message_key d = d.message

abbrev repeated : List Diagnostic
repeated = diagnostic 1 "a" ∷ diagnostic 2 "b" ∷ diagnostic 3 "a" ∷ []

deduplicate_run :
    deduplicate_diagnostics_by_range message_key repeated ≡ diagnostic 1 "a" ∷ diagnostic 2 "b" ∷ []
unfolding runs
deduplicate_run = refl

deduplicate_diagnostics_by_range_lem_example :
    (count "a" (keys_of message_key (deduplicate_diagnostics_by_range message_key repeated))
      ≡ (if contains (keys_of message_key repeated) "a" then 1 else 0))
    × (first_of_key message_key "a" (deduplicate_diagnostics_by_range message_key repeated)
        ≡ first_of_key message_key "a" repeated)
deduplicate_diagnostics_by_range_lem_example =
    deduplicate_diagnostics_by_range_lem message_key repeated "a"

ignore_actions_lem_example :
    Silences (diagnostic 0 "x").range (ignore_actions "file" (codes "  a: 1") (diagnostic 0 "x"))
ignore_actions_lem_example = ignore_actions_lem "file" (codes "  a: 1") (diagnostic 0 "x")
