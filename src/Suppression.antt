-- ===== src/Suppression.antt =====
-- pkg/parser/suppression.go: comments that silence diagnostics. A text is its list of bytes, and
-- the regular expressions are matchers on it.
pub mod Ranges
pub mod Comments
use circleci_yaml_language_s.Prelude.{
  ℕ, ◌+◌, ◌%◌, String, Bool, true, false, not, ◌&&◌, ◌||◌, Option, none, some, List, [], ◌∷◌, ◌++◌,
  ◌==◌, nat_eq, leb, if◌then◌else◌, u32,
}
use circleci_yaml_language_s.Text.{codes, is_space, skip_spaces, strip_prefix, is_empty}
use circleci_yaml_language_s.Prelude.Dict.{Dict, lookup, insert}
use circleci_yaml_language_s.Position.{Position, Range, add_offset_to_range}
use circleci_yaml_language_s.Diagnostics.{Diagnostic, create_error_diagnostic_from_range}

-- `^#\s*literal\s*$`
unfoldable pub matches_hash : List ℕ → List ℕ → Bool
unfolding skip_spaces strip_prefix
matches_hash literal [] = false
matches_hash literal (c ∷ text) = c == b'#' && elim (strip_prefix literal (skip_spaces text)) [
  | none ↦ false
  | some rest ↦ is_empty (skip_spaces rest)
]

-- `^\s*#\s*literal\s*$`
unfoldable pub matches_line : List ℕ → List ℕ → Bool
unfolding matches_hash
matches_line literal text = matches_hash literal (skip_spaces text)

-- `#\s*literal\s*$`, at any place
unfoldable pub matches_inline : List ℕ → List ℕ → Bool
unfolding matches_hash
matches_inline literal [] = false
matches_inline literal (c ∷ text) = matches_hash literal (c ∷ text) || matches_inline literal text

abbrev pub ignore_file_regex : List ℕ → Bool
ignore_file_regex = matches_line (codes "cci-ignore-file")

abbrev pub ignore_inline_regex : List ℕ → Bool
ignore_inline_regex = matches_inline (codes "cci-ignore")

abbrev pub ignore_next_line_regex : List ℕ → Bool
ignore_next_line_regex = matches_line (codes "cci-ignore-next-line")

abbrev pub ignore_range_start_regex : List ℕ → Bool
ignore_range_start_regex = matches_line (codes "cci-ignore-start")

abbrev pub ignore_range_end_regex : List ℕ → Bool
ignore_range_end_regex = matches_line (codes "cci-ignore-end")

pub record SuppressionRange : Type 0 where
  pub start_line : ℕ
  pub end_line : ℕ

pub record SuppressionInfo : Type 0 where
  pub file_wide_suppression : Bool
  pub suppressed_lines : Dict ℕ Bool
  pub suppressed_ranges : List SuppressionRange

-- A comment node: its range in the tree, and its text.
pub record Comment : Type 0 where
  pub node_range : Range
  pub text : List ℕ

-- The variables that the callback of `ParseSuppressionComments` writes.
pub record Scan : Type 0 where
  pub info : SuppressionInfo
  pub is_range_open : Bool
  pub suppression_range : SuppressionRange
  pub diagnostics : List Diagnostic

abbrev pub initial_scan : Scan
initial_scan = record {
  info = record { file_wide_suppression = false; suppressed_lines = []; suppressed_ranges = [] };
  is_range_open = false;
  suppression_range = record { start_line = 0; end_line = 0 };
  diagnostics = [];
}

unfoldable pub suppress_line : Scan → ℕ → Scan
suppress_line s line = record s {
  info = record s.info { suppressed_lines = insert line true s.info.suppressed_lines };
}

unfoldable pub add_diagnostic : Scan → Comment → String → Scan
add_diagnostic s comment message = record s {
  diagnostics = s.diagnostics ++ create_error_diagnostic_from_range comment.node_range message ∷ [];
}

module _ (offset : Position) where
  -- doc.NodeToRange(node).Start.Line
  abbrev pub comment_line : Comment → ℕ
  comment_line comment = (add_offset_to_range comment.node_range offset).start.line

  unfoldable pub scan_end : Scan → Comment → Scan
  unfolding add_diagnostic
  scan_end s comment =
      if ignore_range_end_regex comment.text
      then if not s.is_range_open
        then add_diagnostic s comment "cci-ignore-end must have an opening cci-ignore-start"
        else (let closed = record s.suppression_range { end_line = comment_line comment } in
            record s {
              info = record s.info { suppressed_ranges = s.info.suppressed_ranges ++ closed ∷ [] };
              is_range_open = false;
              suppression_range = closed;
            })
      else s

  unfoldable pub scan_start : Scan → Comment → Scan
  unfolding scan_end
  scan_start s comment =
      if ignore_range_start_regex comment.text
      then if s.is_range_open
        then add_diagnostic s comment
            "cci-ignore-start must have a closing cci-ignore-end before trying to open a new ignore-range"
        else scan_end
            (record s {
              is_range_open = true;
              suppression_range = record s.suppression_range { start_line = comment_line comment };
            })
            comment
      else scan_end s comment

  abbrev pub scan_lines : Scan → Comment → Scan
  scan_lines s comment =
      let inline =
        if ignore_inline_regex comment.text then suppress_line s (comment_line comment) else s in
      if ignore_next_line_regex comment.text
      then suppress_line inline ((comment_line comment + 1) % u32)
      else inline

  unfoldable pub scan_comment : Scan → Comment → Scan
  unfolding scan_start suppress_line
  scan_comment s comment =
      if ignore_file_regex comment.text
      then record s { info = record s.info { file_wide_suppression = true } }
      else scan_start (scan_lines s comment) comment

  unfoldable pub scan_comments : Scan → List Comment → Scan
  unfolding scan_comment
  scan_comments s [] = s
  scan_comments s (comment ∷ comments) = scan_comments (scan_comment s comment) comments

  -- The information, and the diagnostics that the document gets.
  unfoldable pub parse_suppression_comments : List Comment → SuppressionInfo × List Diagnostic
  unfolding scan_comments
  parse_suppression_comments comments =
      let s = scan_comments initial_scan comments in
      let line = s.suppression_range.start_line in
      (
        s.info,
        if s.is_range_open
            then s.diagnostics
              ++ create_error_diagnostic_from_range
                  (record {
                    start = record { line = line; character = 0 };
                    end = record { line = line; character = 100 };
                  })
                  "cci-ignore-start is missing a closing cci-ignore-end"
                ∷ []
            else s.diagnostics,
      )

unfoldable pub diagnostic_overlaps_range : SuppressionRange → Diagnostic → Bool
diagnostic_overlaps_range r diagnostic =
    leb r.start_line diagnostic.range.start.line && leb diagnostic.range.start.line r.end_line

unfoldable pub overlaps_any : List SuppressionRange → Diagnostic → Bool
unfolding diagnostic_overlaps_range
overlaps_any [] diagnostic = false
overlaps_any (r ∷ ranges) diagnostic =
    let rest = overlaps_any ranges diagnostic in
    if diagnostic_overlaps_range r diagnostic then true else rest

abbrev pub line_flag : Dict ℕ Bool → ℕ → Bool
line_flag lines line = elim (lookup line lines) [ none ↦ false | some b ↦ b ]

-- A nil `suppressionInfo` is `none`.
unfoldable pub is_diagnostic_suppressed : Option SuppressionInfo → Diagnostic → Bool
unfolding overlaps_any
is_diagnostic_suppressed none diagnostic = false
is_diagnostic_suppressed (some info) diagnostic =
    if info.file_wide_suppression
    then true
    else if line_flag info.suppressed_lines diagnostic.range.start.line
    then true
    else overlaps_any info.suppressed_ranges diagnostic

unfoldable pub filter_suppressed_diagnostics :
    List Diagnostic → Option SuppressionInfo → List Diagnostic
unfolding is_diagnostic_suppressed
filter_suppressed_diagnostics [] suppression = []
filter_suppressed_diagnostics (diagnostic ∷ diagnostics) suppression =
    let rest = filter_suppressed_diagnostics diagnostics suppression in
    if not (is_diagnostic_suppressed suppression diagnostic) then diagnostic ∷ rest else rest
