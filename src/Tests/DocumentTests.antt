-- ===== src/Tests/DocumentTests.antt =====
-- Runs of the conversions between positions and indices, of the edits, and of the token encoding.
use mathlib.Core.List.{Perm}
use circleci_yaml_language_s.Prelude.{
  ℕ, ◌≤◌, ◌≡◌, refl, some, List, [], ◌∷◌, arith, length, ℕ_discrete,
}
use circleci_yaml_language_s.Position.{Position, Range}
use circleci_yaml_language_s.Index.{index_to_pos, pos_to_index}
use circleci_yaml_language_s.Index.RoundTrip.{pos_to_index-le-length, pos_to_index-index_to_pos}
use circleci_yaml_language_s.Edits.{ContentChange, apply_incremental_changes}
use circleci_yaml_language_s.Edits.Splice.{EditorStep, done, edit, apply_incremental_changes_lem}
use circleci_yaml_language_s.Semantics.{Token, slice_stable, process_tokens}
use circleci_yaml_language_s.Semantics.RoundTrip.{decode, IsSorted, decode-process_tokens}

abbrev at : ℕ → ℕ → Position
at line character = record { line = line; character = character }

abbrev span : Position → Position → Range
span start end = record { start = start; end = end }

-- "ab\nc"
abbrev content : List ℕ
content = b'a' ∷ b'b' ∷ b'\n' ∷ b'c' ∷ []

index_to_pos_run : index_to_pos 3 content ≡ some (at 1 0)
unfolding index_to_pos ℕ_discrete
index_to_pos_run = refl

-- A character far behind the end of its line lands on a later line.
pos_to_index_run : pos_to_index (at 0 3) content ≡ 3
unfolding pos_to_index ℕ_discrete
pos_to_index_run = refl

pos_to_index-le-length_example : pos_to_index (at 0 30) content ≤ 4
pos_to_index-le-length_example = pos_to_index-le-length (at 0 30) content

pos_to_index-index_to_pos_example :
    (p : Position) × (index_to_pos 3 content ≡ some p) × (pos_to_index p content ≡ 3)
pos_to_index-index_to_pos_example = pos_to_index-index_to_pos 3 content (omega arith) (omega arith)

-- The editor replaces the line break by "xy", and then takes the first byte away.
abbrev changes : List ContentChange
changes =
    record { range = span (at 0 2) (at 1 0); text = b'x' ∷ b'y' ∷ [] }
    ∷ record { range = span (at 0 0) (at 0 1); text = [] }
    ∷ []

changes_reported : EditorStep content changes (b'b' ∷ b'x' ∷ b'y' ∷ b'c' ∷ [])
unfolding ℕ_discrete
changes_reported =
    edit 2 3 (b'x' ∷ b'y' ∷ []) (omega arith) (ground arith) (omega arith) (omega arith) (
      edit 0 1 [] (omega arith) (ground arith) (omega arith) (omega arith)
        (done _ (omega arith) (ground arith)))

apply_incremental_changes_lem_example :
    apply_incremental_changes content changes ≡ b'b' ∷ b'x' ∷ b'y' ∷ b'c' ∷ []
apply_incremental_changes_lem_example = apply_incremental_changes_lem changes_reported

abbrev token : Position → ℕ → Token
token p length = record { position = p; length = length; token_type = 1; token_modifiers = 0 }

abbrev tokens : List Token
tokens = token (at 3 4) 2 ∷ token (at 1 6) 5 ∷ token (at 1 2) 3 ∷ []

process_tokens_run :
    process_tokens tokens ≡ 1 ∷ 2 ∷ 3 ∷ 1 ∷ 0 ∷ 0 ∷ 4 ∷ 5 ∷ 1 ∷ 0 ∷ 2 ∷ 4 ∷ 2 ∷ 1 ∷ 0 ∷ []
unfolding process_tokens ℕ_discrete
process_tokens_run = refl

decode-process_tokens_example :
    (decode 0 0 (process_tokens tokens) ≡ slice_stable tokens)
    × IsSorted 0 0 (slice_stable tokens)
    × Perm (slice_stable tokens) tokens
decode-process_tokens_example = decode-process_tokens tokens (omega arith)
