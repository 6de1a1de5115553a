-- ===== src/Index.antt =====
-- pkg/utils/indexToPos.go: byte indices and positions of a document's content.
pub mod RoundTrip
pub mod Columns
use circleci_yaml_language_s.Prelude.{
  ℕ, zero, suc, ◌+◌, ◌%◌, Option, none, some, List, [], ◌∷◌, ◌==◌, nat_eq, ltb, length,
  if◌then◌else◌, u32,
}
use circleci_yaml_language_s.Position.{Position}

-- The loop of `IndexToPos`; `none` is Go's panic on an index out of range.
index_to_pos_from : ℕ → List ℕ → ℕ → ℕ → Option Position
index_to_pos_from zero content line chars_on_line =
    some (record { line = line; character = chars_on_line })
index_to_pos_from (suc i) [] line chars_on_line = none
index_to_pos_from (suc i) (c ∷ content) line chars_on_line =
    index_to_pos_from i content (if c == b'\n' then (line + 1) % u32 else line)
      (if c == b'\n' then 0 else (chars_on_line + 1) % u32)

unfoldable pub index_to_pos : ℕ → List ℕ → Option Position
unfolding index_to_pos_from
index_to_pos index content = index_to_pos_from index content 0 0

-- The `for` loop of `PosToIndex`: the index at which line `target` starts, or the length.
skip_lines : ℕ → List ℕ → ℕ → ℕ → ℕ
skip_lines target [] line idx = idx
skip_lines target (c ∷ content) line idx =
    let rest =
      skip_lines target content (if c == b'\n' then (line + 1) % u32 else line) (idx + 1) in
    if ltb line target then rest else idx

unfoldable pub pos_to_index : Position → List ℕ → ℕ
unfolding skip_lines
pos_to_index pos content =
    let target = skip_lines pos.line content 0 0 + pos.character in
    if length content == 0
    then 0
    else if ltb (length content) target
    then length content
    else target
