-- ===== src/Index/RoundTrip.antt =====
-- The two conversions of pkg/utils/indexToPos.go against each other.
use circleci_yaml_language_s.Prelude.{
  ℕ, zero, suc, ◌+◌, ◌%◌, ◌≤◌, ◌<◌, ◌≡◌, refl, some, List, [], ◌∷◌, ◌==◌, nat_eq, length,
  if◌then◌else◌, u32, arith, inl, inr, Bool-cases,
}
use circleci_yaml_language_s.Position.{Position}
use circleci_yaml_language_s.Index.{index_to_pos_from, index_to_pos, skip_lines, pos_to_index}

skip_lines_bounds :
    (target line idx : ℕ) (content : List ℕ)
    → (idx ≤ skip_lines target content line idx)
      × (skip_lines target content line idx ≤ idx + length content)
unfolding skip_lines
skip_lines_bounds target line idx [] = omega arith
skip_lines_bounds target line idx (c ∷ content) = ground (
  arith,
  skip_lines_bounds target (if c == b'\n' then (line + 1) % u32 else line) (idx + 1) content,
)

skip_lines_stop : (line idx : ℕ) (content : List ℕ) → skip_lines line content line idx ≡ idx
unfolding skip_lines
skip_lines_stop line idx [] = refl
skip_lines_stop line idx (c ∷ content) = ground arith

-- What the two loops have in common when they start on the same line.
module _ (p : Position) where
  record Meets (i : ℕ) (content : List ℕ) (line chars idx : ℕ) : Type 0 where
    after : line ≤ p.line
    same :
        skip_lines p.line content line idx + p.character
        ≡ idx + i + (if p.line == line then chars else 0)

  meets :
      (i : ℕ) (content : List ℕ) (line chars idx : ℕ)
      → line + length content < u32
      → chars + length content < u32
      → index_to_pos_from i content line chars ≡ some p
      → Meets i content line chars idx
  unfolding index_to_pos_from skip_lines
  meets zero content line chars idx hl hc e = ground (arith, skip_lines_stop line idx content)
  meets (suc i) [] line chars idx hl hc e = ground arith
  meets (suc i) (c ∷ content) line chars idx hl hc e = elim (Bool-cases (c == b'\n')) [
    | inl nl ↦
        let e' : index_to_pos_from i content (line + 1) 0 ≡ some p = ground arith in
        let ih = meets i content (line + 1) 0 (idx + 1) (omega arith) (omega arith) e' in
        ground arith
    | inr other ↦
        let e' : index_to_pos_from i content line (chars + 1) ≡ some p = ground arith in
        let ih = meets i content line (chars + 1) (idx + 1) (omega arith) (omega arith) e' in
        ground (arith, skip_lines_stop line (idx + 1) content)
  ]

index_to_pos_from_total :
    (i : ℕ) (content : List ℕ) (line chars : ℕ)
    → i ≤ length content
    → (p : Position) × (index_to_pos_from i content line chars ≡ some p)
unfolding index_to_pos_from
index_to_pos_from_total zero content line chars h = (_, refl)
index_to_pos_from_total (suc i) [] line chars h = absurd (omega arith)
index_to_pos_from_total (suc i) (c ∷ content) line chars h =
    index_to_pos_from_total i content _ _ (omega arith)

-- An index that comes from a position never passes the end of the content.
pub pos_to_index-le-length :
    (p : Position) (content : List ℕ) → pos_to_index p content ≤ length content
unfolding pos_to_index
pos_to_index-le-length p content = ground arith

-- In a content of fewer than 2^32 bytes every index up to the length has a position, and that
-- position leads back to the index.
pub pos_to_index-index_to_pos :
    (i : ℕ) (content : List ℕ)
    → length content < u32
    → i ≤ length content
    → (p : Position) × (index_to_pos i content ≡ some p) × (pos_to_index p content ≡ i)
unfolding index_to_pos pos_to_index
pos_to_index-index_to_pos i content small h =
    let (p, e) = index_to_pos_from_total i content 0 0 h in
    let m = meets p i content 0 0 0 (omega arith) (omega arith) e in (p, e, ground (arith, m))
