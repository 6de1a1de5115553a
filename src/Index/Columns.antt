-- ===== src/Index/Columns.antt =====
-- The positions that the protocol uses, which count UTF-16 code units, against those of
-- pkg/utils/indexToPos.go, which count bytes.
use circleci_yaml_language_s.Prelude.{
  ℕ, zero, suc, ◌+◌, ◌≤◌, ◌<◌, ◌≡◌, ◌≢◌, ◌==◌, nat_eq, ltb, if◌then◌else◌, All, Bool-cases, inl,
  inr, some, List, [], ◌∷◌, length, take, u32, arith,
}
use circleci_yaml_language_s.Position.{Position}
use circleci_yaml_language_s.Index.{index_to_pos_from, index_to_pos}

-- The UTF-16 code units that a byte of a UTF-8 text stands for, counted at its first byte.
abbrev pub code_units : ℕ → ℕ
code_units c = if ltb c 128 then 1 else if ltb c 192 then 0 else if ltb c 240 then 1 else 2

abbrev pub line_breaks : List ℕ → ℕ
line_breaks [] = 0
line_breaks (c ∷ text) = let rest = line_breaks text in if c == b'\n' then suc rest else rest

-- The code units behind the last line break.
abbrev pub column : ℕ → List ℕ → ℕ
column before [] = before
column before (c ∷ text) = column (if c == b'\n' then 0 else before + code_units c) text

-- The position of an index of the text, as the protocol counts it.
abbrev pub editor_position : ℕ → List ℕ → Position
editor_position i content = record {
  line = line_breaks (take i content);
  character = column 0 (take i content);
}

-- A byte of an ASCII text whose lines end in `\n` alone.
abbrev pub IsPlain : ℕ → Type 0
IsPlain c = (c < 128) × (c ≢ 13)

index_to_pos_from_plain :
    (i : ℕ) (content : List ℕ) (line chars : ℕ)
    → All IsPlain content
    → i ≤ length content
    → line + length content < u32
    → chars + length content < u32
    → index_to_pos_from i content line chars
      ≡ some (record {
        line = line + line_breaks (take i content);
        character = column chars (take i content);
      })
unfolding index_to_pos_from
index_to_pos_from_plain zero content line chars plain h hl hc = ground arith
index_to_pos_from_plain (suc i) [] line chars plain h hl hc = absurd (omega arith)
index_to_pos_from_plain (suc i) (c ∷ content) line chars ((ascii, _), plain) h hl hc =
    elim (Bool-cases (c == b'\n')) [
      | inl nl ↦
          let ih =
            index_to_pos_from_plain i content (line + 1) 0 plain (omega arith) (omega arith)
              (omega arith) in
          ground (arith, nl, ih)
      | inr other ↦
          let ih =
            index_to_pos_from_plain i content line (chars + 1) plain (omega arith) (omega arith)
              (omega arith) in
          ground (arith, other, ih, ascii)
    ]

pub index_to_pos_plain :
    (i : ℕ) (content : List ℕ)
    → All IsPlain content
    → i ≤ length content
    → length content < u32
    → index_to_pos i content ≡ some (editor_position i content)
unfolding index_to_pos
index_to_pos_plain i content plain h small =
    let at = index_to_pos_from_plain i content 0 0 plain h (omega arith) (omega arith) in
    ground (arith, at)
