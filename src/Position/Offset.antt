-- ===== src/Position/Offset.antt =====
-- Membership in a range.
use circleci_yaml_language_s.Prelude.{◌≡◌, arith, ◌+◌, ◌<◌, u32}
use circleci_yaml_language_s.Position.{Position, Range, pos_in_range, add_offset_to_range}

-- A range and a position that move by one offset, with no wrap, stay in the same relation.
pub pos_in_range-add_offset :
    (rng : Range) (pos offset : Position)
    → rng.start.line + offset.line < u32
    → rng.end.line + offset.line < u32
    → rng.start.character + offset.character < u32
    → rng.end.character + offset.character < u32
    → pos_in_range
        (add_offset_to_range rng offset)
        (record { line = pos.line + offset.line; character = pos.character + offset.character })
      ≡ pos_in_range rng pos
unfolding pos_in_range add_offset_to_range
pos_in_range-add_offset rng pos offset h1 h2 h3 h4 = ground arith
