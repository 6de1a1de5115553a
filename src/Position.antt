-- ===== src/Position.antt =====
-- pkg/utils/range.go and pkg/utils/nodeAtPos.go: positions and ranges of a text document.
-- Lines and characters are Go's uint32: arithmetic on them wraps at `u32`.
pub mod Compare
pub mod Offset
use circleci_yaml_language_s.Prelude.{
  ℕ, ◌+◌, ◌-◌, ◌%◌, Bool, true, false, ◌&&◌, ltb, leb, ◌==◌, nat_eq, not, if◌then◌else◌, u32, ◌<◌,
}

pub record Position : Type 0 where
  pub line : ℕ
  pub character : ℕ

pub record Range : Type 0 where
  pub start : Position
  pub end : Position

-- The value fits Go's field.
abbrev pub IsU32 : Position → Type 0
IsU32 p = (p.line < u32) × (p.character < u32)

unfoldable pub add_offset_to_range : Range → Position → Range
add_offset_to_range rng offset = record {
  start = record {
    line = (rng.start.line + offset.line) % u32;
    character = (rng.start.character + offset.character) % u32;
  };
  end = record {
    line = (rng.end.line + offset.line) % u32;
    character = (rng.end.character + offset.character) % u32;
  };
}

-- The results 0, 1 and -1 of `ComparePosition`.
pub data Comparison : Type 0 where
  zero_result one minus_one : Comparison

-- `b - a` on uint32, then the tests `== 0` and `> 0`.
sign_of_diff : ℕ → ℕ → Comparison
sign_of_diff a b =
    let diff = (b + u32 - a) % u32 in
    if diff == 0 then zero_result else if ltb 0 diff then one else minus_one

unfoldable pub compare_position : Position → Position → Comparison
unfolding sign_of_diff
compare_position a b =
    if a.line == b.line then sign_of_diff a.character b.character else sign_of_diff a.line b.line

is_zero_result : Comparison → Bool
is_zero_result zero_result = true
is_zero_result _ = false

unfoldable pub are_position_equal : Position → Position → Bool
unfolding compare_position is_zero_result
are_position_equal a b = is_zero_result (compare_position a b)

-- The second test compares `b.end` with itself, as the source does.
unfoldable pub are_range_equal : Range → Range → Bool
unfolding are_position_equal
are_range_equal a b =
    if not (are_position_equal a.start b.start) then false else are_position_equal b.end b.end

unfoldable pub is_default_range : Range → Bool
is_default_range rng =
    (rng.start.character + rng.start.line + rng.end.character + rng.end.line) % u32 == 0

unfoldable pub pos_in_range : Range → Position → Bool
pos_in_range rng pos =
    if rng.start.line == rng.end.line && pos.line == rng.start.line
    then leb rng.start.character pos.character && leb pos.character rng.end.character
    else leb rng.start.line pos.line && leb pos.line rng.end.line
