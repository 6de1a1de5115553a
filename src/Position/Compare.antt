-- ===== src/Position/Compare.antt =====
-- What the comparisons of pkg/utils/range.go decide.
use circleci_yaml_language_s.Prelude.{◌≡◌, ◌≢◌, ◌↔◌, true, arith}
use circleci_yaml_language_s.Position.{
  Position, Range, IsU32, zero_result, minus_one, compare_position, are_range_equal,
}

-- For uint32 positions the comparison is 0 exactly for equal positions, and is never -1.
pub compare_position_lem :
    (a b : Position)
    → IsU32 a
    → IsU32 b
    → ((compare_position a b ≡ zero_result) ↔ (a ≡ b)) × (compare_position a b ≢ minus_one)
unfolding compare_position
compare_position_lem a b ha hb = ground arith

-- For uint32 starts, `AreRangeEqual` holds exactly where the starts are equal, whatever the ends.
pub are_range_equal_iff :
    (a b : Range)
    → IsU32 a.start
    → IsU32 b.start
    → (are_range_equal a b ≡ true) ↔ (a.start ≡ b.start)
unfolding are_range_equal
are_range_equal_iff a b ha hb = ground arith
