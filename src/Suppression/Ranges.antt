-- ===== src/Suppression/Ranges.antt =====
-- The ranges that pkg/parser/suppression.go collects, and what they silence.
use circleci_yaml_language_s.Prelude.{
  ℕ, ◌≤◌, ◌≡◌, ◌⊎◌, inl, inr, true, false, List, [], ◌∷◌, ◌++◌, nat_eq, if◌then◌else◌, arith,
  Bool-cases,
}
use circleci_yaml_language_s.Position.{Position}
use circleci_yaml_language_s.Suppression.{
  SuppressionRange, Comment, Scan, initial_scan, comment_line, scan_comment, scan_comments,
  parse_suppression_comments,
}

-- The ranges stand one behind the other between `lo` and `hi`, each with its start first.
abbrev pub IsChain : ℕ → List SuppressionRange → ℕ → Type 0
IsChain lo [] hi = lo ≤ hi
IsChain lo (r ∷ ranges) hi =
    (lo ≤ r.start_line) × (r.start_line ≤ r.end_line) × IsChain r.end_line ranges hi

IsChain-snoc :
    (ranges : List SuppressionRange) (r : SuppressionRange) (lo mid : ℕ)
    → IsChain lo ranges mid
    → mid ≤ r.start_line
    → r.start_line ≤ r.end_line
    → IsChain lo (ranges ++ r ∷ []) r.end_line
IsChain-snoc [] r lo mid h a b = omega arith
IsChain-snoc (q ∷ ranges) r lo mid h a b = (h.0, h.1, IsChain-snoc ranges r q.end_line mid h.2 a b)

IsChain-mono :
    (ranges : List SuppressionRange) (lo mid hi : ℕ)
    → IsChain lo ranges mid
    → mid ≤ hi
    → IsChain lo ranges hi
IsChain-mono [] lo mid hi h a = omega arith
IsChain-mono (q ∷ ranges) lo mid hi h a = (h.0, h.1, IsChain-mono ranges q.end_line mid hi h.2 a)

module _ (offset : Position) where
  -- The comments in the order of their lines, from line `lo` on.
  abbrev pub InOrder : ℕ → List Comment → Type 0
  InOrder lo [] = Unit
  InOrder lo (c ∷ comments) =
      (lo ≤ comment_line offset c) × InOrder (comment_line offset c) comments

  abbrev Tracks : Scan → ℕ → Type 0
  Tracks s line =
      if s.is_range_open
      then IsChain 0 s.info.suppressed_ranges s.suppression_range.start_line
        × (s.suppression_range.start_line ≤ line)
      else IsChain 0 s.info.suppressed_ranges line

  abbrev range_of : ℕ → ℕ → SuppressionRange
  range_of a b = record { start_line = a; end_line = b }

  -- What a comment does to the ranges: nothing, open one, close the open one, or both.
  abbrev Effect : Scan → Comment → Scan → Type 0
  Effect s c t =
      (t.is_range_open ≡ s.is_range_open)
        × (t.suppression_range.start_line ≡ s.suppression_range.start_line)
        × (t.info.suppressed_ranges ≡ s.info.suppressed_ranges)
      ⊎ (s.is_range_open ≡ false)
        × (t.is_range_open ≡ true)
        × (t.suppression_range.start_line ≡ comment_line offset c)
        × (t.info.suppressed_ranges ≡ s.info.suppressed_ranges)
      ⊎ (s.is_range_open ≡ true)
        × (t.is_range_open ≡ false)
        × (t.info.suppressed_ranges
            ≡ s.info.suppressed_ranges
              ++ range_of s.suppression_range.start_line (comment_line offset c) ∷ [])
      ⊎ (s.is_range_open ≡ false)
        × (t.is_range_open ≡ false)
        × (t.info.suppressed_ranges
            ≡ s.info.suppressed_ranges
              ++ range_of (comment_line offset c) (comment_line offset c) ∷ [])

  scan_comment-Effect : (s : Scan) (c : Comment) → Effect s c (scan_comment offset s c)
  unfolding scan_comment
  scan_comment-Effect s c = ground arith

  Tracks-step :
      (s t : Scan) (c : Comment) (line : ℕ)
      → Effect s c t
      → line ≤ comment_line offset c
      → Tracks s line
      → Tracks t (comment_line offset c)
  Tracks-step s t c line e h k =
      let here = comment_line offset c in
      let ranges = s.info.suppressed_ranges in
      let first = s.suppression_range.start_line in
      ground (
        arith,
        IsChain-mono ranges 0 line here,
        IsChain-snoc ranges (range_of first here) 0 first,
        IsChain-snoc ranges (range_of here here) 0 line,
      )

  Tracks-scan_comments :
      (s : Scan) (line : ℕ) (comments : List Comment)
      → InOrder line comments
      → Tracks s line
      → (hi : ℕ) × Tracks (scan_comments offset s comments) hi
  unfolding scan_comments
  Tracks-scan_comments s line [] o k = (line, k)
  Tracks-scan_comments s line (c ∷ comments) o k =
      Tracks-scan_comments (scan_comment offset s c) (comment_line offset c) comments o.1
        (Tracks-step s (scan_comment offset s c) c line (scan_comment-Effect s c) o.0 k)

  IsChain-of :
      (s : Scan) (hi : ℕ) → Tracks s hi → (top : ℕ) × IsChain 0 s.info.suppressed_ranges top
  IsChain-of s hi k = elim (Bool-cases s.is_range_open) [
    | inl opened ↦ (s.suppression_range.start_line, ground arith)
    | inr closed ↦ (hi, ground arith)
  ]

  -- For comments in the order of their lines the suppressed ranges stand one behind the other, each
  -- with its start line at or before its end line.
  pub parse_suppression_comments-IsChain :
      (comments : List Comment)
      → InOrder 0 comments
      → (top : ℕ) × IsChain 0 (parse_suppression_comments offset comments).0.suppressed_ranges top
  unfolding parse_suppression_comments
  parse_suppression_comments-IsChain comments o =
      let (hi, k) = Tracks-scan_comments initial_scan 0 comments o (omega arith) in
      IsChain-of (scan_comments offset initial_scan comments) hi k
