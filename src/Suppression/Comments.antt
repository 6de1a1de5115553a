-- ===== src/Suppression/Comments.antt =====
-- Which diagnostics the comments of pkg/parser/suppression.go silence.
use circleci_yaml_language_s.Prelude.{
  ℕ, ◌+◌, ◌≤◌, ◌%◌, ◌≡◌, ◌⊎◌, inl, inr, refl, Bool, true, false, ◌&&◌, ◌||◌, some, List, [], ◌∷◌,
  ◌++◌, ◌==◌, nat_eq, u32, arith, All, leb,
}
use circleci_yaml_language_s.Prelude.Dict.{insert, lookup-insert, lookup-nil}
use circleci_yaml_language_s.Position.{Position}
use circleci_yaml_language_s.Diagnostics.{Diagnostic}
use circleci_yaml_language_s.Suppression.{
  SuppressionRange, Comment, Scan, initial_scan, comment_line, scan_comment, scan_comments,
  parse_suppression_comments, overlaps_any, is_diagnostic_suppressed, ignore_file_regex,
  ignore_inline_regex, ignore_next_line_regex, ignore_range_start_regex, ignore_range_end_regex,
}

overlaps_any-snoc :
    (ranges : List SuppressionRange) (r : SuppressionRange) (d : Diagnostic)
    → overlaps_any (ranges ++ r ∷ []) d ≡ (
        overlaps_any ranges d
        || (leb r.start_line d.range.start.line && leb d.range.start.line r.end_line))
unfolding overlaps_any
overlaps_any-snoc [] r d = ground arith
overlaps_any-snoc (q ∷ ranges) r d = ground (arith, overlaps_any-snoc ranges r d)

abbrev pub any : (Comment → Bool) → List Comment → Bool
any p [] = false
any p (c ∷ comments) = p c || any p comments

module _ (offset : Position) where
  abbrev pub at_line : (List ℕ → Bool) → ℕ → Comment → Bool
  at_line regex line c = regex c.text && comment_line offset c == line

  -- Each way in which a comment can silence a diagnostic that starts on `line`.
  pub data Cause (comments : List Comment) (line : ℕ) : Type 0 where
    by_file : any (λ c. ignore_file_regex c.text) comments ≡ true → Cause comments line
    by_inline : any (at_line ignore_inline_regex line) comments ≡ true → Cause comments line
    by_next_line :
        (before : ℕ)
        → line ≡ (before + 1) % u32
        → any (at_line ignore_next_line_regex before) comments ≡ true
        → Cause comments line
    by_range :
        (first last : ℕ)
        → first ≤ line
        → line ≤ last
        → any (at_line ignore_range_start_regex first) comments ≡ true
        → any (at_line ignore_range_end_regex last) comments ≡ true
        → Cause comments line

  -- What a comment adds.
  abbrev Added : Scan → Comment → ℕ → Type 0
  Added s c line =
      (ignore_file_regex c.text ≡ true)
      ⊎ (at_line ignore_inline_regex line c ≡ true)
      ⊎ (ignore_next_line_regex c.text ≡ true) × (line ≡ (comment_line offset c + 1) % u32)
      ⊎ (at_line ignore_range_end_regex (comment_line offset c) c ≡ true)
        × (line ≤ comment_line offset c)
        × (s.is_range_open ≡ true)
        × (ignore_range_start_regex c.text ≡ false)
        × (s.suppression_range.start_line ≤ line)
      ⊎ (at_line ignore_range_end_regex (comment_line offset c) c ≡ true)
        × (line ≤ comment_line offset c)
        × (at_line ignore_range_start_regex (comment_line offset c) c ≡ true)
        × (comment_line offset c ≤ line)
        × (s.is_range_open ≡ false)

  suppressed_inv :
      (s : Scan) (c : Comment) (d : Diagnostic)
      → is_diagnostic_suppressed (some (scan_comment offset s c).info) d ≡ true
      → (is_diagnostic_suppressed (some s.info) d ≡ true) ⊎ Added s c d.range.start.line
  unfolding scan_comment is_diagnostic_suppressed
  suppressed_inv s c d e =
      let line = d.range.start.line in
      let here = comment_line offset c in
      let lines = s.info.suppressed_lines in
      ground (
        arith,
        lookup-insert line here true lines,
        lookup-insert line ((here + 1) % u32) true lines,
        lookup-insert line ((here + 1) % u32) true (insert here true lines),
        overlaps_any-snoc s.info.suppressed_ranges
            (record { start_line = s.suppression_range.start_line; end_line = here }) d,
        overlaps_any-snoc s.info.suppressed_ranges (record { start_line = here; end_line = here })
            d,
      )

  suppressed_intro :
      (s : Scan) (c : Comment) (d : Diagnostic)
      → (is_diagnostic_suppressed (some s.info) d ≡ true) ⊎ Added s c d.range.start.line
      → is_diagnostic_suppressed (some (scan_comment offset s c).info) d ≡ true
  unfolding scan_comment is_diagnostic_suppressed
  suppressed_intro s c d e =
      let line = d.range.start.line in
      let here = comment_line offset c in
      let lines = s.info.suppressed_lines in
      ground (
        arith,
        lookup-insert line here true lines,
        lookup-insert line ((here + 1) % u32) true lines,
        lookup-insert line ((here + 1) % u32) true (insert here true lines),
        overlaps_any-snoc s.info.suppressed_ranges
            (record { start_line = s.suppression_range.start_line; end_line = here }) d,
        overlaps_any-snoc s.info.suppressed_ranges (record { start_line = here; end_line = here })
            d,
      )

  module _ (all : List Comment) where
    record Sound (s : Scan) : Type 0 where
      caused :
          (d : Diagnostic)
          → is_diagnostic_suppressed (some s.info) d ≡ true
          → Cause all d.range.start.line
      opened :
          s.is_range_open ≡ true
          → any (at_line ignore_range_start_regex s.suppression_range.start_line) all ≡ true

    Sound-scan_comment :
        (s : Scan) (c : Comment)
        → ((p : Comment → Bool) → p c ≡ true → any p all ≡ true)
        → Sound s
        → Sound (scan_comment offset s c)
    unfolding scan_comment is_diagnostic_suppressed
    Sound-scan_comment s c member h = record {
      caused = λ d e. elim (suppressed_inv s c d e) [
        | inl old ↦ h.caused d old
        | inr (inl file) ↦ by_file (member (λ k. ignore_file_regex k.text) file)
        | inr (inr (inl inline)) ↦
            by_inline (member (at_line ignore_inline_regex d.range.start.line) inline)
        | inr (inr (inr (inl (next, e)))) ↦
            by_next_line (comment_line offset c) e
              (member (at_line ignore_next_line_regex (comment_line offset c)) (ground arith))
        | inr (inr (inr (inr (inl (last, le, opened, _, ge))))) ↦
            by_range s.suppression_range.start_line (comment_line offset c) ge le (h.opened opened)
              (member (at_line ignore_range_end_regex (comment_line offset c)) last)
        | inr (inr (inr (inr (inr (last, le, first, ge, _))))) ↦
            by_range (comment_line offset c) (comment_line offset c) ge le
              (member (at_line ignore_range_start_regex (comment_line offset c)) first)
              (member (at_line ignore_range_end_regex (comment_line offset c)) last)
      ];
      opened = λ e.
          ground
            (arith, h.opened, member (at_line ignore_range_start_regex (comment_line offset c)));
    }

    Sound-scan_comments :
        (s : Scan) (comments : List Comment)
        → ((p : Comment → Bool) → any p comments ≡ true → any p all ≡ true)
        → Sound s
        → Sound (scan_comments offset s comments)
    unfolding scan_comments
    Sound-scan_comments s [] members h = h
    Sound-scan_comments s (c ∷ comments) members h =
        Sound-scan_comments (scan_comment offset s c) comments (λ p e. members p (ground arith))
          (Sound-scan_comment s c (λ p e. members p (ground arith)) h)

  Sound-initial_scan : (all : List Comment) → Sound all initial_scan
  unfolding is_diagnostic_suppressed
  Sound-initial_scan all = record {
    caused = λ d e. absurd (ground (arith, lookup-nil {V = Bool} d.range.start.line));
    opened = λ e. ground arith;
  }

  -- A diagnostic is silenced only for a cause: a file comment, an inline comment on its first line,
  -- a next-line comment on the line before (modulo 2^32), or a start comment at or before that line
  -- and an end comment at or behind it.
  pub parse_suppression_comments-Cause :
      (comments : List Comment) (d : Diagnostic)
      → is_diagnostic_suppressed (some (parse_suppression_comments offset comments).0) d ≡ true
      → Cause comments d.range.start.line
  unfolding parse_suppression_comments
  parse_suppression_comments-Cause comments d e =
      (Sound-scan_comments comments initial_scan comments (λ p h. h)
          (Sound-initial_scan comments)).caused
        d e

  abbrev Silences : Scan → Diagnostic → Type 0
  Silences s d = is_diagnostic_suppressed (some s.info) d ≡ true

  Silences-scan_comments :
      (s : Scan) (comments : List Comment) (d : Diagnostic)
      → Silences s d
      → Silences (scan_comments offset s comments) d
  unfolding scan_comments
  Silences-scan_comments s [] d h = h
  Silences-scan_comments s (c ∷ comments) d h =
      Silences-scan_comments (scan_comment offset s c) comments d (suppressed_intro s c d (inl h))

  scan_comments-append :
      (s : Scan) (xs ys : List Comment)
      → scan_comments offset s (xs ++ ys) ≡ scan_comments offset (scan_comments offset s xs) ys
  unfolding scan_comments
  scan_comments-append s [] ys = refl
  scan_comments-append s (c ∷ xs) ys = scan_comments-append (scan_comment offset s c) xs ys

  -- The range that began at line `first` is still open.
  abbrev IsOpen : ℕ → Scan → Type 0
  IsOpen first s = (s.is_range_open ≡ true) × (s.suppression_range.start_line ≡ first)

  abbrev pub NoEnd : List Comment → Type 0
  NoEnd = All (λ c. ignore_range_end_regex c.text ≡ false)

  IsOpen-scan_comments :
      (first : ℕ) (s : Scan) (comments : List Comment)
      → NoEnd comments
      → IsOpen first s
      → IsOpen first (scan_comments offset s comments)
  unfolding scan_comments
  IsOpen-scan_comments first s [] h o = o
  IsOpen-scan_comments first s (c ∷ comments) h o =
      IsOpen-scan_comments first (scan_comment offset s c) comments h.1 (ground arith)

  -- A diagnostic that starts between a start comment and the first end comment behind it is
  -- silenced, where no range was open before the start.
  pub range_silences :
      (before between after : List Comment) (first last : Comment) (d : Diagnostic)
      → (scan_comments offset initial_scan before).is_range_open ≡ false
      → ignore_file_regex first.text ≡ false
      → ignore_range_start_regex first.text ≡ true
      → NoEnd (first ∷ between)
      → ignore_range_end_regex last.text ≡ true
      → ignore_range_start_regex last.text ≡ false
      → comment_line offset first ≤ d.range.start.line
      → d.range.start.line ≤ comment_line offset last
      → is_diagnostic_suppressed
          (some (parse_suppression_comments offset (before ++ first ∷ (between ++ last ∷ after))).0)
          d
        ≡ true
  unfolding parse_suppression_comments
  range_silences before between after first last d closed nf start h end ns ge le =
      let s = scan_comments offset initial_scan before in
      let t = scan_comments offset (scan_comment offset s first) between in
      let o : IsOpen (comment_line offset first) t =
        IsOpen-scan_comments (comment_line offset first) (scan_comment offset s first) between h.1
          (ground arith) in
      rw (scan_comments-append, scan_comments-append)
        (Silences-scan_comments (scan_comment offset t last) after d
          (suppressed_intro t last d (inr (inr (inr (inr (inl (ground arith))))))))
