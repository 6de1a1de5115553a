-- ===== src/CodeActions/Comments.antt =====
-- The comments that the edits insert are comments that silence.
use circleci_yaml_language_s.Prelude.{
  ◌≢◌, u32, ◌%◌, ◌+◌, ◌∙◌, Option, none, some, ℕ, ◌≡◌, refl, String, Bool, true, Bool-cases, inl,
  inr, List, [], ◌∷◌, ◌++◌, arith, ◌==◌, nat_eq, ℕ_discrete,
}
use circleci_yaml_language_s.Text.{codes, skip_spaces}
use circleci_yaml_language_s.Diagnostics.{Diagnostic}
use circleci_yaml_language_s.Position.{Range}
use circleci_yaml_language_s.Suppression.{
  matches_line, matches_inline, ignore_file_regex, ignore_inline_regex, ignore_next_line_regex,
  ignore_range_start_regex, ignore_range_end_regex,
}
use circleci_yaml_language_s.CodeActions.{
  TextEdit, CodeAction, line_start, indent, leading, line_at, ignore_actions,
  create_code_action_text_edit,
}

-- The last of the bytes.
abbrev pub last_byte : List ℕ → Option ℕ
last_byte [] = none
last_byte (c ∷ []) = some c
last_byte (c ∷ (d ∷ text)) = last_byte (d ∷ text)

skip_spaces-leading : (line text : List ℕ) → skip_spaces (leading line ++ text) ≡ skip_spaces text
unfolding skip_spaces leading
skip_spaces-leading [] text = refl
skip_spaces-leading (c ∷ line) text = ground (arith, skip_spaces-leading line text)

matches_line-leading :
    (literal line text : List ℕ)
    → matches_line literal (leading line ++ text) ≡ matches_line literal text
unfolding matches_line
matches_line-leading literal line text = rw (skip_spaces-leading line text) refl

-- The one edit puts the comment of the expression on a line of its own, before line `line`.
abbrev pub PutsBefore : (List ℕ → Bool) → ℕ → TextEdit → Type 0
PutsBefore regex line e =
    (regex e.new_text ≡ true)
    × (e.range.start ≡ record { line = line; character = 0 })
    × (e.range.end ≡ e.range.start)
    × (last_byte e.new_text ≡ some b'\n')

-- The comment stands behind the diagnostic, on its line, in place of the next 13 columns.
abbrev pub PutsBehind : Range → TextEdit → Type 0
PutsBehind rng e =
    (ignore_inline_regex e.new_text ≡ true)
    × (e.range.start ≡ record { line = rng.start.line; character = (rng.end.character + 1) % u32 })
    × (e.range.end ≡ record { line = rng.start.line; character = (rng.end.character + 14) % u32 })

-- On one line, a comment behind the diagnostic; else a comment before its first line, and one
-- before the line that follows its last.
abbrev pub SilencesRange : Range → List TextEdit → Type 0
SilencesRange rng (e ∷ []) = (rng.start.line ≡ rng.end.line) × PutsBehind rng e
SilencesRange rng (e ∷ (f ∷ [])) =
    (rng.start.line ≢ rng.end.line)
    × PutsBefore ignore_range_start_regex rng.start.line e
    × PutsBefore ignore_range_end_regex ((rng.end.line + 1) % u32) f
SilencesRange rng other = ⊥

-- Three actions: a comment for the next line before the diagnostic's first, the comments for its
-- range, and a comment for the file before its first line.
abbrev pub Silences : Range → List CodeAction → Type 0
Silences rng (a ∷ (b ∷ (c ∷ []))) =
    ((e : TextEdit) × (a.text_edits ≡ e ∷ []) × PutsBefore ignore_next_line_regex rng.start.line e)
    × SilencesRange rng b.text_edits
    × ((e : TextEdit) × (c.text_edits ≡ e ∷ []) × PutsBefore ignore_file_regex 0 e)
Silences rng other = ⊥

last_byte-append :
    (line text : List ℕ) (c : ℕ) → last_byte text ≡ some c → last_byte (line ++ text) ≡ some c
last_byte-append [] text c h = h
last_byte-append (d ∷ line) text c h = let ih = last_byte-append line text c h in ground (arith, ih)

-- The comment behind an indentation, at the start of a line.
before_line :
    (literal line : List ℕ) (text : List ℕ) (n : ℕ)
    → matches_line literal text ≡ true
    → last_byte text ≡ some b'\n'
    → PutsBefore
        (matches_line literal)
        n
        (record { new_text = leading line ++ text; range = line_start n })
before_line literal line text n h l = (
  matches_line-leading literal line text ∙ h,
  refl,
  refl,
  last_byte-append (leading line) text b'\n' l,
)

-- The actions that are offered for a diagnostic insert the comments that the suppression looks
-- for, each where it has to stand: the one for the next line before the diagnostic's first line;
-- behind the diagnostic where it stands on one line, else those for a range before its first line
-- and before the line that follows its last; and the one for the file before its first line. The
-- comment behind a diagnostic is put in place of the 13 columns behind the next.
pub ignore_actions_lem :
    (doc_uri : String) (doc_content : List ℕ) (diagnostic : Diagnostic)
    → Silences diagnostic.range (ignore_actions doc_uri doc_content diagnostic)
unfolding ignore_actions indent create_code_action_text_edit matches_line matches_inline ℕ_discrete
ignore_actions_lem doc_uri doc_content diagnostic =
    let rng = diagnostic.range in
    let line = line_at rng.start.line doc_content in
    let next =
      before_line (codes "cci-ignore-next-line") line (codes "# cci-ignore-next-line" ++ b'\n' ∷ [])
        rng.start.line refl refl in
    elim (Bool-cases (rng.start.line == rng.end.line)) [
      | inl single ↦ rw single (
        (_, refl, next),
        (ground (arith, single), (refl, refl, refl)),
        (_, refl, (refl, refl, refl, refl)),
      )
      | inr several ↦ rw several (
        (_, refl, next),
        (
          λ e. ground (arith, e, several),
          before_line (codes "cci-ignore-start") line (codes "# cci-ignore-start" ++ b'\n' ∷ [])
              rng.start.line refl refl,
          before_line (codes "cci-ignore-end") line (codes "# cci-ignore-end" ++ b'\n' ∷ [])
              ((rng.end.line + 1) % u32) refl refl,
        ),
        (_, refl, (refl, refl, refl, refl)),
      )
    ]
