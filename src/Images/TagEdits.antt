-- ===== src/Images/TagEdits.antt =====
-- What the edits of `createTagTextEdit` make of a line.
use circleci_yaml_language_s.Prelude.{
  ◌≡◌, refl, ℕ, ◌+◌, ◌-◌, ◌%◌, ◌<◌, false, List, [], ◌∷◌, ◌++◌, arith, nat_eq, length, take, drop,
  u32, contains, ap, ◌∙◌, ◌≤◌, suc,
}
use circleci_yaml_language_s.Position.{Range}
use circleci_yaml_language_s.Text.{last_part}
use circleci_yaml_language_s.Parameters.Trimming.{last_part-append}
use circleci_yaml_language_s.Images.{create_tag_text_edit}

-- An editor replaces the part of the line by the new text.
abbrev pub edited : List ℕ → (start end : ℕ) → List ℕ → List ℕ
edited line start end new_text = take start line ++ (new_text ++ drop end line)

edited-append :
    (xs line : List ℕ) (s e : ℕ) (t : List ℕ)
    → edited (xs ++ line) (length xs + s) (length xs + e) t ≡ xs ++ edited line s e t
edited-append [] line s e t =
    let start : 0 + s ≡ s = omega arith in let end : 0 + e ≡ e = omega arith in rw (start, end) refl
edited-append (x ∷ xs) line s e t =
    let start : suc (length xs) + s ≡ suc (length xs + s) = omega arith in
    let end : suc (length xs) + e ≡ suc (length xs + e) = omega arith in
    rw (start, end) (ap (λ l. x ∷ l) (edited-append xs line s e t))

wrap_back : (n v : ℕ) → v ≤ n → n < u32 → (n + u32 - v % u32) % u32 ≡ n - v
wrap_back n v h k = omega (arith, h, k)

-- The edit for another tag replaces the old tag by as many bytes as the new tag has: what is left of a
-- longer old tag stays behind the new one, and where the old tag is shorter, what follows the name is
-- lost. The name of the image has a tag and stands on one line, before the limit of uint32.
pub create_tag_text_edit_lem :
    (before path old after tag : List ℕ) (range : Range)
    → contains old b':' ≡ false
    → range.end.character ≡ length before + length path + 1 + length old
    → length before + length path + 1 + length old + 1 + length tag < u32
    → let edit = create_tag_text_edit (path ++ b':' ∷ old) range tag in
      edited
        (before ++ (path ++ (b':' ∷ old ++ after)))
        edit.range.start.character
        edit.range.end.character
        edit.new_text
      ≡ before ++ (path ++ (b':' ∷ tag ++ drop (length tag) (old ++ after)))
unfolding create_tag_text_edit
create_tag_text_edit_lem before path old after tag range plain end bound =
    let version = last_part-append b':' path old plain in
    let first : (range.end.character + u32 - (length old + 1) % u32) % u32
        ≡ length before + (length path + 0) =
      wrap_back range.end.character (length old + 1) (omega (arith, end))
        (omega (arith, end, bound))
      ∙ omega (arith, end) in
    let last : (range.end.character + 1 + length tag + u32 - (length old + 1) % u32) % u32
        ≡ length before + (length path + suc (length tag)) =
      wrap_back (range.end.character + 1 + length tag) (length old + 1) (omega (arith, end))
        (omega (arith, end, bound))
      ∙ omega (arith, end) in
    rw (version, first, last)
      (edited-append before (path ++ b':' ∷ (old ++ after)) (length path + 0)
          (length path + suc (length tag)) (b':' ∷ tag)
        ∙ ap (λ l. before ++ l)
            (edited-append path (b':' ∷ (old ++ after)) 0 (suc (length tag)) (b':' ∷ tag)))

last_part-plain : (path : List ℕ) → contains path b':' ≡ false → last_part b':' path ≡ path
unfolding last_part
last_part-plain [] h = refl
last_part-plain (c ∷ path) h = ground (arith, h)

-- Where the name of the image has no tag, the edit overwrites the name and the byte before it, where
-- a tag should follow the name.
pub create_tag_text_edit_untagged :
    (before : List ℕ) (c : ℕ) (path after tag : List ℕ) (range : Range)
    → contains path b':' ≡ false
    → range.end.character ≡ length before + 1 + length path
    → length before + 1 + length path + 1 + length tag < u32
    → let edit = create_tag_text_edit path range tag in
      edited
        (before ++ (c ∷ path ++ after))
        edit.range.start.character
        edit.range.end.character
        edit.new_text
      ≡ before ++ (b':' ∷ tag ++ drop (length tag) (path ++ after))
unfolding create_tag_text_edit
create_tag_text_edit_untagged before c path after tag range plain end bound =
    let version = last_part-plain path plain in
    let first : (range.end.character + u32 - (length path + 1) % u32) % u32 ≡ length before + 0 =
      wrap_back range.end.character (length path + 1) (omega (arith, end))
        (omega (arith, end, bound))
      ∙ omega (arith, end) in
    let last : (range.end.character + 1 + length tag + u32 - (length path + 1) % u32) % u32
        ≡ length before + suc (length tag) =
      wrap_back (range.end.character + 1 + length tag) (length path + 1) (omega (arith, end))
        (omega (arith, end, bound))
      ∙ omega (arith, end) in
    rw (version, first, last)
      (edited-append before (c ∷ (path ++ after)) 0 (suc (length tag)) (b':' ∷ tag))
