-- ===== src/Edits/Splice.antt =====
-- The server's text follows the editor's.
use circleci_yaml_language_s.Prelude.{
  ℕ, ◌≤◌, ◌<◌, ◌≡◌, refl, some, List, [], ◌∷◌, ◌++◌, length, take, drop, u32, arith, nat_eq, All,
}
use circleci_yaml_language_s.Position.{Position}
use circleci_yaml_language_s.Index.{index_to_pos, pos_to_index}
use circleci_yaml_language_s.Index.Columns.{IsPlain, editor_position, index_to_pos_plain}
use circleci_yaml_language_s.Index.RoundTrip.{pos_to_index-index_to_pos}
use circleci_yaml_language_s.Edits.{ContentChange, apply_incremental_changes}

-- The editor replaces its bytes from `from` up to `until`, in a plain text of fewer than 2^32 bytes,
-- and reports the positions of the two ends.
pub data EditorStep : List ℕ → List ContentChange → List ℕ → Type 0 where
  done :
      (content : List ℕ)
      → length content < u32
      → All IsPlain content
      → EditorStep content [] content
  edit :
      {content final : List ℕ} {changes : List ContentChange} (from until : ℕ) (text : List ℕ)
      → length content < u32
      → All IsPlain content
      → from ≤ until
      → until ≤ length content
      → EditorStep (take from content ++ text ++ drop until content) changes final
      → EditorStep content
          (record {
            range = record {
              start = editor_position from content;
              end = editor_position until content;
            };
            text = text;
          }
            ∷ changes)
          final

pos_to_index_of :
    (i : ℕ) (content : List ℕ) (p : Position)
    → length content < u32
    → i ≤ length content
    → index_to_pos i content ≡ some p
    → pos_to_index p content ≡ i
pos_to_index_of i content p small h e =
    let (q, e', r) = pos_to_index-index_to_pos i content small h in ground arith

-- Where the texts on the way are ASCII with the line end `\n` and have fewer than 2^32 bytes, the
-- server's text is the editor's after the server has applied the changes that the editor reported
-- in the protocol's positions, which count UTF-16 code units.
pub apply_incremental_changes_lem :
    {content final : List ℕ} {changes : List ContentChange}
    → EditorStep content changes final
    → apply_incremental_changes content changes ≡ final
unfolding apply_incremental_changes
apply_incremental_changes_lem (done content small plain) = refl
apply_incremental_changes_lem {content = content} (edit from until text small plain le bound rest) =
    let start = editor_position from content in
    let end = editor_position until content in
    let low : from ≤ length content = omega arith in
    let s : pos_to_index start content ≡ from =
      pos_to_index_of from content start small low
        (index_to_pos_plain from content plain low small) in
    let e : pos_to_index end content ≡ until =
      pos_to_index_of until content end small bound
        (index_to_pos_plain until content plain bound small) in
    let ih = apply_incremental_changes_lem rest in rw (s, e) ih
