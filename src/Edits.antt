-- ===== src/Edits.antt =====
-- `applyIncrementalChanges` of pkg/server/methods/synchronize.go: the changes that an editor sends
-- for an open document, applied one after the other to the cached text.
pub mod Splice
use circleci_yaml_language_s.Prelude.{ℕ, List, [], ◌∷◌, ◌++◌, take, drop}
use circleci_yaml_language_s.Position.{Range}
use circleci_yaml_language_s.Index.{pos_to_index}

-- protocol.TextDocumentContentChangeEvent
pub record ContentChange : Type 0 where
  pub range : Range
  pub text : List ℕ

-- One round of the loop: `content[:start]`, the new text, `content[end:]`.
unfoldable pub apply_change : List ℕ → ContentChange → List ℕ
apply_change content change =
    let start = pos_to_index change.range.start content in
    let end = pos_to_index change.range.end content in
    take start content ++ change.text ++ drop end content

unfoldable pub apply_incremental_changes : List ℕ → List ContentChange → List ℕ
unfolding apply_change
apply_incremental_changes content [] = content
apply_incremental_changes content (change ∷ changes) =
    apply_incremental_changes (apply_change content change) changes
