-- ===== src/CodeActions.antt =====
-- pkg/utils/codeActions.go: the edits that offer to silence a diagnostic. Texts are lists of bytes.
pub mod Comments
use circleci_yaml_language_s.Prelude.{
  ℕ, zero, suc, ◌+◌, ◌%◌, String, Bool, true, false, ◌||◌, Option, none, some, List, [], ◌∷◌, ◌++◌,
  ◌==◌, nat_eq, if◌then◌else◌, u32,
}
use circleci_yaml_language_s.Position.{Range}
use circleci_yaml_language_s.Text.{codes}
use circleci_yaml_language_s.Diagnostics.{Diagnostic}

pub record TextEdit : Type 0 where
  pub new_text : List ℕ
  pub range : Range

-- A protocol.CodeAction of kind `quickfix` whose edits are those of one document.
pub record CodeAction : Type 0 where
  pub title : String
  pub text_document_uri : String
  pub text_edits : List TextEdit
  pub is_preferred : Bool

unfoldable pub create_code_action_text_edit : String → String → List TextEdit → Bool → CodeAction
create_code_action_text_edit title text_document_uri text_edits is_preferred = record {
  title = title;
  text_document_uri = text_document_uri;
  text_edits = text_edits;
  is_preferred = is_preferred;
}

-- docLines[n], or the empty text where there is no such line.
unfoldable pub line_at : ℕ → List ℕ → List ℕ
line_at n [] = []
line_at zero (c ∷ text) = let rest = line_at zero text in if c == b'\n' then [] else c ∷ rest
line_at (suc n) (c ∷ text) =
    let next = line_at n text in
    let same = line_at (suc n) text in if c == b'\n' then next else same

-- The loop over the bytes of the line, up to the first that is no space and no tab.
unfoldable pub leading : List ℕ → List ℕ
leading [] = []
leading (ch ∷ text) = let rest = leading text in if ch == 32 || ch == 9 then ch ∷ rest else []

unfoldable pub indent : List ℕ → Diagnostic → List ℕ
unfolding line_at leading
indent doc_content diagnostic = leading (line_at diagnostic.range.start.line doc_content)

-- The empty range at the start of a line.
abbrev pub line_start : ℕ → Range
line_start line = record {
  start = record { line = line; character = 0 };
  end = record { line = line; character = 0 };
}

unfoldable pub ignore_actions : String → List ℕ → Diagnostic → List CodeAction
unfolding indent create_code_action_text_edit
ignore_actions doc_uri doc_content diagnostic =
    let rng = diagnostic.range in
    let blank = indent doc_content diagnostic in
    create_code_action_text_edit "Ignore this line" doc_uri
      (record {
        new_text = blank ++ (codes "# cci-ignore-next-line" ++ b'\n' ∷ []);
        range = line_start rng.start.line;
      }
        ∷ [])
      false
    ∷ (if rng.start.line == rng.end.line
        then create_code_action_text_edit "Ignore this line (inline)" doc_uri
            (record {
              new_text = codes " # cci-ignore";
              range = record {
                start = record { line = rng.start.line; character = (rng.end.character + 1) % u32 };
                end = record { line = rng.start.line; character = (rng.end.character + 14) % u32 };
              };
            }
              ∷ [])
            false
        else create_code_action_text_edit "Ignore this range" doc_uri
            (record {
              new_text = blank ++ (codes "# cci-ignore-start" ++ b'\n' ∷ []);
              range = line_start rng.start.line;
            }
              ∷ record {
                new_text = blank ++ (codes "# cci-ignore-end" ++ b'\n' ∷ []);
                range = line_start ((rng.end.line + 1) % u32);
              }
              ∷ [])
            false)
    ∷ create_code_action_text_edit "Ignore all errors in this file" doc_uri
        (record { new_text = codes "# cci-ignore-file" ++ b'\n' ∷ []; range = line_start 0 } ∷ [])
        false
    ∷ []

-- `AppendSuppressionCodeActions`: a diagnostic stands beside its `Data`, which `decode` reads by way
-- of JSON; an error of it is `none`, and ends the loop.
module _ {Data : Type 0} (decode : Data → Option (List CodeAction)) where
  abbrev pub existing_actions : Option Data → Option (List CodeAction)
  existing_actions none = some []
  existing_actions (some data_) = decode data_

  unfoldable pub append_suppression_code_actions :
      String
      → List (Diagnostic × Option Data)
      → List ℕ
      → Option (List (Diagnostic × List CodeAction))
  unfolding ignore_actions
  append_suppression_code_actions doc_uri [] doc_content = some []
  append_suppression_code_actions doc_uri ((diagnostic, d) ∷ diagnostics) doc_content =
      let rest = append_suppression_code_actions doc_uri diagnostics doc_content in
      elim (existing_actions d) [
        | none ↦ none
        | some actions ↦ elim rest [
          | none ↦ none
          | some new_diagnostics ↦ some (
              (diagnostic, actions ++ ignore_actions doc_uri doc_content diagnostic)
              ∷ new_diagnostics)
        ]
      ]
