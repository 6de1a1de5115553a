-- ===== src/Images.antt =====
-- pkg/parser/dockerImageParser.go and `createTagTextEdit` of pkg/parser/validate/dockerImage.go: the
-- names of Docker images, as lists of bytes.
pub mod RoundTrip
pub mod TagEdits
use circleci_yaml_language_s.Prelude.{
  ℕ, ◌+◌, ◌-◌, ◌%◌, Bool, true, false, not, ◌&&◌, ◌||◌, leb, Option, none, some, List, [], ◌∷◌,
  ◌++◌, ◌==◌, nat_eq, if◌then◌else◌, length, u32,
}
use circleci_yaml_language_s.Position.{Range}
use circleci_yaml_language_s.Text.{codes, is_empty, skip_spaces, last_part}
use circleci_yaml_language_s.CodeActions.{TextEdit}

-- ast.DockerImageInfo
pub record DockerImageInfo : Type 0 where
  pub namespace : List ℕ
  pub name : List ℕ
  pub tag : List ℕ
  pub digest : List ℕ
  pub full_path : List ℕ

-- `[a-z0-9\-_]`, and `[a-zA-Z0-9\-_]`
abbrev pub is_name : ℕ → Bool
is_name c = leb b'a' c && leb c b'z' || (leb b'0' c && leb c b'9' || (c == b'-' || c == b'_'))

abbrev is_alias_name : ℕ → Bool
is_alias_name c = is_name c || leb b'A' c && leb c b'Z'

-- The longest part at the front whose bytes pass the test, and what follows it.
unfoldable pub span : (ℕ → Bool) → List ℕ → List ℕ × List ℕ
span test [] = ([], [])
span test (c ∷ text) =
    let (part, rest) = span test text in if test c then (c ∷ part, rest) else ([], c ∷ text)

-- `aliasRemover.ReplaceAllString(value, "")`; the expression matches at the front only.
unfoldable pub remove_alias : List ℕ → List ℕ
unfolding span skip_spaces
remove_alias [] = []
remove_alias (c ∷ text) =
    let (alias, rest) = span is_alias_name text in
    if c == b'&' && not (is_empty alias) then skip_spaces rest else c ∷ text

-- `(@(.+))?$` of the expression: the digest.
unfoldable pub match_digest : List ℕ → Option (List ℕ)
unfolding span
match_digest [] = some []
match_digest (c ∷ text) =
    let (line, rest) = span (λ b. not (b == b'\n')) text in
    if c == b'@' && (not (is_empty line) && is_empty rest) then some line else none

-- `(:([^@]*))?(@(.+))?$`: the tag and the digest.
unfoldable pub match_tag : List ℕ → Option (List ℕ × List ℕ)
unfolding match_digest
match_tag [] = some ([], [])
match_tag (c ∷ text) =
    let (tag, rest) = span (λ b. not (b == b'@')) text in
    if c == b':'
    then elim (match_digest rest) [ none ↦ none | some digest ↦ some (tag, digest) ]
    else elim (match_digest (c ∷ text)) [ none ↦ none | some digest ↦ some ([], digest) ]

-- A name that is not empty, then the tag and the digest.
unfoldable pub match_name : List ℕ → Option (List ℕ × List ℕ × List ℕ)
unfolding match_tag
match_name text =
    let (name, rest) = span is_name text in
    if is_empty name
    then none
    else elim (match_tag rest) [ none ↦ none | some (tag, digest) ↦ some (name, tag, digest) ]

-- `dockerImageRegex`: namespace, name, tag and digest. A slash ends the namespace; no name holds one.
unfoldable pub match_image : List ℕ → Option (List ℕ × List ℕ × List ℕ × List ℕ)
unfolding match_name
match_image text =
    let (namespace, rest) = span is_name text in
    elim rest [
      | [] ↦ elim (match_name text) [
        | none ↦ none
        | some (name, tag, digest) ↦ some ([], name, tag, digest)
      ]
      | c ∷ rest' ↦
          if c == b'/'
          then if is_empty namespace then none else elim (match_name rest') [
            | none ↦ none
            | some (name, tag, digest) ↦ some (namespace, name, tag, digest)
          ]
          else elim (match_name text) [
            | none ↦ none
            | some (name, tag, digest) ↦ some ([], name, tag, digest)
          ]
    ]

unfoldable pub parse_docker_image_value : List ℕ → DockerImageInfo
unfolding remove_alias match_image
parse_docker_image_value value =
    let full_path = remove_alias value in
    elim (match_image full_path) [
      | none ↦ record {
        namespace = codes "library";
        name = [];
        tag = [];
        digest = [];
        full_path = full_path;
      }
      | some (namespace, name, tag, digest) ↦ record {
        namespace = if is_empty namespace then codes "library" else namespace;
        name = name;
        tag = tag;
        digest = digest;
        full_path = full_path;
      }
    ]

-- The arithmetic is that of uint32.
unfoldable pub create_tag_text_edit : (full_path : List ℕ) → Range → (tag : List ℕ) → TextEdit
unfolding last_part
create_tag_text_edit full_path image_range tag =
    let version = last_part b':' full_path in
    let version_length = (length version + 1) % u32 in
    record {
      new_text = b':' ∷ tag;
      range = record {
        start = record {
          line = image_range.end.line;
          character = (image_range.end.character + u32 - version_length) % u32;
        };
        end = record {
          line = image_range.end.line;
          character = (image_range.end.character + 1 + length tag + u32 - version_length) % u32;
        };
      };
    }
