-- ===== src/Parameters.antt =====
-- pkg/utils/parameters.go: references to parameters, `<< parameters.name >>`, in texts. A text is the
-- list of its bytes, and the regular expressions are matchers on it.
pub mod Trimming
pub mod References
use circleci_yaml_language_s.Prelude.{
  ℕ, zero, suc, ◌+◌, ◌-◌, ◌%◌, String, Bool, true, false, not, ◌&&◌, ◌||◌, Option, none, some, List,
  [], ◌∷◌, ◌==◌, nat_eq, leb, ltb, if◌then◌else◌, u32, length, take, drop,
}
use circleci_yaml_language_s.Prelude.Dict.{Dict}
use circleci_yaml_language_s.Position.{Position, Range, pos_in_range}
use circleci_yaml_language_s.Index.{pos_to_index, index_to_pos}
use circleci_yaml_language_s.Text.{
  codes, is_space, skip_spaces, strip_prefix, is_empty, after_any, is_prefixed, index_of,
  last_index_of, trim, last_part,
}

-- `[A-Za-z0-9-_]`
abbrev pub is_word : ℕ → Bool
is_word c =
    leb b'A' c && leb c b'Z'
    || (leb b'a' c && leb c b'z' || (leb b'0' c && leb c b'9' || (c == b'-' || c == b'_')))

unfoldable pub skip_word : List ℕ → List ℕ
skip_word [] = []
skip_word (c ∷ text) = let rest = skip_word text in if is_word c then rest else c ∷ text

-- `(parameters|pipeline.parameters)\.`: what follows it at the front of the text.
unfoldable pub skip_path : List ℕ → Option (List ℕ)
unfolding strip_prefix
skip_path text = elim (strip_prefix (codes "parameters.") text) [
  | some rest ↦ some rest
  | none ↦ elim (after_any (strip_prefix (codes "pipeline") text)) [
    | none ↦ none
    | some rest ↦ strip_prefix (codes "parameters.") rest
  ]
]

-- `<<\s*(parameters|pipeline.parameters)\.([A-Za-z0-9-_]*)\s*>>`: what follows a match at the front.
unfoldable pub match_param : List ℕ → Option (List ℕ)
unfolding strip_prefix skip_spaces skip_path skip_word
match_param text = elim (strip_prefix (codes "<<") text) [
  | none ↦ none
  | some inner ↦ elim (skip_path (skip_spaces inner)) [
    | none ↦ none
    | some rest ↦ strip_prefix (codes ">>") (skip_spaces (skip_word rest))
  ]
]

-- `FindAllIndex`: the ends of the matches, from the left and apart; `skip` bytes of a match are
-- still to pass.
unfoldable pub find_all_index : ℕ → ℕ → List ℕ → List (ℕ × ℕ)
unfolding match_param
find_all_index skip idx [] = []
find_all_index (suc skip) idx (c ∷ text) = find_all_index skip (idx + 1) text
find_all_index zero idx (c ∷ text) = elim (match_param (c ∷ text)) [
  | none ↦ find_all_index zero (idx + 1) text
  | some rest ↦
      let matched = length (c ∷ text) - length rest in
      (idx, idx + matched) ∷ find_all_index (matched - 1) (idx + 1) text
]

abbrev pub contains_param : List ℕ → Bool
contains_param content = not (length (find_all_index 0 0 content) == 0)

-- `^...$`
unfoldable pub check_if_only_param_used : List ℕ → Bool
unfolding match_param
check_if_only_param_used content = elim (match_param content) [
  | none ↦ false
  | some rest ↦ is_empty rest
]

-- A text follows, and starts with the literal.
abbrev pub starts_with : List ℕ → Option (List ℕ) → Bool
starts_with literal none = false
starts_with literal (some text) = is_prefixed literal text

-- `<<\s*(parameters|pipeline.parameters|pipeline.git)\.\s*>?>?`, at any place
unfoldable pub partial_param_regex : List ℕ → Bool
unfolding strip_prefix skip_spaces
partial_param_regex [] = false
partial_param_regex (c ∷ text) =
    elim (strip_prefix (codes "<<") (c ∷ text)) [
      | none ↦ false
      | some rest ↦
          let path = skip_spaces rest in
          let pipeline = after_any (strip_prefix (codes "pipeline") path) in
          is_prefixed (codes "parameters.") path
          || (starts_with (codes "parameters.") pipeline || starts_with (codes "git.") pipeline)
    ]
    || partial_param_regex text

abbrev pub check_if_param_is_partially_referenced : List ℕ → Bool × Bool
check_if_param_is_partially_referenced content = (
  partial_param_regex content,
  elim (index_of (codes "pipeline.") content) [ none ↦ false | some _ ↦ true ],
)

-- The full path of the parameter, and its name.
unfoldable pub extract_parameter_name : List ℕ → List ℕ × List ℕ
unfolding trim last_part
extract_parameter_name parameter =
    let full = trim b' ' (trim b'>' (trim b'<' parameter)) in (full, last_part b'.' full)

abbrev pub slice : ℕ → ℕ → List ℕ → List ℕ
slice from until content = take (until - from) (drop from content)

-- The name of the parameter that a text `param` refers to, and whether it is one of the pipeline.
abbrev pub name_of_reference : List ℕ → List ℕ × Bool
name_of_reference param =
    let (full, name) = extract_parameter_name param in (name, is_prefixed (codes "pipeline.") full)

-- `paramRegex.Find` in a text, and the name there.
abbrev pub name_in : List ℕ → List ℕ × Bool
name_in content = elim (find_all_index 0 0 content) [
  | [] ↦ ([], false)
  | (from, until) ∷ _ ↦ name_of_reference (slice from until content)
]

-- The empty name says that there is none.
unfoldable pub get_param_name_used_at_pos : List ℕ → Position → List ℕ × Bool
unfolding pos_to_index find_all_index extract_parameter_name index_of last_index_of
get_param_name_used_at_pos content position =
    let pos_index = pos_to_index position content in
    let line_start : ℕ = elim (last_index_of (codes "\n") (take pos_index content)) [
      | none ↦ 0
      | some i ↦ suc i
    ] in
    let line_end : ℕ = elim (index_of (codes "\n") (drop line_start content)) [
      | none ↦ length content
      | some i ↦ line_start + i
    ] in
    if not (contains_param (slice line_start line_end content))
    then ([], false)
    else elim (last_index_of (codes "<<") (take pos_index content)) [
      | none ↦ ([], false)
      | some start_of_param ↦ elim (index_of (codes ">>") (drop start_of_param content)) [
        | none ↦ ([], false)
        | some i ↦ name_in (slice start_of_param (start_of_param + i + 2) content)
      ]
    ]

pub record ParamInString : Type 0 where
  pub name : List ℕ
  pub full_name : List ℕ
  pub param_range : Range

-- One round of the loop of `GetParamsInString`.
unfoldable pub param_in_string : List ℕ → ℕ → ℕ → Option ParamInString
unfolding extract_parameter_name index_to_pos
param_in_string content from until = elim (index_to_pos from content) [
  | none ↦ none
  | some start_pos ↦
      let (param_full_name, param_name) = extract_parameter_name (slice from until content) in
      some (record {
        name = param_name;
        full_name = param_full_name;
        param_range = record {
          start = start_pos;
          end = record {
            line = start_pos.line;
            character = (start_pos.character + (until - from)) % u32;
          };
        };
      })
]

unfoldable pub params_at : List ℕ → List (ℕ × ℕ) → Option (List ParamInString)
unfolding param_in_string
params_at content [] = some []
params_at content ((from, until) ∷ params) = elim (param_in_string content from until) [
  | none ↦ none
  | some result ↦ elim (params_at content params) [
    | none ↦ none
    | some results ↦ some (result ∷ results)
  ]
]

-- `none` is the panic of `IndexToPos`.
unfoldable pub get_params_in_string : List ℕ → Option (List ParamInString)
unfolding params_at find_all_index
get_params_in_string content = params_at content (find_all_index 0 0 content)
