-- ===== src/Walks.antt =====
-- pkg/parser: what the walks that build values, steps and parameters share. They call one another,
-- so each takes the walks that it calls at less fuel as a record; Walks/Fuel.antt ties the knot.
pub mod Given
pub mod BuiltIn
pub mod StepList
pub mod Fuel
pub mod Parameters
pub mod Commands
pub mod Kept
pub mod Invocations
pub mod JobItems
pub mod JobLists
pub mod Environments
use circleci_yaml_language_s.Prelude.{
  ℕ, String, Bool, true, false, Option, none, some, List, [], ◌∷◌, ◌++◌, ◌==◌, string_eq,
  if◌then◌else◌, ◌||◌, All,
}
use circleci_yaml_language_s.Prelude.Dict.{Dict, insert}
use circleci_yaml_language_s.Position.{Range}
use circleci_yaml_language_s.Text.{◌+++◌}
use circleci_yaml_language_s.Diagnostics.{Diagnostic, create_warning_diagnostic_from_range}
use circleci_yaml_language_s.Values.{
  ParameterValue, Values, no_values, value, Fields, no_fields, field, Step, Steps, no_steps, step,
}
use circleci_yaml_language_s.Walk.{Walk, panics, pure, ◌>>=◌, Yields, Yields-if, IsDone, IsDone-if}
use circleci_yaml_language_s.Nodes.{Source, get_node_text, get_key_value_nodes, node_to_range}

-- The walks that recur, with the fuel that they have left.
pub record Recursion : Type 0 where
  -- iterateOnBlockMapping
  pub entries : Option ℕ → Walk (List ℕ)
  -- parseSimpleParameterValue; `none` stands for an error
  pub simple_value : String → ℕ → Range → Walk (Option ParameterValue)
  -- parseParameterValue
  pub parameter_value_of : ℕ → Walk (Option ParameterValue)
  -- parseSingleStep
  pub single_step : Option ℕ → Walk (List Step)
  -- parseStep
  pub step_of : ℕ → Walk (List Step)

-- GetYAMLBooleanValue
abbrev pub get_yaml_boolean_value : String → Bool
get_yaml_boolean_value str =
    str == "true" || (str == "yes" || (str == "y" || (str == "1" || str == "on")))

-- IsValidYAMLBooleanValue
abbrev pub is_valid_yaml_boolean_value : String → Bool
is_valid_yaml_boolean_value str =
    str == "true"
    || (str == "yes"
        || (str == "y"
            || (str == "1"
                || (str == "on"
                    || (str == "false"
                        || (str == "no" || (str == "n" || (str == "0" || str == "off"))))))))

-- Go's switch on a text.
unfoldable pub switch {ℓ} : {A : Type ℓ} → String → List (String × A) → A → A
switch key [] otherwise = otherwise
switch key ((label, a) ∷ cases) otherwise = if key == label then a else switch key cases otherwise

-- Go's slices and maps as the values hold them.
abbrev pub values_from : List ParameterValue → Values
values_from [] = no_values
values_from (v ∷ vs) = value v (values_from vs)

abbrev pub fields_from : Dict String ParameterValue → Fields
fields_from [] = no_fields
fields_from ((k, v) ∷ d) = field k v (fields_from d)

abbrev pub steps_from : List Step → Steps
steps_from [] = no_steps
steps_from (s ∷ ss) = step s (steps_from ss)

module _ (doc : Source) where
  -- CreateWarningDiagnosticFromNode, which adds no offset
  abbrev pub create_warning_diagnostic_from_node : ℕ → String → Diagnostic
  create_warning_diagnostic_from_node node msg =
      create_warning_diagnostic_from_range (doc.tree.span node) msg

  abbrev pub key_node : ℕ → Option ℕ
  key_node child = (get_key_value_nodes doc (some child)).0

  abbrev pub value_node : ℕ → Option ℕ
  value_node child = (get_key_value_nodes doc (some child)).1

  abbrev pub key_name : ℕ → String
  key_name child = get_node_text doc.tree (key_node child)

  -- What a callback assigns at one key, given the child and its value node.
  abbrev pub at_key : {A : Type 0} → String → (ℕ → Option ℕ → A) → ℕ → Option A
  at_key key assigned child =
      if key_name child == key then some (assigned child (value_node child)) else none

  -- The same in a callback that returns early where the key or the value is nil.
  abbrev pub at_pair : {A : Type 0} → String → (ℕ → ℕ → A) → ℕ → Option A
  at_pair key assigned child = elim (key_node child) [
    | none ↦ none
    | some _ ↦ elim (value_node child) [
      | none ↦ none
      | some v ↦ if key_name child == key then some (assigned child v) else none
    ]
  ]

  -- A variable that the callback assigns: it holds what the last such child gave.
  abbrev pub last_assigned : {A : Type 0} → (ℕ → Option A) → A → List ℕ → A
  last_assigned assigns before [] = before
  last_assigned assigns before (child ∷ children) =
      last_assigned assigns (elim (assigns child) [ none ↦ before | some a ↦ a ]) children

  -- Such a variable that holds the text of the pair's value.
  abbrev pub text_at : String → String → List ℕ → String
  text_at key before children =
      last_assigned (at_pair key (λ c v. get_node_text doc.tree (some v))) before children

  -- `doc.NodeToRange(node.Parent().ChildByFieldName("key"))`
  unfoldable pub key_range : ℕ → Walk Range
  unfolding node_to_range
  key_range node = elim (doc.tree.parent node) [
    | none ↦ panics
    | some parent ↦ pure (node_to_range doc (doc.tree.field_of parent "key"))
  ]

  -- getAttributeName (pkg/parser/local_orb.go)
  abbrev pub get_attribute_name : String → String
  get_attribute_name attribute =
      if doc.local_orb_name == "" then attribute else doc.local_orb_name +++ "/" +++ attribute

  module _ (recur : Recursion) where
    -- A walk over parameters that are given for an entity: an error leaves a parameter out.
    abbrev pub add_value :
        String → Dict String ParameterValue → ℕ → Walk (Dict String ParameterValue)
    add_value key parameters child = do
      result ← recur.parameter_value_of child
      pure (elim result [ none ↦ parameters | some v ↦ insert key v parameters ])
