-- ===== src/Walks/Given.antt =====
-- pkg/parser/parameters.go: the values that are given for parameters. `atoi` is strconv.Atoi.
use circleci_yaml_language_s.Prelude.{
  ℕ, String, Bool, true, false, ◌||◌, Option, none, some, List, [], ◌∷◌, ◌==◌, string_eq,
  if◌then◌else◌,
}
use circleci_yaml_language_s.Prelude.Dict.{Dict}
use circleci_yaml_language_s.Cycles.{ℤ}
use circleci_yaml_language_s.Position.{Range}
use circleci_yaml_language_s.Values.{
  ParameterValue, parameter_value, text, integer, boolean, array, mapping, step_list, alias_node,
  nil_value,
}
use circleci_yaml_language_s.Walk.{Walk, done, pure, ◌>>=◌, with_value, fold}
use circleci_yaml_language_s.Nodes.{
  Source, get_node_text, get_first_child, get_child_of_type, get_child_mapping, node_to_range,
  iterate_on_block_sequence, no_range,
}
use circleci_yaml_language_s.Mappings.{collect}
use circleci_yaml_language_s.Walks.{
  Recursion, get_yaml_boolean_value, values_from, fields_from, steps_from,
  create_warning_diagnostic_from_node, key_node, value_node, key_name, add_value,
}

module _ (doc : Source) (atoi : String → Option ℤ) (recur : Recursion) where
  abbrev pub text_value : String → ℕ → Range → ParameterValue
  text_value param_name node rng =
      parameter_value param_name (text (get_node_text doc.tree (some node))) rng "string"

  abbrev pub integer_value : String → Range → Option ℤ → Option ParameterValue
  integer_value param_name rng none = none
  integer_value param_name rng (some n) =
      some (parameter_value param_name (integer n) rng "integer")

  -- The switch of `parseSimpleParameterValue` on the type of the child, for the text of the node.
  abbrev pub scalar : String → Range → ℕ → ℕ → Walk (Option ParameterValue)
  scalar param_name rng node child =
      let kind = doc.tree.type child in
      let raw_value = get_node_text doc.tree (some node) in
      if kind == "double_quote_scalar" || (kind == "string_scalar" || kind == "block_scalar")
      then pure (some (text_value param_name node rng))
      else if kind == "boolean_scalar"
      then pure (
          some
            (parameter_value param_name (boolean (get_yaml_boolean_value raw_value)) rng "boolean"))
      else if kind == "integer_scalar"
      then pure (integer_value param_name rng (atoi raw_value))
      else if kind == "plain_scalar"
      then recur.simple_value param_name child rng
      else pure none

  unfoldable pub parse_simple_parameter_value : String → ℕ → Range → Walk (Option ParameterValue)
  unfolding get_first_child get_node_text
  parse_simple_parameter_value param_name node rng = elim (get_first_child doc.tree (some node)) [
    | none ↦ pure none
    | some child ↦
        let folded = doc.tree.type child == ">" || doc.tree.type child == "|" in
        scalar param_name rng node (if folded then node else child)
  ]

  abbrev pub with_range : Range → Option ParameterValue → Option ParameterValue
  with_range rng none = none
  with_range rng (some (parameter_value name v old type)) = some (parameter_value name v rng type)

  -- `parseEnumParamValue`
  unfoldable pub parse_enum_param_value : ℕ → String → Range → Walk (Option ParameterValue)
  unfolding parse_simple_parameter_value node_to_range
  parse_enum_param_value item param_name rng =
      elim (if doc.tree.type item == "block_sequence_item"
        then get_child_of_type doc.tree (some item) "flow_node"
        else some item) [
          | none ↦ pure none
          | some child ↦
              if doc.tree.type child == "flow_node"
              then with_value (with_range (node_to_range doc (some child)))
                  (parse_simple_parameter_value param_name child rng)
              else pure none
        ]

  unfoldable pub is_step : ℕ → Bool
  unfolding get_child_mapping
  is_step child =
      let block_node = get_child_of_type doc.tree (some child) "block_node" in
      elim (get_child_of_type doc.tree (get_child_mapping doc.tree block_node)
        "block_mapping_pair") [ none ↦ false | some _ ↦ true ]

  -- What one element of the sequence appends.
  abbrev pub as_list : Option ParameterValue → List ParameterValue
  as_list none = []
  as_list (some v) = v ∷ []

  unfoldable pub parse_element : String → Range → Bool → ℕ → Walk (List ParameterValue)
  unfolding is_step parse_enum_param_value
  parse_element param_name rng force_steps child =
      if doc.tree.type child == "block_sequence_item" || doc.tree.type child == "flow_node"
      then if is_step child || force_steps
        then with_value
            (λ steps.
              parameter_value param_name (step_list (steps_from steps)) no_range "steps" ∷ [])
            (recur.single_step (some child))
        else with_value as_list (parse_enum_param_value child param_name rng)
      else pure []

  unfoldable pub parse_array_parameter_value : String → ℕ → Range → Bool → Walk ParameterValue
  unfolding parse_element iterate_on_block_sequence
  parse_array_parameter_value param_name node rng force_steps =
      with_value (λ values. parameter_value param_name (array (values_from values)) rng "enum")
        (collect (parse_element param_name rng force_steps)
          (iterate_on_block_sequence doc.tree (some node)))

  -- The callback on the pairs of a mapping.
  unfoldable pub add_field : Dict String ParameterValue → ℕ → Walk (Dict String ParameterValue)
  add_field fields child = elim (key_node doc child) [
    | none ↦ pure fields
    | some _ ↦ elim (value_node doc child) [
      | none ↦ pure fields
      | some _ ↦ add_value doc recur (key_name doc child) fields child
    ]
  ]

  -- The switch of `parseParameterValue` on the type of the value's first child.
  abbrev pub parse_value_of : String → Range → ℕ → ℕ → Walk (Option ParameterValue)
  parse_value_of param_name rng valued child =
      let kind = doc.tree.type child in
      if kind == "plain_scalar" || kind == "block_scalar"
      then parse_simple_parameter_value param_name child rng
      else if kind == "block_sequence" || kind == "flow_sequence"
      then with_value some (parse_array_parameter_value param_name child rng false)
      else if kind == "double_quote_scalar" || kind == "single_quote_scalar"
      then pure (some (text_value param_name child rng))
      else if kind == "alias"
      then pure (
          some (
            parameter_value param_name (alias_node (doc.tree.field_of valued "value")) rng "alias"))
      else if kind == "block_mapping"
      then with_value
          (λ fields. some (parameter_value param_name (mapping (fields_from fields)) rng "map"))
          (recur.entries (some child) >>= fold add_field [])
      else pure (some (parameter_value param_name nil_value no_range ""))

  unfoldable pub parse_parameter_value : ℕ → Walk (Option ParameterValue)
  unfolding parse_simple_parameter_value parse_array_parameter_value add_field
  parse_parameter_value child = elim (key_node doc child) [
    | none ↦ pure none
    | some key ↦ elim (value_node doc child) [
      | none ↦
          done none
            (create_warning_diagnostic_from_node doc key "No value defined for the parameter" ∷ [])
      | some valued ↦ elim (get_first_child doc.tree (some valued)) [
        | none ↦ pure none
        | some flow_node_child ↦
            parse_value_of (key_name doc child) (node_to_range doc (some child)) valued
              flow_node_child
      ]
    ]
  ]
