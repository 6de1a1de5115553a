-- ===== src/Walks/Parameters.antt =====
-- pkg/parser/parameters.go: the parameters that a command, a job, an executor or the pipeline
-- defines. `atoi` is strconv.Atoi. A nil map of parameters is read as an empty one.
use circleci_yaml_language_s.Prelude.{
  ℕ, ◌%◌, ◌+◌, String, Bool, true, false, not, ◌&&◌, Option, none, some, List, [], ◌∷◌, ◌==◌,
  string_eq, if◌then◌else◌, contains, u32,
}
use circleci_yaml_language_s.Prelude.Dict.{Dict, insert}
use circleci_yaml_language_s.Cycles.{ℤ, pos}
use circleci_yaml_language_s.Position.{Position, Range}
use circleci_yaml_language_s.Diagnostics.{Diagnostic, create_error_diagnostic_from_range}
use circleci_yaml_language_s.Values.{
  parameter_name, ParameterValue, parameter_value, array, nil_value, value_list, value_of,
  value_type, value_range, BaseParameter, Parameter, string_parameter, boolean_parameter,
  integer_parameter, enum_parameter, executor_parameter, steps_parameter, env_variable_parameter,
}
use circleci_yaml_language_s.Walk.{Walk, done, pure, panics, ◌>>=◌, with_value, fold}
use circleci_yaml_language_s.Nodes.{
  Source, get_node_text, get_first_child, get_child_mapping, get_child_sequence,
  get_node_text_array, node_to_range, no_range,
}
use circleci_yaml_language_s.Walks.{
  Recursion, switch, get_yaml_boolean_value, key_node, value_node, key_name, at_key, last_assigned,
}
use circleci_yaml_language_s.Walks.Given.{parse_array_parameter_value}

-- The range goes on for 999 characters, on Go's uint32.
abbrev pub widened : Position → Position → Range
widened start end = record {
  start = start;
  end = record { line = end.line; character = (end.character + 999) % u32 };
}

-- ast.ParameterValue{}
abbrev pub no_value : ParameterValue
no_value = parameter_value "" nil_value no_range ""

module _ (doc : Source) (atoi : String → Option ℤ) (recur : Recursion) where
  -- The type of a parameter and the range of its definition.
  unfoldable pub type_of_pairs : List ℕ → String × Range
  unfolding get_node_text node_to_range
  type_of_pairs children = (
    last_assigned doc (at_key doc "type" (λ c v. get_node_text doc.tree v)) "" children,
    last_assigned doc
        (at_key doc "type" λ c v.
          let type_range = node_to_range doc (some c) in
          elim v [ none ↦ widened type_range.end type_range.end | some _ ↦ type_range ])
        no_range children,
  )

  unfoldable pub get_parameter_type : Option ℕ → Walk (String × Range)
  unfolding type_of_pairs get_child_mapping
  get_parameter_type param_node = elim (get_child_mapping doc.tree param_node) [
    | none ↦ pure ("", no_range)
    | some mapping ↦ with_value type_of_pairs (recur.entries (some mapping))
  ]

  unfoldable pub get_default_parameter_range : ℕ → Range
  unfolding node_to_range
  get_default_parameter_range child =
      let rng = node_to_range doc (some child) in
      elim (value_node doc child) [ none ↦ widened rng.start rng.end | some _ ↦ rng ]

  -- The fields of every parameter, where `assigns` says which of the pairs give it a default.
  abbrev pub base_of : String → Range → Range → Range → (ℕ → Bool) → List ℕ → BaseParameter
  base_of param_name name_range rng type_range assigns children = record {
    name = param_name;
    name_range = name_range;
    range = rng;
    has_default = last_assigned doc (λ c. if assigns c then some true else none) false children;
    description =
        last_assigned doc (at_key doc "description" (λ c v. get_node_text doc.tree v)) "" children;
    type_range = type_range;
    default_range =
        last_assigned doc (λ c. if assigns c then some (get_default_parameter_range c) else none)
          no_range children;
  }

  abbrev pub is_default : ℕ → Bool
  is_default child = key_name doc child == "default"

  -- A default that is a text: the text of the first child of the value.
  abbrev pub text_default : List ℕ → String
  text_default =
      last_assigned doc
        (at_key doc "default" (λ c v. get_node_text doc.tree (get_first_child doc.tree v))) ""

  abbrev integer_default_at : ℕ → Option ℤ
  integer_default_at child =
      if is_default child then atoi (get_node_text doc.tree (value_node doc child)) else none

  abbrev is_integer_default : ℕ → Bool
  is_integer_default child = elim (integer_default_at child) [ none ↦ false | some _ ↦ true ]

  abbrev is_steps_default : ℕ → Bool
  is_steps_default child =
      is_default child
      && elim (get_child_sequence doc.tree (value_node doc child)) [ none ↦ false | some _ ↦ true ]

  -- What is said of the elements of a default of type `steps`; where it is no array, the type
  -- assertion panics.
  abbrev pub report_not_steps : List ParameterValue → List Diagnostic
  report_not_steps [] = []
  report_not_steps (v ∷ vs) =
      let rest = report_not_steps vs in
      if not (value_type v == "steps")
      then create_error_diagnostic_from_range (value_range v) "Not a valid step" ∷ rest
      else rest

  abbrev pub reported_default : ParameterValue → Walk ParameterValue
  reported_default v = elim (value_of v) [
    | array vs ↦ done v (report_not_steps (value_list vs))
    | _ ↦ panics
  ]

  unfoldable pub set_steps_default : String → ParameterValue → ℕ → Walk ParameterValue
  unfolding parse_array_parameter_value
  set_steps_default param_name default child =
      if is_default child
      then elim (get_child_sequence doc.tree (value_node doc child)) [
        | none ↦ pure default
        | some steps_node ↦
            parse_array_parameter_value doc atoi recur param_name steps_node
              (node_to_range doc (some child)) true
            >>= reported_default
      ]
      else pure default

  abbrev enum_of : List ℕ → List String
  enum_of = last_assigned doc (at_key doc "enum" (λ c v. get_node_text_array doc v)) []

  -- The diagnostic of a default that is no member of its enumeration.
  abbrev enum_reported : BaseParameter → String → List String → Walk Parameter
  enum_reported b default enum = done (enum_parameter b default enum) (
      if b.has_default && not (contains enum default)
      then create_error_diagnostic_from_range b.default_range "Default value is not in enum" ∷ []
      else [])

  -- `parseStringParameter` to `parseEnvVariableParameter`, at the pairs of the definition: the
  -- cases of the switch on the type.
  abbrev pub parameter_cases :
      String → Range → Range → Range → List ℕ → List (String × Walk Parameter)
  parameter_cases param_name name_range rng type_range children =
      let base =
        λ (assigns : ℕ → Bool). base_of param_name name_range rng type_range assigns children in
      ("string", pure (string_parameter (base is_default) (text_default children)))
      ∷ (
        "boolean",
        pure (
            boolean_parameter (base is_default) (
              last_assigned doc
                (at_key doc "default" (λ c v. get_yaml_boolean_value (get_node_text doc.tree v)))
                false children)),
      )
      ∷ (
        "integer",
        pure (
            integer_parameter (base is_integer_default)
              (last_assigned doc integer_default_at (pos 0) children)),
      )
      ∷ ("enum", enum_reported (base is_default) (text_default children) (enum_of children))
      ∷ ("executor", pure (executor_parameter (base is_default) (text_default children)))
      ∷ (
        "steps",
        with_value (steps_parameter (base is_steps_default))
            (fold (set_steps_default param_name) no_value children),
      )
      ∷ ("env_var_name", pure (env_variable_parameter (base is_default) (text_default children)))
      ∷ []

  -- A parameter of no known type is kept as a text without a default.
  abbrev pub untyped : String → Range → Range → Range → Walk Parameter
  untyped param_name name_range mapping_range type_range = pure (
      string_parameter
        (record {
          name = param_name;
          name_range = name_range;
          range = mapping_range;
          has_default = false;
          description = "";
          type_range = type_range;
          default_range = no_range;
        })
        "")

  unfoldable pub parse_single_parameter : Dict String Parameter → ℕ → Walk (Dict String Parameter)
  unfolding get_parameter_type switch set_steps_default
  parse_single_parameter params param_node = elim (key_node doc param_node) [
    | none ↦ pure params
    | some key ↦ elim (get_child_mapping doc.tree (value_node doc param_node)) [
      | none ↦ pure params
      | some mapping ↦ do
        (param_type, type_range) ← get_parameter_type (value_node doc param_node)
        children ← recur.entries (some mapping)
        param ←
            switch param_type
              (parameter_cases (key_name doc param_node) (node_to_range doc (some key))
                (node_to_range doc (some param_node)) type_range children)
              (untyped (key_name doc param_node) (node_to_range doc (some key))
                (node_to_range doc (some mapping)) type_range)
        pure (insert (parameter_name param) param params)
    ]
  ]

  unfoldable pub parse_parameters : Option ℕ → Walk (Dict String Parameter)
  unfolding parse_single_parameter
  parse_parameters params_node = elim (get_child_mapping doc.tree params_node) [
    | none ↦ pure []
    | some mapping ↦ recur.entries (some mapping) >>= fold parse_single_parameter []
  ]
