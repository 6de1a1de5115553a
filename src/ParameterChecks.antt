-- ===== src/ParameterChecks.antt =====
-- pkg/parser/validate/parameters.go, pkg/parser/validate/enum.go and pkg/parser/validate/utils.go:
-- the values that are passed for parameters. A check returns the diagnostics that it adds, in their
-- order; `none` is the panic of a type assertion such as `param.Value.(string)`.
pub mod Fitting
pub mod Deciding
pub mod Assignments
pub mod Loops
use circleci_yaml_language_s.Prelude.{
  ℕ, String, Bool, true, false, not, ◌&&◌, ◌||◌, Option, none, some, List, [], ◌∷◌, ◌++◌, string_eq,
  ◌==◌, if◌then◌else◌, contains,
}
use circleci_yaml_language_s.Prelude.Dict.{Dict, lookup}
use circleci_yaml_language_s.Position.{Range}
use circleci_yaml_language_s.Text.{◌+++◌, codes, is_empty, join, lookup_text}
use circleci_yaml_language_s.Parameters.{check_if_only_param_used, get_param_name_used_at_pos}
use circleci_yaml_language_s.Values.{
  ParameterValue, Value, text, array, mapping, field_dict, Parameter, string_parameter,
  boolean_parameter, integer_parameter, enum_parameter, executor_parameter, steps_parameter,
  env_variable_parameter, BaseParameter, Command, value_list, value_name, value_of, value_range,
  value_type, is_optional, parameter_name, get_type,
}
use circleci_yaml_language_s.Diagnostics.{Diagnostic, create_error_diagnostic_from_range}

-- What the checks read of the document.
pub record Scope : Type 0 where
  pub content : List ℕ
  pub pipeline_parameters : Dict String Parameter
  pub commands : Dict String Command

abbrev pub Checked : Type 0
Checked = Option (List Diagnostic)

-- What the checks of values add: a diagnostic, or what `validateExecutorReference` adds for an
-- executor, which depends on the orbs and can request one and store it.
pub data Finding : Type 0 where
  report : Diagnostic → Finding
  executor_reference : String → Range → Finding

abbrev pub Found : Type 0
Found = Option (List Finding)

abbrev pub reports : List Diagnostic → List Finding
reports [] = []
reports (d ∷ ds) = report d ∷ reports ds

abbrev pub reported : Checked → Found
reported none = none
reported (some ds) = some (reports ds)

-- The findings in their order, with the cache of the orbs that the references to executors change.
unfoldable pub resolve :
    {Cache : Type 0}
    → (String → Range → Cache → List Diagnostic × Cache)
    → List Finding
    → Cache
    → List Diagnostic × Cache
resolve look_up [] cache = ([], cache)
resolve look_up (report d ∷ findings) cache =
    let (ds, cache') = resolve look_up findings cache in (d ∷ ds, cache')
resolve look_up (executor_reference name rng ∷ findings) cache =
    let (ds, cache') = look_up name rng cache in
    let (es, cache'') = resolve look_up findings cache' in (ds ++ es, cache'')

-- One check after another.
abbrev pub also : {A : Type 0} → Option (List A) → Option (List A) → Option (List A)
also none rest = none
also (some ds) none = none
also (some ds) (some es) = some (ds ++ es)

abbrev pub parameter_error : ParameterValue → String → String → List Diagnostic
parameter_error param step_name should_be_type =
    create_error_diagnostic_from_range (value_range param) (
      "Parameter "
      +++ value_name param
      +++ " for "
      +++ step_name
      +++ " must be a "
      +++ should_be_type)
    ∷ []

abbrev pub missing_command : ParameterValue → String → List Diagnostic
missing_command v command_name =
    create_error_diagnostic_from_range (value_range v)
      ("Cannot find a definition for command named " +++ command_name)
    ∷ []

abbrev pub invalid_choice : ParameterValue → String → BaseParameter → List Diagnostic
invalid_choice param v b =
    create_error_diagnostic_from_range (value_range param)
      ("Parameter " +++ v +++ " is not a valid value for " +++ b.name)
    ∷ []

unfoldable pub check_enum_type_definition : Parameter → List Diagnostic
check_enum_type_definition (enum_parameter b default enum) =
    if b.has_default
    then if not (contains enum default)
      then create_error_diagnostic_from_range b.range
          ("Default value " +++ default +++ " is not in enum '" +++ join ", " enum +++ "'")
        ∷ []
      else []
    else []
check_enum_type_definition _ = []

abbrev pub missing_parameter : Parameter → Range → String → List Diagnostic
missing_parameter defined entity_range called_entity =
    create_error_diagnostic_from_range entity_range
      ("Parameter " +++ parameter_name defined +++ " is required for " +++ called_entity)
    ∷ []

-- The executor that a value names, in a text or under `name`.
unfoldable pub check_executor_param_value : ParameterValue → Found
check_executor_param_value param =
    let missing =
      report (create_error_diagnostic_from_range (value_range param) "Missing executor name")
      ∷ [] in
    if value_type param == "map"
    then elim (value_of param) [
      | mapping fields ↦ elim (lookup "name" (field_dict fields)) [
        | none ↦ some missing
        | some name_param ↦
            if not (value_type name_param == "string")
            then some missing
            else elim (value_of name_param) [
              | text name ↦ some (executor_reference name (value_range name_param) ∷ [])
              | _ ↦ none
            ]
      ]
      | _ ↦ none
    ]
    else if value_type param == "string"
    then elim (value_of param) [
      | text name ↦ some (executor_reference name (value_range param) ∷ [])
      | _ ↦ none
    ]
    else some (executor_reference "" (value_range param) ∷ [])

module _ (scope : Scope) where
  -- `checkParamType`, where the type of the parameter is `param_type`
  unfoldable pub check_param_type : String → ParameterValue → String → List Diagnostic
  check_param_type param_type param step_name =
      let (param_name, _) = get_param_name_used_at_pos scope.content (value_range param).end in
      if not (is_empty param_name)
      then elim (lookup_text param_name scope.pipeline_parameters) [
        | none ↦ []
        | some pipeline_param ↦
            if not (get_type pipeline_param == param_type)
            then parameter_error param step_name param_type
            else []
      ]
      else if not (value_type param == param_type)
      then parameter_error param step_name param_type
      else []

  -- A value of a parameter of type `steps`.
  unfoldable pub check_step_value : String → ParameterValue → Checked
  check_step_value step_name v =
      if value_type v == "string"
      then elim (value_of v) [
        | text command_name ↦ elim (lookup command_name scope.commands) [
          | some _ ↦ some []
          | none ↦ some (missing_command v command_name)
        ]
        | _ ↦ none
      ]
      else if not (value_type v == "steps")
      then some (parameter_error v step_name "steps")
      else some []

  unfoldable pub check_step_values : String → List ParameterValue → Checked
  unfolding check_step_value
  check_step_values step_name [] = some []
  check_step_values step_name (v ∷ vs) =
      also (check_step_value step_name v) (check_step_values step_name vs)

  -- The cases `enum`, `steps` and `env_var_name` of `checkParamSimpleType`.
  abbrev pub check_enum : ParameterValue → String → BaseParameter → List String → Checked
  check_enum param step_name b enum =
      if not (value_type param == "string")
      then some (parameter_error param step_name "string")
      else elim (value_of param) [
        | text v ↦ if not (contains enum v) then some (invalid_choice param v b) else some []
        | _ ↦ none
      ]

  unfoldable pub check_steps : ParameterValue → String → Checked
  unfolding check_step_values
  check_steps param step_name = elim (value_of param) [
    | array vs ↦ check_step_values step_name (value_list vs)
    | _ ↦ some (parameter_error param step_name "steps")
  ]

  abbrev pub check_env_var_name : ParameterValue → String → List Diagnostic
  check_env_var_name param step_name =
      if not (value_type param == "string") && not (value_type param == "integer")
      then parameter_error param step_name "env_var_name"
      else []

  unfoldable pub check_param_simple_type : ParameterValue → String → Parameter → Found
  unfolding check_param_type check_steps check_executor_param_value
  check_param_simple_type param step_name (string_parameter b default) =
      some (reports (check_param_type "string" param step_name))
  check_param_simple_type param step_name (boolean_parameter b default) =
      some (reports (check_param_type "boolean" param step_name))
  check_param_simple_type param step_name (integer_parameter b default) =
      some (reports (check_param_type "integer" param step_name))
  check_param_simple_type param step_name (enum_parameter b default enum) =
      reported (check_enum param step_name b enum)
  check_param_simple_type param step_name (executor_parameter b default) =
      check_executor_param_value param
  check_param_simple_type param step_name (steps_parameter b default) =
      reported (check_steps param step_name)
  check_param_simple_type param step_name (env_variable_parameter b default) =
      some (reports (check_env_var_name param step_name))

  -- `checkParamUsedWithParam`: the value is a reference to another parameter.
  unfoldable pub check_param_used_with_param :
      ParameterValue → String → Parameter → Dict String Parameter → List Diagnostic
  check_param_used_with_param param step_name defined_param parameters =
      let (param_name, is_pipeline_param) =
        get_param_name_used_at_pos scope.content (value_range param).end in
      elim (lookup_text param_name
        (if is_pipeline_param then scope.pipeline_parameters else parameters)) [
          | none ↦ []
          | some used ↦
              if not (get_type defined_param == get_type used)
                && not (get_type defined_param == "string" && get_type used == "enum")
              then parameter_error param step_name (get_type defined_param)
              else []
        ]

  -- The check of an assigned parameter.
  unfoldable pub check_assigned :
      ParameterValue → String → Parameter → Dict String Parameter → Found
  unfolding check_param_used_with_param check_param_simple_type
  check_assigned param called_entity defined usable_params =
      if value_type param == "string"
      then elim (value_of param) [
        | text s ↦
            if check_if_only_param_used (codes s)
            then some
                (reports (check_param_used_with_param param called_entity defined usable_params))
            else check_param_simple_type param called_entity defined
        | _ ↦ none
      ]
      else check_param_simple_type param called_entity defined

  -- `checkIfParamAssigned`, and what follows in the loop over the defined parameters.
  unfoldable pub check_defined :
      Dict String ParameterValue → String → Range → Parameter → Dict String Parameter → Found
  unfolding check_assigned
  check_defined params_value called_entity entity_range defined usable_params =
      elim (lookup (parameter_name defined) params_value) [
        | some param ↦ check_assigned param called_entity defined usable_params
        | none ↦
            if not (is_optional defined)
            then some (reports (missing_parameter defined entity_range called_entity))
            else some []
      ]

  unfoldable pub check_all_defined :
      Dict String ParameterValue
      → String
      → Range
      → Dict String Parameter
      → Dict String Parameter
      → Found
  unfolding check_enum_type_definition check_defined
  check_all_defined params_value called_entity entity_range [] usable_params = some []
  check_all_defined params_value called_entity entity_range ((_, defined) ∷ ps) usable_params =
      also (some (reports (check_enum_type_definition defined))) (
        also (check_defined params_value called_entity entity_range defined usable_params)
          (check_all_defined params_value called_entity entity_range ps usable_params))

-- The second loop: values for parameters that the entity does not define.
unfoldable pub check_unknown :
    Dict String ParameterValue → String → Dict String Parameter → List Diagnostic
check_unknown [] called_entity defined_params = []
check_unknown ((_, param) ∷ params_value) called_entity defined_params =
    let rest = check_unknown params_value called_entity defined_params in
    elim (lookup (value_name param) defined_params) [
      | some _ ↦ rest
      | none ↦
          create_error_diagnostic_from_range (value_range param)
            ("Parameter " +++ value_name param +++ " is not defined for " +++ called_entity)
          ∷ rest
    ]

-- The maps are in the order in which Go ranges over them.
unfoldable pub validate_parameters_value :
    Scope
    → Dict String ParameterValue
    → String
    → Range
    → Dict String Parameter
    → Dict String Parameter
    → Found
unfolding check_all_defined check_unknown
validate_parameters_value scope params_value called_entity entity_range defined_params
      usable_params =
    also
      (check_all_defined scope params_value called_entity entity_range defined_params usable_params)
      (some (reports (check_unknown params_value called_entity defined_params)))
