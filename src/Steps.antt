-- ===== src/Steps.antt =====
-- pkg/parser/validate/steps.go: the checks of steps, and which steps use an orb. `strconv.Atoi`,
-- `time.ParseDuration` (in nanoseconds) and the conversion of bytes to a text are parameters.
pub mod When
pub mod Named
use circleci_yaml_language_s.Prelude.{
  ℕ, String, Bool, true, false, not, ◌&&◌, ◌||◌, Option, none, some, List, [], ◌∷◌, ◌++◌, string_eq,
  ◌==◌, nat_eq, if◌then◌else◌, contains, leb, ltb,
}
use circleci_yaml_language_s.Prelude.Dict.{Dict, lookup}
use circleci_yaml_language_s.Cycles.{ℤ, pos, negsuc}
use circleci_yaml_language_s.Position.{Range}
use circleci_yaml_language_s.Text.{◌+++◌, codes, join, split, lookup_text}
use circleci_yaml_language_s.Parameters.{check_if_only_param_used, get_param_name_used_at_pos}
use circleci_yaml_language_s.Diagnostics.{
  Diagnostic, warning, create_error_diagnostic_from_range, create_warning_diagnostic_from_range,
}
use circleci_yaml_language_s.Values.{
  ParameterValue, Value, array, step_list, Parameter, string_parameter, Run, Checkout, Step,
  value_list, steps_of, value_of, value_type, is_optional, get_type, get_name, Command,
}
use circleci_yaml_language_s.ParameterChecks.{
  Scope, Checked, also, resolve, validate_parameters_value,
}
use circleci_yaml_language_s.Executors.{validate_executor_reference}
use circleci_yaml_language_s.OrbChecks.{validate_orb_executor}
use circleci_yaml_language_s.Document.{
  Info, YamlDocument, has, is_built_in, is_orb_reference, is_from_unfetchable_orb, is_alias,
  or_empty,
}
use circleci_yaml_language_s.RemoteOrbs.{OrbCache, is_orb_command, get_defined_params}

abbrev pub when_keywords : List String
when_keywords = "on_success" ∷ "always" ∷ "on_fail" ∷ []

-- utils.CheckoutMethods
abbrev pub checkout_methods : List String
checkout_methods = "blobless" ∷ "full" ∷ "shallow" ∷ []

abbrev is_digit_from : ℕ → ℕ → Bool
is_digit_from low c = leb low c && leb c b'9'

-- `[0-9]*s$`
unfoldable pub ends_seconds : List ℕ → Bool
ends_seconds [] = false
ends_seconds (c ∷ []) = c == b's'
ends_seconds (c ∷ (d ∷ bytes)) = let rest = ends_seconds (d ∷ bytes) in is_digit_from b'0' c && rest

-- `m$` after one digit, or after 10
abbrev ends_minutes : ℕ → List ℕ → Bool
ends_minutes d (c ∷ []) = c == b'm'
ends_minutes d (c ∷ (m ∷ [])) = d == b'1' && (c == b'0' && m == b'm')
ends_minutes d _ = false

-- AUTO_RERUN_DELAY_REGEX
unfoldable pub auto_rerun_delay_regex : List ℕ → Bool
unfolding ends_seconds
auto_rerun_delay_regex [] = false
auto_rerun_delay_regex (d ∷ bytes) =
    is_digit_from b'1' d && (ends_minutes d bytes || ends_seconds bytes)

-- rerunCount <= 0 || rerunCount > 5
abbrev pub no_rerun_count : ℤ → Bool
no_rerun_count (negsuc n) = true
no_rerun_count (pos n) = leb n 0 || ltb 5 n

-- depth <= 0
abbrev pub not_positive : ℤ → Bool
not_positive (negsuc n) = true
not_positive (pos n) = leb n 0

-- duration > 10*time.Minute
abbrev pub exceeds_ten_minutes : ℤ → Bool
exceeds_ten_minutes (negsuc n) = false
exceeds_ten_minutes (pos n) = ltb 600000000000 n

abbrev report_if : Bool → Diagnostic → List Diagnostic
report_if condition diagnostic = if condition then diagnostic ∷ [] else []

abbrev invalid_when : Run → String → Diagnostic
invalid_when step value = create_error_diagnostic_from_range step.when_range (
    "Invalid when condition: expected `"
    +++ join "`, `" when_keywords
    +++ "`; got `"
    +++ value
    +++ "`")

abbrev pub check_keyword : Run → String → List Diagnostic
check_keyword step value = report_if (not (contains when_keywords value)) (invalid_when step value)

module _ (text_of : List ℕ → String) (scope : Scope) where
  abbrev not_a_string : Run → List ℕ → Diagnostic
  not_a_string step param_name = create_error_diagnostic_from_range step.when_range (
      "Parameter "
      +++ text_of param_name
      +++ " is not a string type parameter, and therefore cannot be used inside the `when` field")

  -- The value of a known parameter: its default, or the empty text if it has none.
  unfoldable pub check_when_param : Run → List ℕ → Parameter → List Diagnostic
  check_when_param step param_name param =
      if is_optional param
      then elim param [
        | string_parameter b default ↦ check_keyword step default
        | _ ↦ not_a_string step param_name ∷ []
      ]
      else check_keyword step ""

  -- What follows `var value string` in `validateRunCommand`.
  unfoldable pub check_when : Run → Dict String Parameter → List Diagnostic
  unfolding check_when_param
  check_when step job_or_command_parameters =
      let (param_name, is_pipeline_param) =
        get_param_name_used_at_pos scope.content step.when_range.end in
      if step.when == "" && step.when_range.start.line == 0
      then []
      else if check_if_only_param_used (codes step.when)
      then elim (lookup_text param_name
          (if is_pipeline_param then scope.pipeline_parameters else job_or_command_parameters)) [
            | none ↦ []
            | some param ↦ check_when_param step param_name param
          ]
      else check_keyword step step.when

abbrev error_at : Run → String → Diagnostic
error_at step message = create_error_diagnostic_from_range step.range message

-- The checks of `auto_rerun_delay`.
unfoldable pub check_delay : (String → Option ℤ) → Run → List Diagnostic
unfolding auto_rerun_delay_regex
check_delay parse_duration step =
    if not (step.auto_rerun_delay == "")
    then elim (parse_duration step.auto_rerun_delay) [
      | none ↦ error_at step "auto_rerun_delay must be a valid duration" ∷ []
      | some duration ↦
          report_if (not (auto_rerun_delay_regex (codes step.auto_rerun_delay))) (
            error_at step
              "auto_rerun_delay must be in the format of 1-10 minutes (e.g., '1m', '10m') or any number of seconds (e.g., '30s', '120s')")
          ++ report_if (exceeds_ten_minutes duration)
              (error_at step "auto_rerun_delay must not exceed 10 minutes")
    ]
    else []

-- The checks of `max_auto_reruns` and of its combinations.
unfoldable pub check_reruns : (String → Option ℤ) → Run → List Diagnostic
check_reruns atoi step =
    report_if
      (step.background && (not (step.max_auto_reruns == "") || not (step.auto_rerun_delay == "")))
      (error_at step "Background steps cannot use max_auto_reruns or auto_rerun_delay fields")
    ++ (report_if (not (step.auto_rerun_delay == "") && step.max_auto_reruns == "")
          (error_at step "auto_rerun_delay requires max_auto_reruns to be specified")
        ++ (if not (step.max_auto_reruns == "")
            then elim (atoi step.max_auto_reruns) [
              | none ↦ error_at step "max_auto_reruns must be between 1 and 5" ∷ []
              | some rerun_count ↦
                  report_if (no_rerun_count rerun_count)
                    (error_at step "max_auto_reruns must be between 1 and 5")
            ]
            else []))

unfoldable pub validate_run_command :
    (String → Option ℤ)
    → (String → Option ℤ)
    → (List ℕ → String)
    → Scope
    → Run
    → Dict String Parameter
    → List Diagnostic
unfolding check_reruns check_delay check_when
validate_run_command atoi parse_duration text_of scope step job_or_command_parameters =
    report_if step.is_deploy_step (
      create_warning_diagnostic_from_range step.range
        "The `deploy` step is deprecated. Please use the `run` job instead.")
    ++ (check_reruns atoi step
        ++ (check_delay parse_duration step
            ++ check_when text_of scope step job_or_command_parameters))

unfoldable pub validate_checkout : (String → Option ℤ) → Checkout → List Diagnostic
validate_checkout atoi step =
    let error = create_error_diagnostic_from_range step.range in
    let wrong_method =
      report_if (not (contains checkout_methods step.method))
        (error ("Checkout method '" +++ step.method +++ "' is invalid")) in
    let wrong_depth =
      report_if (not (step.method == "shallow") && not (step.depth == ""))
        (error "Checkout depth can only be used with the shallow checkout method") in
    if step.method == ""
    then []
    else if step.method == "shallow"
    then elim (atoi step.depth) [
      | none ↦ wrong_method ++ error "Checkout depth is not an integer" ∷ []
      | some depth ↦
          wrong_method
          ++ (report_if (not_positive depth) (
                error
                  "Checkout depth must be a positive integer when using the shallow checkout method")
              ++ wrong_depth)
    ]
    else wrong_method ++ wrong_depth

-- `validateStepSteps`
unfoldable pub validate_step_steps : Dict String Command → String → Range → String → List Diagnostic
validate_step_steps commands step_name range name = elim (lookup name commands) [
  | none ↦ []
  | some command ↦ elim (lookup step_name command.parameters) [
    | none ↦ []
    | some parameter ↦
        report_if (not (get_type parameter == "steps"))
          (create_error_diagnostic_from_range range "Parameter type is not steps")
  ]
]

-- `validateNamedStep`, with the cache of the remote orbs.
module _ (fetch_orb_info : String → OrbCache → Option Info × OrbCache)
    (fetch_error : String → String) where
  -- The operator `||` of Go asks the orb only where nothing before it is true.
  unfoldable pub command_exists : YamlDocument → String → OrbCache → Bool × OrbCache
  unfolding is_orb_command is_alias is_built_in
  command_exists doc name cache =
      let known = has name doc.own.jobs || (has name doc.own.commands || is_built_in name) in
      let (in_orb, cache') = is_orb_command fetch_orb_info doc name cache in
      if known then (true, cache) else (in_orb || is_alias name, cache')

  -- `validateExecutorReference` for the executors that are given for parameters.
  abbrev pub look_up : YamlDocument → String → Range → OrbCache → List Diagnostic × OrbCache
  look_up doc =
      validate_executor_reference doc (validate_orb_executor fetch_orb_info fetch_error doc)

  unfoldable pub validate_named_step :
      YamlDocument
      → Scope
      → (name : String) → Range
      → Dict String ParameterValue
      → Dict String Parameter
      → OrbCache
      → Checked × OrbCache
  unfolding command_exists is_from_unfetchable_orb get_defined_params validate_parameters_value
      resolve validate_executor_reference validate_orb_executor
  validate_named_step doc scope name range parameters usable_params cache =
      let (exists, cache') = command_exists doc name cache in
      let (defined, cache'') = get_defined_params fetch_orb_info doc name cache' in
      let missing =
        report_if (not exists) (
          create_error_diagnostic_from_range range
            ("Cannot find declaration for step " +++ name)) in
      let path = report_if (name == "store_test_results") (
        create_error_diagnostic_from_range range
          "Path must be specified for `store_test_results` step") in
      if is_from_unfetchable_orb doc name
      then (some [], cache')
      else if is_built_in name
      then (some (missing ++ path), cache')
      else elim (validate_parameters_value scope parameters name range (or_empty defined)
          usable_params) [
            | none ↦ (none, cache'')
            | some findings ↦
                let (ds, cache''') = resolve (look_up doc) findings cache'' in
                (some (missing ++ (ds ++ path)), cache''')
          ]
