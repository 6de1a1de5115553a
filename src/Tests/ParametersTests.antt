-- ===== src/Tests/ParametersTests.antt =====
-- Runs of pkg/utils/parameters.go and pkg/parser/validate/parameters.go.
use package.text.Mathlib.TextEquality.{eq_iff}
use circleci_yaml_language_s.Prelude.{
  ◌≡◌, refl, inl, inr, subst, sym, String, true, false, some, [], ◌∷◌, ◌++◌, arith, All, nat_eq,
  string_eq, ℕ_discrete, Bool-cases, ◌==◌, string_dec, bytes_eq,
}
use circleci_yaml_language_s.Prelude.Dict.{lookup}
use circleci_yaml_language_s.Position.{Range}
use circleci_yaml_language_s.Text.{codes}
use circleci_yaml_language_s.Parameters.{
  check_if_only_param_used, extract_parameter_name, get_param_name_used_at_pos,
}
use circleci_yaml_language_s.Parameters.References.{
  reference, path, extract_parameter_name-reference, extract_parameter_name-tab,
}
use circleci_yaml_language_s.Values.{
  ParameterValue, parameter_value, text, Parameter, enum_parameter, steps_parameter,
}
use circleci_yaml_language_s.ParameterChecks.{
  Scope, check_param_simple_type, validate_parameters_value,
}
use circleci_yaml_language_s.ParameterChecks.Fitting.{AllTagged, Fits}
use circleci_yaml_language_s.ParameterChecks.Deciding.{Decides, check_param_simple_type-Fits}
use circleci_yaml_language_s.ParameterChecks.Loops.{
  Satisfied, Known, validate_parameters_value-Satisfied,
}

abbrev here : Range
here = record {
  start = record { line = 0; character = 0 };
  end = record { line = 0; character = 2 };
}

abbrev scope : Scope
scope = record { content = codes "os: abc"; pipeline_parameters = []; commands = [] }

abbrev os : Parameter
os =
    enum_parameter
      (record {
        name = "os";
        name_range = here;
        range = here;
        has_default = false;
        description = "";
        type_range = here;
        default_range = here;
      })
      "" ("linux" ∷ "mac" ∷ [])

abbrev linux : ParameterValue
linux = parameter_value "os" (text "linux") here "string"

abbrev commands : Parameter
commands =
    steps_parameter
      (record {
        name = "after";
        name_range = here;
        range = here;
        has_default = true;
        description = "";
        type_range = here;
        default_range = here;
      })
      linux

runs : Unit {0}
unfolding ℕ_discrete check_param_simple_type validate_parameters_value extract_parameter_name lookup
    string_dec get_param_name_used_at_pos
runs = tt

extract_parameter_name_run :
    extract_parameter_name (codes "<< parameters.os >>") ≡ (codes "parameters.os", codes "os")
unfolding runs
extract_parameter_name_run = refl

linux-AllTagged : AllTagged linux
linux-AllTagged = (
  λ string. ("linux", refl),
  λ vs (ws, e, same). absurd (ground (arith, e)),
  λ map. absurd (ground (arith, map, eq_iff "string" "map")),
)

extract_parameter_name-reference_example :
    (check_if_only_param_used (reference (b' ' ∷ []) (path true ++ b'o' ∷ b's' ∷ []) []) ≡ true)
    × (extract_parameter_name (reference (b' ' ∷ []) (path true ++ b'o' ∷ b's' ∷ []) [])
        ≡ (path true ++ b'o' ∷ b's' ∷ [], b'o' ∷ b's' ∷ []))
unfolding runs
extract_parameter_name-reference_example =
    extract_parameter_name-reference (b' ' ∷ []) true (b'o' ∷ b's' ∷ []) [] (refl, tt)
      (refl, (refl, tt)) tt

extract_parameter_name-tab_example :
    (check_if_only_param_used (reference [] (path false ++ b'o' ∷ []) (b'\t' ∷ [])) ≡ true)
    × (extract_parameter_name (reference [] (path false ++ b'o' ∷ []) (b'\t' ∷ []))
        ≡ ((path false ++ b'o' ∷ []) ++ b'\t' ∷ [], (b'o' ∷ []) ++ b'\t' ∷ []))
unfolding runs
extract_parameter_name-tab_example =
    extract_parameter_name-tab [] false (b'o' ∷ []) b'\t' tt (refl, tt) refl refl

check_param_simple_type-Fits_example :
    Decides (check_param_simple_type scope linux "build" os) (Fits scope os linux)
check_param_simple_type-Fits_example =
    check_param_simple_type-Fits scope os linux "build" linux-AllTagged

given-AllTagged :
    (k : String) (v : ParameterValue) → lookup k (("os", linux) ∷ []) ≡ some v → AllTagged v
unfolding lookup
given-AllTagged k v found = elim (Bool-cases ("os" == k)) [
  | inl same ↦
      let e : v ≡ linux = ground (arith, found, same) in subst AllTagged (sym e) linux-AllTagged
  | inr other ↦ absurd (ground (arith, found, other))
]

validate_parameters_value-Satisfied_example :
    Decides
      (validate_parameters_value scope
        (("os", linux) ∷ [])
        "build"
        here
        (("os", os) ∷ ("after", commands) ∷ [])
        [])
      (All (Satisfied scope (("os", linux) ∷ []) []) (("os", os) ∷ ("after", commands) ∷ [])
        × All (Known (("os", os) ∷ ("after", commands) ∷ [])) (("os", linux) ∷ []))
validate_parameters_value-Satisfied_example =
    validate_parameters_value-Satisfied scope (("os", linux) ∷ []) "build" here
      (("os", os) ∷ ("after", commands) ∷ []) [] given-AllTagged
