-- ===== src/OrbUse.antt =====
-- pkg/parser/validate/steps.go: which steps, jobs and parameters name an orb.
use circleci_yaml_language_s.Prelude.{
  String, Bool, false, not, ◌&&◌, ◌||◌, List, [], ◌∷◌, string_eq, ◌==◌, nat_eq, if◌then◌else◌,
}
use circleci_yaml_language_s.Prelude.Dict.{Dict}
use circleci_yaml_language_s.Text.{split}
use circleci_yaml_language_s.Values.{
  ParameterValue, array, step_list, Step, value_list, steps_of, value_of, value_type, get_name,
}
use circleci_yaml_language_s.Document.{YamlDocument, is_orb_reference}

abbrev is_first : String → List String → Bool
is_first orb_name [] = false
is_first orb_name (part ∷ parts) = part == orb_name

unfoldable pub check_if_steps_contain_orb : YamlDocument → List Step → String → Bool
unfolding is_orb_reference split
check_if_steps_contain_orb doc [] orb_name = false
check_if_steps_contain_orb doc (step ∷ steps) orb_name =
    is_orb_reference doc (get_name step) && is_first orb_name (split b'/' (get_name step))
    || check_if_steps_contain_orb doc steps orb_name

-- The innermost loop of `checkIfJobParamContainOrb`.
unfoldable pub steps_name_orb : List Step → String → Bool
unfolding split
steps_name_orb [] orb_name = false
steps_name_orb (step ∷ steps) orb_name =
    let rest = steps_name_orb steps orb_name in
    elim (split b'/' (get_name step)) [ part ∷ name ∷ [] ↦ part == orb_name || rest | _ ↦ rest ]

-- The loop over the values of one parameter, up to the first that is no list of steps.
unfoldable pub values_name_orb : List ParameterValue → String → Bool
unfolding steps_name_orb
values_name_orb [] orb_name = false
values_name_orb (v ∷ vs) orb_name =
    let rest = values_name_orb vs orb_name in
    if not (value_type v == "steps") then false else elim (value_of v) [
      | step_list steps ↦ steps_name_orb (steps_of steps) orb_name || rest
      | _ ↦ rest
    ]

unfoldable pub check_if_job_param_contain_orb : Dict String ParameterValue → String → Bool
unfolding values_name_orb
check_if_job_param_contain_orb [] orb_name = false
check_if_job_param_contain_orb ((_, p) ∷ params) orb_name =
    let rest = check_if_job_param_contain_orb params orb_name in
    elim (value_of p) [ array vs ↦ values_name_orb (value_list vs) orb_name || rest | _ ↦ rest ]

-- `checkIfJobUseOrb`, given the steps and the executor of the job
unfoldable pub check_if_job_use_orb : YamlDocument → List Step → String → String → Bool
unfolding check_if_steps_contain_orb
check_if_job_use_orb doc steps executor orb_name =
    check_if_steps_contain_orb doc steps orb_name
    || (not (executor == "") && is_first orb_name (split b'/' executor))
