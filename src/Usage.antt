-- ===== src/Usage.antt =====
-- pkg/parser/validate/jobs.go and pkg/parser/validate/commands.go: which jobs and commands are
-- used, and the types of jobs. Go ranges over the maps of the document in some order; a list or a
-- `Dict` here is such a map in that order. `get_name` is the method of the interface `ast.Step`.
pub mod Unused
use circleci_yaml_language_s.Prelude.{
  String, Bool, true, false, not, ◌||◌, Option, none, some, List, [], ◌∷◌, ◌++◌, string_eq, ◌==◌,
  if◌then◌else◌, contains,
}
use circleci_yaml_language_s.Prelude.Dict.{Dict}
use circleci_yaml_language_s.Text.{◌+++◌, join}
use circleci_yaml_language_s.Syntax.{Job, JobInvocation, JobGroup, Workflow}
use circleci_yaml_language_s.Diagnostics.{
  Diagnostic, hint, create_error_diagnostic_from_range, create_warning_diagnostic_from_range,
}

-- utils.JobTypes
abbrev pub job_types : List String
job_types = "approval" ∷ "build" ∷ "no-op" ∷ "release" ∷ "lock" ∷ "unlock" ∷ []

module _ {Step : Type 0} where
  unfoldable pub validate_job_type : Job Step → List Diagnostic
  validate_job_type job =
      if job.type == ""
      then []
      else if not (contains job_types job.type)
      then create_error_diagnostic_from_range job.type_range
          ("Invalid job type '" +++ job.type +++ "'. Allowed types: " +++ join ", " job_types)
        ∷ []
      else if job.type == "build"
      then record {
        range = job.type_range;
        severity = hint;
        message = "If no `type:` key is specified, the job will default to `type: build`.";
      }
        ∷ []
      else []

module _ {Step Value : Type 0} where
  -- A loop that returns at the first invocation of the name.
  unfoldable pub invokes : List (JobInvocation Step Value) → String → Bool
  invokes [] name = false
  invokes (inv ∷ invs) name = inv.job_name == name || invokes invs name

  unfoldable pub is_job_group_used_in_workflows : List (Workflow Step Value) → String → Bool
  unfolding invokes
  is_job_group_used_in_workflows [] name = false
  is_job_group_used_in_workflows (w ∷ workflows) name =
      invokes w.job_invocations name || is_job_group_used_in_workflows workflows name

  -- The loop over the invocations of one group; `none` is the return.
  unfoldable pub scan_group :
      (is_used : Bool)
      → String
      → List (JobInvocation Step Value)
      → String
      → List String
      → Option (List String)
  scan_group is_used group_name [] job_name unused_groups = some unused_groups
  scan_group is_used group_name (inv ∷ invs) job_name unused_groups =
      let rest =
        scan_group is_used group_name invs job_name
          (if inv.job_name == job_name then unused_groups ++ group_name ∷ [] else unused_groups) in
      if inv.job_name == job_name then if is_used then none else rest else rest

  unfoldable pub scan_groups :
      List (Workflow Step Value)
      → Dict String (JobGroup Step Value)
      → String
      → List String
      → Option (List String)
  unfolding scan_group is_job_group_used_in_workflows
  scan_groups workflows [] job_name unused_groups = some unused_groups
  scan_groups workflows ((group_name, group) ∷ job_groups) job_name unused_groups =
      elim (scan_group (is_job_group_used_in_workflows workflows group_name) group_name
        group.job_invocations job_name unused_groups) [
          | none ↦ none
          | some unused_groups' ↦ scan_groups workflows job_groups job_name unused_groups'
        ]

module _ {Step : Type 0} (get_name : Step → String) where
  unfoldable pub check_if_steps_contain_step : List Step → String → Bool
  check_if_steps_contain_step [] step_name = false
  check_if_steps_contain_step (step ∷ steps) step_name =
      get_name step == step_name || check_if_steps_contain_step steps step_name

  unfoldable pub is_step_of_jobs : List (Job Step) → String → Bool
  unfolding check_if_steps_contain_step
  is_step_of_jobs [] name = false
  is_step_of_jobs (job ∷ jobs) name =
      check_if_steps_contain_step job.steps name || is_step_of_jobs jobs name

-- `sort_strings` is Go's `sort.Strings`, which returns a list of the same length.
module _ {Step : Type 0} (sort_strings : List String → List String) where
  -- What is said of a job that only stands in groups that no workflow invokes, or nowhere.
  abbrev pub unused_message : Job Step → List String → String
  unused_message job [] = "Job is unused"
  unused_message job (g ∷ groups) =
      "Job \""
      +++ job.name
      +++ "\" is used in job group \""
      +++ (elim (sort_strings (g ∷ groups)) [ [] ↦ g | first ∷ _ ↦ first ])
      +++ "\", but that group is never invoked in a workflow"

module _ {Step Value : Type 0} (get_name : Step → String)
    (sort_strings : List String → List String) where
  unfoldable pub check_and_report_unused_job :
      List (Job Step)
      → List (Workflow Step Value)
      → Dict String (JobGroup Step Value)
      → Job Step
      → List Diagnostic
  unfolding is_step_of_jobs scan_groups
  check_and_report_unused_job jobs workflows job_groups job =
      if is_step_of_jobs get_name jobs job.name
      then []
      else if is_job_group_used_in_workflows workflows job.name
      then []
      else elim (scan_groups workflows job_groups job.name []) [
        | none ↦ []
        | some unused_groups ↦
            create_warning_diagnostic_from_range job.name_range
              (unused_message sort_strings job unused_groups)
            ∷ []
      ]
