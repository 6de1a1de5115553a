-- ===== src/JobGraph.antt =====
-- `buildJobsDAG` of pkg/parser/job_invocation.go, `validateDAG` of
-- pkg/parser/validate/job_invocation.go, and the bounds of pkg/parser/validate/workflow.go.
pub mod Acyclic
use circleci_yaml_language_s.Prelude.{
  ℕ, String, Bool, true, false, not, ◌&&◌, ◌||◌, Option, none, some, List, [], ◌∷◌, ◌++◌, length,
  string_eq, nat_eq, ◌==◌, ltb, if◌then◌else◌, map, contains,
}
use circleci_yaml_language_s.Prelude.Dict.{Dict, keys, lookup, insert}
use circleci_yaml_language_s.Position.{Range}
use circleci_yaml_language_s.Text.{◌+++◌, codes, skip_spaces, strip_prefix, join}
use circleci_yaml_language_s.Syntax.{
  Require, JobInvocation, JobGroup, Workflow, InvocationContext, in_workflow, in_job_group,
}
use circleci_yaml_language_s.Cycles.{ℤ, pos, negsuc, children, is_valid_dag}
use circleci_yaml_language_s.Diagnostics.{Diagnostic, hint, create_error_diagnostic_from_range}

-- res[requirement.Name] = append(res[requirement.Name], jobInvocation.StepName)
unfoldable pub add_requires :
    String → List Require → Dict String (List String) → Dict String (List String)
add_requires step_name [] res = res
add_requires step_name (requirement ∷ requires) res =
    add_requires step_name requires
      (insert requirement.name (children res requirement.name ++ step_name ∷ []) res)

module _ {Step Value : Type 0} where
  unfoldable pub add_invocations :
      List (JobInvocation Step Value) → Dict String (List String) → Dict String (List String)
  unfolding add_requires
  add_invocations [] res = res
  add_invocations (inv ∷ job_invocations) res =
      add_invocations job_invocations (add_requires inv.step_name inv.requires res)

  unfoldable pub build_jobs_dag : List (JobInvocation Step Value) → Dict String (List String)
  unfolding add_invocations
  build_jobs_dag job_invocations = add_invocations job_invocations []

  -- The inner loop of `validateDAG`.
  unfoldable pub report_cycle : String → List (JobInvocation Step Value) → List Diagnostic
  report_cycle node [] = []
  report_cycle node (inv ∷ invocations) =
      let rest = report_cycle node invocations in
      if inv.job_name == node
      then create_error_diagnostic_from_range inv.job_name_range
          ("The job `" +++ node +++ "` is part of a cycle")
        ∷ rest
      else rest

  unfoldable pub report_cycles : List String → List (JobInvocation Step Value) → List Diagnostic
  unfolding report_cycle
  report_cycles [] invocations = []
  report_cycles (node ∷ nodes) invocations =
      report_cycle node invocations ++ report_cycles nodes invocations

  -- `validateDAG`, with the orders of the maps and the fuel of `isValidDAG`
  unfoldable pub validate_dag :
      (List String → List String)
      → (List String → List String)
      → ℕ
      → List (JobInvocation Step Value)
      → Dict String (List String)
      → Option (List Diagnostic)
  unfolding report_cycles
  validate_dag order order' fuel invocations dag = elim (is_valid_dag order order' fuel dag) [
    | none ↦ none
    | some nodes_in_cycle ↦ some (report_cycles nodes_in_cycle invocations)
  ]

abbrev pub too_small : Range → List Diagnostic
too_small rng = create_error_diagnostic_from_range rng "Must be greater than or equal to 1" ∷ []

-- The bounds that `validateSingleWorkflow` sets for `max_auto_reruns`.
unfoldable pub check_max_auto_reruns : {Step Value : Type 0} → Workflow Step Value → List Diagnostic
check_max_auto_reruns workflow =
    if workflow.has_max_auto_reruns
    then elim workflow.max_auto_reruns [
      | negsuc n ↦ too_small workflow.max_auto_reruns_range
      | pos n ↦
          if ltb n 1
          then too_small workflow.max_auto_reruns_range
          else if ltb 5 n
          then create_error_diagnostic_from_range workflow.max_auto_reruns_range
              "Must be less than or equal to 5"
            ∷ []
          else []
    ]
    else []
