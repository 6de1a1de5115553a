-- ===== src/Requires.antt =====
-- pkg/parser/validate/job_invocation.go: the checks of what a job invocation requires. Each check
-- returns the diagnostics that it adds, in their order.
pub mod Statuses
use circleci_yaml_language_s.Prelude.{
  ℕ, String, Bool, true, false, not, ◌&&◌, ◌||◌, Option, none, some, List, [], ◌∷◌, ◌++◌, length,
  string_eq, nat_eq, ◌==◌, ltb, if◌then◌else◌, map, contains,
}
use circleci_yaml_language_s.Prelude.Dict.{Dict, keys, lookup, insert}
use circleci_yaml_language_s.Position.{Range}
use circleci_yaml_language_s.Text.{◌+++◌, codes, skip_spaces, strip_prefix, join}
use circleci_yaml_language_s.Syntax.{
  Require, JobInvocation, JobGroup, Workflow, InvocationContext, in_workflow, in_job_group,
}
use circleci_yaml_language_s.Cycles.{ℤ, pos, negsuc, children, is_valid_dag}
use circleci_yaml_language_s.Diagnostics.{Diagnostic, hint, create_error_diagnostic_from_range}

abbrev pub terminal_job_statuses : List String
terminal_job_statuses = "success" ∷ "failed" ∷ "canceled" ∷ "not_run" ∷ "unauthorized" ∷ []

-- terminalSet[status] = false
unfoldable pub add_unfound : List String → Dict String Bool → Dict String Bool
add_unfound [] terminal_set = terminal_set
add_unfound (status ∷ statuses) terminal_set =
    add_unfound statuses (insert status false terminal_set)

-- The loop over the statuses; `none` is its early return.
unfoldable pub mark_found : List String → Dict String Bool → Option (Dict String Bool)
mark_found [] terminal_set = some terminal_set
mark_found (s ∷ statuses) terminal_set = elim (lookup s terminal_set) [
  | none ↦ none
  | some _ ↦ mark_found statuses (insert s true terminal_set)
]

unfoldable pub all_found : Dict String Bool → Bool
all_found [] = true
all_found ((_, found) ∷ terminal_set) = found && all_found terminal_set

unfoldable pub require_has_all_terminal_statuses : List String → Bool
unfolding add_unfound mark_found all_found
require_has_all_terminal_statuses statuses =
    if not (length statuses == length terminal_job_statuses)
    then false
    else elim (mark_found statuses (add_unfound terminal_job_statuses [])) [
      | none ↦ false
      | some terminal_set ↦ all_found terminal_set
    ]

module _ {Step Value : Type 0} where
  unfoldable pub does_job_invocation_exist : List (JobInvocation Step Value) → String → Bool
  does_job_invocation_exist [] require_name = false
  does_job_invocation_exist (inv ∷ job_invocations) require_name =
      inv.job_name == require_name
      || (inv.step_name == require_name || does_job_invocation_exist job_invocations require_name)

  -- The group, in the order of the map, that invokes the job.
  unfoldable pub find_job_group_containing_job : List (JobGroup Step Value) → String → Option String
  find_job_group_containing_job [] job_name = none
  find_job_group_containing_job (group ∷ groups) job_name =
      let rest = find_job_group_containing_job groups job_name in
      if contains (map (λ inv. inv.job_name) group.job_invocations) job_name
      then some group.name
      else rest

-- `<<\s*matrix\.\s*>?>?`, at any place; what follows the dot is optional.
unfoldable pub matrix_regex : List ℕ → Bool
unfolding strip_prefix skip_spaces
matrix_regex [] = false
matrix_regex (c ∷ text) =
    elim (strip_prefix (codes "<<") (c ∷ text)) [
      | none ↦ false
      | some rest ↦ elim (strip_prefix (codes "matrix.") (skip_spaces rest)) [
        | none ↦ false
        | some _ ↦ true
      ]
    ]
    || matrix_regex text

abbrev pub check_if_matrix_param_is_partially_referenced : String → Bool
check_if_matrix_param_is_partially_referenced content = matrix_regex (codes content)

abbrev pub cannot_find : Require → Diagnostic
cannot_find require =
    create_error_diagnostic_from_range require.range
      ("Cannot find declaration for job invocation \"" +++ require.name +++ "\"")

-- The diagnostic of a required name that no invocation has, by the group that contains it.
unfoldable pub missing_require : InvocationContext → Require → Option String → Diagnostic
missing_require ctx require none = cannot_find require
missing_require ctx require (some owner_group) = elim ctx.kind [
  | in_workflow ↦ create_error_diagnostic_from_range require.range (
      "\"" +++ require.name +++ "\" is defined inside job group \"" +++ owner_group
      +++ "\", not directly in this workflow")
  | in_job_group ↦
      if not (owner_group == ctx.job_group_name)
      then create_error_diagnostic_from_range require.range
          ("\"" +++ require.name +++ "\" is not a member of this job group")
      else cannot_find require
]

abbrev pub terminal_hint : Require → Diagnostic
terminal_hint require = record {
  range = require.status_range;
  severity = hint;
  message =
      "Statuses: '[" +++ join " " require.status +++ "]' can be simplified to just 'terminal'";
}

module _ {Step Value : Type 0} (job_groups : List (JobGroup Step Value)) (ctx : InvocationContext)
    (job_invocations : List (JobInvocation Step Value)) where
  abbrev pub check_status : Require → List Diagnostic
  check_status require =
      if require_has_all_terminal_statuses require.status then terminal_hint require ∷ [] else []

  -- The body of the loop over the requirements of an invocation. The two `continue` skip the test
  -- of the statuses.
  unfoldable pub check_require : Require → List Diagnostic
  unfolding missing_require
  check_require require =
      if does_job_invocation_exist job_invocations require.name
        || check_if_matrix_param_is_partially_referenced require.name
      then check_status require
      else (let owner = find_job_group_containing_job job_groups require.name in
          missing_require ctx require owner ∷ (elim owner [
            | none ↦ check_status require
            | some owner_group ↦ elim ctx.kind [
              | in_workflow ↦ []
              | in_job_group ↦
                  if not (owner_group == ctx.job_group_name) then [] else check_status require
            ]
          ]))

  unfoldable pub check_requires : List Require → List Diagnostic
  unfolding check_require
  check_requires [] = []
  check_requires (require ∷ requires) = check_require require ++ check_requires requires
