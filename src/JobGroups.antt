-- ===== src/JobGroups.antt =====
-- pkg/parser/validate/job_invocation.go: the checks of the invocations of job groups.
pub mod Duplicates
use circleci_yaml_language_s.Prelude.{
  ℕ, String, Bool, true, false, not, ◌&&◌, ◌||◌, Option, none, some, List, [], ◌∷◌, ◌++◌, length,
  string_eq, nat_eq, ◌==◌, ltb, if◌then◌else◌, map, contains,
}
use circleci_yaml_language_s.Prelude.Dict.{Dict, keys, lookup, insert}
use circleci_yaml_language_s.Position.{Range}
use circleci_yaml_language_s.Text.{◌+++◌, codes, skip_spaces, strip_prefix, join}
use circleci_yaml_language_s.Syntax.{
  Require, JobInvocation, JobGroup, Workflow, InvocationContext, in_workflow, in_job_group,
}
use circleci_yaml_language_s.Cycles.{ℤ, pos, negsuc, children, is_valid_dag}
use circleci_yaml_language_s.Diagnostics.{Diagnostic, hint, create_error_diagnostic_from_range}

pub record Entry (Step Value : Type 0) : Type 0 where
  pub is_renamed : Bool
  pub name : String
  pub invocation : JobInvocation Step Value

module _ {Step Value : Type 0} where
  abbrev pub has_been_renamed : JobInvocation Step Value → Bool
  has_been_renamed inv = not (inv.step_name == inv.job_name)

  abbrev pub entry_of : JobInvocation Step Value → Entry Step Value
  entry_of inv = record {
    is_renamed = has_been_renamed inv;
    name = if has_been_renamed inv then inv.step_name else "";
    invocation = inv;
  }

  abbrev pub entries : Option (List (Entry Step Value)) → List (Entry Step Value)
  entries none = []
  entries (some es) = es

  -- seen[inv.JobName] = append(seen[inv.JobName], entry{...})
  unfoldable pub collect :
      (String → Bool)
      → List (JobInvocation Step Value)
      → Dict String (List (Entry Step Value))
      → Dict String (List (Entry Step Value))
  collect does_job_group_exist [] seen = seen
  collect does_job_group_exist (inv ∷ job_invocations) seen =
      collect does_job_group_exist job_invocations (
        if not (does_job_group_exist inv.job_name)
        then seen
        else insert inv.job_name (entries (lookup inv.job_name seen) ++ entry_of inv ∷ []) seen)

  -- The loop over the entries of one group; `names_seen` holds the names that are set to true.
  unfoldable pub check_entries : String → List String → List (Entry Step Value) → List Diagnostic
  check_entries group_name names_seen [] = []
  check_entries group_name names_seen (e ∷ es) =
      let rest =
        check_entries group_name
          (if not e.is_renamed || contains names_seen e.name
            then names_seen
            else e.name ∷ names_seen)
          es in
      if not e.is_renamed
      then create_error_diagnostic_from_range e.invocation.job_name_range (
          "Job group \"" +++ group_name
          +++ "\" is invoked multiple times without a \"name\" attribute. Each invocation must have a unique name")
        ∷ rest
      else if contains names_seen e.name
      then create_error_diagnostic_from_range e.invocation.step_name_range (
          "Job group \"" +++ group_name +++ "\" is already invoked with the name \"" +++ e.name
          +++ "\"")
        ∷ rest
      else rest

  abbrev pub check_group : String → List (Entry Step Value) → List Diagnostic
  check_group group_name es = if ltb (length es) 2 then [] else check_entries group_name [] es

  -- The loop over the groups.
  unfoldable pub check_groups :
      Dict String (List (Entry Step Value)) → List String → List Diagnostic
  unfolding check_entries
  check_groups seen [] = []
  check_groups seen (group_name ∷ group_names) =
      check_group group_name (entries (lookup group_name seen)) ++ check_groups seen group_names

  -- `order` is the order in which Go ranges over `seen`.
  unfoldable pub validate_duplicate_job_group_invocations :
      (List String → List String)
      → (String → Bool)
      → List (JobInvocation Step Value)
      → List Diagnostic
  unfolding check_groups collect
  validate_duplicate_job_group_invocations order does_job_group_exist job_invocations =
      let seen = collect does_job_group_exist job_invocations [] in
      check_groups seen (order (keys seen))

module _ {Step Value : Type 0} where
  -- `sort_strings` is Go's `sort.Strings`.
  module _ (sort_strings : List String → List String) where
    -- What an invocation of a job group may not have, in the order of the tests.
    unfoldable pub forbidden_keys : JobInvocation Step Value → List Diagnostic
    forbidden_keys inv =
        (if inv.has_matrix
          then create_error_diagnostic_from_range inv.matrix_range
              "Job group invocations do not support `matrix`"
            ∷ []
          else [])
        ++ (if not (inv.override_with == "")
            then create_error_diagnostic_from_range inv.override_with_range
                "Job group invocations do not support use of `override-with`"
              ∷ []
            else [])
        ++ (if not (inv.type == "")
            then create_error_diagnostic_from_range inv.type_range
                "Job group invocations do not support use of `type`"
              ∷ []
            else [])
        ++ (if not (length inv.parameters == 0)
            then create_error_diagnostic_from_range inv.job_invocation_range (
                "Job group invocations do not support custom parameters, but found: "
                +++ join ", "
                    (sort_strings (map (λ name. "`" +++ name +++ "`") (keys inv.parameters))))
              ∷ []
            else [])
        ++ (if not (length inv.context == 0)
            then create_error_diagnostic_from_range inv.job_invocation_range
                "Job group invocations do not support use of `context`"
              ∷ []
            else [])
        ++ (if not (length inv.pre_steps == 0)
            then create_error_diagnostic_from_range inv.pre_steps_range
                "Job group invocations do not support use of `pre-steps`"
              ∷ []
            else [])
        ++ (if not (length inv.post_steps == 0)
            then create_error_diagnostic_from_range inv.post_steps_range
                "Job group invocations do not support use of `post-steps`"
              ∷ []
            else [])

    unfoldable pub validate_job_group_invocation :
        JobInvocation Step Value → InvocationContext → List Diagnostic
    unfolding forbidden_keys
    validate_job_group_invocation inv ctx = elim ctx.kind [
      | in_job_group ↦
          create_error_diagnostic_from_range inv.job_name_range (
            "Job group \"" +++ ctx.job_group_name +++ "\" cannot reference job group \""
            +++ inv.job_name +++ "\" -- nesting is not supported")
          ∷ []
      | in_workflow ↦ forbidden_keys inv
    ]
