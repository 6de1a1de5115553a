-- ===== src/Syntax.antt =====
-- pkg/ast/workflow.go, pkg/ast/job_group.go and pkg/ast/job.go: the records of the parsed document
-- that the validation reads. Steps and values of parameters are types of the caller.
use circleci_yaml_language_s.Prelude.{String, Bool, List}
use circleci_yaml_language_s.Prelude.Dict.{Dict}
use circleci_yaml_language_s.Position.{Range}
use circleci_yaml_language_s.Cycles.{ℤ}

pub record Require : Type 0 where
  pub name : String
  pub status : List String
  pub range : Range
  pub status_range : Range

pub record JobInvocation (Step Value : Type 0) : Type 0 where
  pub job_invocation_range : Range
  pub job_name : String
  pub job_name_range : Range
  pub step_name : String
  pub step_name_range : Range
  pub requires : List Require
  pub context : List String
  pub type : String
  pub type_range : Range
  pub parameters : Dict String Value
  pub override_with : String
  pub override_with_range : Range
  pub pre_steps : List Step
  pub pre_steps_range : Range
  pub post_steps : List Step
  pub post_steps_range : Range
  pub has_matrix : Bool
  pub matrix_range : Range
  pub matrix_params : Dict String (List Value)
  pub serial_group : String
  pub serial_group_range : Range

pub record Workflow (Step Value : Type 0) : Type 0 where
  pub name : String
  pub name_range : Range
  pub job_invocations : List (JobInvocation Step Value)
  pub jobs_dag : Dict String (List String)
  pub has_max_auto_reruns : Bool
  pub max_auto_reruns : ℤ
  pub max_auto_reruns_range : Range

pub record JobGroup (Step Value : Type 0) : Type 0 where
  pub name : String
  pub name_range : Range
  pub job_invocations : List (JobInvocation Step Value)
  pub jobs_dag : Dict String (List String)

pub record Job (Step : Type 0) : Type 0 where
  pub name : String
  pub name_range : Range
  pub steps : List Step
  pub type : String
  pub type_range : Range

-- pkg/parser/validate/job_invocation.go: where an invocation stands.
pub data InvocationKind : Type 0 where
  in_workflow in_job_group : InvocationKind

pub record InvocationContext : Type 0 where
  pub kind : InvocationKind
  pub job_group_name : String
