-- ===== src/Tests/InvocationsTests.antt =====
-- Runs of the checks of job invocations, names and unused jobs.
use text.Mathlib.TextEquality.{eq_iff}
use circleci_yaml_language_s.Prelude.{
  ◌⊎◌, ℕ_discrete, ℕ, ◌≡◌, ◌≢◌, ◌<◌, ◌↔◌, ◌⊎◌, refl, String, Bool, true, false, some, List, [], ◌∷◌,
  arith, contains, string_eq, string_dec, if◌then◌else◌, ◌==◌, length,
}
use circleci_yaml_language_s.Prelude.Dict.{lookup, insert}
use circleci_yaml_language_s.Position.{Range}
use circleci_yaml_language_s.Syntax.{Require, JobInvocation, JobGroup, Workflow, Job}
use circleci_yaml_language_s.Cycles.{
  loop, visit, relax_children, relax_child, decrement, increment, is_zero, init_degrees,
  count_children, count_edges, initial_queue, initial_visited, not_visited, is_valid_dag, pos,
}
use circleci_yaml_language_s.JobGraph.{build_jobs_dag, validate_dag}
use circleci_yaml_language_s.JobGraph.Acyclic.{
  requires_edge, invokes, validate_dag_ranked, validate_dag_renamed,
}
use circleci_yaml_language_s.JobGroups.{validate_duplicate_job_group_invocations}
use circleci_yaml_language_s.JobGroups.Duplicates.{
  invocations_of, IsNamed, validate_duplicate_job_group_invocations-silent,
}
use circleci_yaml_language_s.Requires.{terminal_job_statuses, require_has_all_terminal_statuses}
use circleci_yaml_language_s.Requires.Statuses.{require_has_all_terminal_statuses_iff}
use circleci_yaml_language_s.Names.{NamedEntity, check_names}
use circleci_yaml_language_s.Names.Clashes.{IsClear, check_names-silent}
use circleci_yaml_language_s.Usage.{check_and_report_unused_job}
use circleci_yaml_language_s.Usage.Unused.{
  StepOfJob, InWorkflow, InUsedGroup, check_and_report_unused_job-silent,
}
use circleci_yaml_language_s.Tests.CyclesTests.{same_order, same_order-IsIteration}

abbrev nowhere : Range
nowhere = record {
  start = record { line = 0; character = 0 };
  end = record { line = 0; character = 0 };
}

abbrev require : String → Require
require name = record { name = name; status = []; range = nowhere; status_range = nowhere }

abbrev invocation : String → String → List Require → JobInvocation String String
invocation job_name step_name requires = record {
  job_invocation_range = nowhere;
  job_name = job_name;
  job_name_range = nowhere;
  step_name = step_name;
  step_name_range = nowhere;
  requires = requires;
  context = [];
  type = "";
  type_range = nowhere;
  parameters = [];
  override_with = "";
  override_with_range = nowhere;
  pre_steps = [];
  pre_steps_range = nowhere;
  post_steps = [];
  post_steps_range = nowhere;
  has_matrix = false;
  matrix_range = nowhere;
  matrix_params = [];
  serial_group = "";
  serial_group_range = nowhere;
}

abbrev ordered : List (JobInvocation String String)
ordered = invocation "a" "a" [] ∷ invocation "b" "b" (require "a" ∷ []) ∷ []

-- Two invocations that require one another under the names that they are given.
abbrev renamed : List (JobInvocation String String)
renamed = invocation "a" "x" (require "y" ∷ []) ∷ invocation "b" "y" (require "x" ∷ []) ∷ []

a_ne_b : ◌≢◌ {A = String} "a" "b"
a_ne_b = ground (arith, eq_iff "a" "b")

a_ne_x : ◌≢◌ {A = String} "a" "x"
a_ne_x = ground (arith, eq_iff "a" "x")

a_ne_y : ◌≢◌ {A = String} "a" "y"
a_ne_y = ground (arith, eq_iff "a" "y")

b_ne_x : ◌≢◌ {A = String} "b" "x"
b_ne_x = ground (arith, eq_iff "b" "x")

b_ne_y : ◌≢◌ {A = String} "b" "y"
b_ne_y = ground (arith, eq_iff "b" "y")

runs : Unit {0}
unfolding build_jobs_dag validate_dag is_valid_dag loop visit relax_children relax_child decrement
    increment is_zero init_degrees count_children count_edges initial_queue initial_visited
    not_visited lookup insert ℕ_discrete string_dec require_has_all_terminal_statuses check_names
    check_and_report_unused_job validate_duplicate_job_group_invocations
runs = tt

-- The graph of `renamed` has a cycle.
renamed_run : is_valid_dag same_order same_order 9 (build_jobs_dag renamed) ≡ some ("y" ∷ "x" ∷ [])
unfolding runs
renamed_run = refl

abbrev rank : String → ℕ
rank x = if x == "b" then 1 else 0

ordered_ranked : (p x : String) → requires_edge ordered p x ≡ true → rank p < rank x
ordered_ranked p x h = ground (arith, a_ne_b)

validate_dag_ranked_example :
    validate_dag same_order same_order 9 ordered (build_jobs_dag ordered) ≡ some []
unfolding runs
validate_dag_ranked_example =
    validate_dag_ranked same_order same_order 9 ordered rank same_order-IsIteration
      same_order-IsIteration (omega arith) ordered_ranked

renamed_apart : (p x : String) → requires_edge renamed p x ≡ true → invokes renamed x ≡ false
renamed_apart p x h = ground (arith, a_ne_x, a_ne_y, b_ne_x, b_ne_y)

validate_dag_renamed_example :
    validate_dag same_order same_order 9 renamed (build_jobs_dag renamed) ≡ some []
unfolding runs
validate_dag_renamed_example =
    validate_dag_renamed same_order same_order 9 renamed same_order-IsIteration
      same_order-IsIteration (omega arith) renamed_apart

abbrev is_group : String → Bool
is_group name = name == "g"

abbrev twice : List (JobInvocation String String)
twice = invocation "g" "g1" [] ∷ invocation "j" "j" [] ∷ invocation "g" "g2" [] ∷ []

validate_duplicate_job_group_invocations-silent_example :
    validate_duplicate_job_group_invocations same_order is_group twice ≡ [] ↔ (
      (g : String)
      → is_group g ≡ true
      → (length (invocations_of g twice) < 2) ⊎ IsNamed (invocations_of g twice))
validate_duplicate_job_group_invocations-silent_example =
    validate_duplicate_job_group_invocations-silent same_order is_group twice same_order-IsIteration

twice_run : validate_duplicate_job_group_invocations same_order is_group twice ≡ []
unfolding runs
twice_run = refl

abbrev shuffled : List String
shuffled = "not_run" ∷ "failed" ∷ "success" ∷ "unauthorized" ∷ "canceled" ∷ []

shuffled_run : require_has_all_terminal_statuses shuffled ≡ true
unfolding runs
shuffled_run = refl

require_has_all_terminal_statuses_iff_example :
    require_has_all_terminal_statuses shuffled ≡ true ↔ (
      (length shuffled ≡ length terminal_job_statuses)
      × ((s : String) → contains shuffled s ≡ contains terminal_job_statuses s))
require_has_all_terminal_statuses_iff_example = require_has_all_terminal_statuses_iff shuffled

abbrev entities : List NamedEntity
entities =
    record { name = "build"; name_range = nowhere; kind = "workflow" }
    ∷ record { name = "build"; name_range = nowhere; kind = "workflow" }
    ∷ record { name = "test"; name_range = nowhere; kind = "job" }
    ∷ []

check_names-silent_example : check_names entities ≡ [] ↔ IsClear entities
check_names-silent_example = check_names-silent entities

abbrev step_name : String → String
step_name s = s

abbrev job : String → Job String
job name = record {
  name = name;
  name_range = nowhere;
  steps = "checkout" ∷ [];
  type = "";
  type_range = nowhere;
}

abbrev group : JobGroup String String
group = record {
  name = "g";
  name_range = nowhere;
  job_invocations = invocation "deploy" "deploy" [] ∷ [];
  jobs_dag = [];
}

abbrev workflow : Workflow String String
workflow = record {
  name = "main";
  name_range = nowhere;
  job_invocations = invocation "g" "g" [] ∷ [];
  jobs_dag = [];
  has_max_auto_reruns = false;
  max_auto_reruns = pos 0;
  max_auto_reruns_range = nowhere;
}

deploy_run :
    check_and_report_unused_job step_name same_order
      (job "deploy" ∷ [])
      (workflow ∷ [])
      (("g", group) ∷ [])
      (job "deploy")
    ≡ []
unfolding runs
deploy_run = refl

check_and_report_unused_job-silent_example :
    check_and_report_unused_job step_name same_order
        (job "deploy" ∷ [])
        (workflow ∷ [])
        (("g", group) ∷ [])
        (job "deploy")
      ≡ []
    ↔ StepOfJob step_name (job "deploy" ∷ []) "deploy"
      ⊎ (InWorkflow (workflow ∷ []) "deploy"
          ⊎ InUsedGroup (workflow ∷ []) (("g", group) ∷ []) "deploy")
check_and_report_unused_job-silent_example =
    check_and_report_unused_job-silent step_name same_order (job "deploy" ∷ []) (workflow ∷ [])
      (("g", group) ∷ []) (job "deploy")
