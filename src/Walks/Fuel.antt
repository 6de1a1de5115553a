-- ===== src/Walks/Fuel.antt =====
-- pkg/parser: the walks over values and steps on fuel. Each level of recursion takes one unit, as
-- each level of Go's recursion takes a frame of the stack.
use circleci_yaml_language_s.Prelude.{ℕ, zero, suc, String, Option}
use circleci_yaml_language_s.Cycles.{ℤ}
use circleci_yaml_language_s.Walk.{runs_on}
use circleci_yaml_language_s.Nodes.{Source}
use circleci_yaml_language_s.Mappings.{iterate_on_block_mapping}
use circleci_yaml_language_s.Walks.{Recursion}
use circleci_yaml_language_s.Walks.Given.{parse_simple_parameter_value, parse_parameter_value}
use circleci_yaml_language_s.Walks.StepList.{parse_single_step, parse_step}

module _ (doc : Source) (atoi : String → Option ℤ) (parameter_name_in : String → String) where
  unfoldable pub recursion : ℕ → Recursion
  unfolding iterate_on_block_mapping parse_simple_parameter_value parse_parameter_value
      parse_single_step parse_step
  recursion zero = record {
    entries = λ node. runs_on;
    simple_value = λ param_name node rng. runs_on;
    parameter_value_of = λ child. runs_on;
    single_step = λ step_node. runs_on;
    step_of = λ block_mapping. runs_on;
  }
  recursion (suc fuel) =
      let recur = recursion fuel in
      record {
        entries = iterate_on_block_mapping doc (suc fuel);
        simple_value = parse_simple_parameter_value doc atoi recur;
        parameter_value_of = parse_parameter_value doc atoi recur;
        single_step = parse_single_step doc parameter_name_in recur;
        step_of = parse_step doc parameter_name_in recur;
      }
