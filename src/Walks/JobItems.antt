-- ===== src/Walks/JobItems.antt =====
-- pkg/parser/job_invocation.go and pkg/parser/job_groups.go: one job of a workflow or a job group,
-- and the job groups.
use circleci_yaml_language_s.Prelude.{
  ℕ, String, false, Option, none, some, List, [], ◌∷◌, ◌++◌, ◌==◌, string_eq, if◌then◌else◌,
}
use circleci_yaml_language_s.Prelude.Dict.{Dict, lookup, insert}
use circleci_yaml_language_s.Cycles.{ℤ}
use circleci_yaml_language_s.Position.{Range}
use circleci_yaml_language_s.Values.{ParameterValue, Step}
use circleci_yaml_language_s.Syntax.{Require, JobInvocation}
use circleci_yaml_language_s.Walk.{Walk, pure, ◌>>=◌, with_value, fold}
use circleci_yaml_language_s.Nodes.{
  Source, get_node_text, get_child_of_type, get_first_child, no_range,
}
use circleci_yaml_language_s.Walks.{
  Recursion, switch, value_node, key_name, at_pair, text_at, add_value,
}
use circleci_yaml_language_s.Walks.StepList.{parse_steps}
use circleci_yaml_language_s.Walks.Invocations.{parse_single_job_requires}

abbrev pub Invocation : Type 0
Invocation = JobInvocation Step ParameterValue

abbrev pub Matrix : Type 0
Matrix = Dict String (List ParameterValue)

-- What the walks inside of an invocation assign, in the order of its pairs.
pub record Given : Type 0 where
  pub step_name : String
  pub parameters : Dict String ParameterValue
  pub requires : List Require
  pub matrix_params : Matrix
  pub pre_steps : List Step
  pub post_steps : List Step

-- The invocation with its range only.
abbrev pub bare_invocation : Range → Range → Invocation
bare_invocation rng name_range = record {
  job_invocation_range = rng;
  job_name = "";
  job_name_range = name_range;
  step_name = "";
  step_name_range = no_range;
  requires = [];
  context = [];
  type = "";
  type_range = no_range;
  parameters = [];
  override_with = "";
  override_with_range = no_range;
  pre_steps = [];
  pre_steps_range = no_range;
  post_steps = [];
  post_steps_range = no_range;
  has_matrix = false;
  matrix_range = no_range;
  matrix_params = [];
  serial_group = "";
  serial_group_range = no_range;
}

-- A job that is given by its name alone.
abbrev pub named_invocation : Range → String → Range → Invocation
named_invocation rng name name_range = record {
  job_invocation_range = rng;
  job_name = name;
  job_name_range = name_range;
  step_name = name;
  step_name_range = name_range;
  requires = [];
  context = [];
  type = "";
  type_range = no_range;
  parameters = [];
  override_with = "";
  override_with_range = no_range;
  pre_steps = [];
  pre_steps_range = no_range;
  post_steps = [];
  post_steps_range = no_range;
  has_matrix = false;
  matrix_range = no_range;
  matrix_params = [];
  serial_group = "";
  serial_group_range = no_range;
}

abbrev or_empty_list : Option (List ParameterValue) → List ParameterValue
or_empty_list none = []
or_empty_list (some vs) = vs

-- res[keyName] = append(res[keyName], paramValue)
abbrev pub append_value : String → Option ParameterValue → Matrix → Matrix
append_value key none matrix = matrix
append_value key (some v) matrix = insert key (or_empty_list (lookup key matrix) ++ v ∷ []) matrix

module _ (doc : Source) (atoi : String → Option ℤ) (parameter_name_in : String → String)
    (recur : Recursion) where
  abbrev pub add_matrix_value : Matrix → ℕ → Walk Matrix
  add_matrix_value matrix child = elim (doc.tree.field_of child "key") [
    | none ↦ pure matrix
    | some key ↦
        with_value (λ v. append_value (get_node_text doc.tree (some key)) v matrix)
          (recur.parameter_value_of child)
  ]

  unfoldable pub parse_matrix_param : ℕ → Walk Matrix
  unfolding get_node_text
  parse_matrix_param node =
      recur.entries (get_child_of_type doc.tree (some node) "block_mapping")
      >>= fold add_matrix_value []

  -- The callback of `parseMatrixAttributes`.
  abbrev pub set_matrix : Matrix × String → ℕ → Walk (Matrix × String)
  set_matrix (matrix, alias) child = elim (at_pair doc "parameters" (λ c v. v) child) [
    | some v ↦ with_value (λ m. (m, alias)) (parse_matrix_param v)
    | none ↦ pure (matrix, text_at doc "alias" alias (child ∷ []))
  ]

  unfoldable pub parse_matrix_attributes : ℕ → Walk (Matrix × String)
  unfolding parse_matrix_param
  parse_matrix_attributes node =
      recur.entries (get_child_of_type doc.tree (some node) "block_mapping")
      >>= fold set_matrix ([], "")

  abbrev with_step_name : String → Given → Given
  with_step_name step_name g = record {
    step_name = step_name;
    parameters = g.parameters;
    requires = g.requires;
    matrix_params = g.matrix_params;
    pre_steps = g.pre_steps;
    post_steps = g.post_steps;
  }

  abbrev with_matrix : Given → Matrix × String → Given
  with_matrix g (matrix, alias) = record {
    step_name = if alias == "" then g.step_name else alias;
    parameters = g.parameters;
    requires = g.requires;
    matrix_params = matrix;
    pre_steps = g.pre_steps;
    post_steps = g.post_steps;
  }

  abbrev with_lists : Given → List Require → List Step → List Step → Given
  with_lists g requires pre_steps post_steps = record {
    step_name = g.step_name;
    parameters = g.parameters;
    requires = requires;
    matrix_params = g.matrix_params;
    pre_steps = pre_steps;
    post_steps = post_steps;
  }

  abbrev with_parameters : Given → Dict String ParameterValue → Given
  with_parameters g parameters = record {
    step_name = g.step_name;
    parameters = parameters;
    requires = g.requires;
    matrix_params = g.matrix_params;
    pre_steps = g.pre_steps;
    post_steps = g.post_steps;
  }

  -- The switch of the callback at a key and a value; the keys whose texts are read apart, and the
  -- ones that are skipped, leave the rest as it is.
  abbrev pub given_cases : Given → ℕ → List (String × Walk Given)
  given_cases g v =
      let steps = parse_steps doc parameter_name_in recur (some v) in
      ("type", pure g)
      ∷ (
        "requires",
        with_value (λ rs. with_lists g rs g.pre_steps g.post_steps)
            (parse_single_job_requires doc v),
      )
      ∷ (
        "name",
        pure (with_step_name (get_node_text doc.tree (get_first_child doc.tree (some v))) g),
      )
      ∷ ("context", pure g)
      ∷ ("filters", pure g)
      ∷ ("branches", pure g)
      ∷ ("tags", pure g)
      ∷ ("matrix", with_value (with_matrix g) (parse_matrix_attributes v))
      ∷ ("serial-group", pure g)
      ∷ ("override-with", pure g)
      ∷ ("pre-steps", with_value (λ ss. with_lists g g.requires ss g.post_steps) steps)
      ∷ ("post-steps", with_value (λ ss. with_lists g g.requires g.pre_steps ss) steps)
      ∷ []

  unfoldable pub set_given : Given → ℕ → Walk Given
  unfolding switch parse_steps parse_single_job_requires parse_matrix_attributes
  set_given g child = elim (value_node doc child) [
    | none ↦ pure g
    | some v ↦
        if key_name doc child == ""
        then pure g
        else switch (key_name doc child) (given_cases g v) (
            with_value (with_parameters g)
              (add_value doc recur (key_name doc child) g.parameters child))
  ]
