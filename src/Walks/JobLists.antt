-- ===== src/Walks/JobLists.antt =====
-- pkg/parser/job_invocation.go and pkg/parser/job_groups.go: the jobs of a workflow or a job group,
-- and the job groups of a document.
use circleci_yaml_language_s.Prelude.{
  ℕ, String, true, false, not, Option, none, some, List, [], ◌∷◌, ◌==◌, string_eq, if◌then◌else◌,
}
use circleci_yaml_language_s.Prelude.Dict.{Dict, lookup, insert}
use circleci_yaml_language_s.Cycles.{ℤ}
use circleci_yaml_language_s.Position.{Range}
use circleci_yaml_language_s.Text.{trim_prefix}
use circleci_yaml_language_s.Values.{ParameterValue, Step}
use circleci_yaml_language_s.Syntax.{JobGroup}
use circleci_yaml_language_s.JobGraph.{build_jobs_dag}
use circleci_yaml_language_s.Walk.{Walk, pure, ◌>>=◌, with_value, fold}
use circleci_yaml_language_s.Nodes.{
  Source, child_at, get_node_text, get_child_of_type, get_child_mapping, get_child_sequence,
  get_key_value_nodes, node_to_range, iterate_on_block_sequence, no_range,
}
use circleci_yaml_language_s.Mappings.{collect}
use circleci_yaml_language_s.Walks.{
  Recursion, key_node, value_node, key_name, last_assigned, get_attribute_name,
}
use circleci_yaml_language_s.Walks.StepList.{after_hyphen}
use circleci_yaml_language_s.Walks.Invocations.{parse_context}
use circleci_yaml_language_s.Walks.JobItems.{
  Invocation, Given, bare_invocation, named_invocation, set_given,
}

module _ (doc : Source) (atoi : String → Option ℤ) (parameter_name_in : String → String)
    (recur : Recursion) where
  -- What the callback assigns at a key, where the pair has a key and a value.
  abbrev at_given : {A : Type 0} → String → (ℕ → ℕ → A) → ℕ → Option A
  at_given key assigned child = elim (value_node doc child) [
    | none ↦ none
    | some v ↦ if key_name doc child == key then some (assigned child v) else none
  ]

  abbrev given_text : String → List ℕ → String
  given_text key = last_assigned doc (at_given key (λ c v. get_node_text doc.tree (some v))) ""

  -- The range of the value, or of the whole pair.
  abbrev given_value_range : String → Range → List ℕ → Range
  given_value_range key = last_assigned doc (at_given key (λ c v. node_to_range doc (some v)))

  abbrev given_range : String → List ℕ → Range
  given_range key = last_assigned doc (at_given key (λ c v. node_to_range doc (some c))) no_range

  abbrev invocation_of : Range → String → Range → List ℕ → Given → Invocation
  invocation_of rng name name_range children g = record {
    job_invocation_range = rng;
    job_name = name;
    job_name_range = name_range;
    step_name = g.step_name;
    step_name_range = given_value_range "name" name_range children;
    requires = g.requires;
    context = last_assigned doc (at_given "context" (λ c v. parse_context doc v)) [] children;
    type = given_text "type" children;
    type_range = given_value_range "type" no_range children;
    parameters = g.parameters;
    override_with = given_text "override-with" children;
    override_with_range = given_value_range "override-with" no_range children;
    pre_steps = g.pre_steps;
    pre_steps_range = given_range "pre-steps" children;
    post_steps = g.post_steps;
    post_steps_range = given_range "post-steps" children;
    has_matrix = last_assigned doc (at_given "matrix" (λ c v. true)) false children;
    matrix_range = given_range "matrix" children;
    matrix_params = g.matrix_params;
    serial_group = given_text "serial-group" children;
    serial_group_range = given_value_range "serial-group" no_range children;
  }

  -- A job with a mapping behind its name.
  unfoldable pub mapped_invocation : Range → Option ℕ → Walk Invocation
  unfolding get_key_value_nodes node_to_range parse_context set_given
  mapped_invocation rng element =
      let mapping = get_child_of_type doc.tree element "block_mapping" in
      let (key, value) =
        get_key_value_nodes doc (get_child_of_type doc.tree mapping "block_mapping_pair") in
      elim key [
        | none ↦ pure (bare_invocation rng no_range)
        | some k ↦ elim value [
          | none ↦ pure (bare_invocation rng no_range)
          | some v ↦ do
            let name = get_node_text doc.tree (some k)
            children ← recur.entries (get_child_of_type doc.tree (some v) "block_mapping")
            g ←
                fold (set_given doc atoi parameter_name_in recur)
                  (record {
                    step_name = name;
                    parameters = [];
                    requires = [];
                    matrix_params = [];
                    pre_steps = [];
                    post_steps = [];
                  })
                  children
            pure (invocation_of rng name (node_to_range doc (some k)) children g)
        ]
      ]

  abbrev element_invocation : Range → Option ℕ → Walk Invocation
  element_invocation rng none = mapped_invocation rng none
  element_invocation rng (some element) =
      if doc.tree.type element == "flow_node"
      then pure (
          named_invocation rng
            (get_node_text doc.tree (get_child_of_type doc.tree (some element) "plain_scalar"))
            (node_to_range doc (some element)))
      else mapped_invocation rng (some element)

  -- The element of an item, or the value of the anchor that it names.
  abbrev behind_alias : Range → Option ℕ → Walk Invocation
  behind_alias rng element = elim (get_child_of_type doc.tree element "alias") [
    | none ↦ element_invocation rng element
    | some alias ↦
        elim (lookup (trim_prefix (get_node_text doc.tree (some alias)) "*") doc.yaml_anchors) [
          | none ↦ pure (bare_invocation rng no_range)
          | some anchor_value ↦ element_invocation rng anchor_value
        ]
  ]

  abbrev of_item : Range → ℕ → List ℕ → Walk Invocation
  of_item rng item (hyphen ∷ []) =
      pure (bare_invocation rng (after_hyphen (doc.tree.span item).start))
  of_item rng item children = behind_alias rng (child_at 1 children)

  unfoldable pub parse_single_job_invocation : ℕ → Walk Invocation
  unfolding mapped_invocation
  parse_single_job_invocation item =
      let rng = node_to_range doc (some item) in
      if not (doc.tree.type item == "block_sequence_item")
      then pure (bare_invocation rng no_range)
      else of_item rng item (doc.tree.children item)

  unfoldable pub parse_job_invocations : Option ℕ → Walk (List Invocation)
  unfolding parse_single_job_invocation get_child_sequence iterate_on_block_sequence
  parse_job_invocations node =
      collect (λ item. with_value (λ inv. inv ∷ []) (parse_single_job_invocation item))
        (iterate_on_block_sequence doc.tree (get_child_sequence doc.tree node))

  -- The jobs of a group: the last pair with the key `jobs` gives them.
  abbrev set_jobs : List Invocation → ℕ → Walk (List Invocation)
  set_jobs jobs child = elim (at_given "jobs" (λ c v. v) child) [
    | none ↦ pure jobs
    | some v ↦ parse_job_invocations (some v)
  ]

  abbrev job_group_of : String → Range → List Invocation → JobGroup Step ParameterValue
  job_group_of name name_range jobs = record {
    name = name;
    name_range = name_range;
    job_invocations = jobs;
    jobs_dag = build_jobs_dag jobs;
  }

  unfoldable pub parse_single_job_group : ℕ → Walk (JobGroup Step ParameterValue)
  unfolding parse_job_invocations build_jobs_dag get_child_mapping
  parse_single_job_group node = elim (key_node doc node) [
    | none ↦ pure (job_group_of "" no_range [])
    | some key ↦ elim (value_node doc node) [
      | none ↦ pure (job_group_of "" no_range [])
      | some v ↦
          let name = get_attribute_name doc (get_node_text doc.tree (some key)) in
          let name_range = node_to_range doc (some key) in
          elim (get_child_mapping doc.tree (some v)) [
            | none ↦ pure (job_group_of name name_range [])
            | some mapping ↦
                with_value (job_group_of name name_range)
                  (recur.entries (some mapping) >>= fold set_jobs [])
          ]
    ]
  ]

  -- A later group replaces one of the same name.
  unfoldable pub parse_job_groups :
      Dict String (JobGroup Step ParameterValue)
      → Option ℕ
      → Walk (Dict String (JobGroup Step ParameterValue))
  unfolding parse_single_job_group
  parse_job_groups job_groups node = elim (get_child_mapping doc.tree node) [
    | none ↦ pure job_groups
    | some mapping ↦ do
      children ← recur.entries (some mapping)
      fold (λ groups child. with_value (λ g. insert g.name g groups) (parse_single_job_group child))
          job_groups children
  ]
