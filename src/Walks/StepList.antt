-- ===== src/Walks/StepList.antt =====
-- pkg/parser/steps.go: the steps of a job or a command. `parameter_name_in` is the second result of
-- `ExtractParameterName` (pkg/utils/parameters.go) on a text.
use circleci_yaml_language_s.Prelude.{
  ℕ, ◌%◌, ◌+◌, String, Bool, true, false, not, ◌&&◌, Option, none, some, List, [], ◌∷◌, ◌==◌,
  string_eq, if◌then◌else◌, u32,
}
use circleci_yaml_language_s.Prelude.Dict.{Dict, lookup}
use circleci_yaml_language_s.Position.{Position, Range}
use circleci_yaml_language_s.Values.{
  ParameterValue, Step, named_step, steps_step, run, checkout, setup_remote_docker, save_cache,
  restore_cache, store_artifacts, store_test_results, persist_to_workspace, attach_workspace,
  add_ssh_key, no_fields, no_steps,
}
use circleci_yaml_language_s.Walk.{Walk, panics, pure, ◌>>=◌, with_value, fold}
use circleci_yaml_language_s.Nodes.{
  Source, get_node_text, get_first_child, get_child_of_type, get_child_mapping, get_child_sequence,
  get_key_value_nodes, node_to_range, iterate_on_block_sequence, no_range,
}
use circleci_yaml_language_s.Mappings.{text_tail, collect}
use circleci_yaml_language_s.Walks.{
  Recursion, switch, fields_from, at_pair, key_name, key_range, add_value,
}
use circleci_yaml_language_s.Walks.BuiltIn.{
  empty_run, parse_run_step, parse_deploy_step, parse_checkout_step, parse_setup_remote_docker_step,
  parse_save_cache_step, parse_restore_cache_step, parse_store_artifacts_step,
  parse_store_test_results_step, parse_persist_to_workspace_step, parse_attach_workspace_step,
  parse_add_ssh_key_step,
}

-- One step.
abbrev pub single : {A : Type 0} → (A → Step) → Walk A → Walk (List Step)
single constructor walk = with_value (λ a. constructor a ∷ []) walk

-- The place behind the hyphen, where a step is missing.
abbrev pub after_hyphen : Position → Range
after_hyphen start = record {
  start = record { line = start.line; character = (start.character + 1) % u32 };
  end = record { line = start.line; character = (start.character + 2) % u32 };
}

module _ (doc : Source) (parameter_name_in : String → String) (recur : Recursion) where
  -- `parseSteps`
  abbrev pub step_item : ℕ → Walk (List Step)
  step_item child =
      if doc.tree.type child == "block_sequence_item"
      then recur.single_step (some child)
      else pure []

  unfoldable pub parse_steps : Option ℕ → Walk (List Step)
  unfolding get_child_sequence iterate_on_block_sequence
  parse_steps steps_node =
      collect step_item
        (iterate_on_block_sequence doc.tree (get_child_sequence doc.tree steps_node))

  -- What `parseAnchorStep` does with an anchor's value: of a sequence, only the first step.
  unfoldable pub parse_anchor_step : ℕ → Walk (List Step)
  unfolding get_child_sequence
  parse_anchor_step block_node = elim (get_child_sequence doc.tree (some block_node)) [
    | some block_sequence ↦
        recur.single_step (get_child_of_type doc.tree (some block_sequence) "block_sequence_item")
    | none ↦ elim (get_child_of_type doc.tree (some block_node) "block_mapping") [
      | some block_mapping ↦ recur.step_of block_mapping
      | none ↦ pure []
    ]
  ]

  abbrev pub steps_at : ℕ → Walk (List Step)
  steps_at child = elim (at_pair doc "steps" (λ c v. v) child) [
    | none ↦ pure []
    | some v ↦ parse_steps (some v)
  ]

  unfoldable pub parse_when_unless_step : ℕ → Walk (List Step)
  unfolding parse_steps get_child_mapping
  parse_when_unless_step block_node =
      recur.entries (get_child_mapping doc.tree (some block_node)) >>= collect steps_at

  -- A pair with an empty key is left out.
  abbrev pub add_named_value : Dict String ParameterValue → ℕ → Walk (Dict String ParameterValue)
  add_named_value parameters child =
      if key_name doc child == ""
      then pure parameters
      else add_value doc recur (key_name doc child) parameters child

  -- namedStepWithParams.Type() == "flow_node" && !hasFlowMapping
  abbrev pub is_flow : ℕ → Bool
  is_flow node =
      let has_flow_mapping : Bool = elim (get_child_of_type doc.tree (some node) "flow_mapping") [
        | none ↦ false
        | some _ ↦ true
      ] in
      doc.tree.type node == "flow_node" && not has_flow_mapping

  unfoldable pub parse_named_step_with_parameters : String → ℕ → Walk Step
  unfolding get_key_value_nodes node_to_range key_range get_child_mapping
  parse_named_step_with_parameters step_name node =
      if is_flow node
      then pure (
          named_step step_name no_fields
            (node_to_range doc (get_key_value_nodes doc (doc.tree.parent node)).0))
      else do
        rng ← key_range doc node
        children ← recur.entries (get_child_mapping doc.tree (some node))
        parameters ← fold add_named_value [] children
        pure (named_step step_name (fields_from parameters) rng)

  -- Steps that a parameter gives.
  abbrev pub parameter_steps : ℕ → Step
  parameter_steps node =
      steps_step (parameter_name_in (get_node_text doc.tree (some node))) no_fields
        (node_to_range doc (some node)) no_steps

  -- The cases of the switch of `parseStep` on the key of the step, and what follows them.
  abbrev pub step_cases : ℕ → List (String × Walk (List Step))
  step_cases node =
      ("deploy", single run (parse_deploy_step doc recur node))
      ∷ ("run", single run (parse_run_step doc recur node))
      ∷ ("checkout", single checkout (parse_checkout_step doc recur node))
      ∷ (
        "setup_remote_docker",
        single setup_remote_docker (parse_setup_remote_docker_step doc recur node),
      )
      ∷ ("save_cache", single save_cache (parse_save_cache_step doc recur node))
      ∷ ("restore_cache", single restore_cache (parse_restore_cache_step doc recur node))
      ∷ ("store_artifacts", single store_artifacts (parse_store_artifacts_step doc recur node))
      ∷ (
        "store_test_results",
        single store_test_results (parse_store_test_results_step doc recur node),
      )
      ∷ (
        "persist_to_workspace",
        single persist_to_workspace (parse_persist_to_workspace_step doc recur node),
      )
      ∷ ("attach_workspace", single attach_workspace (parse_attach_workspace_step doc recur node))
      ∷ ("add_ssh_keys", single add_ssh_key (parse_add_ssh_key_step doc recur node))
      ∷ ("when", parse_when_unless_step node)
      ∷ ("unless", parse_when_unless_step node)
      ∷ ("steps", pure (parameter_steps node ∷ []))
      ∷ ("<<", parse_anchor_step node)
      ∷ []

  unfoldable pub parse_step_named : String → ℕ → Walk (List Step)
  unfolding switch parse_run_step parse_deploy_step parse_checkout_step
      parse_setup_remote_docker_step parse_save_cache_step parse_restore_cache_step
      parse_store_artifacts_step parse_store_test_results_step parse_persist_to_workspace_step
      parse_attach_workspace_step parse_add_ssh_key_step parse_when_unless_step parse_anchor_step
      parse_named_step_with_parameters
  parse_step_named key node =
      switch key (step_cases node) (single (λ s. s) (parse_named_step_with_parameters key node))

  unfoldable pub parse_step : ℕ → Walk (List Step)
  unfolding parse_step_named get_key_value_nodes
  parse_step block_mapping =
      let pair = get_child_of_type doc.tree (some block_mapping) "block_mapping_pair" in
      let (key_node, value_node) = get_key_value_nodes doc pair in
      elim value_node [
        | none ↦ pure []
        | some v ↦ parse_step_named (get_node_text doc.tree key_node) v
      ]

  -- A step that is an alias, at the value of its anchor.
  abbrev pub aliased_step : Option (Option ℕ) → Walk (List Step)
  aliased_step none = pure []
  aliased_step (some none) = pure []
  aliased_step (some (some node)) = elim (get_child_of_type doc.tree (some node) "block_mapping") [
    | some block_mapping ↦ recur.step_of block_mapping
    | none ↦ elim (get_child_of_type doc.tree (some node) "plain_scalar") [
      | none ↦ pure []
      | some scalar ↦ pure (
          named_step (get_node_text doc.tree (some scalar)) no_fields
            (node_to_range doc (some scalar))
          ∷ [])
    ]
  ]

  -- A step by the node behind its hyphen. The type of a nil first child is a panic.
  unfoldable pub parse_step_node : ℕ → Walk (List Step)
  unfolding get_first_child node_to_range
  parse_step_node child =
      if doc.tree.type child == "flow_node"
      then elim (get_first_child doc.tree (some child)) [
        | none ↦ panics
        | some first ↦
            if not (doc.tree.type first == "alias")
            then pure (
                named_step (get_node_text doc.tree (some child)) no_fields
                  (node_to_range doc (some child))
                ∷ [])
            else text_tail (get_node_text doc.tree (some child)) >>= λ name.
                aliased_step (lookup name doc.yaml_anchors)
      ]
      else if doc.tree.type child == "block_node"
      then elim (get_child_of_type doc.tree (some child) "block_mapping") [
        | none ↦ pure (run (empty_run (node_to_range doc (some child))) ∷ [])
        | some block_mapping ↦ recur.step_of block_mapping
      ]
      else pure (named_step "" no_fields no_range ∷ [])

  abbrev pub step_of_children : ℕ → List ℕ → Walk (List Step)
  step_of_children step_node [] = pure []
  step_of_children step_node (hyphen ∷ []) =
      pure (named_step "" no_fields (after_hyphen (doc.tree.span step_node).start) ∷ [])
  step_of_children step_node (hyphen ∷ (child ∷ _)) = parse_step_node child

  unfoldable pub parse_single_step : Option ℕ → Walk (List Step)
  unfolding parse_step_node
  parse_single_step none = pure []
  parse_single_step (some step_node) =
      if not (doc.tree.type step_node == "block_sequence_item")
      then pure []
      else step_of_children step_node (doc.tree.children step_node)
