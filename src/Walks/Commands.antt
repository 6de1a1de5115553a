-- ===== src/Walks/Commands.antt =====
-- pkg/parser/commands.go, pkg/parser/environment.go and pkg/parser/retention.go: the commands of a
-- document, the environment of an executor and the retention of a job.
use circleci_yaml_language_s.Prelude.{
  ℕ, String, Option, none, some, List, [], ◌∷◌, ◌==◌, string_eq, if◌then◌else◌, map,
}
use circleci_yaml_language_s.Prelude.Dict.{Dict, lookup, insert}
use circleci_yaml_language_s.Cycles.{ℤ}
use circleci_yaml_language_s.Position.{Range}
use circleci_yaml_language_s.Diagnostics.{create_warning_diagnostic_from_range}
use circleci_yaml_language_s.Values.{Parameter, Command, Step}
use circleci_yaml_language_s.Walk.{Walk, done, pure, ◌>>=◌, with_value, fold}
use circleci_yaml_language_s.Nodes.{
  Source, child_at, get_node_text, get_child_mapping, is_pair, node_to_range, no_range,
}
use circleci_yaml_language_s.Walks.{
  Recursion, switch, key_node, value_node, key_name, last_assigned, get_attribute_name,
}
use circleci_yaml_language_s.Walks.StepList.{parse_steps}
use circleci_yaml_language_s.Walks.Parameters.{parse_parameters}

-- ast.Environment
pub record Environment : Type 0 where
  pub range : Range
  pub keys : List String

-- ast.RetentionSettings
pub record RetentionSettings : Type 0 where
  pub caches : String × Range
  pub range : Range

-- A command of which nothing is known.
abbrev pub no_command : Command
no_command = record {
  range = no_range;
  name = "";
  name_range = no_range;
  description = "";
  description_range = no_range;
  steps = [];
  steps_range = no_range;
  parameters = [];
  parameters_range = no_range;
}

module _ (doc : Source) (atoi : String → Option ℤ) (parameter_name_in : String → String)
    (recur : Recursion) where
  -- What a callback that returns early at a nil value assigns at one key.
  abbrev at_value : {A : Type 0} → String → (ℕ → ℕ → A) → ℕ → Option A
  at_value key assigned child = elim (value_node doc child) [
    | none ↦ none
    | some v ↦ if key_name doc child == key then some (assigned child v) else none
  ]

  abbrev value_range_at : String → List ℕ → Range
  value_range_at key = last_assigned doc (at_value key (λ c v. node_to_range doc (some v))) no_range

  -- The steps and the parameters, whose walks report.
  abbrev pub set_body :
      List Step × Dict String Parameter → ℕ → Walk (List Step × Dict String Parameter)
  set_body (steps, parameters) child = elim (value_node doc child) [
    | none ↦ pure (steps, parameters)
    | some v ↦
        switch (key_name doc child)
          ((
            "steps",
            with_value (λ ss. (ss, parameters)) (parse_steps doc parameter_name_in recur (some v)),
          )
            ∷ (
              "parameters",
              with_value (λ ps. (steps, ps)) (parse_parameters doc atoi recur (some v)),
            )
            ∷ [])
          (pure (steps, parameters))
  ]

  unfoldable pub parse_single_command : ℕ → Walk Command
  unfolding switch parse_steps parse_parameters node_to_range
  parse_single_command command_node = elim (key_node doc command_node) [
    | none ↦ pure no_command
    | some name_node ↦ elim (get_child_mapping doc.tree (value_node doc command_node)) [
      | none ↦ pure no_command
      | some mapping ↦ do
        children ← recur.entries (some mapping)
        (steps, parameters) ← fold set_body ([], []) children
        pure (record {
          range = node_to_range doc (some command_node);
          name = get_attribute_name doc (key_name doc command_node);
          name_range = node_to_range doc (some name_node);
          description =
              last_assigned doc (at_value "description" (λ c v. get_node_text doc.tree (some v))) ""
                children;
          description_range =
              last_assigned doc (at_value "description" (λ c v. node_to_range doc (some c)))
                no_range children;
          steps = steps;
          steps_range = value_range_at "steps" children;
          parameters = parameters;
          parameters_range = value_range_at "parameters" children;
        })
    ]
  ]

  -- A command is kept if it has a name that no command before it has.
  abbrev pub add_command : Dict String Command → Command → Walk (Dict String Command)
  add_command commands command = elim (lookup command.name commands) [
    | some defined ↦ done commands (
        create_warning_diagnostic_from_range command.name_range "Command already defined"
        ∷ create_warning_diagnostic_from_range defined.name_range "Command already defined"
        ∷ [])
    | none ↦ pure (if command.name == "" then commands else insert command.name command commands)
  ]

  unfoldable pub parse_commands : Dict String Command → Option ℕ → Walk (Dict String Command)
  unfolding parse_single_command
  parse_commands commands commands_node = elim (get_child_mapping doc.tree commands_node) [
    | none ↦ pure commands
    | some mapping ↦ do
      children ← recur.entries (some mapping)
      fold (λ cs child. parse_single_command child >>= add_command cs) commands children
  ]

  abbrev no_environment : Environment
  no_environment = record { range = no_range; keys = [] }

  unfoldable pub parse_envs : Option ℕ → Walk Environment
  unfolding node_to_range
  parse_envs none = pure no_environment
  parse_envs (some node) =
      if doc.tree.type node == "block_node"
      then elim (child_at 0 (doc.tree.children node)) [
        | none ↦ pure no_environment
        | some block_mapping ↦
            if doc.tree.type block_mapping == "block_mapping"
            then with_value
                (λ children. record {
                  range = node_to_range doc (some node);
                  keys = map (key_name doc) children;
                })
                (recur.entries (some block_mapping))
            else pure no_environment
      ]
      else pure no_environment

  abbrev caches_of : List ℕ → String × Range
  caches_of =
      last_assigned doc
        (λ c.
          if is_pair doc.tree c
          then at_value "caches"
              (λ c v. (get_node_text doc.tree (some v), node_to_range doc (some c))) c
          else none)
        ("", no_range)

  unfoldable pub parse_retention : Option ℕ → Walk RetentionSettings
  unfolding get_child_mapping
  parse_retention retention_node =
      let settings : String × Range → RetentionSettings =
        λ caches. record { caches = caches; range = node_to_range doc retention_node } in
      elim (get_child_mapping doc.tree retention_node) [
        | none ↦ pure (settings ("", no_range))
        | some mapping ↦
            with_value (λ children. settings (caches_of children)) (recur.entries (some mapping))
      ]
