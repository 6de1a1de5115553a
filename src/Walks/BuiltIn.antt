-- ===== src/Walks/BuiltIn.antt =====
-- pkg/parser/steps.go: the built-in steps. A variable that a callback assigns is what the last pair
-- of its key gives.
use circleci_yaml_language_s.Prelude.{
  ℕ, String, Bool, true, false, none, some, List, [], ◌==◌, string_eq, if◌then◌else◌,
}
use circleci_yaml_language_s.Prelude.Dict.{Dict}
use circleci_yaml_language_s.Position.{Range}
use circleci_yaml_language_s.Values.{
  Run, Checkout, SetupRemoteDocker, SaveCache, RestoreCache, StoreArtifacts, StoreTestResults,
  PersistToWorkspace, AttachWorkspace, AddSshKey,
}
use circleci_yaml_language_s.Walk.{Walk, pure, ◌>>=◌, with_value, fold}
use circleci_yaml_language_s.Nodes.{
  Source, get_node_text, get_raw_node_text, get_child_of_type, get_child_mapping,
  get_node_text_array, node_to_range, no_range,
}
use circleci_yaml_language_s.Mappings.{dictionary_of}
use circleci_yaml_language_s.Walks.{Recursion, at_pair, last_assigned, text_at, key_range}

-- ast.Run{Range: rng}
abbrev pub empty_run : Range → Run
empty_run rng = record {
  range = rng;
  command = "";
  command_range = no_range;
  raw_command = "";
  name = "";
  shell = "";
  background = false;
  working_directory = "";
  no_output_timeout = "";
  when = "";
  when_range = no_range;
  environment = [];
  is_deploy_step = false;
  max_auto_reruns = "";
  auto_rerun_delay = "";
}

module _ (doc : Source) where
  -- ast.Run for a command that stands right behind the key.
  abbrev pub run_of : ℕ → Range → Run
  run_of node rng = record {
    range = rng;
    command = get_node_text doc.tree (some node);
    command_range = node_to_range doc (some node);
    raw_command = get_raw_node_text doc.tree (some node);
    name = "run";
    shell = "";
    background = false;
    working_directory = "";
    no_output_timeout = "";
    when = "";
    when_range = no_range;
    environment = [];
    is_deploy_step = false;
    max_auto_reruns = "";
    auto_rerun_delay = "";
  }

  abbrev deployed : Run → Run
  deployed r = record {
    range = r.range;
    command = r.command;
    command_range = r.command_range;
    raw_command = r.raw_command;
    name = r.name;
    shell = r.shell;
    background = r.background;
    working_directory = r.working_directory;
    no_output_timeout = r.no_output_timeout;
    when = r.when;
    when_range = r.when_range;
    environment = r.environment;
    is_deploy_step = true;
    max_auto_reruns = r.max_auto_reruns;
    auto_rerun_delay = r.auto_rerun_delay;
  }

  -- The variables that callbacks of this file assign.
  abbrev range_at : String → List ℕ → Range
  range_at key = last_assigned doc (at_pair doc key (λ c v. node_to_range doc (some v))) no_range

  abbrev array_at : String → List ℕ → List String
  array_at key = last_assigned doc (at_pair doc key (λ c v. get_node_text_array doc (some v))) []

  abbrev is_true_at : String → List ℕ → Bool
  is_true_at key =
      last_assigned doc (at_pair doc key (λ c v. get_node_text doc.tree (some v) == "true")) false

  module _ (recur : Recursion) where
    -- The case `environment` of the callback, whose parseDictionary may panic.
    abbrev pub set_environment : Dict String String → ℕ → Walk (Dict String String)
    set_environment environment child = elim (at_pair doc "environment" (λ c v. v) child) [
      | none ↦ pure environment
      | some v ↦ with_value (dictionary_of doc []) (recur.entries (some v))
    ]

    -- A run step that is a mapping, from the pairs of the mapping.
    unfoldable pub run_of_pairs : Range → List ℕ → Walk Run
    unfolding get_node_text node_to_range
    run_of_pairs rng children =
        with_value
          (λ environment. record {
            range = rng;
            command = text_at doc "command" "" children;
            command_range = range_at "command" children;
            raw_command =
                last_assigned doc
                  (at_pair doc "command" (λ c v. get_raw_node_text doc.tree (some v))) "" children;
            name = text_at doc "name" "run" children;
            shell = text_at doc "shell" "" children;
            background = is_true_at "background" children;
            working_directory = text_at doc "working_directory" "" children;
            no_output_timeout = text_at doc "no_output_timeout" "" children;
            when = text_at doc "when" "" children;
            when_range = range_at "when" children;
            environment = environment;
            is_deploy_step = false;
            max_auto_reruns = text_at doc "max_auto_reruns" "" children;
            auto_rerun_delay = text_at doc "auto_rerun_delay" "" children;
          })
          (fold set_environment [] children)

    unfoldable pub parse_run_step : ℕ → Walk Run
    unfolding run_of_pairs key_range get_child_mapping
    parse_run_step run_node =
        if doc.tree.type run_node == "flow_node"
        then with_value (run_of run_node) (key_range doc run_node)
        else elim (get_child_of_type doc.tree (some run_node) "block_scalar") [
          | some block_scalar_node ↦ with_value (run_of block_scalar_node) (key_range doc run_node)
          | none ↦ do
            rng ← key_range doc run_node
            children ← recur.entries (get_child_mapping doc.tree (some run_node))
            run_of_pairs rng children
        ]

    unfoldable pub parse_deploy_step : ℕ → Walk Run
    unfolding parse_run_step
    parse_deploy_step node = with_value deployed (parse_run_step node)

    -- The range of the key, and the pairs of the mapping of a built-in step.
    abbrev built_in : {A : Type 0} → ℕ → (Range → List ℕ → A) → Walk A
    built_in node assigned = do
      rng ← key_range doc node
      children ← recur.entries (get_child_mapping doc.tree (some node))
      pure (assigned rng children)

    abbrev checkout_of : Range → List ℕ → Checkout
    checkout_of rng children = record {
      range = rng;
      path = text_at doc "path" "." children;
      method = text_at doc "method" "" children;
      method_range =
          last_assigned doc (at_pair doc "method" (λ c v. node_to_range doc (some c))) no_range
            children;
      depth = text_at doc "depth" "" children;
    }

    unfoldable pub parse_checkout_step : ℕ → Walk Checkout
    unfolding key_range get_child_mapping
    parse_checkout_step node =
        if doc.tree.type node == "flow_node"
        then with_value (λ rng. checkout_of rng []) (key_range doc node)
        else built_in node checkout_of

    abbrev setup_remote_docker_of : Range → List ℕ → SetupRemoteDocker
    setup_remote_docker_of rng children = record {
      range = rng;
      docker_layer_caching = is_true_at "docker_layer_caching" children;
      version = text_at doc "version" "" children;
    }

    unfoldable pub parse_setup_remote_docker_step : ℕ → Walk SetupRemoteDocker
    unfolding key_range get_child_mapping
    parse_setup_remote_docker_step node =
        if doc.tree.type node == "flow_node"
        then with_value (λ rng. setup_remote_docker_of rng []) (key_range doc node)
        else built_in node setup_remote_docker_of

    unfoldable pub parse_save_cache_step : ℕ → Walk SaveCache
    unfolding key_range get_child_mapping
    parse_save_cache_step node = built_in node λ rng children. record {
      range = rng;
      paths = array_at "paths" children;
      key = text_at doc "key" "" children;
      cache_name = text_at doc "name" "" children;
    }

    unfoldable pub parse_restore_cache_step : ℕ → Walk RestoreCache
    unfolding key_range get_child_mapping
    parse_restore_cache_step node = built_in node λ rng children. record {
      range = rng;
      key = text_at doc "key" "" children;
      keys = array_at "keys" children;
      cache_name = text_at doc "name" "" children;
    }

    unfoldable pub parse_store_artifacts_step : ℕ → Walk StoreArtifacts
    unfolding key_range get_child_mapping
    parse_store_artifacts_step node = built_in node λ rng children. record {
      range = rng;
      path = text_at doc "path" "" children;
      destination = text_at doc "destination" "" children;
    }

    unfoldable pub parse_store_test_results_step : ℕ → Walk StoreTestResults
    unfolding key_range get_child_mapping
    parse_store_test_results_step node =
        built_in node λ rng children. record { range = rng; path = text_at doc "path" "" children }

    unfoldable pub parse_persist_to_workspace_step : ℕ → Walk PersistToWorkspace
    unfolding key_range get_child_mapping
    parse_persist_to_workspace_step node = built_in node λ rng children. record {
      range = rng;
      root = text_at doc "root" "" children;
      paths = array_at "paths" children;
    }

    unfoldable pub parse_attach_workspace_step : ℕ → Walk AttachWorkspace
    unfolding key_range get_child_mapping
    parse_attach_workspace_step node =
        built_in node λ rng children. record { range = rng; at = text_at doc "at" "" children }

    unfoldable pub parse_add_ssh_key_step : ℕ → Walk AddSshKey
    unfolding key_range get_child_mapping
    parse_add_ssh_key_step node =
        built_in node
          λ rng children. record { range = rng; fingerprints = array_at "fingerprints" children }
