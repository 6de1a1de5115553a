-- ===== src/Tests/WalkTests.antt =====
-- Runs of the parser's walks over the tree of a small file: a command `build` with one parameter,
-- a run step and a step `greet` with one value.
use package.text.Mathlib.TextEquality.{eq_iff}
use circleci_yaml_language_s.Prelude.{
  contains, true, ℕ, ◌||◌, ◌≡◌, ◌≢◌, refl, subst, String, false, Option, none, some, List, [], ◌∷◌,
  ◌==◌, nat_eq, string_eq, string_dec, ℕ_discrete, if◌then◌else◌, arith,
}
use circleci_yaml_language_s.Prelude.Dict.{Dict, lookup, insert}
use circleci_yaml_language_s.Text.{cut_prefix}
use circleci_yaml_language_s.Cycles.{ℤ}
use circleci_yaml_language_s.Position.{add_offset_to_range}
use circleci_yaml_language_s.Values.{Command, Step, get_name}
use circleci_yaml_language_s.Walk.{Walk, done, panics, runs_on, pure, with_value, IsDone, Returns}
use circleci_yaml_language_s.Nodes.{
  Source, no_position, no_range, get_node_text, get_first_child, get_key_value_nodes, clean_text,
  trim_func, trim_left_func, trim_right_func, ends_with, get_child_mapping, get_child_sequence,
  iterate_on_block_sequence, node_to_range,
}
use circleci_yaml_language_s.Mappings.{
  is_mapping, merge_names, extract_merge_anchor_names, own_children, fresh, merge_value, merge_all,
  iterate_on_mapping, iterate_on_block_mapping,
}
use circleci_yaml_language_s.Anchors.{value_nodes, add_anchors, add_alias, parse_yaml_anchors}
use circleci_yaml_language_s.Anchors.Aliases.{lookup-parse_yaml_anchors}
use circleci_yaml_language_s.Walks.{Recursion, switch, key_range, value_node}
use circleci_yaml_language_s.Walks.Given.{
  parse_simple_parameter_value, parse_parameter_value, add_field, parse_array_parameter_value,
}
use circleci_yaml_language_s.Walks.BuiltIn.{parse_run_step, run_of_pairs}
use circleci_yaml_language_s.Walks.StepList.{
  parse_single_step, parse_step_node, parse_step, parse_step_named, parse_steps,
  parse_named_step_with_parameters,
}
use circleci_yaml_language_s.Walks.Fuel.{recursion}
use circleci_yaml_language_s.Walks.Parameters.{
  parse_parameters, parse_single_parameter, get_parameter_type, type_of_pairs,
  get_default_parameter_range,
}
use circleci_yaml_language_s.Walks.Commands.{parse_commands, parse_single_command}
use circleci_yaml_language_s.Walks.Kept.{Reads, named_after, lookup-parse_commands}
use circleci_yaml_language_s.Walks.Environments.{parse_run_step-no_environment}

-- A node: its type, its text, its children, and the key and the value of a pair.
record Node : Type 0 where
  type : String
  text : String
  children : List ℕ
  key : Option ℕ
  content : Option ℕ
  above : Option ℕ

abbrev leaf : String → String → Node
leaf type text = record {
  type = type;
  text = text;
  children = [];
  key = none;
  content = none;
  above = none;
}

abbrev over : String → List ℕ → Option ℕ → Node
over type children above = record {
  type = type;
  text = "";
  children = children;
  key = none;
  content = none;
  above = above;
}

abbrev scalar : String → String → ℕ → Node
scalar type text child = record {
  type = type;
  text = text;
  children = child ∷ [];
  key = none;
  content = none;
  above = none;
}

abbrev pair : ℕ → ℕ → Node
pair key content = record {
  type = "block_mapping_pair";
  text = "";
  children = [];
  key = some key;
  content = some content;
  above = none;
}

abbrev nodes : Dict ℕ Node
nodes =
    (0, over "block_node" (1 ∷ []) none)
    ∷ (1, over "block_mapping" (2 ∷ []) none)
    ∷ (2, pair 3 4)
    ∷ (3, leaf "flow_node" "build")
    ∷ (4, over "block_node" (5 ∷ []) none)
    ∷ (5, over "block_mapping" (10 ∷ 30 ∷ []) none)
    ∷ (10, pair 11 12)
    ∷ (11, leaf "flow_node" "parameters")
    ∷ (12, over "block_node" (13 ∷ []) none)
    ∷ (13, over "block_mapping" (14 ∷ []) none)
    ∷ (14, pair 15 16)
    ∷ (15, leaf "flow_node" "os")
    ∷ (16, over "block_node" (17 ∷ []) none)
    ∷ (17, over "block_mapping" (18 ∷ 21 ∷ []) none)
    ∷ (18, pair 19 20)
    ∷ (19, leaf "flow_node" "type")
    ∷ (20, leaf "flow_node" "string")
    ∷ (21, pair 22 23)
    ∷ (22, leaf "flow_node" "default")
    ∷ (23, scalar "flow_node" "linux" 24)
    ∷ (24, leaf "plain_scalar" "linux")
    ∷ (30, pair 31 32)
    ∷ (31, leaf "flow_node" "steps")
    ∷ (32, over "block_node" (33 ∷ []) none)
    ∷ (33, over "block_sequence" (34 ∷ 50 ∷ []) none)
    ∷ (34, over "block_sequence_item" (35 ∷ 36 ∷ []) none)
    ∷ (36, over "block_node" (37 ∷ []) none)
    ∷ (37, over "block_mapping" (38 ∷ []) none)
    ∷ (38, pair 39 40)
    ∷ (39, leaf "flow_node" "run")
    ∷ (40, over "block_node" (41 ∷ []) (some 38))
    ∷ (41, over "block_mapping" (42 ∷ []) none)
    ∷ (42, pair 43 44)
    ∷ (43, leaf "flow_node" "command")
    ∷ (44, leaf "flow_node" "make")
    ∷ (50, over "block_sequence_item" (51 ∷ 52 ∷ []) none)
    ∷ (52, over "block_node" (53 ∷ []) none)
    ∷ (53, over "block_mapping" (54 ∷ []) none)
    ∷ (54, pair 55 56)
    ∷ (55, leaf "flow_node" "greet")
    ∷ (56, over "block_node" (57 ∷ []) (some 54))
    ∷ (57, over "block_mapping" (58 ∷ []) none)
    ∷ (58, pair 59 60)
    ∷ (59, leaf "flow_node" "to")
    ∷ (60, scalar "flow_node" "me" 61)
    ∷ (61, scalar "plain_scalar" "me" 62)
    ∷ (62, leaf "string_scalar" "me")
    ∷ []

abbrev found : {A : Type 0} → (Node → A) → A → ℕ → A
found read otherwise n = elim (lookup n nodes) [ none ↦ otherwise | some node ↦ read node ]

abbrev field : ℕ → String → Option ℕ
field n name =
    if name == "key"
    then found (λ node. node.key) none n
    else if name == "value"
    then found (λ node. node.content) none n
    else none

abbrev file : Source
file = record {
  tree = record {
    type = found (λ node. node.type) "-";
    children = found (λ node. node.children) [];
    parent = found (λ node. node.above) none;
    next_sibling = λ n. none;
    field_of = field;
    text_of = found (λ node. node.text) "";
    span = λ n. no_range;
  };
  offset = no_position;
  yaml_anchors = [];
  range_order = λ names. names;
  local_orb_name = "";
}

abbrev no_number : String → Option ℤ
no_number s = none

abbrev as_is : String → String
as_is s = s

runs : Unit {0}
unfolding iterate_on_block_mapping iterate_on_mapping merge_all merge_value fresh merge_names
    extract_merge_anchor_names own_children get_node_text clean_text trim_func trim_left_func
    trim_right_func ends_with get_first_child get_key_value_nodes lookup insert string_dec
    ℕ_discrete add_offset_to_range cut_prefix get_child_mapping get_child_sequence
    iterate_on_block_sequence node_to_range switch key_range parse_simple_parameter_value
    parse_parameter_value add_field parse_array_parameter_value parse_run_step run_of_pairs
    parse_single_step parse_step_node parse_step parse_step_named parse_steps
    parse_named_step_with_parameters recursion parse_parameters parse_single_parameter
    get_parameter_type type_of_pairs get_default_parameter_range parse_commands parse_single_command
    get_name parse_yaml_anchors add_anchors add_alias
runs = tt

abbrev recur : Recursion
recur = recursion file no_number as_is 20

abbrev step_names : List Step → List String
step_names [] = []
step_names (s ∷ ss) = get_name s ∷ step_names ss

steps_run :
    with_value step_names (parse_steps file as_is recur (some 32)) ≡ pure ("run" ∷ "greet" ∷ [])
unfolding runs
steps_run = refl

abbrev command_names : Dict String Command → List String
command_names [] = []
command_names ((name, command) ∷ commands) = name ∷ command_names commands

commands_run :
    with_value command_names (parse_commands file no_number as_is recur [] (some 0))
    ≡ pure ("build" ∷ [])
unfolding runs
commands_run = refl

abbrev commands_of : Walk Command → List Command
commands_of (done command ds) = command ∷ []
commands_of panics = []
commands_of runs_on = []

-- The command `build`.
abbrev build : List Command
build = commands_of (parse_single_command file no_number as_is recur 2)

commands_found : get_child_mapping file.tree (some 0) ≡ some 1
unfolding runs
commands_found = refl

pairs_found : recur.entries (some 1) ≡ done (2 ∷ []) []
unfolding runs
pairs_found = refl

build_read : Reads file no_number as_is recur (2 ∷ []) build
unfolding runs
build_read = ((_, refl), tt)

lookup-parse_commands_example :
    Returns
      (λ d. (k : String) → lookup k d ≡ named_after [] build k)
      (parse_commands file no_number as_is recur [] (some 0))
lookup-parse_commands_example =
    lookup-parse_commands file no_number as_is recur [] 0 1 (2 ∷ []) build [] commands_found
      pairs_found build_read

-- A run step with an environment, and its two pairs.
abbrev environment_children : ℕ → List ℕ
environment_children n =
    if n == 0 then 1 ∷ [] else if n == 1 then 2 ∷ [] else if n == 4 then 5 ∷ [] else []

abbrev environment_types : ℕ → String
environment_types n =
    if n == 2 || n == 6
    then "block_mapping_pair"
    else if n == 1 || n == 5
    then "block_mapping"
    else "block_node"

abbrev environment_field : ℕ → String → Option ℕ
environment_field n name =
    if n == 2
    then if name == "key" then some 3 else some 4
    else if n == 6
    then if name == "key" then some 7 else some 0
    else none

abbrev environment : Source
environment = record {
  tree = record {
    type = environment_types;
    children = environment_children;
    parent = λ n. if n == 0 then some 6 else none;
    next_sibling = λ n. none;
    field_of = environment_field;
    text_of = λ n. if n == 3 then "environment" else if n == 7 then "run" else "";
    span = λ n. no_range;
  };
  offset = no_position;
  yaml_anchors = [];
  range_order = λ names. names;
  local_orb_name = "";
}

first_value : value_node environment 2 ≡ some 4
unfolding runs
first_value = refl

outer_value : value_node environment 6 ≡ some 0
unfolding runs
outer_value = refl

no_mapping_4 : is_mapping environment 4 ≡ false
unfolding runs
no_mapping_4 = refl

no_mapping_0 : is_mapping environment 0 ≡ false
unfolding runs
no_mapping_0 = refl

no_pair : (child : ℕ) → child ≢ 2 → child ≢ 6 → value_node environment child ≡ none
unfolding get_key_value_nodes
no_pair child a b = ground (
  arith,
  a,
  b,
  eq_iff "block_mapping" "block_mapping_pair",
  eq_iff "block_mapping" "flow_pair",
  eq_iff "block_node" "block_mapping_pair",
  eq_iff "block_node" "flow_pair",
)

wrapped : (child v : ℕ) → value_node environment child ≡ some v → is_mapping environment v ≡ false
wrapped child v h = elim (ℕ_discrete child 2) [
  | yes a ↦
      let here = subst (λ c. value_node environment c ≡ some v) a h in
      let is : 4 ≡ v = ground (arith, here, first_value) in
      subst (λ w. is_mapping environment w ≡ false) is no_mapping_4
  | no a ↦ elim (ℕ_discrete child 6) [
    | yes b ↦
        let here = subst (λ c. value_node environment c ≡ some v) b h in
        let is : 0 ≡ v = ground (arith, here, outer_value) in
        subst (λ w. is_mapping environment w ≡ false) is no_mapping_0
    | no b ↦ absurd (ground (arith, no_pair child a b, h))
  ]
]

pairs_read :
    IsDone (iterate_on_block_mapping environment 9 (get_child_mapping environment.tree (some 0)))
unfolding runs
pairs_read = tt

parse_run_step-no_environment_example :
    Returns
      (λ r. r.environment ≡ [])
      (parse_run_step environment (recursion environment no_number as_is 9) 0)
unfolding ℕ_discrete
parse_run_step-no_environment_example =
    parse_run_step-no_environment environment no_number as_is 8 0 6 wrapped refl pairs_read

-- `first: &x …`, `second: &x …` and one alias `*x`.
abbrev anchors : Source
anchors = record {
  tree = record {
    type = λ n. if n == 2 || n == 5 then "anchor_name" else "anchor";
    children = λ n. if n == 1 then 2 ∷ [] else if n == 4 then 5 ∷ [] else [];
    parent = λ n. if n == 1 then some 0 else if n == 4 then some 3 else none;
    next_sibling = λ n. none;
    field_of = λ n name. none;
    text_of = λ n. if n == 6 then "*x" else "x";
    span = λ n. no_range;
  };
  offset = no_position;
  yaml_anchors = [];
  range_order = λ names. names;
  local_orb_name = "";
}

alias_text : get_node_text anchors.tree (some 6) ≡ "*x"
unfolding runs
alias_text = refl

alias_named : (n : ℕ) → contains (6 ∷ []) n ≡ true → get_node_text anchors.tree (some n) ≢ ""
alias_named n h p =
    let is : n ≡ 6 = ground (arith, h) in
    let same : get_node_text anchors.tree (some 6) ≡ "" =
      subst (λ m. get_node_text anchors.tree (some m) ≡ "") is p in
    absurd (ground (arith, alias_text, same, eq_iff "*x" ""))

lookup-parse_yaml_anchors_example :
    Returns
      (λ m. lookup "x" (value_nodes m) ≡ some (some 3))
      (parse_yaml_anchors anchors (1 ∷ 4 ∷ []) (6 ∷ []))
unfolding runs
lookup-parse_yaml_anchors_example =
    lookup-parse_yaml_anchors anchors "x" (1 ∷ 4 ∷ []) (6 ∷ []) alias_named
