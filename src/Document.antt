-- ===== src/Document.antt =====
-- The lookups of pkg/parser/yamlparser.go and pkg/parser/orbs.go: which names the document and its
-- orbs define. A map is in the order in which Go ranges over it.
use circleci_yaml_language_s.Prelude.{
  String, Bool, true, false, not, ◌&&◌, ◌||◌, Option, none, some, List, [], ◌∷◌, string_eq, ◌==◌,
  if◌then◌else◌, contains,
}
use circleci_yaml_language_s.Prelude.Dict.{Dict, lookup}
use circleci_yaml_language_s.Position.{Position, Range, pos_in_range}
use circleci_yaml_language_s.Text.{◌+++◌, codes, split, cut_prefix}
use circleci_yaml_language_s.Parameters.{check_if_param_is_partially_referenced}
use circleci_yaml_language_s.Values.{Parameter}
use circleci_yaml_language_s.Orbs.{OrbInfo}

-- ast.OrbURL
pub record OrbUrl : Type 0 where
  pub is_local : Bool
  pub name : String
  pub version : String

unfoldable pub get_orb_id : OrbUrl → String
get_orb_id orb = if orb.is_local then orb.name else orb.name +++ "@" +++ orb.version

pub record Orb : Type 0 where
  pub url : OrbUrl
  pub name : String
  pub range : Range

-- A command, a job or an executor, as far as the lookups read it.
pub record Entity : Type 0 where
  pub range : Range
  pub parameters : Dict String Parameter

pub record OrbParsedAttributes : Type 0 where
  pub commands : Dict String Entity
  pub jobs : Dict String Entity
  pub executors : Dict String Entity
  pub commands_range : Range
  pub jobs_range : Range
  pub executors_range : Range

-- ast.RemoteOrbInfo
pub record RemoteOrbInfo : Type 0 where
  pub version : String
  pub latest_version : String
  pub latest_minor_version : String
  pub latest_patch_version : String

abbrev pub Info : Type 0
Info = OrbInfo OrbParsedAttributes RemoteOrbInfo

-- The entities of the document itself have the same shape as those of an orb.
pub record YamlDocument : Type 0 where
  pub own : OrbParsedAttributes
  pub orbs : Dict String Orb
  pub orbs_range : Range
  pub local_orb_info : Dict String Info

abbrev pub built_in_commands : List String
built_in_commands =
    "run" ∷ "checkout" ∷ "setup_remote_docker" ∷ "save_cache" ∷ "restore_cache" ∷ "store_artifacts"
    ∷ "store_test_results" ∷ "persist_to_workspace" ∷ "attach_workspace" ∷ "add_ssh_keys" ∷ "steps"
    ∷ "deploy" ∷ "when" ∷ "unless" ∷ []

unfoldable pub is_built_in : String → Bool
is_built_in command_name = contains built_in_commands command_name

abbrev pub has {ℓ} : {V : Type ℓ} → String → Dict String V → Bool
has name d = elim (lookup name d) [ none ↦ false | some _ ↦ true ]

-- The two parts of a name with one slash.
unfoldable pub orb_parts : String → Option (String × String)
unfolding split
orb_parts name = elim (split b'/' name) [
  | orb_name ∷ entity_name ∷ [] ↦ some (orb_name, entity_name)
  | _ ↦ none
]

unfoldable pub is_orb_reference : YamlDocument → String → Bool
unfolding orb_parts
is_orb_reference doc orb_reference = elim (orb_parts orb_reference) [
  | none ↦ false
  | some (orb_name, _) ↦ has orb_name doc.orbs
]

unfoldable pub could_be_orb_reference : String → String × Bool
unfolding orb_parts
could_be_orb_reference orb_reference = elim (orb_parts orb_reference) [
  | none ↦ ("", false)
  | some (orb_name, _) ↦ (orb_name, true)
]

unfoldable pub is_from_unfetchable_orb : YamlDocument → String → Bool
unfolding orb_parts
is_from_unfetchable_orb doc name = elim (orb_parts name) [
  | none ↦ false
  | some (orb_name, _) ↦ elim (lookup orb_name doc.orbs) [
    | none ↦ false
    | some orb ↦ (check_if_param_is_partially_referenced (codes orb.url.version)).0
  ]
]

unfoldable pub is_given_orb : YamlDocument → String → String → Bool
unfolding is_orb_reference
is_given_orb doc command_name orb_name =
    if not (is_orb_reference doc command_name)
    then false
    else elim (split b'/' command_name) [ [] ↦ false | part ∷ _ ↦ part == orb_name ]

unfoldable pub is_alias : String → Bool
is_alias command_name = elim (cut_prefix "*" command_name) [ none ↦ false | some _ ↦ true ]

unfoldable pub does_command_or_job_or_executor_exist : YamlDocument → String → Bool → Bool
unfolding is_orb_reference
does_command_or_job_or_executor_exist doc name include_commands =
    has name doc.own.jobs
    || (has name doc.own.commands && include_commands
        || (has name doc.own.executors || is_orb_reference doc name))

-- The loop that returns the parameters of the first entity around the position.
unfoldable pub params_around : Position → List (String × Entity) → Option (Dict String Parameter)
params_around position [] = none
params_around position ((_, e) ∷ es) =
    let rest = params_around position es in
    if pos_in_range e.range position then some e.parameters else rest

abbrev pub params_in : Range → Position → List (String × Entity) → Option (Dict String Parameter)
params_in rng position es = if pos_in_range rng position then params_around position es else none

abbrev pub or_else {ℓ} : {A : Type ℓ} → Option A → Option A → Option A
or_else none next = next
or_else (some a) next = some a

abbrev pub or_empty : Option (Dict String Parameter) → Dict String Parameter
or_empty none = []
or_empty (some ps) = ps

unfoldable pub get_orb_parameters : OrbParsedAttributes → Position → Dict String Parameter
unfolding params_around
get_orb_parameters orb position = or_empty (
    or_else (params_in orb.commands_range position orb.commands) (
      or_else (params_in orb.jobs_range position orb.jobs)
        (params_in orb.executors_range position orb.executors)))

-- The loop over the orbs: the parameters of the first local orb around the position. Its
-- information is there, since parsing a local orb stores it; `none` is the panic if it is not.
unfoldable pub local_orb_params :
    YamlDocument → Position → List (String × Orb) → Option (Option (Dict String Parameter))
unfolding get_orb_parameters
local_orb_params doc position [] = some none
local_orb_params doc position ((_, orb) ∷ orbs) =
    let rest = local_orb_params doc position orbs in
    if not orb.url.is_local || not (pos_in_range orb.range position)
    then rest
    else elim (lookup orb.name doc.local_orb_info) [
      | none ↦ none
      | some info ↦ some (some (get_orb_parameters info.orb_parsed_attributes position))
    ]

unfoldable pub get_params_with_position : YamlDocument → Position → Option (Dict String Parameter)
unfolding local_orb_params
get_params_with_position doc position =
    let own = doc.own in
    let first =
      or_else (params_in own.commands_range position own.commands)
        (params_in own.jobs_range position own.jobs) in
    let executors = params_in own.executors_range position own.executors in
    elim (first) [
      | some ps ↦ some ps
      | none ↦
          elim (if pos_in_range doc.orbs_range position
            then local_orb_params doc position doc.orbs
            else some none) [ none ↦ none | some found ↦ some (or_empty (or_else found executors)) ]
    ]
