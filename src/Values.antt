-- ===== src/Values.antt =====
-- pkg/ast/parameters.go, pkg/ast/step.go and pkg/ast/command.go: parameters, the values that are
-- passed for them, and steps. The `any` of a value is a type with one constructor for each dynamic
-- type that the parser puts there. The positions `ValueRange` and `ParametersRange`, which no
-- check reads, are left out.
use circleci_yaml_language_s.Prelude.{
  ℕ, Option, String, Bool, List, [], ◌∷◌, ◌==◌, string_eq, if◌then◌else◌,
}
use circleci_yaml_language_s.Prelude.Dict.{Dict}
use circleci_yaml_language_s.Text.{◌+++◌}
use circleci_yaml_language_s.Position.{Range}
use circleci_yaml_language_s.Cycles.{ℤ}

-- ast.Run
pub record Run : Type 0 where
  pub range : Range
  pub command : String
  pub command_range : Range
  pub raw_command : String
  pub name : String
  pub shell : String
  pub background : Bool
  pub working_directory : String
  pub no_output_timeout : String
  pub when : String
  pub when_range : Range
  pub environment : Dict String String
  pub is_deploy_step : Bool
  pub max_auto_reruns : String
  pub auto_rerun_delay : String

-- ast.Checkout
pub record Checkout : Type 0 where
  pub range : Range
  pub path : String
  pub method : String
  pub method_range : Range
  pub depth : String

-- ast.SetupRemoteDocker
pub record SetupRemoteDocker : Type 0 where
  pub range : Range
  pub docker_layer_caching : Bool
  pub version : String

-- ast.SaveCache
pub record SaveCache : Type 0 where
  pub range : Range
  pub paths : List String
  pub key : String
  pub cache_name : String

-- ast.RestoreCache
pub record RestoreCache : Type 0 where
  pub range : Range
  pub key : String
  pub keys : List String
  pub cache_name : String

-- ast.StoreArtifacts
pub record StoreArtifacts : Type 0 where
  pub range : Range
  pub path : String
  pub destination : String

-- ast.StoreTestResults
pub record StoreTestResults : Type 0 where
  pub range : Range
  pub path : String

-- ast.PersistToWorkspace
pub record PersistToWorkspace : Type 0 where
  pub range : Range
  pub root : String
  pub paths : List String

-- ast.AttachWorkspace
pub record AttachWorkspace : Type 0 where
  pub range : Range
  pub at : String

-- ast.AddSSHKey
pub record AddSshKey : Type 0 where
  pub range : Range
  pub fingerprints : List String

-- Lists that hold values, fields or steps stand in the block.
mutual
  pub data ParameterValue : Type 0 where
    parameter_value : (name : String) → Value → (range : Range) → (type : String) → ParameterValue

  pub data Value : Type 0 where
    text : String → Value
    integer : ℤ → Value
    boolean : Bool → Value
    array : Values → Value
    mapping : Fields → Value
    step_list : Steps → Value
    -- The `*sitter.Node` of an alias.
    alias_node : Option ℕ → Value
    nil_value : Value

  pub data Values : Type 0 where
    no_values : Values
    value : ParameterValue → Values → Values

  pub data Fields : Type 0 where
    no_fields : Fields
    field : String → ParameterValue → Fields → Fields

  pub data Step : Type 0 where
    named_step : (name : String) → Fields → Range → Step
    steps_step : (name : String) → Fields → Range → Steps → Step
    run : Run → Step
    checkout : Checkout → Step
    setup_remote_docker : SetupRemoteDocker → Step
    save_cache : SaveCache → Step
    restore_cache : RestoreCache → Step
    store_artifacts : StoreArtifacts → Step
    store_test_results : StoreTestResults → Step
    persist_to_workspace : PersistToWorkspace → Step
    attach_workspace : AttachWorkspace → Step
    add_ssh_key : AddSshKey → Step

  pub data Steps : Type 0 where
    no_steps : Steps
    step : Step → Steps → Steps

-- The lists of the block as lists, and the fields as a map.
abbrev pub value_list : Values → List ParameterValue
value_list no_values = []
value_list (value v vs) = v ∷ value_list vs

abbrev pub field_dict : Fields → Dict String ParameterValue
field_dict no_fields = []
field_dict (field k v fs) = (k, v) ∷ field_dict fs

abbrev pub steps_of : Steps → List Step
steps_of no_steps = []
steps_of (step s ss) = s ∷ steps_of ss

abbrev pub value_name : ParameterValue → String
value_name (parameter_value name v range type) = name

abbrev pub value_of : ParameterValue → Value
value_of (parameter_value name v range type) = v

abbrev pub value_range : ParameterValue → Range
value_range (parameter_value name v range type) = range

abbrev pub value_type : ParameterValue → String
value_type (parameter_value name v range type) = type

-- The method `GetName` of each step.
unfoldable pub get_name : Step → String
get_name (named_step name parameters range) = name
get_name (steps_step name parameters range steps) = name
get_name (run r) = if r.name == "" then "run: " +++ r.command else r.name
get_name (checkout c) = "checkout"
get_name (setup_remote_docker s) = "setup_remote_docker"
get_name (save_cache s) = "save_cache"
get_name (restore_cache s) = "restore_cache"
get_name (store_artifacts s) = "store_artifacts"
get_name (store_test_results s) = "store_test_results"
get_name (persist_to_workspace s) = "persist_to_workspace"
get_name (attach_workspace s) = "attach_workspace"
get_name (add_ssh_key s) = "add_ssh_key"

-- ast.BaseParameter
pub record BaseParameter : Type 0 where
  pub name : String
  pub name_range : Range
  pub range : Range
  pub has_default : Bool
  pub description : String
  pub type_range : Range
  pub default_range : Range

-- The implementations of the interface ast.Parameter.
pub data Parameter : Type 0 where
  string_parameter : BaseParameter → (default : String) → Parameter
  boolean_parameter : BaseParameter → (default : Bool) → Parameter
  integer_parameter : BaseParameter → (default : ℤ) → Parameter
  enum_parameter : BaseParameter → (default : String) → (enum : List String) → Parameter
  executor_parameter : BaseParameter → (default : String) → Parameter
  steps_parameter : BaseParameter → (default : ParameterValue) → Parameter
  env_variable_parameter : BaseParameter → (default : String) → Parameter

abbrev pub base : Parameter → BaseParameter
base (string_parameter b default) = b
base (boolean_parameter b default) = b
base (integer_parameter b default) = b
base (enum_parameter b default enum) = b
base (executor_parameter b default) = b
base (steps_parameter b default) = b
base (env_variable_parameter b default) = b

abbrev pub is_optional : Parameter → Bool
is_optional p = (base p).has_default

abbrev pub parameter_name : Parameter → String
parameter_name p = (base p).name

unfoldable pub get_type : Parameter → String
get_type (string_parameter b default) = "string"
get_type (boolean_parameter b default) = "boolean"
get_type (integer_parameter b default) = "integer"
get_type (enum_parameter b default enum) = "enum"
get_type (executor_parameter b default) = "executor"
get_type (steps_parameter b default) = "steps"
get_type (env_variable_parameter b default) = "env_var_name"

-- ast.Command
pub record Command : Type 0 where
  pub range : Range
  pub name : String
  pub name_range : Range
  pub description : String
  pub description_range : Range
  pub steps : List Step
  pub steps_range : Range
  pub parameters : Dict String Parameter
  pub parameters_range : Range
