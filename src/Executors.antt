-- ===== src/Executors.antt =====
-- pkg/parser/validate/executor.go: executors of machines and of macOS, and their resource classes.
-- The offerings are those that `Offerings.machine_offerings` returns.
pub mod Machines
use circleci_yaml_language_s.Prelude.{
  ℕ, String, Bool, true, false, not, ◌&&◌, ◌||◌, Option, none, some, List, [], ◌∷◌, ◌++◌, string_eq,
  ◌==◌, if◌then◌else◌, contains,
}
use circleci_yaml_language_s.Prelude.Dict.{lookup}
use circleci_yaml_language_s.Position.{Range}
use circleci_yaml_language_s.Text.{◌+++◌, codes, split}
use circleci_yaml_language_s.Parameters.{contains_param, check_if_only_param_used}
use circleci_yaml_language_s.Diagnostics.{Diagnostic, warning, create_error_diagnostic_from_range}
use circleci_yaml_language_s.Document.{YamlDocument, has, is_orb_reference, could_be_orb_reference}
use circleci_yaml_language_s.Offerings.{
  Offerings, MachinePair, machine_pairs, machine_resource_classes, deprecated_machine_images,
  deprecated_xcode_versions, xcode_versions, mac_os_resource_classes, is_self_hosted_runner,
}

-- ast.BaseExecutor, as far as the checks read it
pub record BaseExecutor : Type 0 where
  pub range : Range
  pub resource_class : String
  pub resource_class_range : Range

pub record MachineExecutor : Type 0 where
  pub base : BaseExecutor
  pub image : String
  pub image_range : Range
  pub is_deprecated : Bool

pub record MacOsExecutor : Type 0 where
  pub base : BaseExecutor
  pub xcode : String
  pub xcode_range : Range

abbrev quoted : String → String
quoted s = "\"" +++ s +++ "\""

-- utils.CreateDeprecatedDiagnosticFromRange without its tag
abbrev pub create_deprecated_diagnostic_from_range : Range → String → Diagnostic
create_deprecated_diagnostic_from_range rng msg = record {
  range = rng;
  severity = warning;
  message = msg;
}

abbrev unknown_resource_class : BaseExecutor → Diagnostic
unknown_resource_class b =
    create_error_diagnostic_from_range b.resource_class_range
      ("Unknown resource class " +++ quoted b.resource_class)

abbrev pub has_rc : MachineExecutor → MachinePair → Bool
has_rc executor pair =
    pair.resource_class == executor.base.resource_class
    || (contains_param (codes executor.base.resource_class) || executor.base.resource_class == "")

abbrev pub has_img : MachineExecutor → MachinePair → Bool
has_img executor pair = contains pair.images executor.image || contains_param (codes executor.image)

-- The loop over the pairs: `none` is the return at a valid pair, else it ends with
-- `validResourceClass` and `validImage`.
unfoldable pub scan_pairs : MachineExecutor → List MachinePair → Bool → Bool → Option (Bool × Bool)
scan_pairs executor [] valid_resource_class valid_image = some (valid_resource_class, valid_image)
scan_pairs executor (pair ∷ pairs) valid_resource_class valid_image =
    let rc = has_rc executor pair in
    let img = has_img executor pair in
    let rc_param = contains_param (codes executor.base.resource_class) in
    let img_param = contains_param (codes executor.image) in
    let rest =
      scan_pairs executor pairs (valid_resource_class || (rc || rc_param))
        (valid_image || (img || img_param)) in
    if rc && img then none else rest

abbrev image_diagnostic : Option Offerings → MachineExecutor → Diagnostic
image_diagnostic offerings executor =
    if contains (deprecated_machine_images offerings) executor.image
    then create_deprecated_diagnostic_from_range executor.image_range
        ("Machine image " +++ quoted executor.image +++ " is deprecated")
    else create_error_diagnostic_from_range executor.image_range
        ("Unknown machine image " +++ quoted executor.image)

abbrev unavailable : MachineExecutor → Diagnostic
unavailable executor = create_error_diagnostic_from_range executor.base.range (
    "Machine image "
    +++ quoted executor.image
    +++ " is not available for resource class "
    +++ quoted executor.base.resource_class)

abbrev extraneous : MachineExecutor → Diagnostic
extraneous executor = create_error_diagnostic_from_range executor.base.range (
    "Extraneous image "
    +++ quoted executor.image
    +++ " for self-hosted runner "
    +++ quoted executor.base.resource_class)

-- What follows the loop over the pairs.
unfoldable pub report_pairs : Option Offerings → MachineExecutor → Bool → Bool → List Diagnostic
report_pairs offerings executor valid_resource_class valid_image =
    (if not valid_resource_class then unknown_resource_class executor.base ∷ [] else [])
    ++ ((if not valid_image then image_diagnostic offerings executor ∷ [] else [])
        ++ (if valid_resource_class && valid_image then unavailable executor ∷ [] else []))

unfoldable pub validate_machine_executor : Option Offerings → MachineExecutor → List Diagnostic
unfolding scan_pairs report_pairs machine_pairs machine_resource_classes is_self_hosted_runner
validate_machine_executor offerings executor =
    let class = executor.base.resource_class in
    if executor.is_deprecated then [] else elim (machine_pairs offerings) [
      | none ↦ []
      | some pairs ↦
          if executor.image == ""
          then if not (class == "")
              && (not (is_self_hosted_runner class)
                  && (not (contains_param (codes class))
                      && not (contains (machine_resource_classes offerings) class)))
            then unknown_resource_class executor.base ∷ []
            else []
          else if is_self_hosted_runner class
          then extraneous executor ∷ []
          else elim (scan_pairs executor pairs false false) [
            | none ↦ []
            | some (valid_resource_class, valid_image) ↦
                report_pairs offerings executor valid_resource_class valid_image
          ]
    ]

-- `validateExecutorNamespace`; `namespace_of` is the answer of the API to the request: `none` is an
-- error, `some false` an answer without a namespace.
unfoldable pub validate_executor_namespace :
    (String → Option Bool) → String → Range → List Diagnostic
validate_executor_namespace namespace_of resource_class resource_class_range =
    elim (namespace_of resource_class) [
      | none ↦ []
      | some exists ↦
          if not exists
          then create_error_diagnostic_from_range resource_class_range
              ("Namespace " +++ quoted resource_class +++ " does not exist")
            ∷ []
          else []
    ]

abbrev first_part : List String → String
first_part [] = ""
first_part (part ∷ parts) = part

unfoldable pub check_if_valid_resource_class :
    (String → Option Bool) → String → List String → Range → String → List Diagnostic
unfolding validate_executor_namespace is_self_hosted_runner split
check_if_valid_resource_class namespace_of resource_class valid_resource_classes
      resource_class_range context =
    (if not (check_if_only_param_used (codes resource_class))
        && (not (resource_class == "")
            && (not (contains valid_resource_classes resource_class)
                && not (is_self_hosted_runner resource_class)))
      then create_error_diagnostic_from_range resource_class_range (
          if context == ""
          then "Invalid resource class " +++ quoted resource_class
          else "Invalid resource class " +++ quoted resource_class +++ " for " +++ context)
        ∷ []
      else [])
    ++ (if is_self_hosted_runner resource_class
        then validate_executor_namespace namespace_of (first_part (split b'/' resource_class))
            resource_class_range
        else [])

unfoldable pub validate_mac_os_executor :
    Option Offerings → (String → Option Bool) → MacOsExecutor → List Diagnostic
unfolding check_if_valid_resource_class xcode_versions mac_os_resource_classes
    deprecated_xcode_versions
validate_mac_os_executor offerings namespace_of executor = elim (xcode_versions offerings) [
  | none ↦ []
  | some versions ↦
      if contains versions executor.xcode
      then check_if_valid_resource_class namespace_of executor.base.resource_class
          (mac_os_resource_classes offerings) executor.base.resource_class_range
          ("Xcode version " +++ quoted executor.xcode)
      else if contains (deprecated_xcode_versions offerings) executor.xcode
      then create_deprecated_diagnostic_from_range executor.xcode_range
          ("Xcode version " +++ quoted executor.xcode +++ " is deprecated")
        ∷ []
      else create_error_diagnostic_from_range executor.xcode_range
          ("Unknown Xcode version " +++ quoted executor.xcode)
        ∷ []
]

-- `validateExecutorReference`; `validate_orb_executor` is the check against the orb, with the cache
-- of the orbs.
unfoldable pub validate_executor_reference :
    {Cache : Type 0}
    → YamlDocument
    → (String → Range → Cache → List Diagnostic × Cache)
    → String
    → Range
    → Cache
    → List Diagnostic × Cache
unfolding is_orb_reference could_be_orb_reference
validate_executor_reference doc validate_orb_executor executor rng cache =
    let (possible_orb_name, could_be) = could_be_orb_reference executor in
    if has executor doc.own.executors
    then ([], cache)
    else if is_orb_reference doc executor
    then validate_orb_executor executor rng cache
    else if could_be && not (is_orb_reference doc executor)
    then (
      create_error_diagnostic_from_range rng (
            "Cannot find orb "
            +++ quoted possible_orb_name
            +++ ". Looking for executor named "
            +++ quoted executor
            +++ ".")
          ∷ [],
      cache,
    )
    else (
      create_error_diagnostic_from_range rng ("Executor " +++ quoted executor +++ " does not exist")
          ∷ [],
      cache,
    )
