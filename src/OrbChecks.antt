-- ===== src/OrbChecks.antt =====
-- pkg/parser/validate/orb.go: which orbs are used, their versions, and the executors that a document
-- takes from them. The requests are parameters, of which `fetch_error` is the text of an error.
pub mod ExecutorsOfOrbs
use circleci_yaml_language_s.Prelude.{
  String, Bool, true, false, not, ◌&&◌, ◌||◌, Option, none, some, List, [], ◌∷◌, ◌++◌, string_eq,
  ◌==◌, if◌then◌else◌,
}
use circleci_yaml_language_s.Prelude.Dict.{Dict, lookup}
use circleci_yaml_language_s.Position.{Range}
use circleci_yaml_language_s.Text.{◌+++◌, codes, cut_prefix}
use circleci_yaml_language_s.Parameters.{check_if_param_is_partially_referenced}
use circleci_yaml_language_s.Diagnostics.{
  Diagnostic, Severity, create_error_diagnostic_from_range, create_warning_diagnostic_from_range,
}
use circleci_yaml_language_s.Syntax.{JobInvocation, Workflow}
use circleci_yaml_language_s.Values.{ParameterValue, Step}
use circleci_yaml_language_s.Versions.{InfoVersions, Semver, diagnostic_version}
use circleci_yaml_language_s.Document.{
  Info, Orb, YamlDocument, get_orb_id, has, orb_parts, is_from_unfetchable_orb, is_given_orb,
}
use circleci_yaml_language_s.RemoteOrbs.{OrbCache, get_orb_info, get_or_fetch_orb_info}
use circleci_yaml_language_s.OrbUse.{
  check_if_steps_contain_orb, check_if_job_param_contain_orb, check_if_job_use_orb,
}

abbrev quoted : String → String
quoted s = "\"" +++ s +++ "\""

-- The three loops of `checkIfOrbIsUsed`: the steps of commands, the steps and executors of jobs, and
-- the invocations of workflows.
unfoldable pub used_by_commands : YamlDocument → List (List Step) → String → Bool
unfolding check_if_steps_contain_orb
used_by_commands doc [] orb_name = false
used_by_commands doc (steps ∷ commands) orb_name =
    check_if_steps_contain_orb doc steps orb_name || used_by_commands doc commands orb_name

unfoldable pub used_by_jobs : YamlDocument → List (List Step × String) → String → Bool
unfolding check_if_job_use_orb
used_by_jobs doc [] orb_name = false
used_by_jobs doc ((steps, executor) ∷ jobs) orb_name =
    check_if_job_use_orb doc steps executor orb_name || used_by_jobs doc jobs orb_name

unfoldable pub used_by_invocations :
    YamlDocument → List (JobInvocation Step ParameterValue) → String → Bool
unfolding check_if_steps_contain_orb check_if_job_param_contain_orb is_given_orb
used_by_invocations doc [] orb_name = false
used_by_invocations doc (inv ∷ invs) orb_name =
    is_given_orb doc inv.job_name orb_name
    || (check_if_steps_contain_orb doc (inv.post_steps ++ inv.pre_steps) orb_name
        || (check_if_job_param_contain_orb inv.parameters orb_name
            || used_by_invocations doc invs orb_name))

unfoldable pub used_by_workflows :
    YamlDocument → List (Workflow Step ParameterValue) → String → Bool
unfolding used_by_invocations
used_by_workflows doc [] orb_name = false
used_by_workflows doc (w ∷ workflows) orb_name =
    used_by_invocations doc w.job_invocations orb_name || used_by_workflows doc workflows orb_name

unfoldable pub check_if_orb_is_used :
    YamlDocument
    → List (List Step)
    → List (List Step × String)
    → List (Workflow Step ParameterValue)
    → String
    → Bool
unfolding used_by_commands used_by_jobs used_by_workflows
check_if_orb_is_used doc commands jobs workflows orb_name =
    used_by_commands doc commands orb_name
    || (used_by_jobs doc jobs orb_name || used_by_workflows doc workflows orb_name)

-- The titles and new texts of `createCodeActions`: `Compare(a, b) == -1` is `Compare(b, a) == 1`.
abbrev update_action : Semver → Orb → String → String → List (String × String)
update_action semver orb title version =
    let action : String × String = (title, version) in
    if semver.is_newer ("v" +++ version) ("v" +++ orb.url.version) then action ∷ [] else []

unfoldable pub create_code_actions : Semver → Orb → Info → List (String × String)
create_code_actions semver orb cached_orb =
    let remote = cached_orb.remote_info in
    update_action semver orb "Update to last patch" remote.latest_patch_version
    ++ (update_action semver orb "Update to last minor" remote.latest_minor_version
        ++ update_action semver orb "Update to last version" remote.latest_version)

module _ (fetch_orb_info : String → OrbCache → Option Info × OrbCache)
    (fetch_error : String → String) where
  -- The results of `doesOrbExecutorExist`: `none` is an error, which it reports itself.
  unfoldable pub does_orb_executor_exist :
      YamlDocument → String → Range → OrbCache → Option Bool × List Diagnostic × OrbCache
  unfolding orb_parts get_orb_info get_orb_id
  does_orb_executor_exist doc executor_name executor_range cache = elim (orb_parts executor_name) [
    | none ↦ (some false, [], cache)
    | some (orb_name, name) ↦ elim (lookup orb_name doc.orbs) [
      | none ↦ (
        none,
        create_warning_diagnostic_from_range executor_range
              ("unknown orb referenced: " +++ orb_name)
            ∷ [],
        cache,
      )
      | some orb ↦
          let id = get_orb_id orb.url in
          let (info, cache') = get_orb_info fetch_orb_info id cache in
          elim info [
            | none ↦ (
              none,
              create_warning_diagnostic_from_range executor_range
                    ("Invalid orb or error trying to fetch it: " +++ fetch_error id)
                  ∷ [],
              cache',
            )
            | some remote_orb ↦
                (some (has name remote_orb.orb_parsed_attributes.executors), [], cache')
          ]
    ]
  ]

  -- The panic of `splittedName[1]` is out of reach: the caller passes a reference to an orb, which has
  -- two parts.
  abbrev cannot_find : String → Range → List Diagnostic
  cannot_find executor_name executor_range = elim (orb_parts executor_name) [
    | none ↦ []
    | some (orb_name, name) ↦
        create_error_diagnostic_from_range executor_range
          ("Cannot find executor " +++ name +++ " in orb " +++ orb_name)
        ∷ []
  ]

  unfoldable pub validate_orb_executor :
      YamlDocument → String → Range → OrbCache → List Diagnostic × OrbCache
  unfolding does_orb_executor_exist is_from_unfetchable_orb
  validate_orb_executor doc executor_name executor_range cache =
      let (exists, diagnostics, cache') =
        does_orb_executor_exist doc executor_name executor_range cache in
      if is_from_unfetchable_orb doc executor_name then ([], cache) else elim exists [
        | none ↦ (diagnostics, cache')
        | some true ↦ (diagnostics, cache')
        | some false ↦ (diagnostics ++ cannot_find executor_name executor_range, cache')
      ]

  abbrev unused : Bool → Orb → List Diagnostic
  unused is_used orb =
      if not is_used
      then create_warning_diagnostic_from_range orb.range "Orb is unused" ∷ []
      else []

  abbrev fetch_diagnostic : Orb → List Diagnostic
  fetch_diagnostic orb = elim (cut_prefix "could not find orb" (fetch_error (get_orb_id orb.url))) [
    | some _ ↦
        create_error_diagnostic_from_range orb.range
          ("Unknown version " +++ orb.url.version +++ " for orb " +++ orb.url.name)
        ∷ []
    | none ↦
        create_error_diagnostic_from_range orb.range
          ("error while retrieving orb " +++ get_orb_id orb.url)
        ∷ []
  ]

  -- What `validateSingleOrb` says of the version; an error gives the empty orb.
  unfoldable pub version_diagnostics :
      Semver → (is_valid : String → Bool) → Orb → InfoVersions → String → List Diagnostic
  unfolding diagnostic_version
  version_diagnostics semver is_valid orb info version =
      let (message, severity) = diagnostic_version semver.major version info in
      if not (is_valid ("v" +++ orb.url.version)) || message == ""
      then []
      else record { range = orb.range; severity = severity; message = message } ∷ []

  -- `validateSingleOrb` without the actions of its last diagnostic; `does_orb_exist` is the answer to
  -- the request of `DoesOrbExist`, and `is_anonymous` says that the extension has no token.
  unfoldable pub validate_single_orb :
      Semver
      → (is_valid : String → Bool) → (does_orb_exist : Orb → Bool) → (is_anonymous is_used : Bool)
      → YamlDocument
      → Orb
      → OrbCache
      → List Diagnostic × OrbCache
  unfolding version_diagnostics get_or_fetch_orb_info
  validate_single_orb semver is_valid does_orb_exist is_anonymous is_used doc orb cache =
      let (info, cache') = get_or_fetch_orb_info fetch_orb_info doc orb cache in
      let message = "Orb " +++ orb.url.name +++ " does not exist or is private." in
      let hint =
        if is_anonymous
        then " Authenticate via the VS Code extension to access your private orbs."
        else "" in
      if (check_if_param_is_partially_referenced (codes orb.url.version)).0
      then (unused is_used orb, cache)
      else if not orb.url.is_local && not (does_orb_exist orb)
      then (
        unused is_used orb ++ create_error_diagnostic_from_range orb.range (message +++ hint) ∷ [],
        cache,
      )
      else elim info [
        | none ↦ (
          unused is_used orb
              ++ (fetch_diagnostic orb
                  ++ version_diagnostics semver is_valid orb
                      (record {
                        latest_version = "";
                        latest_minor_version = "";
                        latest_patch_version = "";
                      })
                      ""),
          cache',
        )
        | some orb_version ↦
            let remote = orb_version.remote_info in
            (
              unused is_used orb
                  ++ version_diagnostics semver is_valid orb
                      (record {
                        latest_version = remote.latest_version;
                        latest_minor_version = remote.latest_minor_version;
                        latest_patch_version = remote.latest_patch_version;
                      })
                      remote.version,
              cache',
            )
      ]
