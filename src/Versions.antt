-- ===== src/Versions.antt =====
-- pkg/parser/validate/version.go and `GetVersionInfo` of pkg/parser/remoteOrb.go: the versions of
-- an orb and what is said of them. The functions of golang.org/x/mod/semver are parameters.
pub mod Latest
use circleci_yaml_language_s.Prelude.{
  String, Bool, List, [], ◌∷◌, not, ◌&&◌, string_eq, ◌==◌, if◌then◌else◌,
}
use circleci_yaml_language_s.Text.{◌+++◌}
use circleci_yaml_language_s.Diagnostics.{Severity, warning, information}

pub record InfoVersions : Type 0 where
  pub latest_version : String
  pub latest_minor_version : String
  pub latest_patch_version : String

unfoldable pub diagnostic_version : (String → String) → String → InfoVersions → String × Severity
diagnostic_version major version info =
    if major ("v" +++ version) == "v0" && not (major ("v" +++ info.latest_version) == "v0")
    then ("A production version has been released. Latest: " +++ info.latest_version, warning)
    else if not (info.latest_patch_version == version)
    then (
      "A newer patched version exists.\n- Current: "
          +++ version
          +++ "\n"
          +++ (if not (info.latest_version == info.latest_minor_version)
              then (if not (info.latest_minor_version == info.latest_patch_version)
                  then "- Patch:   " +++ info.latest_patch_version +++ "\n"
                  else "")
                +++ "- Minor:   "
                +++ info.latest_minor_version
                +++ "\n"
              else "")
          +++ "- Latest:  "
          +++ info.latest_version,
      warning,
    )
    else if not (info.latest_minor_version == version)
    then (
      "A newer minor version exists.\n- Current: "
          +++ version
          +++ "\n"
          +++ (if not (info.latest_version == info.latest_minor_version)
              then "- Minor:   " +++ info.latest_minor_version +++ "\n"
              else "")
          +++ "- Latest:  "
          +++ info.latest_version,
      information,
    )
    else if not (info.latest_version == version)
    then (
      "A newer major version exists.\n- Current: " +++ version +++ "\n- Latest:  "
          +++ info.latest_version,
      information,
    )
    else ("", information)

-- semver.Compare(a, b) == 1, semver.Major and semver.MajorMinor
pub record Semver : Type 0 where
  pub is_newer : String → String → Bool
  pub major : String → String
  pub major_minor : String → String

-- The three variables of the loop.
pub record LatestVersions : Type 0 where
  pub latest : String
  pub latest_minor : String
  pub latest_patch : String

abbrev pub newer : Semver → String → String → String
newer semver current best = if semver.is_newer current best then current else best

-- One round of the loop, with its two `continue`.
unfoldable pub add_version : Semver → String → String → String → LatestVersions → LatestVersions
add_version semver major minor current v =
    let v' = record v { latest = newer semver current v.latest } in
    let v'' = record v' { latest_minor = newer semver current v.latest_minor } in
    if not (semver.major current == major)
    then v'
    else if not (semver.major_minor current == minor)
    then v''
    else record v'' { latest_patch = newer semver current v.latest_patch }

unfoldable pub add_versions :
    Semver → String → String → List String → LatestVersions → LatestVersions
unfolding add_version
add_versions semver major minor [] v = v
add_versions semver major minor (version ∷ versions) v =
    add_versions semver major minor versions (add_version semver major minor ("v" +++ version) v)

unfoldable pub get_version_info : Semver → List String → String → LatestVersions
unfolding add_versions
get_version_info semver versions initial_version =
    add_versions semver (semver.major initial_version) (semver.major_minor initial_version) versions
      (record {
        latest = initial_version;
        latest_minor = initial_version;
        latest_patch = initial_version;
      })
