-- ===== src/Tests/MachinesTests.antt =====
-- Runs of pkg/parser/validate/executor.go, pkg/utils/machineOfferings.go, `GetVersionInfo` and the
-- names of Docker images.
use circleci_yaml_language_s.Prelude.{
  ◌≡◌, ◌↔◌, refl, ℕ, String, true, false, ◌&&◌, some, List, [], ◌∷◌, ◌++◌, arith, ℕ_discrete,
  length, drop, string_eq, nat_eq, ◌==◌, string_dec, bytes_eq, if◌then◌else◌, Option, ltb,
}
use circleci_yaml_language_s.Position.{Range}
use circleci_yaml_language_s.Text.{codes, is_empty, cut_prefix, index_of}
use circleci_yaml_language_s.Parameters.{find_all_index}
use circleci_yaml_language_s.Offerings.{Offerings, xcode_versions, docker_resource_classes}
use circleci_yaml_language_s.Executors.{MachineExecutor, validate_machine_executor}
use circleci_yaml_language_s.Executors.Machines.{MachineAllowed, validate_machine_executor-silent}
use circleci_yaml_language_s.Versions.{Semver, get_version_info}
use circleci_yaml_language_s.Versions.Latest.{IsLatest, get_version_info-IsLatest}
use circleci_yaml_language_s.Images.{parse_docker_image_value, create_tag_text_edit}
use circleci_yaml_language_s.Images.RoundTrip.{printed, parse_docker_image_value-printed}
use circleci_yaml_language_s.Images.TagEdits.{
  edited, create_tag_text_edit_lem, create_tag_text_edit_untagged,
}

abbrev here : Range
here = record {
  start = record { line = 3; character = 0 };
  end = record { line = 3; character = 5 };
}

abbrev offerings : Option Offerings
offerings = some (record {
  linux = ("medium", "ubuntu" ∷ []) ∷ ("large.gen2", "ubuntu" ∷ []) ∷ [];
  windows = ("windows.large", "server" ∷ []) ∷ [];
  mac_os = ("m4", "xcode:16" ∷ "xcode:15" ∷ []) ∷ [];
  deprecated = ("linux", "old" ∷ []) ∷ [];
})

abbrev executor : MachineExecutor
executor = record {
  base = record { range = here; resource_class = "medium"; resource_class_range = here };
  image = "server";
  image_range = here;
  is_deprecated = false;
}

abbrev nine : List ℕ
nine = b'9' ∷ []

runs : Unit {0}
unfolding ℕ_discrete cut_prefix index_of find_all_index validate_machine_executor xcode_versions
    docker_resource_classes string_dec get_version_info parse_docker_image_value
    create_tag_text_edit
runs = tt

xcode_versions_run : xcode_versions offerings ≡ some ("15" ∷ "16" ∷ [])
unfolding runs
xcode_versions_run = refl

docker_resource_classes_run :
    docker_resource_classes offerings ≡ some ("small" ∷ "medium+" ∷ "medium" ∷ [])
unfolding runs
docker_resource_classes_run = refl

-- Both are offered, but not together.
validate_machine_executor_run : length (validate_machine_executor offerings executor) ≡ 1
unfolding runs
validate_machine_executor_run = refl

parse_docker_image_value_run :
    (parse_docker_image_value (codes "&img cimg/go:1.24@sha")).tag ≡ codes "1.24"
unfolding runs
parse_docker_image_value_run = refl

validate_machine_executor-silent_example :
    validate_machine_executor offerings executor ≡ [] ↔ MachineAllowed offerings executor
validate_machine_executor-silent_example = validate_machine_executor-silent offerings executor

-- Versions of one digit.
abbrev number : String → ℕ
number s = elim (codes s) [ [] ↦ 0 | v ∷ [] ↦ 0 | v ∷ n ∷ rest ↦ n ]

abbrev semver : Semver
semver = record {
  is_newer = λ a b. ltb (number b) (number a);
  major = λ a. a;
  major_minor = λ a. a;
}

get_version_info-IsLatest_example :
    IsLatest semver
      (λ c. true)
      ("3" ∷ "1" ∷ [])
      "v2"
      (get_version_info semver ("3" ∷ "1" ∷ []) "v2").latest
    × IsLatest semver
        (λ c. c == "v2")
        ("3" ∷ "1" ∷ [])
        "v2"
        (get_version_info semver ("3" ∷ "1" ∷ []) "v2").latest_minor
    × IsLatest semver
        (λ c. c == "v2" && c == "v2")
        ("3" ∷ "1" ∷ [])
        "v2"
        (get_version_info semver ("3" ∷ "1" ∷ []) "v2").latest_patch
get_version_info-IsLatest_example =
    get_version_info-IsLatest semver ("3" ∷ "1" ∷ []) "v2" (λ v. ground arith)
      (λ u v w h k. ground (arith, h, k))

parse_docker_image_value-printed_example :
    parse_docker_image_value (printed (b'c' ∷ []) (b'g' ∷ b'o' ∷ []) (b'1' ∷ []) []) ≡ record {
      namespace = if is_empty (b'c' ∷ []) then codes "library" else b'c' ∷ [];
      name = b'g' ∷ b'o' ∷ [];
      tag = b'1' ∷ [];
      digest = [];
      full_path = printed (b'c' ∷ []) (b'g' ∷ b'o' ∷ []) (b'1' ∷ []) [];
    }
unfolding runs
parse_docker_image_value-printed_example =
    parse_docker_image_value-printed (b'c' ∷ []) (b'g' ∷ b'o' ∷ []) (b'1' ∷ []) [] (refl, tt)
      (refl, (refl, tt)) refl (refl, tt) tt

-- A longer tag than the new one: its end stays.
create_tag_text_edit_lem_example :
    let edit = create_tag_text_edit (b'a' ∷ [] ++ b':' ∷ b'1' ∷ b'2' ∷ []) here (b'9' ∷ []) in
    edited
      (b' ' ∷ [] ++ (b'a' ∷ [] ++ (b':' ∷ (b'1' ∷ b'2' ∷ []) ++ [])))
      edit.range.start.character
      edit.range.end.character
      edit.new_text
    ≡ b' ' ∷ []
      ++ (b'a' ∷ [] ++ (b':' ∷ (b'9' ∷ []) ++ drop (length nine) (b'1' ∷ b'2' ∷ [] ++ [])))
unfolding runs
create_tag_text_edit_lem_example =
    create_tag_text_edit_lem (b' ' ∷ []) (b'a' ∷ []) (b'1' ∷ b'2' ∷ []) [] (b'9' ∷ []) here refl
      refl (omega arith)

create_tag_text_edit_untagged_example :
    let edit = create_tag_text_edit (b'a' ∷ b'b' ∷ []) here (b'9' ∷ []) in
    edited
      (b'-' ∷ b' ' ∷ [] ++ (b' ' ∷ (b'a' ∷ b'b' ∷ []) ++ []))
      edit.range.start.character
      edit.range.end.character
      edit.new_text
    ≡ b'-' ∷ b' ' ∷ [] ++ (b':' ∷ (b'9' ∷ []) ++ drop (length nine) (b'a' ∷ b'b' ∷ [] ++ []))
unfolding runs
create_tag_text_edit_untagged_example =
    create_tag_text_edit_untagged (b'-' ∷ b' ' ∷ []) b' ' (b'a' ∷ b'b' ∷ []) [] (b'9' ∷ []) here
      refl refl (omega arith)
