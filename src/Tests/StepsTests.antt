-- ===== src/Tests/StepsTests.antt =====
-- Runs of pkg/parser/validate/steps.go.
use circleci_yaml_language_s.Prelude.{
  ◌≡◌, ◌≢◌, ◌↔◌, String, Option, some, refl, true, false, none, [], ◌∷◌, ℕ_discrete, string_eq,
  nat_eq, string_dec, bytes_eq,
}
use circleci_yaml_language_s.Prelude.Dict.{lookup}
use circleci_yaml_language_s.Position.{Range}
use circleci_yaml_language_s.Text.{codes}
use circleci_yaml_language_s.Values.{Run}
use circleci_yaml_language_s.ParameterChecks.{Scope}
use circleci_yaml_language_s.Parameters.{partial_param_regex}
use circleci_yaml_language_s.Document.{
  Info, Orb, OrbParsedAttributes, YamlDocument, Entity, orb_parts, is_from_unfetchable_orb,
  is_built_in,
}
use circleci_yaml_language_s.RemoteOrbs.{OrbCache, get_orb_info_from_name}
use circleci_yaml_language_s.Document.{has, get_orb_id}
use circleci_yaml_language_s.Orbs.{get_orb}
use circleci_yaml_language_s.OrbChecks.{validate_orb_executor}
use circleci_yaml_language_s.OrbChecks.ExecutorsOfOrbs.{
  validate_orb_executor-cached, validate_orb_executor-local,
}
use circleci_yaml_language_s.Steps.{check_when, auto_rerun_delay_regex}
use circleci_yaml_language_s.Steps.When.{WhenAllowed, check_when-silent}

abbrev here : Range
here = record {
  start = record { line = 0; character = 0 };
  end = record { line = 0; character = 2 };
}

abbrev scope : Scope
scope = record { content = codes "when: always"; pipeline_parameters = []; commands = [] }

abbrev step : Run
step = record {
  range = here;
  command = "make";
  command_range = here;
  raw_command = "make";
  name = "";
  shell = "";
  background = false;
  working_directory = "";
  no_output_timeout = "";
  when = "always";
  when_range = here;
  environment = [];
  is_deploy_step = false;
  max_auto_reruns = "";
  auto_rerun_delay = "";
}

runs : Unit {0}
unfolding get_orb_id get_orb ℕ_discrete partial_param_regex auto_rerun_delay_regex lookup string_dec
    orb_parts is_from_unfetchable_orb is_built_in
runs = tt

auto_rerun_delay_regex_run :
    (auto_rerun_delay_regex (codes "10m") ≡ true)
    × (auto_rerun_delay_regex (codes "120s") ≡ true)
    × (auto_rerun_delay_regex (codes "11m") ≡ false)
    × (auto_rerun_delay_regex (codes "1m30s") ≡ false)
unfolding runs
auto_rerun_delay_regex_run = (refl, refl, refl, refl)

check_when-silent_example :
    check_when (λ bytes. "") scope step [] ≡ [] ↔ WhenAllowed (λ bytes. "") scope step []
check_when-silent_example = check_when-silent (λ bytes. "") scope step []

abbrev clean : Entity
clean = record { range = here; parameters = [] }

abbrev attributes : OrbParsedAttributes
attributes = record {
  commands = ("clean", clean) ∷ [];
  jobs = [];
  executors = [];
  commands_range = here;
  jobs_range = here;
  executors_range = here;
}

abbrev info : Info
info = record {
  orb_parsed_attributes = attributes;
  remote_info = record {
    version = "1.0.0";
    latest_version = "1.0.0";
    latest_minor_version = "1.0.0";
    latest_patch_version = "1.0.0";
  };
}

abbrev orb : Orb
orb = record {
  url = record { is_local = true; name = "tools"; version = "" };
  name = "tools";
  range = here;
}

abbrev doc : YamlDocument
doc = record {
  own = record attributes { commands = [] };
  orbs = ("tools", orb) ∷ [];
  orbs_range = here;
  local_orb_info = ("tools", info) ∷ [];
}

-- No orb can be fetched.
abbrev no_orbs : String → OrbCache → Option Info × OrbCache
no_orbs id cache = (none, cache)

-- The executors of the remote orb `infra`.
abbrev infra : Orb
infra = record {
  url = record { is_local = false; name = "circleci/infra"; version = "1.0.0" };
  name = "infra";
  range = here;
}

abbrev big : Info
big = record info { orb_parsed_attributes = record attributes { executors = ("big", clean) ∷ [] } }

abbrev with_orb : Orb → YamlDocument
with_orb o = record doc { orbs = (o.name, o) ∷ [] }

validate_orb_executor-cached_example :
    let result =
      validate_orb_executor
        (λ id cache. (none, cache))
        (λ id. "")
        (with_orb infra)
        "infra/big"
        here
        (("circleci/infra@1.0.0", big) ∷ []) in
    (result.1 ≡ ("circleci/infra@1.0.0", big) ∷ [])
    × (result.0 ≡ [] ↔ has "big" big.orb_parsed_attributes.executors ≡ true)
unfolding runs
validate_orb_executor-cached_example =
    validate_orb_executor-cached (λ id cache. (none, cache)) (λ id. "") (with_orb infra) infra big
      "infra/big" "big" here (("circleci/infra@1.0.0", big) ∷ []) refl refl refl refl

-- The document's own orb `tools` declares the executor `big`.
abbrev with_big : YamlDocument
with_big = record doc { local_orb_info = ("tools", big) ∷ [] }

validate_orb_executor-local_example :
    (get_orb_info_from_name no_orbs with_big "tools" [] ≡ (some big, []))
    × (validate_orb_executor no_orbs (λ id. "down") with_big "tools/big" here []).0 ≢ []
unfolding runs
validate_orb_executor-local_example =
    validate_orb_executor-local no_orbs (λ id. "down") with_big orb big "tools/big" "big" here [] []
      refl refl refl refl refl refl refl
