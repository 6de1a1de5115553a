-- ===== src/Tests/SyncTests.antt =====
-- A run of pkg/server/methods/synchronize.go.
use circleci_yaml_language_s.Prelude.{
  ℕ, ℕ_discrete, ◌≡◌, refl, String, some, List, [], ◌∷◌, string_eq, string_dec, nat_eq, ◌==◌,
  if◌then◌else◌,
}
use circleci_yaml_language_s.Prelude.Dict.{lookup, insert}
use circleci_yaml_language_s.Text.{codes}
use circleci_yaml_language_s.Index.{pos_to_index}
use circleci_yaml_language_s.Edits.{ContentChange, apply_incremental_changes}
use circleci_yaml_language_s.Sync.{CachedFile, FileCache, get_file, did_change, is_notified}
use circleci_yaml_language_s.Sync.Sessions.{changed, did_change_lem}

abbrev opened : CachedFile String
opened = record {
  text_document = record { uri = "config.yml"; text = codes "jobs:"; version = 1 };
  project = "gh/org/repo";
  env_variables = "TOKEN" ∷ [];
}

abbrev files : FileCache String
files = ("config.yml", opened) ∷ []

-- The first byte becomes a capital.
abbrev changes : List ContentChange
changes =
    record {
      range = record {
        start = record { line = 0; character = 0 };
        end = record { line = 0; character = 1 };
      };
      text = codes "J";
    }
    ∷ []

runs : Unit {0}
unfolding get_file did_change is_notified lookup insert string_dec ℕ_discrete pos_to_index
    apply_incremental_changes
runs = tt

changed_run : (changed "" opened "config.yml" 2 changes).text_document.text ≡ codes "Jobs:"
unfolding runs
changed_run = refl

did_change_lem_example :
    (c' : FileCache String) × (did_change "" files "config.yml" 2 changes ≡ some c')
    × ((other : String)
        → get_file c' other ≡ (
            if other == "config.yml"
            then some (changed "" opened "config.yml" 2 changes)
            else get_file files other))
    × ((text : List ℕ) (w : ℕ)
        → is_notified c' (record { uri = "config.yml"; text = text; version = w }) ≡ (2 == w))
unfolding runs
did_change_lem_example = did_change_lem "" files "config.yml" 2 changes opened refl
