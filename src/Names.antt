-- ===== src/Names.antt =====
-- pkg/parser/validate/names.go: one name for entities of different kinds.
pub mod Clashes
use circleci_yaml_language_s.Prelude.{
  String, Bool, not, ◌&&◌, List, [], ◌∷◌, ◌++◌, string_eq, ◌==◌, if◌then◌else◌,
}
use circleci_yaml_language_s.Text.{◌+++◌}
use circleci_yaml_language_s.Position.{Range}
use circleci_yaml_language_s.Diagnostics.{Diagnostic, create_warning_diagnostic_from_range}

pub record NamedEntity : Type 0 where
  pub name : String
  pub name_range : Range
  pub kind : String

abbrev pub already_used : NamedEntity → NamedEntity → Diagnostic
already_used a b = create_warning_diagnostic_from_range a.name_range (
    "The name \"" +++ a.name +++ "\" is already used to define a " +++ b.kind
    +++ ". You might want to use a different name to avoid confusion.")

abbrev pub is_clash : NamedEntity → NamedEntity → Bool
is_clash a b = a.name == b.name && not (a.kind == b.kind)

-- The loop over `j` for the entity at `i`.
unfoldable pub check_against : NamedEntity → List NamedEntity → List Diagnostic
check_against a [] = []
check_against a (b ∷ entities) =
    let rest = check_against a entities in
    if is_clash a b then already_used a b ∷ already_used b a ∷ rest else rest

-- The two loops over the entities that `CheckNames` collects: workflows, jobs, commands and job
-- groups, one kind after the other.
unfoldable pub check_names : List NamedEntity → List Diagnostic
unfolding check_against
check_names [] = []
check_names (a ∷ entities) = check_against a entities ++ check_names entities
