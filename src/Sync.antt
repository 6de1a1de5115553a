-- ===== src/Sync.antt =====
-- pkg/server/methods/synchronize.go with the `FileCache` and `ResourceClassCache` of
-- pkg/utils/cache.go: the open documents. The cache holds pointers that no caller keeps, so a file
-- is a value here; its project is a type of the caller, and `no_project` its zero value.
pub mod Sessions
use circleci_yaml_language_s.Prelude.{
  ℕ, String, Bool, true, false, not, Option, none, some, List, [], ◌∷◌, ◌++◌, string_eq, nat_eq,
  ◌==◌, if◌then◌else◌, contains,
}
use circleci_yaml_language_s.Prelude.Dict.{Dict, lookup, insert, delete}
use circleci_yaml_language_s.Edits.{ContentChange, apply_incremental_changes}

pub record TextDocumentItem : Type 0 where
  pub uri : String
  pub text : List ℕ
  pub version : ℕ

pub record CachedFile (Project : Type 0) : Type 0 where
  pub text_document : TextDocumentItem
  pub project : Project
  pub env_variables : List String

abbrev pub FileCache : Type 0 → Type 0
FileCache Project = Dict String (CachedFile Project)

module _ {Project : Type 0} where
  unfoldable pub set_file : FileCache Project → CachedFile Project → FileCache Project
  set_file c cached_file = insert cached_file.text_document.uri cached_file c

  unfoldable pub get_file : FileCache Project → String → Option (CachedFile Project)
  get_file c uri = lookup uri c

  unfoldable pub remove_file : FileCache Project → String → FileCache Project
  remove_file c uri = delete uri c

  -- The operations that read a file and put it back; `none` is the panic on a missing file.
  abbrev pub update_file :
      FileCache Project
      → String
      → (CachedFile Project → CachedFile Project)
      → Option (FileCache Project)
  update_file c uri f = elim (lookup uri c) [
    | none ↦ none
    | some file ↦ some (insert uri (f file) c)
  ]

  unfoldable pub add_env_variable_to_project_linked_to_file :
      FileCache Project → String → String → Option (FileCache Project)
  add_env_variable_to_project_linked_to_file c uri env_variable = update_file c uri (λ file.
      if not (contains file.env_variables env_variable)
      then record file { env_variables = file.env_variables ++ env_variable ∷ [] }
      else file)

  unfoldable pub add_project_slug_to_file :
      FileCache Project → String → Project → Option (FileCache Project)
  add_project_slug_to_file c uri project =
      update_file c uri (λ file. record file { project = project })

  unfoldable pub update_text_document :
      FileCache Project → String → TextDocumentItem → Option (FileCache Project)
  update_text_document c uri text_document =
      update_file c uri (λ file. record file { text_document = text_document })

  module _ (no_project : Project) where
    unfoldable pub set_change_in_file_cache :
        FileCache Project → TextDocumentItem → Option (FileCache Project)
    unfolding get_file update_text_document set_file
    set_change_in_file_cache c text_document = elim (get_file c text_document.uri) [
      | some cached_file ↦ update_text_document c text_document.uri text_document
      | none ↦ some (
          set_file c
            (record { text_document = text_document; project = no_project; env_variables = [] }))
    ]

    -- What `DidChange` does to the cache of files; `none` is the panic on a file that is not open.
    unfoldable pub did_change :
        FileCache Project → String → ℕ → List ContentChange → Option (FileCache Project)
    unfolding set_change_in_file_cache
    did_change c uri version content_changes = elim (get_file c uri) [
      | none ↦ none
      | some file ↦ set_change_in_file_cache c (record {
        uri = uri;
        text = apply_incremental_changes file.text_document.text content_changes;
        version = version;
      })
    ]

  -- The effect of `DidClose` on the cache of files.
  unfoldable pub did_close : (String → Bool) → FileCache Project → String → FileCache Project
  unfolding remove_file
  did_close is_orb c uri = if is_orb uri then remove_file c uri else c

  -- The test of `notificationMethods` before the diagnostics of a document are sent.
  unfoldable pub is_notified : FileCache Project → TextDocumentItem → Bool
  unfolding get_file
  is_notified c text_document = elim (get_file c text_document.uri) [
    | none ↦ false
    | some original ↦ original.text_document.version == text_document.version
  ]

unfoldable pub set_resource_class_for_file :
    Dict String (List String) → String → List String → Dict String (List String)
set_resource_class_for_file c uri resource_class = insert uri resource_class c

unfoldable pub get_resource_class_of_file : Dict String (List String) → String → List String
get_resource_class_of_file c uri = elim (lookup uri c) [
  | none ↦ []
  | some resource_classes ↦ resource_classes
]
