-- ===== src/Sync/Sessions.antt =====
-- What a change of a document leaves in the cache, and which diagnostics are sent afterwards.
use circleci_yaml_language_s.Prelude.{
  ℕ, ◌≡◌, String, some, List, arith, string_eq, nat_eq, ◌==◌, if◌then◌else◌,
}
use circleci_yaml_language_s.Prelude.Dict.{insert, lookup-insert}
use circleci_yaml_language_s.Edits.{ContentChange, apply_incremental_changes}
use circleci_yaml_language_s.Sync.{
  CachedFile, FileCache, get_file, did_change, is_notified, update_text_document,
}

module _ {Project : Type 0} (no_project : Project) where
  abbrev pub changed : CachedFile Project → String → ℕ → List ContentChange → CachedFile Project
  changed file uri version changes = record file {
    text_document = record {
      uri = uri;
      text = apply_incremental_changes file.text_document.text changes;
      version = version;
    };
  }

  -- A change of an open document succeeds. The document then has the changed text and the new
  -- version, its project and variables stay, and so do all other files. From then on, diagnostics
  -- of this document are sent exactly where they belong to the new version.
  pub did_change_lem :
      (c : FileCache Project) (uri : String) (version : ℕ) (changes : List ContentChange)
      (file : CachedFile Project)
      → get_file c uri ≡ some file
      → (c' : FileCache Project) × (did_change no_project c uri version changes ≡ some c')
        × ((other : String)
            → get_file c' other ≡ (
                if other == uri then some (changed file uri version changes) else get_file c other))
        × ((text : List ℕ) (w : ℕ)
            → is_notified c' (record { uri = uri; text = text; version = w }) ≡ (version == w))
  unfolding did_change is_notified update_text_document
  did_change_lem c uri version changes file opened =
      let new = changed file uri version changes in
      (
        insert uri new c,
        ground (arith, opened),
        λ other. lookup-insert other uri new c,
        λ text w. ground (arith, lookup-insert uri uri new c),
      )
