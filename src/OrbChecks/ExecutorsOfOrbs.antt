-- ===== src/OrbChecks/ExecutorsOfOrbs.antt =====
-- Which executors of orbs are found.
use circleci_yaml_language_s.Prelude.{
  ◌≡◌, ◌≢◌, ◌↔◌, inl, inr, String, true, false, Bool-cases, Option, none, some, [], arith,
  string_eq,
}
use circleci_yaml_language_s.Prelude.Dict.{lookup}
use circleci_yaml_language_s.Position.{Range}
use circleci_yaml_language_s.Orbs.{get_orb}
use circleci_yaml_language_s.Document.{
  Info, Orb, YamlDocument, get_orb_id, has, orb_parts, is_from_unfetchable_orb,
}
use circleci_yaml_language_s.RemoteOrbs.{OrbCache, get_orb_info, get_orb_info_from_name}
use circleci_yaml_language_s.OrbChecks.{validate_orb_executor}

module _ (fetch_orb_info : String → OrbCache → Option Info × OrbCache)
    (fetch_error : String → String) where
  get_orb_info_cached :
      (id : String) (info : Info) (cache : OrbCache)
      → get_orb cache id ≡ some info
      → get_orb_info fetch_orb_info id cache ≡ (some info, cache)
  unfolding get_orb_info
  get_orb_info_cached id info cache h = ground (arith, h)

  -- Where an orb of the document is in the cache, the check of the name of one of its executors
  -- requests nothing and keeps the cache, and it is silent exactly where the orb declares the
  -- executor. The version of the orb has no reference to a parameter.
  pub validate_orb_executor-cached :
      (doc : YamlDocument) (orb : Orb) (info : Info) (name executor : String) (range : Range)
      (cache : OrbCache)
      → orb_parts name ≡ some (orb.name, executor)
      → lookup orb.name doc.orbs ≡ some orb
      → is_from_unfetchable_orb doc name ≡ false
      → get_orb cache (get_orb_id orb.url) ≡ some info
      → let result = validate_orb_executor fetch_orb_info fetch_error doc name range cache in
        (result.1 ≡ cache)
        × (result.0 ≡ [] ↔ has executor info.orb_parsed_attributes.executors ≡ true)
  unfolding validate_orb_executor
  validate_orb_executor-cached doc orb info name executor range cache parts known fetchable cached =
      let i = get_orb_info_cached (get_orb_id orb.url) info cache cached in
      elim (Bool-cases (has executor info.orb_parsed_attributes.executors)) [
        | inl found ↦ (
          ground (arith, parts, known, fetchable, i, found),
          (λ h. found, λ f. ground (arith, parts, known, fetchable, i, found)),
        )
        | inr missing ↦ (
          ground (arith, parts, known, fetchable, i, missing),
          (
            λ h. absurd (ground (arith, parts, known, fetchable, i, missing, h)),
            λ f. absurd (ground (arith, f, missing)),
          ),
        )
      ]

  get_orb_info_missing :
      (id : String) (cache : OrbCache)
      → get_orb cache id ≡ none
      → get_orb_info fetch_orb_info id cache ≡ fetch_orb_info id cache
  unfolding get_orb_info
  get_orb_info_missing id cache h = ground (arith, h)

  -- Where the document declares an orb of its own and a request of its name gives nothing, the look-up
  -- that the checks of steps use finds the orb, and the check of the name of one of its executors
  -- is not silent, not even where the orb declares the executor. The version of the orb has no
  -- reference to a parameter, and its identifier is not in the cache.
  pub validate_orb_executor-local :
      (doc : YamlDocument) (orb : Orb) (info : Info) (name executor : String) (range : Range)
      (cache cache' : OrbCache)
      → orb_parts name ≡ some (orb.name, executor)
      → lookup orb.name doc.orbs ≡ some orb
      → lookup orb.name doc.local_orb_info ≡ some info
      → has executor info.orb_parsed_attributes.executors ≡ true
      → is_from_unfetchable_orb doc name ≡ false
      → get_orb cache (get_orb_id orb.url) ≡ none
      → fetch_orb_info (get_orb_id orb.url) cache ≡ (none, cache')
      → (get_orb_info_from_name fetch_orb_info doc orb.name cache ≡ (some info, cache))
        × (validate_orb_executor fetch_orb_info fetch_error doc name range cache).0 ≢ []
  unfolding validate_orb_executor get_orb_info_from_name
  validate_orb_executor-local doc orb info name executor range cache cache' parts known own declared
        fetchable missing failed =
      let i = get_orb_info_missing (get_orb_id orb.url) cache missing in
      (ground (arith, own), λ h. ground (arith, parts, known, fetchable, i, failed, h))
