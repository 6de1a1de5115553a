-- ===== src/RemoteOrbs.antt =====
-- The lookups of pkg/parser/orbs.go, pkg/parser/remoteOrb.go and pkg/parser/yamlparser.go that go to
-- the orbs of the document and to the cache of remote orbs.
use circleci_yaml_language_s.Prelude.{
  String, Bool, false, not, Option, none, some, string_eq, if◌then◌else◌,
}
use circleci_yaml_language_s.Prelude.Dict.{Dict, lookup}
use circleci_yaml_language_s.Values.{Parameter}
use circleci_yaml_language_s.Orbs.{get_orb, has_orb}
use circleci_yaml_language_s.Document.{get_orb_id, Orb, Entity, Info, YamlDocument, has, orb_parts}

-- The remote orbs: the cache, and the request, which stores what it gets; `none` is an error.
abbrev pub OrbCache : Type 0
OrbCache = Dict String Info

-- A job hides a command of the same name; `none` is a nil map.
abbrev pub defined_params :
    String → Dict String Entity → Dict String Entity → Option (Dict String Parameter)
defined_params name jobs commands = elim (lookup name jobs) [
  | some job ↦ some job.parameters
  | none ↦ elim (lookup name commands) [ some command ↦ some command.parameters | none ↦ none ]
]

abbrev pub empty_orb : Orb
empty_orb = record {
  url = record { is_local = false; name = ""; version = "" };
  name = "";
  range = record {
    start = record { line = 0; character = 0 };
    end = record { line = 0; character = 0 };
  };
}

module _ (fetch_orb_info : String → OrbCache → Option Info × OrbCache) where
  -- `GetOrbInfo` of pkg/parser/remoteOrb.go
  unfoldable pub get_orb_info : String → OrbCache → Option Info × OrbCache
  unfolding has_orb get_orb
  get_orb_info orb_version_code cache =
      if not (has_orb cache orb_version_code)
      then fetch_orb_info orb_version_code cache
      else (get_orb cache orb_version_code, cache)

  unfoldable pub get_or_fetch_orb_info : YamlDocument → Orb → OrbCache → Option Info × OrbCache
  unfolding get_orb_info get_orb_id
  get_or_fetch_orb_info doc orb cache = elim (lookup orb.name doc.local_orb_info) [
    | some info ↦ (some info, cache)
    | none ↦ elim (get_orb cache (get_orb_id orb.url)) [
      | some info ↦ (some info, cache)
      | none ↦ get_orb_info (get_orb_id orb.url) cache
    ]
  ]

  -- The results: an error or no orb, and the orb.
  unfoldable pub get_orb_info_from_name : YamlDocument → String → OrbCache → Option Info × OrbCache
  unfolding get_or_fetch_orb_info
  get_orb_info_from_name doc name cache = elim (lookup name doc.local_orb_info) [
    | some info ↦ (some info, cache)
    | none ↦ elim (lookup name doc.orbs) [
      | none ↦ (none, cache)
      | some orb ↦ get_or_fetch_orb_info doc orb cache
    ]
  ]

  unfoldable pub is_orb_command : YamlDocument → String → OrbCache → Bool × OrbCache
  unfolding orb_parts get_orb_info_from_name
  is_orb_command doc orb_command cache = elim (orb_parts orb_command) [
    | none ↦ (false, cache)
    | some (orb_name, command_name) ↦
        let (info, cache') = get_orb_info_from_name doc orb_name cache in
        elim info [
          | none ↦ (false, cache')
          | some orb ↦ (has command_name orb.orb_parsed_attributes.commands, cache')
        ]
  ]

  unfoldable pub is_orb_job : YamlDocument → String → OrbCache → Bool × OrbCache
  unfolding orb_parts get_orb_info_from_name
  is_orb_job doc orb_command cache = elim (orb_parts orb_command) [
    | none ↦ (false, cache)
    | some (orb_name, job_name) ↦
        let (info, cache') = get_orb_info_from_name doc orb_name cache in
        elim info [
          | none ↦ (false, cache')
          | some orb ↦ (has job_name orb.orb_parsed_attributes.jobs, cache')
        ]
  ]

  -- `GetOrbDefinedParams`, given the two parts of the name; `doc.Orbs[orbName]` is the empty orb
  -- where there is none.
  unfoldable pub get_orb_defined_params :
      YamlDocument → String → String → OrbCache → Option (Dict String Parameter) × OrbCache
  unfolding get_or_fetch_orb_info
  get_orb_defined_params doc orb_name command_or_job cache =
      let orb : Orb = elim (lookup orb_name doc.orbs) [ none ↦ empty_orb | some orb ↦ orb ] in
      let (info, cache') = get_or_fetch_orb_info doc orb cache in
      elim info [
        | none ↦ (none, cache')
        | some i ↦ (
          defined_params command_or_job i.orb_parsed_attributes.jobs
              i.orb_parsed_attributes.commands,
          cache',
        )
      ]

  unfoldable pub get_defined_params :
      YamlDocument → String → OrbCache → Option (Dict String Parameter) × OrbCache
  unfolding is_orb_command is_orb_job get_orb_defined_params
  get_defined_params doc entity_name cache =
      let (is_command, cache') = is_orb_command doc entity_name cache in
      let (is_job, cache'') = is_orb_job doc entity_name cache' in
      let own = defined_params entity_name doc.own.jobs doc.own.commands in
      elim (orb_parts entity_name) [
        | none ↦ (own, cache)
        | some (orb_name, command_or_job) ↦
            if is_command
            then get_orb_defined_params doc orb_name command_or_job cache'
            else if is_job
            then get_orb_defined_params doc orb_name command_or_job cache''
            else (own, cache'')
      ]
