-- ===== src/Steps/Named.antt =====
-- `validateNamedStep` for a step that an orb defines.
use circleci_yaml_language_s.Prelude.{◌≡◌, ◌⊎◌, none, some, string_eq}
use circleci_yaml_language_s.Prelude.Dict.{Dict, lookup}
use circleci_yaml_language_s.Orbs.{get_orb}
use circleci_yaml_language_s.Document.{Info, Orb, YamlDocument, get_orb_id}
use circleci_yaml_language_s.RemoteOrbs.{OrbCache}

-- The orb is one of the document, or its information was stored before.
abbrev pub IsLoaded : YamlDocument → OrbCache → Orb → Info → Type 0
IsLoaded doc cache orb info =
    (lookup orb.name doc.local_orb_info ≡ some info)
    ⊎ ((lookup orb.name doc.local_orb_info ≡ none)
        × (get_orb cache (get_orb_id orb.url) ≡ some info))
