-- ===== src/Orbs.antt =====
-- The `OrbCache` of pkg/utils/cache.go. The orbs are pointers that `UpdateOrbParsedAttributes`
-- writes through; no two keys share one, so a map of values does the same. What an orb holds is a
-- type of the caller.
use circleci_yaml_language_s.Prelude.{String, Bool, true, false, Option, none, some, [], string_eq}
use circleci_yaml_language_s.Prelude.Dict.{Dict, lookup, insert, delete}

pub record OrbInfo (Attributes Remote : Type 0) : Type 0 where
  pub orb_parsed_attributes : Attributes
  pub remote_info : Remote

module _ {Attributes Remote : Type 0} where
  unfoldable pub has_orb : Dict String (OrbInfo Attributes Remote) → String → Bool
  has_orb orbs_cache orb_id = elim (lookup orb_id orbs_cache) [ none ↦ false | some _ ↦ true ]

  unfoldable pub set_orb :
      Dict String (OrbInfo Attributes Remote)
      → OrbInfo Attributes Remote
      → String
      → Dict String (OrbInfo Attributes Remote)
  set_orb orbs_cache orb orb_id = insert orb_id orb orbs_cache

  -- `none` is the panic on a missing orb.
  unfoldable pub update_orb_parsed_attributes :
      Dict String (OrbInfo Attributes Remote)
      → String
      → Attributes
      → Option (Dict String (OrbInfo Attributes Remote))
  update_orb_parsed_attributes orbs_cache orb_id attributes = elim (lookup orb_id orbs_cache) [
    | none ↦ none
    | some orb ↦ some (insert orb_id (record orb { orb_parsed_attributes = attributes }) orbs_cache)
  ]

  unfoldable pub get_orb :
      Dict String (OrbInfo Attributes Remote) → String → Option (OrbInfo Attributes Remote)
  get_orb orbs_cache orb_id = lookup orb_id orbs_cache

  unfoldable pub remove_orb :
      Dict String (OrbInfo Attributes Remote) → String → Dict String (OrbInfo Attributes Remote)
  remove_orb orbs_cache orb_id = delete orb_id orbs_cache

  -- Every key is deleted.
  unfoldable pub remove_orbs :
      Dict String (OrbInfo Attributes Remote) → Dict String (OrbInfo Attributes Remote)
  remove_orbs orbs_cache = []
