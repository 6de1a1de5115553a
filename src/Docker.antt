-- ===== src/Docker.antt =====
-- pkg/parser/validate/dockerImage.go with the `DockerCache` and `DockerTagsCache` of
-- pkg/utils/cache.go. Docker Hub answers through a parameter; each operation returns its result and
-- the cache. A mutex makes each operation on a cache one step.
pub mod Tags
use circleci_yaml_language_s.Prelude.{
  String, Bool, true, false, not, ◌&&◌, ◌||◌, Option, none, some, List, [], ◌∷◌, string_eq, ◌==◌,
  if◌then◌else◌, ℕ, nat_eq,
}
use circleci_yaml_language_s.Prelude.Dict.{Dict, lookup, insert, delete}
use circleci_yaml_language_s.Text.{◌+++◌, codes}
use circleci_yaml_language_s.Parameters.{partial_param_regex}

pub record CachedDockerImage : Type 0 where
  pub checked : Bool
  pub exists : Bool

abbrev pub DockerCache : Type 0
DockerCache = Dict String CachedDockerImage

unfoldable pub add : DockerCache → String → Bool → DockerCache
add docker_cache name exists = insert name (record { checked = true; exists = exists }) docker_cache

unfoldable pub remove : DockerCache → String → DockerCache
remove docker_cache name = delete name docker_cache

pub record CachedDockerTags : Type 0 where
  pub recommended : String
  pub checked_tags : Dict String Bool

abbrev pub DockerTagsCache : Type 0
DockerTagsCache = Dict String CachedDockerTags

abbrev pub tags_key : String → String → String
tags_key namespace image = namespace +++ "/" +++ image

unfoldable pub add_tags : DockerTagsCache → String → String → CachedDockerTags → DockerTagsCache
add_tags tags_cache namespace image value = insert (tags_key namespace image) value tags_cache

unfoldable pub get_tags : DockerTagsCache → String → String → Option CachedDockerTags
get_tags tags_cache namespace image = lookup (tags_key namespace image) tags_cache

-- dockerhub.DockerHubAPI; `none` is an error.
pub record DockerHubApi : Type 0 where
  pub does_image_exist : (namespace name : String) → Bool
  pub get_image_tags : (namespace name : String) → Option (List String)
  pub image_has_tag : (namespace name tag : String) → Bool

-- ast.DockerImage; `has_auth` says that `Auth` or `AwsAuth` is not the empty struct.
pub record DockerImage : Type 0 where
  pub namespace : String
  pub name : String
  pub tag : String
  pub full_path : String
  pub has_auth : Bool

unfoldable pub is_docker_image_checkable : DockerImage → Bool
unfolding partial_param_regex
is_docker_image_checkable img =
    not (img.name == "") && (not img.has_auth && not (partial_param_regex (codes img.tag)))

unfoldable pub does_docker_image_exists :
    DockerImage → DockerCache → DockerHubApi → Bool × DockerCache
unfolding add is_docker_image_checkable
does_docker_image_exists img docker_cache api =
    if not (is_docker_image_checkable img)
    then (true, docker_cache)
    else elim (lookup img.full_path docker_cache) [
      | some cached ↦ (cached.exists, docker_cache)
      | none ↦
          let exists = api.does_image_exist img.namespace img.name in
          (exists, add docker_cache img.full_path exists)
    ]

-- The first loop drops the tags `latest`.
unfoldable pub without_latest : List String → List String
without_latest [] = []
without_latest (tag ∷ tags) =
    let rest = without_latest tags in if not (tag == "latest") then tag ∷ rest else rest

-- `is_version` says that `semver.NewVersion` parses the tag.
unfoldable pub first_version : (String → Bool) → List String → Option String
first_version is_version [] = none
first_version is_version (tag ∷ tags) =
    let rest = first_version is_version tags in if is_version tag then some tag else rest

unfoldable pub choose_tag_to_recommend : (String → Bool) → List String → String
unfolding without_latest first_version
choose_tag_to_recommend is_version all_tags = elim (without_latest all_tags) [
  | [] ↦ ""
  | tag ∷ tags ↦ elim (first_version is_version (tag ∷ tags)) [
    | none ↦ tag
    | some version ↦ version
  ]
]

-- tagsForCache[tag] = true
unfoldable pub tags_for_cache : List String → Dict String Bool → Dict String Bool
tags_for_cache [] checked = checked
tags_for_cache (tag ∷ tags) checked = tags_for_cache tags (insert tag true checked)

unfoldable pub get_image_tag_info :
    (String → Bool)
    → DockerImage
    → DockerTagsCache
    → DockerHubApi
    → Option CachedDockerTags × DockerTagsCache
unfolding get_tags add_tags tags_for_cache choose_tag_to_recommend
get_image_tag_info is_version img tags_cache api =
    elim (get_tags tags_cache img.namespace img.name) [
      | some tag_info ↦ (some tag_info, tags_cache)
      | none ↦ elim (api.get_image_tags img.namespace img.name) [
        | none ↦ (none, tags_cache)
        | some tags ↦
            let tag_info : CachedDockerTags = record {
              recommended = choose_tag_to_recommend is_version tags;
              checked_tags = tags_for_cache tags [];
            } in
            (some tag_info, add_tags tags_cache img.namespace img.name tag_info)
      ]
    ]

-- A tag that the information does not tell of is asked for and noted; the map of the information is
-- the one of the cache, and `Add` puts it back.
unfoldable pub check_tag :
    DockerImage
    → String
    → DockerHubApi
    → CachedDockerTags
    → DockerTagsCache
    → Bool × DockerTagsCache
unfolding add_tags
check_tag img searched_tag api tag_info tags_cache =
    elim (lookup searched_tag tag_info.checked_tags) [
      | some tag_exists ↦ (tag_exists, tags_cache)
      | none ↦
          let tag_exists = api.image_has_tag img.namespace img.name searched_tag in
          (
            tag_exists,
            add_tags tags_cache img.namespace img.name (record tag_info {
              checked_tags = insert searched_tag tag_exists tag_info.checked_tags;
            }),
          )
    ]

unfoldable pub does_tag_exist :
    (String → Bool) → DockerImage → String → DockerTagsCache → DockerHubApi → Bool × DockerTagsCache
unfolding get_image_tag_info check_tag
does_tag_exist is_version img searched_tag tags_cache api =
    let (info, tags_cache') = get_image_tag_info is_version img tags_cache api in
    elim info [
      | none ↦ (true, tags_cache')
      | some tag_info ↦ check_tag img searched_tag api tag_info tags_cache'
    ]
