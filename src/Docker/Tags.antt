-- ===== src/Docker/Tags.antt =====
-- The memory of the Docker caches, and the tag that is recommended.
use circleci_yaml_language_s.Prelude.{
  ◌≡◌, refl, String, Bool, true, false, ◌||◌, Option-cases, Bool-cases, List-cases, inl, inr, ◌⊎◌,
  none, some, List, [], ◌∷◌, arith, string_eq, subst, sym, ◌==◌, if◌then◌else◌, contains,
}
use circleci_yaml_language_s.Prelude.Dict.{Dict, lookup, insert, lookup-insert, lookup-nil}
use circleci_yaml_language_s.Docker.{
  DockerCache, DockerTagsCache, CachedDockerTags, DockerHubApi, DockerImage,
  is_docker_image_checkable, does_docker_image_exists, without_latest, first_version,
  choose_tag_to_recommend, tags_for_cache, get_image_tag_info, check_tag, does_tag_exist, get_tags,
  add_tags, add, tags_key,
}

-- An answer that was given is given again, whatever Docker Hub says later, and the cache stays.
pub does_docker_image_exists_again :
    (img : DockerImage) (docker_cache : DockerCache) (api api' : DockerHubApi)
    → does_docker_image_exists img (does_docker_image_exists img docker_cache api).1 api'
      ≡ does_docker_image_exists img docker_cache api
unfolding does_docker_image_exists add
does_docker_image_exists_again img docker_cache api api' =
    elim (Bool-cases (is_docker_image_checkable img)) [
      | inr bad ↦ ground (arith, bad)
      | inl good ↦ elim (Option-cases (lookup img.full_path docker_cache)) [
        | inl new ↦ ground (
          arith,
          good,
          new,
          lookup-insert img.full_path img.full_path
              (record { checked = true; exists = api.does_image_exist img.namespace img.name })
              docker_cache,
        )
        | inr (cached, old) ↦ ground (arith, good, old)
      ]
    ]

lookup-tags_for_cache :
    (tags : List String) (d : Dict String Bool) (t : String)
    → lookup t (tags_for_cache tags d) ≡ (if contains tags t then some true else lookup t d)
unfolding tags_for_cache
lookup-tags_for_cache [] d t = refl
lookup-tags_for_cache (tag ∷ tags) d t =
    ground (arith, lookup-tags_for_cache tags (insert tag true d) t, lookup-insert t tag true d)

first_version-chosen :
    (is_version : String → Bool) (tags : List String) (t : String)
    → first_version is_version tags ≡ some t
    → (contains tags t ≡ true) × (is_version t ≡ true)
unfolding first_version
first_version-chosen is_version [] t h = absurd (ground arith)
first_version-chosen is_version (tag ∷ tags) t h = elim (Bool-cases (is_version tag)) [
  | inl good ↦ (ground (arith, good, h), ground (arith, good, h))
  | inr bad ↦
      let (here, version) = first_version-chosen is_version tags t (ground (arith, bad, h)) in
      (ground (arith, here), version)
]

first_version-none :
    (is_version : String → Bool) (tags : List String)
    → first_version is_version tags ≡ none
    → (t : String) → contains tags t ≡ true
    → is_version t ≡ false
unfolding first_version
first_version-none is_version [] h t c = absurd (ground arith)
first_version-none is_version (tag ∷ tags) h t c =
    let bad : is_version tag ≡ false = ground arith in
    elim (Bool-cases (t == tag)) [
      | inl same ↦ ground (arith, same, bad)
      | inr other ↦
          first_version-none is_version tags (ground (arith, bad, h)) t (ground (arith, other, c))
    ]

contains-without_latest :
    (tags : List String) (t : String)
    → contains (without_latest tags) t ≡ (if t == "latest" then false else contains tags t)
unfolding without_latest
contains-without_latest [] t = ground arith
contains-without_latest (tag ∷ tags) t = ground (arith, contains-without_latest tags t)

-- What a good choice among `tags` is: one of them that is not `latest`, and a version if there is a
-- version among them.
abbrev pub IsChoice : (String → Bool) → List String → String → Type 0
IsChoice is_version tags t =
    (contains tags t ≡ true)
    × ((t == "latest") ≡ false)
    × ((s : String)
        → contains tags s ≡ true
        → (s == "latest") ≡ false
        → is_version s ≡ true
        → is_version t ≡ true)

choose_tag_to_recommend-IsChoice :
    (is_version : String → Bool) (tags : List String) (t : String)
    → (contains (without_latest tags) t ≡ true)
      × ((s : String)
          → contains (without_latest tags) s ≡ true
          → is_version s ≡ true
          → is_version t ≡ true)
    → IsChoice is_version tags t
choose_tag_to_recommend-IsChoice is_version tags t (here, best) = (
  ground (arith, contains-without_latest tags t, here),
  ground (arith, contains-without_latest tags t, here),
  λ s c other version. best s (ground (arith, contains-without_latest tags s, c, other)) version,
)

-- The recommended tag is one of the tags other than `latest`, and a version if there is one among
-- them; it is the empty text where there are no other tags.
pub choose_tag_to_recommend_lem :
    (is_version : String → Bool) (tags : List String)
    → IsChoice is_version tags (choose_tag_to_recommend is_version tags)
      ⊎ ((choose_tag_to_recommend is_version tags ≡ "")
          × ((t : String) → contains tags t ≡ true → (t == "latest") ≡ true))
unfolding choose_tag_to_recommend
choose_tag_to_recommend_lem is_version tags = elim (List-cases (without_latest tags)) [
  | inl empty ↦ inr (
    rw (empty, choose_tag_to_recommend) refl,
    λ t c. ground (arith, contains-without_latest tags t, c, empty),
  )
  | inr (tag, rest, e) ↦ elim (Option-cases (first_version is_version (tag ∷ rest))) [
    | inl bad ↦
        let chosen : choose_tag_to_recommend is_version tags ≡ tag = ground (arith, e, bad) in
        inl (
          subst (IsChoice is_version tags) (sym chosen) (
            choose_tag_to_recommend-IsChoice is_version tags tag (
              ground (arith, e),
              λ s c version. ground (
                arith,
                version,
                first_version-none is_version (tag ∷ rest) bad s (ground (arith, e, c)),
              ),
            )))
    | inr (t, good) ↦
        let chosen : choose_tag_to_recommend is_version tags ≡ t = ground (arith, e, good) in
        let (here, version) = first_version-chosen is_version (tag ∷ rest) t good in
        inl (
          subst (IsChoice is_version tags) (sym chosen) (
            choose_tag_to_recommend-IsChoice is_version tags t
              (ground (arith, e, here), λ s c v. version)))
  ]
]

module _ (is_version : String → Bool) (img : DockerImage) (api api' : DockerHubApi) where
  -- The information of the image, once it is in the cache, answers without Docker Hub.
  check_tag-cached :
      (t : String) (tag_info : CachedDockerTags) (c : DockerTagsCache)
      → get_tags c img.namespace img.name ≡ some tag_info
      → does_tag_exist is_version img t (check_tag img t api tag_info c).1 api'
        ≡ check_tag img t api tag_info c
  unfolding does_tag_exist check_tag get_image_tag_info get_tags add_tags
  check_tag-cached t tag_info c h = elim (Option-cases (lookup t tag_info.checked_tags)) [
    | inr (found, e) ↦ ground (arith, h, e)
    | inl new ↦ ground (
      arith,
      h,
      new,
      lookup-insert (tags_key img.namespace img.name) (tags_key img.namespace img.name)
          (record tag_info {
            checked_tags =
                insert t (api.image_has_tag img.namespace img.name t) tag_info.checked_tags;
          })
          c,
      lookup-insert t t (api.image_has_tag img.namespace img.name t) tag_info.checked_tags,
    )
  ]

  abbrev fetched : List String → CachedDockerTags
  fetched tags = record {
    recommended = choose_tag_to_recommend is_version tags;
    checked_tags = tags_for_cache tags [];
  }

  -- With an answer of Docker Hub, the search of a tag is one in some information of the cache.
  does_tag_exist-check_tag :
      (t : String) (c : DockerTagsCache) (tags : List String)
      → api.get_image_tags img.namespace img.name ≡ some tags
      → (tag_info : CachedDockerTags) × (c' : DockerTagsCache) × (get_tags c' img.namespace img.name
          ≡ some tag_info)
        × (does_tag_exist is_version img t c api ≡ check_tag img t api tag_info c')
  unfolding does_tag_exist get_image_tag_info get_tags add_tags
  does_tag_exist-check_tag t c tags answered =
      elim (Option-cases (get_tags c img.namespace img.name)) [
        | inr (tag_info, e) ↦ (tag_info, c, e, ground (arith, e))
        | inl new ↦ (
          fetched tags,
          add_tags c img.namespace img.name (fetched tags),
          ground (
            arith,
            lookup-insert (tags_key img.namespace img.name) (tags_key img.namespace img.name)
                (fetched tags) c,
          ),
          ground (arith, new, answered),
        )
      ]

  -- Where Docker Hub lists the tags of the image, the answer about a tag is given again, whatever
  -- Docker Hub says later, and the cache stays as it is.
  pub does_tag_exist_again :
      (t : String) (c : DockerTagsCache) (tags : List String)
      → api.get_image_tags img.namespace img.name ≡ some tags
      → does_tag_exist is_version img t (does_tag_exist is_version img t c api).1 api'
        ≡ does_tag_exist is_version img t c api
  does_tag_exist_again t c tags answered =
      let (tag_info, c', known, e) = does_tag_exist-check_tag t c tags answered in
      rw e (check_tag-cached t tag_info c' known)

-- For an image that is not in the cache and whose tags Docker Hub lists, a tag exists exactly
-- where it is listed or Docker Hub says that the image has it.
pub does_tag_exist_new :
    (is_version : String → Bool) (img : DockerImage) (api : DockerHubApi) (t : String)
    (c : DockerTagsCache) (tags : List String)
    → get_tags c img.namespace img.name ≡ none
    → api.get_image_tags img.namespace img.name ≡ some tags
    → (does_tag_exist is_version img t c api).0
      ≡ (contains tags t || api.image_has_tag img.namespace img.name t)
unfolding does_tag_exist get_image_tag_info check_tag get_tags
does_tag_exist_new is_version img api t c tags new answered =
    ground (arith, new, answered, lookup-tags_for_cache tags [] t, lookup-nil {V = Bool} t)
