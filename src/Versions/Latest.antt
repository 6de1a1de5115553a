-- ===== src/Versions/Latest.antt =====
-- `GetVersionInfo` finds the latest versions.
use circleci_yaml_language_s.Prelude.{
  ◌≡◌, ◌⊎◌, inl, inr, refl, String, Bool, true, false, List, [], ◌∷◌, arith, string_eq, ◌==◌,
  if◌then◌else◌, ◌&&◌, All, contains, Bool-cases, ap, ◌∙◌, subst, sym,
}
use circleci_yaml_language_s.Text.{◌+++◌}
use circleci_yaml_language_s.Versions.{
  Semver, LatestVersions, newer, add_version, add_versions, get_version_info,
}

-- `best` is the version at the start or a listed one that passes the test, and no listed one that
-- passes the test is newer; nor is the one at the start.
abbrev pub IsLatest : Semver → (String → Bool) → List String → String → String → Type 0
IsLatest semver passes versions initial best =
    ((best ≡ initial)
      ⊎ ((v : String) × (contains versions v ≡ true) × (best ≡ "v" +++ v) × (passes best ≡ true)))
    × ((semver.is_newer initial best ≡ false)
        × All (λ v. (passes ("v" +++ v) ≡ false) ⊎ (semver.is_newer ("v" +++ v) best ≡ false))
            versions)

-- The loop as it acts on one of the variables.
abbrev best_of : Semver → (String → Bool) → List String → String → String
best_of semver passes [] best = best
best_of semver passes (v ∷ versions) best =
    let current = "v" +++ v in
    best_of semver passes versions (if passes current then newer semver current best else best)

add_version-fields :
    (semver : Semver) (major minor current : String) (v : LatestVersions)
    → ((add_version semver major minor current v).latest ≡ newer semver current v.latest)
      × ((add_version semver major minor current v).latest_minor ≡ (
          if semver.major current == major
          then newer semver current v.latest_minor
          else v.latest_minor))
      × ((add_version semver major minor current v).latest_patch ≡ (
          if semver.major current == major && semver.major_minor current == minor
          then newer semver current v.latest_patch
          else v.latest_patch))
unfolding add_version
add_version-fields semver major minor current v =
    elim (Bool-cases (semver.major current == major)) [
      | inr other ↦ (rw (other) refl, rw (other) refl, rw (other) refl)
      | inl same ↦ elim (Bool-cases (semver.major_minor current == minor)) [
        | inr other ↦ (rw (same, other) refl, rw (same, other) refl, rw (same, other) refl)
        | inl same' ↦ (rw (same, same') refl, rw (same, same') refl, rw (same, same') refl)
      ]
    ]

-- The loop acts on its three variables apart.
add_versions-best :
    (semver : Semver) (major minor : String) (versions : List String) (v : LatestVersions)
    → ((add_versions semver major minor versions v).latest
        ≡ best_of semver (λ c. true) versions v.latest)
      × ((add_versions semver major minor versions v).latest_minor
          ≡ best_of semver (λ c. semver.major c == major) versions v.latest_minor)
      × ((add_versions semver major minor versions v).latest_patch
          ≡ best_of semver
              (λ c. semver.major c == major && semver.major_minor c == minor)
              versions
              v.latest_patch)
unfolding add_versions
add_versions-best semver major minor [] v = (refl, refl, refl)
add_versions-best semver major minor (x ∷ versions) v =
    let current = "v" +++ x in
    let (one, two, three) = add_version-fields semver major minor current v in
    let (a, b, c) =
      add_versions-best semver major minor versions (add_version semver major minor current v) in
    (
      a ∙ ap (best_of semver (λ c. true) versions) one,
      b ∙ ap (best_of semver (λ c. semver.major c == major) versions) two,
      c
          ∙ ap
              (best_of semver (λ c. semver.major c == major && semver.major_minor c == minor)
                versions)
              three,
    )

module _ (semver : Semver) (irreflexive : (v : String) → semver.is_newer v v ≡ false)
    (transitive : (u v w : String)
      → semver.is_newer u v ≡ true
      → semver.is_newer v w ≡ true
      → semver.is_newer u w ≡ true) where
  newer-keeps :
      (current best old : String)
      → semver.is_newer old best ≡ false
      → semver.is_newer old (newer semver current best) ≡ false
  newer-keeps current best old h = elim (Bool-cases (semver.is_newer current best)) [
    | inr not_newer ↦ ground (arith, not_newer, h)
    | inl is_newer ↦ elim (Bool-cases (semver.is_newer old current)) [
      | inr fine ↦ ground (arith, is_newer, fine)
      | inl above ↦
          let over = transitive old current best above is_newer in absurd (ground (arith, over, h))
    ]
  ]

  -- What is not newer than a choice is not newer than a later one.
  best_of-keeps :
      (passes : String → Bool) (versions : List String) (best old : String)
      → semver.is_newer old best ≡ false
      → semver.is_newer old (best_of semver passes versions best) ≡ false
  best_of-keeps passes [] best old h = h
  best_of-keeps passes (v ∷ versions) best old h =
      let current = "v" +++ v in
      best_of-keeps passes versions (if passes current then newer semver current best else best) old
        (elim (Bool-cases (passes current)) [
          | inl good ↦ let keeps = newer-keeps current best old h in ground (arith, good, keeps)
          | inr bad ↦ ground (arith, bad, h)
        ])

  newer-above :
      (current best : String) → semver.is_newer current (newer semver current best) ≡ false
  newer-above current best = elim (Bool-cases (semver.is_newer current best)) [
    | inr not_newer ↦ ground (arith, not_newer)
    | inl is_newer ↦ let self = irreflexive current in ground (arith, is_newer, self)
  ]

  above :
      (passes : String → Bool) (versions : List String) (best : String)
      → All
          (λ v.
            (passes ("v" +++ v) ≡ false)
            ⊎ (semver.is_newer ("v" +++ v) (best_of semver passes versions best) ≡ false))
          versions
  above passes [] best = tt
  above passes (v ∷ versions) best =
      let current = "v" +++ v in
      let next = if passes current then newer semver current best else best in
      (
        elim (Bool-cases (passes current)) [
          | inr bad ↦ inl bad
          | inl good ↦ inr (
              best_of-keeps passes versions next current
                (let top = newer-above current best in ground (arith, good, top)))
        ],
        above passes versions next,
      )

  -- The choice is the first one or a listed version that passes.
  abbrev Origin : (String → Bool) → List String → String → String → Type 0
  Origin passes versions initial best =
      (best ≡ initial)
      ⊎ ((v : String) × (contains versions v ≡ true) × (best ≡ "v" +++ v) × (passes best ≡ true))

  origin :
      (passes : String → Bool) (versions : List String) (initial : String)
      → Origin passes versions initial (best_of semver passes versions initial)
  origin passes [] initial = inl refl
  origin passes (v ∷ versions) initial =
      let current = "v" +++ v in
      let next = if passes current then newer semver current initial else initial in
      let best = best_of semver passes versions next in
      elim (origin passes versions next) [
        | inr (w, listed, e, good) ↦ inr (w, ground (arith, listed), e, good)
        | inl same ↦ elim (Bool-cases (passes current)) [
          | inr bad ↦ inl (ground (arith, same, bad))
          | inl good ↦ elim (Bool-cases (semver.is_newer current initial)) [
            | inr not_newer ↦ inl (ground (arith, same, good, not_newer))
            | inl is_newer ↦
                let is : best ≡ current = ground (arith, same, good, is_newer) in
                inr (v, ground arith, is, ground (arith, is, good))
          ]
        ]
      ]

  best_of-IsLatest :
      (passes : String → Bool) (versions : List String) (initial : String)
      → IsLatest semver passes versions initial (best_of semver passes versions initial)
  best_of-IsLatest passes versions initial = (
    origin passes versions initial,
    (
      best_of-keeps passes versions initial initial (irreflexive initial),
      above passes versions initial,
    ),
  )

-- Where `newer` is irreflexive and transitive, as the order of versions is, each of the three
-- results is the version of the document or a listed one, of the same major version for the second
-- and of the same major and minor version for the third, and no such version is newer.
pub get_version_info-IsLatest :
    (semver : Semver) (versions : List String) (initial_version : String)
    → ((v : String) → semver.is_newer v v ≡ false)
    → ((u v w : String)
        → semver.is_newer u v ≡ true
        → semver.is_newer v w ≡ true
        → semver.is_newer u w ≡ true)
    → IsLatest semver
        (λ c. true)
        versions
        initial_version
        (get_version_info semver versions initial_version).latest
      × IsLatest semver
          (λ c. semver.major c == semver.major initial_version)
          versions
          initial_version
          (get_version_info semver versions initial_version).latest_minor
      × IsLatest semver
          (λ c.
            semver.major c == semver.major initial_version
            && semver.major_minor c == semver.major_minor initial_version)
          versions
          initial_version
          (get_version_info semver versions initial_version).latest_patch
unfolding get_version_info
get_version_info-IsLatest semver versions initial irreflexive transitive =
    let same_major : String → Bool = λ c. semver.major c == semver.major initial in
    let same_minor : String → Bool = λ c.
      semver.major c == semver.major initial
      && semver.major_minor c == semver.major_minor initial in
    let start : LatestVersions = record {
      latest = initial;
      latest_minor = initial;
      latest_patch = initial;
    } in
    let (a, b, c) =
      add_versions-best semver (semver.major initial) (semver.major_minor initial) versions start in
    (
      subst (IsLatest semver (λ c. true) versions initial) (sym a)
          (best_of-IsLatest semver irreflexive transitive (λ c. true) versions initial),
      subst (IsLatest semver same_major versions initial) (sym b)
          (best_of-IsLatest semver irreflexive transitive same_major versions initial),
      subst (IsLatest semver same_minor versions initial) (sym c)
          (best_of-IsLatest semver irreflexive transitive same_minor versions initial),
    )
