-- ===== src/JobGroups/Duplicates.antt =====
-- Which invocations of job groups `validateDuplicateJobGroupInvocations` accepts.
use circleci_yaml_language_s.Prelude.{
  ◌<◌, ◌≤◌, ◌≡◌, ◌↔◌, ◌⊎◌, inl, inr, refl, String, Bool, true, false, List, [], ◌∷◌, ◌++◌, arith,
  contains, count, string_eq, ◌==◌, if◌then◌else◌, map, Bool-cases, sym, Option-cases, All, length,
  ltb,
}
use circleci_yaml_language_s.Prelude.Dict.{
  Dict, keys, lookup, insert, lookup-insert, lookup-nil, contains-keys_of_lookup,
}
use circleci_yaml_language_s.Syntax.{JobInvocation}
use circleci_yaml_language_s.Diagnostics.{Diagnostic}
use circleci_yaml_language_s.Cycles.Reported.{IsIteration}
use circleci_yaml_language_s.JobGroups.{
  Entry, entry_of, entries, has_been_renamed, collect, check_entries, check_group, check_groups,
  validate_duplicate_job_group_invocations,
}

append_empty : (xs ys : List Diagnostic) → xs ++ ys ≡ [] → (xs ≡ []) × (ys ≡ [])
append_empty [] ys h = (refl, h)
append_empty (x ∷ xs) ys h = absurd (ground arith)

module _ {Step Value : Type 0} where
  -- The invocations of the group `g`.
  abbrev pub invocations_of :
      String → List (JobInvocation Step Value) → List (JobInvocation Step Value)
  invocations_of g [] = []
  invocations_of g (inv ∷ invs) =
      if g == inv.job_name then inv ∷ invocations_of g invs else invocations_of g invs

  abbrev names_of : List (Entry Step Value) → List String
  names_of es = map (λ e. e.name) es

  append_assoc :
      (xs ys : List (Entry Step Value)) (zs : List (Entry Step Value))
      → (xs ++ ys) ++ zs ≡ xs ++ (ys ++ zs)
  append_assoc [] ys zs = refl
  append_assoc (x ∷ xs) ys zs = ground (arith, append_assoc xs ys zs)

  append_nil : (xs : List (Entry Step Value)) → xs ++ [] ≡ xs
  append_nil [] = refl
  append_nil (x ∷ xs) = ground (arith, append_nil xs)

  entries-collect :
      (ex : String → Bool) (invs : List (JobInvocation Step Value))
      (seen : Dict String (List (Entry Step Value))) (g : String)
      → entries (lookup g (collect ex invs seen))
        ≡ entries (lookup g seen) ++ (if ex g then map entry_of (invocations_of g invs) else [])
  unfolding collect
  entries-collect ex [] seen g = ground (arith, append_nil (entries (lookup g seen)))
  entries-collect ex (inv ∷ invs) seen g = elim (Bool-cases (ex inv.job_name)) [
    | inl e ↦ ground (
      arith,
      e,
      entries-collect ex invs
          (insert inv.job_name (entries (lookup inv.job_name seen) ++ entry_of inv ∷ []) seen) g,
      lookup-insert g inv.job_name (entries (lookup inv.job_name seen) ++ entry_of inv ∷ []) seen,
      append_assoc (entries (lookup inv.job_name seen)) (entry_of inv ∷ [])
          (map entry_of (invocations_of g invs)),
    )
    | inr e ↦ ground (arith, e, entries-collect ex invs seen g)
  ]

  check_entries-silent :
      (g : String) (names : List String) (es : List (Entry Step Value))
      → check_entries g names es ≡ []
      → All (λ e. e.is_renamed ≡ true) es
        × ((x : String) → count x (names_of es) ≤ (if contains names x then 0 else 1))
  unfolding check_entries
  check_entries-silent g names [] h = (tt, λ x. ground arith)
  check_entries-silent g names (e ∷ es) h =
      let renamed : e.is_renamed ≡ true = ground arith in
      let fresh : contains names e.name ≡ false = ground arith in
      let (all, distinct) =
        check_entries-silent g (e.name ∷ names) es (ground (arith, renamed, fresh)) in
      ((renamed, all), λ x. ground (arith, distinct x, fresh))

  check_entries-silent_from :
      (g : String) (names : List String) (es : List (Entry Step Value))
      → All (λ e. e.is_renamed ≡ true) es
      → ((x : String) → count x (names_of es) ≤ (if contains names x then 0 else 1))
      → check_entries g names es ≡ []
  unfolding check_entries
  check_entries-silent_from g names [] all distinct = refl
  check_entries-silent_from g names (e ∷ es) (renamed, all) distinct =
      let fresh : contains names e.name ≡ false = ground (arith, distinct e.name) in
      let rest =
        check_entries-silent_from g (e.name ∷ names) es all
          (λ x. ground (arith, distinct x, fresh)) in
      ground (arith, renamed, fresh, rest)

  check_groups-silent :
      (seen : Dict String (List (Entry Step Value))) (gs : List String)
      → check_groups seen gs ≡ []
      → (g : String) → contains gs g ≡ true
      → check_group g (entries (lookup g seen)) ≡ []
  unfolding check_groups
  check_groups-silent seen [] h g c = absurd (ground arith)
  check_groups-silent seen (g' ∷ gs) h g c =
      let (here, rest) =
        append_empty (check_group g' (entries (lookup g' seen))) (check_groups seen gs) h in
      elim (Bool-cases (g == g')) [
        | inl same ↦ ground (arith, same, here)
        | inr other ↦ check_groups-silent seen gs rest g (ground (arith, other, c))
      ]

  check_groups-silent_from :
      (seen : Dict String (List (Entry Step Value))) (gs : List String)
      → ((g : String) → check_group g (entries (lookup g seen)) ≡ [])
      → check_groups seen gs ≡ []
  unfolding check_groups
  check_groups-silent_from seen [] h = refl
  check_groups-silent_from seen (g ∷ gs) h = ground (arith, h g, check_groups-silent_from seen gs h)

  -- Each of the invocations has a name of its own.
  abbrev pub IsNamed : List (JobInvocation Step Value) → Type 0
  IsNamed invs =
      All (λ inv. has_been_renamed inv ≡ true) invs
      × ((x : String) → count x (map (λ inv. inv.step_name) invs) ≤ 1)

  names_of-entries :
      (invs : List (JobInvocation Step Value))
      → All (λ inv. has_been_renamed inv ≡ true) invs
      → names_of (map entry_of invs) ≡ map (λ inv. inv.step_name) invs
  names_of-entries [] all = refl
  names_of-entries (inv ∷ invs) (r, all) = rw (r, names_of-entries invs all)

  All-entries :
      (invs : List (JobInvocation Step Value))
      → All (λ e. e.is_renamed ≡ true) (map (entry_of {Step = Step} {Value = Value}) invs)
      → All (λ inv. has_been_renamed inv ≡ true) invs
  All-entries [] all = tt
  All-entries (inv ∷ invs) (r, all) = (r, All-entries invs all)

  All-entries_from :
      (invs : List (JobInvocation Step Value))
      → All (λ inv. has_been_renamed inv ≡ true) invs
      → All (λ e. e.is_renamed ≡ true) (map (entry_of {Step = Step} {Value = Value}) invs)
  All-entries_from [] all = tt
  All-entries_from (inv ∷ invs) (r, all) = (r, All-entries_from invs all)

  length-entries :
      (invs : List (JobInvocation Step Value))
      → length (map (entry_of {Step = Step} {Value = Value}) invs) ≡ length invs
  length-entries [] = refl
  length-entries (inv ∷ invs) = ground (arith, length-entries invs)

  check_group-silent :
      (g : String) (invs : List (JobInvocation Step Value))
      → check_group g (map entry_of invs) ≡ [] ↔ ((length invs < 2) ⊎ IsNamed invs)
  check_group-silent g invs = (
    λ h. elim (Bool-cases (ltb (length invs) 2)) [
      | inl few ↦ inl (ground (arith, few))
      | inr many ↦
          let (all, distinct) =
            check_entries-silent g [] (map entry_of invs)
              (ground (arith, many, length-entries invs)) in
          let named = All-entries invs all in
          inr (named, λ x. ground (arith, distinct x, names_of-entries invs named))
    ],
    λ h. elim h [
      | inl few ↦ ground (arith, few, length-entries invs)
      | inr (named, distinct) ↦ ground (
        arith,
        check_entries-silent_from g [] (map entry_of invs) (All-entries_from invs named)
            (λ x. ground (arith, distinct x, names_of-entries invs named)),
      )
    ],
  )

  module _ (order : List String → List String) (it : IsIteration order) (ex : String → Bool)
      (invs : List (JobInvocation Step Value)) where
    abbrev seen : Dict String (List (Entry Step Value))
    seen = collect ex invs []

    check_group-seen :
        check_groups seen (order (keys seen)) ≡ []
        → (g : String) → check_group g (entries (lookup g seen)) ≡ []
    check_group-seen h g = elim (Option-cases (lookup g seen)) [
      | inl e ↦ ground (arith, e)
      | inr (es, e) ↦
          check_groups-silent seen (order (keys seen)) h g
            (ground (arith, it.members (keys seen) g, contains-keys_of_lookup g es seen e))
    ]

    entries-seen :
        (g : String) → ex g ≡ true → entries (lookup g seen) ≡ map entry_of (invocations_of g invs)
    entries-seen g known =
        ground (arith, entries-collect ex invs [] g, lookup-nil {V = List (Entry Step Value)} g)

    entries-unseen : (g : String) → ex g ≡ false → entries (lookup g seen) ≡ []
    entries-unseen g unknown =
        ground (arith, entries-collect ex invs [] g, lookup-nil {V = List (Entry Step Value)} g)

  -- Whatever the order in which Go ranges over the groups, there is no diagnostic exactly where
  -- each job group that exists is invoked less than twice, or else all of its invocations carry a
  -- name of their own, no two the same.
  pub validate_duplicate_job_group_invocations-silent :
      (order : List String → List String) (does_job_group_exist : String → Bool)
      (invs : List (JobInvocation Step Value))
      → IsIteration order
      → validate_duplicate_job_group_invocations order does_job_group_exist invs ≡ [] ↔ (
          (g : String)
          → does_job_group_exist g ≡ true
          → (length (invocations_of g invs) < 2) ⊎ IsNamed (invocations_of g invs))
  unfolding validate_duplicate_job_group_invocations
  validate_duplicate_job_group_invocations-silent order ex invs it = (
    λ h g known.
        (check_group-silent g (invocations_of g invs)).0 (
          rw (sym (entries-seen order it ex invs g known)) (check_group-seen order it ex invs h g)),
    λ h.
        check_groups-silent_from (seen order it ex invs) (order (keys (seen order it ex invs)))
          (λ g. elim (Bool-cases (ex g)) [
            | inl known ↦
                rw (entries-seen order it ex invs g known)
                  ((check_group-silent g (invocations_of g invs)).1 (h g known))
            | inr unknown ↦ rw (entries-unseen order it ex invs g unknown) refl
          ]),
  )
