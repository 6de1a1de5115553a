-- ===== src/Requires/Statuses.antt =====
-- When the statuses of a requirement can be simplified to `terminal`.
use circleci_yaml_language_s.Prelude.{
  ◌≡◌, ◌↔◌, refl, String, Bool, true, false, Option-cases, Bool-cases, inl, inr, some, List, [],
  ◌∷◌, arith, contains, string_eq, if◌then◌else◌, length, subst,
}
use circleci_yaml_language_s.Prelude.Dict.{
  Dict, lookup, insert, IsMap, IsMap-insert, lookup-insert, lookup-nil,
}
use circleci_yaml_language_s.Requires.{
  terminal_job_statuses, add_unfound, mark_found, all_found, require_has_all_terminal_statuses,
}

lookup-add_unfound :
    (ts : List String) (d : Dict String Bool) (x : String)
    → lookup x (add_unfound ts d) ≡ (if contains ts x then some false else lookup x d)
unfolding add_unfound
lookup-add_unfound [] d x = refl
lookup-add_unfound (t ∷ ts) d x =
    ground (arith, lookup-add_unfound ts (insert t false d) x, lookup-insert x t false d)

IsMap-add_unfound : (ts : List String) (d : Dict String Bool) → IsMap d → IsMap (add_unfound ts d)
unfolding add_unfound
IsMap-add_unfound [] d m = m
IsMap-add_unfound (t ∷ ts) d m = IsMap-add_unfound ts (insert t false d) (IsMap-insert t false d m)

-- What the loop leaves where it does not return early.
record Marked (ss : List String) (d d' : Dict String Bool) : Type 0 where
  is_map : IsMap d → IsMap d'
  found : (x : String) → lookup x d' ≡ (if contains ss x then some true else lookup x d)
  known : (x : String) → contains ss x ≡ true → (v : Bool) × (lookup x d ≡ some v)

same_of_some : (d d' : Dict String Bool) → some d ≡ some d' → d ≡ d'
same_of_some d d' h = ground arith

mark_found-Marked :
    (ss : List String) (d d' : Dict String Bool) → mark_found ss d ≡ some d' → Marked ss d d'
unfolding mark_found
mark_found-Marked [] d d' h = record {
  is_map = λ m. subst IsMap (same_of_some d d' h) m;
  found = λ x. ground arith;
  known = λ x c. absurd (ground arith);
}
mark_found-Marked (s ∷ ss) d d' h = elim (Option-cases (lookup s d)) [
  | inl e ↦ absurd (ground (arith, e))
  | inr (v, e) ↦
      let m = mark_found-Marked ss (insert s true d) d' (ground (arith, e)) in
      record {
        is_map = λ u. m.is_map (IsMap-insert s true d u);
        found = λ x. ground (arith, m.found x, lookup-insert x s true d);
        known = λ x c. elim (string_eq.dec x s) [
          | yes p ↦ (v, rw (p, e) refl)
          | no p ↦
              let (w, q) = m.known x (ground arith) in (w, ground (arith, lookup-insert x s true d))
        ];
      }
]

mark_found_total :
    (ss : List String) (d : Dict String Bool)
    → ((x : String) → contains ss x ≡ true → (v : Bool) × (lookup x d ≡ some v))
    → (d' : Dict String Bool) × (mark_found ss d ≡ some d')
unfolding mark_found
mark_found_total [] d h = (d, refl)
mark_found_total (s ∷ ss) d h =
    let (v, e) = h s (ground arith) in
    let (d', ran) = mark_found_total ss (insert s true d) (λ x c. elim (string_eq.dec x s) [
      | yes p ↦ (true, ground (arith, lookup-insert x s true d))
      | no p ↦ let (w, q) = h x (ground arith) in (w, ground (arith, lookup-insert x s true d))
    ]) in
    (d', ground (arith, e, ran))

all_found-true :
    (d : Dict String Bool) (x : String) (v : Bool)
    → all_found d ≡ true
    → lookup x d ≡ some v
    → v ≡ true
unfolding all_found lookup
all_found-true [] x v h e = ground arith
all_found-true ((y, w) ∷ d) x v h e = ground (arith, all_found-true d x v)

all_found_of_true :
    (d : Dict String Bool)
    → IsMap d
    → ((x : String) (v : Bool) → lookup x d ≡ some v → v ≡ true)
    → all_found d ≡ true
unfolding all_found lookup
all_found_of_true [] m h = refl
all_found_of_true ((y, w) ∷ d) (fresh, m) h =
    ground
      (arith, h y w (ground arith), all_found_of_true d m (λ x v e. h x v (ground (arith, fresh))))

same_members_to :
    (ts ss : List String) (d' : Dict String Bool)
    → mark_found ss (add_unfound ts []) ≡ some d'
    → all_found d' ≡ true
    → (x : String) → contains ss x ≡ contains ts x
same_members_to ts ss d' ran all x =
    let m = mark_found-Marked ss (add_unfound ts []) d' ran in
    elim (Bool-cases (contains ss x)) [
      | inl here ↦
          let (v, e) = m.known x here in
          ground (arith, here, e, lookup-add_unfound ts [] x, lookup-nil {V = Bool} x)
      | inr gone ↦ elim (Bool-cases (contains ts x)) [
        | inr unknown ↦ ground (arith, gone, unknown)
        | inl terminal ↦ absurd (
            ground (
              arith,
              all_found-true d' x false all
                  (ground (arith, m.found x, gone, terminal, lookup-add_unfound ts [] x)),
            ))
      ]
    ]

same_members_from :
    (ts ss : List String)
    → ((x : String) → contains ss x ≡ contains ts x)
    → (d' : Dict String Bool) × (mark_found ss (add_unfound ts []) ≡ some d')
      × (all_found d' ≡ true)
same_members_from ts ss same =
    let (d', ran) =
      mark_found_total ss (add_unfound ts [])
        (λ x c. (false, ground (arith, lookup-add_unfound ts [] x, same x))) in
    let m = mark_found-Marked ss (add_unfound ts []) d' ran in
    (
      d',
      ran,
      all_found_of_true d' (m.is_map (IsMap-add_unfound ts [] tt)) (λ x v e.
          ground
            (arith, e, m.found x, same x, lookup-add_unfound ts [] x, lookup-nil {V = Bool} x)),
    )

-- The statuses can be simplified exactly where they are as many as the terminal ones and have the
-- same members, so each terminal status stands there once, in any order.
pub require_has_all_terminal_statuses_iff :
    (statuses : List String)
    → require_has_all_terminal_statuses statuses ≡ true ↔ (
        (length statuses ≡ length terminal_job_statuses)
        × ((s : String) → contains statuses s ≡ contains terminal_job_statuses s))
unfolding require_has_all_terminal_statuses
require_has_all_terminal_statuses_iff statuses = (
  λ h. elim (Option-cases (mark_found statuses (add_unfound terminal_job_statuses []))) [
    | inl stopped ↦ absurd (ground (arith, h, stopped))
    | inr (d', ran) ↦ (
      ground (arith, h),
      same_members_to terminal_job_statuses statuses d' ran (ground (arith, h, ran)),
    )
  ],
  λ (size, same).
      let (d', ran, all) = same_members_from terminal_job_statuses statuses same in
      ground (arith, size, ran, all),
)
