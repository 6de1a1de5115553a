-- ===== src/Names/Clashes.antt =====
-- When `CheckNames` is silent.
use circleci_yaml_language_s.Prelude.{
  ◌≡◌, ◌↔◌, refl, false, List, [], ◌∷◌, ◌++◌, arith, string_eq, All, ◌∙◌,
}
use circleci_yaml_language_s.Names.{NamedEntity, is_clash, check_against, check_names}

-- No two entities, in any order, share a name and differ in kind.
abbrev pub IsClear : List NamedEntity → Type 0
IsClear entities = All (λ a. All (λ b. is_clash a b ≡ false) entities) entities

is_clash_sym : (a b : NamedEntity) → is_clash a b ≡ is_clash b a
is_clash_sym a b = ground arith

is_clash_self : (a : NamedEntity) → is_clash a a ≡ false
is_clash_self a = ground arith

append_empty : {A : Type 0} (xs ys : List A) → xs ++ ys ≡ [] → (xs ≡ []) × (ys ≡ [])
append_empty [] ys h = (refl, h)
append_empty (x ∷ xs) ys h = absurd (ground arith)

check_against-silent :
    (a : NamedEntity) (entities : List NamedEntity)
    → check_against a entities ≡ []
    → All (λ b. is_clash a b ≡ false) entities
unfolding check_against
check_against-silent a [] h = tt
check_against-silent a (b ∷ entities) h =
    let clear : is_clash a b ≡ false = ground arith in
    (clear, check_against-silent a entities (ground (arith, clear)))

check_against-silent_from :
    (a : NamedEntity) (entities : List NamedEntity)
    → All (λ b. is_clash a b ≡ false) entities
    → check_against a entities ≡ []
unfolding check_against
check_against-silent_from a [] all = refl
check_against-silent_from a (b ∷ entities) (clear, all) =
    rw (clear, check_against-silent_from a entities all) refl

extend :
    (a : NamedEntity) (entities within : List NamedEntity)
    → All (λ b. is_clash a b ≡ false) entities
    → All (λ x. All (λ b. is_clash x b ≡ false) within) entities
    → All (λ x. All (λ b. is_clash x b ≡ false) (a ∷ within)) entities
extend a [] within here all = tt
extend a (x ∷ entities) within (h, here) (xs, all) =
    ((is_clash_sym x a ∙ h, xs), extend a entities within here all)

restrict :
    (a : NamedEntity) (entities within : List NamedEntity)
    → All (λ x. All (λ b. is_clash x b ≡ false) (a ∷ within)) entities
    → All (λ x. All (λ b. is_clash x b ≡ false) within) entities
restrict a [] within all = tt
restrict a (x ∷ entities) within ((_, xs), all) = (xs, restrict a entities within all)

check_names-IsClear : (entities : List NamedEntity) → check_names entities ≡ [] → IsClear entities
unfolding check_names
check_names-IsClear [] h = tt
check_names-IsClear (a ∷ entities) h =
    let (here, rest) = append_empty (check_against a entities) (check_names entities) h in
    let clear = check_against-silent a entities here in
    ((is_clash_self a, clear), extend a entities entities clear (check_names-IsClear entities rest))

check_names_of-IsClear :
    (entities : List NamedEntity) → IsClear entities → check_names entities ≡ []
unfolding check_names
check_names_of-IsClear [] clear = refl
check_names_of-IsClear (a ∷ entities) ((_, here), all) = rw (
  check_against-silent_from a entities here,
  check_names_of-IsClear entities (restrict a entities entities all),
)

-- The validation is silent exactly where no two entities, in whatever order, have the same name and
-- different kinds; two of one kind may share a name.
pub check_names-silent :
    (entities : List NamedEntity) → check_names entities ≡ [] ↔ IsClear entities
check_names-silent entities = (check_names-IsClear entities, check_names_of-IsClear entities)
