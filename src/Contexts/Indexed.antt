-- ===== src/Contexts/Indexed.antt =====
-- Every key of the context cache is a name of the context that it leads to.
use circleci_yaml_language_s.Prelude.{
  ◌<◌, ◌⊎◌, ◌≡◌, ◌≢◌, subst, List, [], ◌∷◌, String, Bool, true, false, none, some, arith, nat_eq,
  string_eq, Option-cases, inl, inr,
}
use circleci_yaml_language_s.Prelude.Dict.{lookup}
use circleci_yaml_language_s.Contexts.{
  Address, org_map, get_organization_context, resolve_workflow_context, short_name, joined,
}
use circleci_yaml_language_s.Contexts.Lookup.{get-set_organization_context_inv}
use circleci_yaml_language_s.Contexts.Load.{
  Store, Item, Response, failed, page, add_new, add_items, get_all_context, set_env_variables,
  update_or_add, update_items, get_all_context_with_env_vars,
}

-- `name` is the full name or the part behind its last slash.
abbrev pub Names : String → String → Type 0
Names full key = (full ≡ key) ⊎ (short_name full ≡ some key)

pub record IsIndexed (s : Store) : Type 0 where
  pub allocated :
      (o k : String) (a : Address) → get_organization_context s.cache o k ≡ some a → a < s.next
  pub named :
      (o k : String) (a : Address)
      → get_organization_context s.cache o k ≡ some a
      → Names (s.object a).name k

add_new-IsIndexed : (o : String) (c : Item) (s : Store) → IsIndexed s → IsIndexed (add_new o c s)
unfolding add_new
add_new-IsIndexed o c s h = record {
  allocated = λ p k a e.
      ground (
        arith,
        get-set_organization_context_inv s.cache o s.next c.name p k a e,
        h.allocated p k a,
      );
  named = λ p k a e. ground (
    arith,
    get-set_organization_context_inv s.cache o s.next c.name p k a e,
    h.allocated p k a,
    h.named p k a,
  );
}

set_env_variables-IsIndexed :
    (a : Address) (names : List String) (s : Store)
    → IsIndexed s
    → IsIndexed (set_env_variables a names s)
unfolding set_env_variables
set_env_variables-IsIndexed a names s h = record {
  allocated = h.allocated;
  named = λ p k b e. ground (arith, h.named p k b e);
}

update_or_add-IsIndexed :
    (o : String) (c : Item) (s : Store) → IsIndexed s → IsIndexed (update_or_add o c s)
unfolding update_or_add
update_or_add-IsIndexed o c s h = elim (Option-cases (get_organization_context s.cache o c.name)) [
  | inl absent ↦ rw (absent, update_or_add) (add_new-IsIndexed o c s h)
  | inr (a, found) ↦
      rw (found, update_or_add) (set_env_variables-IsIndexed a c.environment_variables s h)
]

add_items-IsIndexed :
    (o : String) (items : List Item) (s : Store) → IsIndexed s → IsIndexed (add_items o items s)
unfolding add_items
add_items-IsIndexed o [] s h = h
add_items-IsIndexed o (c ∷ items) s h =
    add_items-IsIndexed o items (add_new o c s) (add_new-IsIndexed o c s h)

update_items-IsIndexed :
    (o : String) (items : List Item) (s : Store) → IsIndexed s → IsIndexed (update_items o items s)
unfolding update_items
update_items-IsIndexed o [] s h = h
update_items-IsIndexed o (c ∷ items) s h =
    update_items-IsIndexed o items (update_or_add o c s) (update_or_add-IsIndexed o c s h)

-- `GetAllContext` keeps every key a name of the context that it leads to, whatever the API answers
-- and wherever it fails.
pub get_all_context-IsIndexed :
    (o : String) (responses : List Response) (s s' : Store) (returned : Bool)
    → IsIndexed s
    → get_all_context o responses s ≡ some (returned, s')
    → IsIndexed s'
unfolding get_all_context
get_all_context-IsIndexed o [] s s' r h e = absurd (ground arith)
get_all_context-IsIndexed o (failed ∷ _) s s' r h e =
    let same : s ≡ s' = ground arith in subst IsIndexed same h
get_all_context-IsIndexed o (page items true ∷ responses) s s' r h e =
    get_all_context-IsIndexed o responses (add_items o items s) s' r
      (add_items-IsIndexed o items s h) e
get_all_context-IsIndexed o (page items false ∷ responses) s s' r h e =
    let same : add_items o items s ≡ s' = ground arith in
    subst IsIndexed same (add_items-IsIndexed o items s h)

-- So does `GetAllContextWithEnvVars`.
pub get_all_context_with_env_vars-IsIndexed :
    (o : String) (responses : List Response) (s s' : Store) (returned : Bool)
    → IsIndexed s
    → get_all_context_with_env_vars o responses s ≡ some (returned, s')
    → IsIndexed s'
unfolding get_all_context_with_env_vars
get_all_context_with_env_vars-IsIndexed o [] s s' r h e = absurd (ground arith)
get_all_context_with_env_vars-IsIndexed o (failed ∷ _) s s' r h e =
    let same : s ≡ s' = ground arith in subst IsIndexed same h
get_all_context_with_env_vars-IsIndexed o (page items true ∷ responses) s s' r h e =
    get_all_context_with_env_vars-IsIndexed o responses (update_items o items s) s' r
      (update_items-IsIndexed o items s h) e
get_all_context_with_env_vars-IsIndexed o (page items false ∷ responses) s s' r h e =
    let same : update_items o items s ≡ s' = ground arith in
    subst IsIndexed same (update_items-IsIndexed o items s h)

-- What the workflow's name `w` may resolve to.
abbrev pub ResolvesTo : String → String → String → Type 0
ResolvesTo slug w full =
    Names full w
    ⊎ ((short : String) × (short_name w ≡ some short) × Names full short)
    ⊎ ((slug ≢ "") × (short_name w ≡ none) × Names full (joined slug w))

-- In such a store a workflow's context name resolves only to a context that has that name, or that
-- has the part behind its last slash, or, for a name with no slash, the slug and the name joined.
pub resolve_workflow_context-ResolvesTo :
    (s : Store) (o slug w : String) (a : Address)
    → IsIndexed s
    → resolve_workflow_context s.cache o slug w ≡ some a
    → ResolvesTo slug w (s.object a).name
unfolding resolve_workflow_context get_organization_context
resolve_workflow_context-ResolvesTo s o slug w a h e =
    elim (Option-cases (lookup w (org_map s.cache o))) [
      | inr (b, found) ↦ inl (h.named o w a (ground arith))
      | inl absent ↦ elim (Option-cases (short_name w)) [
        | inr (short, is_short) ↦ inr (inl (short, is_short, h.named o short a (ground arith)))
        | inl plain ↦ inr (inr (ground arith, plain, h.named o (joined slug w) a (ground arith)))
      ]
    ]
