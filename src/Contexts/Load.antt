-- ===== src/Contexts/Load.antt =====
-- pkg/utils/context.go: the contexts that the API lists are put into the store and the cache. The
-- answers of the API are an argument; how they travel (URLs, JSON, HTTP) is not modelled.
use circleci_yaml_language_s.Prelude.{
  ◌+◌, String, Bool, true, false, Option, none, some, List, [], ◌∷◌, ◌==◌, nat_eq, if◌then◌else◌,
  map, contains, string_eq, ◌++◌, not,
}
use circleci_yaml_language_s.Contexts.{
  Context, Address, ContextCache, set_organization_context, get_organization_context,
}

-- The objects that pointers lead to, the next free address, and the cache.
pub record Store : Type 0 where
  pub object : Address → Context
  pub next : Address
  pub cache : ContextCache

-- ContextResponse, with the names of its environment variables
pub record Item : Type 0 where
  pub id : String
  pub name : String
  pub created_at : String
  pub environment_variables : List String

pub data Response : Type 0 where
  failed : Response
  page : List Item → (has_next : Bool) → Response

unfoldable pub put_object : (Address → Context) → Address → Context → Address → Context
put_object object a ctx b = if b == a then ctx else object b

-- cache.ContextCache.SetOrganizationContext(orgID, &Context{...})
unfoldable pub add_new : String → Item → Store → Store
unfolding put_object
add_new org_id c s =
    let ctx : Context = record {
      id = c.id;
      name = c.name;
      created_at = c.created_at;
      env_variables = c.environment_variables;
    } in
    record {
      object = put_object s.object s.next ctx;
      next = s.next + 1;
      cache = set_organization_context s.cache org_id s.next c.name;
    }

unfoldable pub add_items : String → List Item → Store → Store
add_items org_id [] s = s
add_items org_id (c ∷ items) s = add_items org_id items (add_new org_id c s)

-- The loop of `GetAllContext`: whether it returned without an error, and the store. `none` means
-- that an answer is still awaited.
unfoldable pub get_all_context : String → List Response → Store → Option (Bool × Store)
get_all_context org_id [] s = none
get_all_context org_id (failed ∷ _) s = some (false, s)
get_all_context org_id (page items has_next ∷ responses) s =
    let s' = add_items org_id items s in
    let rest = get_all_context org_id responses s' in if has_next then rest else some (true, s')

unfoldable pub set_env_variables : Address → List String → Store → Store
unfolding put_object
set_env_variables a names s = record s {
  object = put_object s.object a (record (s.object a) { env_variables = names });
}

-- The body of the inner loop of `GetAllContextWithEnvVars`.
unfoldable pub update_or_add : String → Item → Store → Store
unfolding set_env_variables
update_or_add org_id c s = elim (get_organization_context s.cache org_id c.name) [
  | some existing ↦ set_env_variables existing c.environment_variables s
  | none ↦ add_new org_id c s
]

unfoldable pub update_items : String → List Item → Store → Store
update_items org_id [] s = s
update_items org_id (c ∷ items) s = update_items org_id items (update_or_add org_id c s)

unfoldable pub get_all_context_with_env_vars :
    String → List Response → Store → Option (Bool × Store)
get_all_context_with_env_vars org_id [] s = none
get_all_context_with_env_vars org_id (failed ∷ _) s = some (false, s)
get_all_context_with_env_vars org_id (page items has_next ∷ responses) s =
    let s' = update_items org_id items s in
    let rest = get_all_context_with_env_vars org_id responses s' in
    if has_next then rest else some (true, s')

-- `AddEnvVariableToOrganizationContext`; `none` is the panic on a missing context.
unfoldable pub add_env_variable : String → String → String → Store → Option Store
unfolding set_env_variables
add_env_variable org_id name env_variable s = elim (get_organization_context s.cache org_id name) [
  | none ↦ none
  | some a ↦ some (
      if not (contains (s.object a).env_variables env_variable)
      then set_env_variables a ((s.object a).env_variables ++ env_variable ∷ []) s
      else s)
]

-- `GetAllContextEnvVariables`: each variable beside the context that it was asked by.
unfoldable pub get_all_context_env_variables : Store → String → List String → List (String × String)
get_all_context_env_variables s org_id [] = []
get_all_context_env_variables s org_id (context ∷ contexts) =
    let rest = get_all_context_env_variables s org_id contexts in
    elim (get_organization_context s.cache org_id context) [
      | none ↦ rest
      | some a ↦ map (λ v. (v, context)) (s.object a).env_variables ++ rest
    ]
