-- ===== src/Tests/ContextsTests.antt =====
-- Runs of the context cache.
use circleci_yaml_language_s.Prelude.{
  ◌≡◌, ◌≢◌, refl, String, false, some, [], ◌∷◌, arith, string_dec, true, ℕ_discrete, List,
}
use text.Mathlib.TextEquality.{eq_iff}
use circleci_yaml_language_s.Prelude.Dict.{lookup, insert, delete}
use circleci_yaml_language_s.Contexts.{
  empty_cache, set_organization_context, get_organization_context, resolve_workflow_context,
  is_ambiguous_short_name, short_name,
}
use circleci_yaml_language_s.Contexts.Load.{
  Store, Item, Response, page, failed, add_new, add_items, update_items, get_all_context,
  get_all_context_with_env_vars,
}
use circleci_yaml_language_s.Contexts.Indexed.{
  IsIndexed, ResolvesTo, get_all_context-IsIndexed, resolve_workflow_context-ResolvesTo,
}

abbrev item : String → Item
item name = record { id = "1"; name = name; created_at = ""; environment_variables = [] }

abbrev initial : Store
initial = record {
  object = λ _. record { id = ""; name = ""; created_at = ""; env_variables = [] };
  next = 0;
  cache = empty_cache;
}

runs : Unit {0}
unfolding set_organization_context get_organization_context resolve_workflow_context
    is_ambiguous_short_name short_name lookup insert delete string_dec add_new add_items
    update_items get_all_context get_all_context_with_env_vars ℕ_discrete
runs = tt

initial-IsIndexed : IsIndexed initial
unfolding get_organization_context lookup
initial-IsIndexed = record {
  allocated = λ o k a e. absurd (ground arith);
  named = λ o k a e. absurd (ground arith);
}

abbrev loaded : Store
loaded = add_items "org" (item "team/deploy" ∷ item "plain" ∷ []) initial

short_run : get_organization_context loaded.cache "org" "deploy" ≡ some 0
unfolding runs
short_run = refl

resolve_run : resolve_workflow_context loaded.cache "org" "gh/team" "other/deploy" ≡ some 0
unfolding runs
resolve_run = refl

org_ne : ◌≢◌ {A = String} "other" "org"
org_ne = ground (arith, eq_iff "other" "org")

deploy_ne : ◌≢◌ {A = String} "deploy" ""
deploy_ne = ground (arith, eq_iff "deploy" "")

abbrev answers : List Response
answers = page (item "team/deploy" ∷ []) true ∷ page (item "plain" ∷ []) false ∷ []

get_all_context_run : get_all_context "org" answers initial ≡ some (true, loaded)
unfolding runs
get_all_context_run = refl

loaded-IsIndexed : IsIndexed loaded
loaded-IsIndexed =
    get_all_context-IsIndexed "org" answers initial loaded true initial-IsIndexed
      get_all_context_run

get_all_context-IsIndexed_example : IsIndexed loaded
get_all_context-IsIndexed_example =
    get_all_context-IsIndexed "org" answers initial loaded true initial-IsIndexed
      get_all_context_run

abbrev updated : Store
updated = update_items "org" (item "team/deploy" ∷ []) loaded

get_all_context_with_env_vars_run :
    get_all_context_with_env_vars "org" (page (item "team/deploy" ∷ []) true ∷ failed ∷ []) loaded
    ≡ some (false, updated)
unfolding runs
get_all_context_with_env_vars_run = refl

resolve_workflow_context-ResolvesTo_example :
    ResolvesTo "gh/team" "other/deploy" (loaded.object 0).name
resolve_workflow_context-ResolvesTo_example =
    resolve_workflow_context-ResolvesTo loaded "org" "gh/team" "other/deploy" 0 loaded-IsIndexed
      resolve_run
