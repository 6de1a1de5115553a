-- ===== src/Contexts.antt =====
-- The contexts of an organization: `ContextCache` of pkg/utils/cache.go and the loading of contexts
-- in pkg/utils/context.go. The cache holds pointers, so the objects stand in a store of their own,
-- and two keys may lead to one object. The mutex makes each operation one step.
mod Names
pub mod Load
pub mod Lookup
pub mod Indexed
pub mod Reload
unfoldable pub use Names.{short_name, joined}
use Prim.Native.String.{◌++◌}
use circleci_yaml_language_s.Prelude.{
  ℕ, ◌+◌, String, Bool, true, false, not, Option, none, some, List, [], ◌∷◌, ◌==◌, nat_eq,
  string_eq, if◌then◌else◌, contains,
}
use circleci_yaml_language_s.Prelude.Dict.{Dict, lookup, insert, delete}

pub record Context : Type 0 where
  pub id : String
  pub name : String
  pub created_at : String
  pub env_variables : List String

-- A pointer to a context.
abbrev pub Address : Type 0
Address = ℕ

pub record ContextCache : Type 0 where
  pub context_cache : Dict String (Dict String Address)
  pub ambiguous_short_names : Dict String (Dict String (Unit {0}))
  pub list_loaded_orgs : Dict String Bool

-- The empty maps of `init` and of `clearContextCache`.
abbrev pub empty_cache : ContextCache
empty_cache = record { context_cache = []; ambiguous_short_names = []; list_loaded_orgs = [] }

-- Reading or ranging over a nil map is reading an empty one.
abbrev pub or_empty {ℓ} : {V : Type ℓ} → Option (Dict String V) → Dict String V
or_empty none = []
or_empty (some d) = d

abbrev pub is_some {ℓ} : {A : Type ℓ} → Option A → Bool
is_some none = false
is_some (some _) = true

unfoldable pub is_ambiguous_short_name : ContextCache → String → String → Bool
is_ambiguous_short_name c organization_id short =
    is_some (lookup short (or_empty (lookup organization_id c.ambiguous_short_names)))

unfoldable pub mark_ambiguous_short_name : ContextCache → String → String → ContextCache
mark_ambiguous_short_name c organization_id short = record c {
  ambiguous_short_names =
      insert organization_id
        (insert short tt (or_empty (lookup organization_id c.ambiguous_short_names)))
        c.ambiguous_short_names;
}

-- `c.contextCache[organizationId] = orgMap`: the map is shared, so a write to it shows there.
unfoldable pub write_org : ContextCache → String → Dict String Address → ContextCache
write_org c organization_id org_map = record c {
  context_cache = insert organization_id org_map c.context_cache;
}

unfoldable pub org_map : ContextCache → String → Dict String Address
org_map c organization_id = or_empty (lookup organization_id c.context_cache)

-- The part of `SetOrganizationContext` behind the tests on the short name.
unfoldable pub index_short :
    ContextCache → String → Dict String Address → String → Address → Option Address → ContextCache
unfolding write_org mark_ambiguous_short_name
index_short c organization_id orgs short ctx (some existing) =
    if not (existing == ctx)
    then mark_ambiguous_short_name (write_org c organization_id (delete short orgs)) organization_id
        short
    else c
index_short c organization_id orgs short ctx none =
    write_org c organization_id (insert short ctx orgs)

unfoldable pub set_short :
    ContextCache → String → Dict String Address → Option String → Address → ContextCache
unfolding index_short is_ambiguous_short_name
set_short c organization_id orgs none ctx = c
set_short c organization_id orgs (some short) ctx =
    if short == ""
    then c
    else if is_ambiguous_short_name c organization_id short
    then c
    else index_short c organization_id orgs short ctx (lookup short orgs)

-- `SetOrganizationContext` for the context at `ctx`, whose `Name` is `name`.
unfoldable pub set_organization_context : ContextCache → String → Address → String → ContextCache
unfolding set_short write_org org_map
set_organization_context c organization_id ctx name =
    let orgs = insert name ctx (org_map c organization_id) in
    set_short (write_org c organization_id orgs) organization_id orgs (short_name name) ctx

unfoldable pub get_organization_context : ContextCache → String → String → Option Address
unfolding org_map
get_organization_context c organization_id name = lookup name (org_map c organization_id)

-- The two fallbacks of `ResolveWorkflowContext`.
unfoldable pub resolve_by_slug :
    Dict String Address → String → String → Option String → Option Address
resolve_by_slug orgs slug name (some short) = none
resolve_by_slug orgs slug name none = if slug == "" then none else lookup (joined slug name) orgs

unfoldable pub resolve_by_short :
    Dict String Address → String → String → Option String → Option Address
unfolding resolve_by_slug
resolve_by_short orgs slug name none = resolve_by_slug orgs slug name none
resolve_by_short orgs slug name (some short) = if short == "" then none else lookup short orgs

unfoldable pub resolve_workflow_context : ContextCache → String → String → String → Option Address
unfolding resolve_by_short org_map
resolve_workflow_context c organization_id slug name =
    elim (lookup name (org_map c organization_id)) [
      | some ctx ↦ some ctx
      | none ↦ resolve_by_short (org_map c organization_id) slug name (short_name name)
    ]

unfoldable pub remove_organization_context : ContextCache → String → String → ContextCache
unfolding write_org
remove_organization_context c organization_id name = elim (lookup organization_id c.context_cache) [
  | none ↦ c
  | some org ↦ write_org c organization_id (delete name org)
]

unfoldable pub clear_organization_context_list : ContextCache → String → ContextCache
clear_organization_context_list c organization_id = record {
  context_cache = delete organization_id c.context_cache;
  ambiguous_short_names = delete organization_id c.ambiguous_short_names;
  list_loaded_orgs = delete organization_id c.list_loaded_orgs;
}

unfoldable pub mark_organization_context_list_loaded : ContextCache → String → ContextCache
mark_organization_context_list_loaded c organization_id = record c {
  list_loaded_orgs = insert organization_id true c.list_loaded_orgs;
}

unfoldable pub is_organization_context_list_loaded : ContextCache → String → Bool
is_organization_context_list_loaded c organization_id =
    elim (lookup organization_id c.list_loaded_orgs) [ none ↦ false | some loaded ↦ loaded ]
