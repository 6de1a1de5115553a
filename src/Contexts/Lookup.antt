-- ===== src/Contexts/Lookup.antt =====
-- What a lookup finds after a context was set.
use circleci_yaml_language_s.Prelude.{
  ◌⊎◌, ◌≡◌, ◌≢◌, refl, ap, string_dec, String, Bool, true, false, not, Option, none, some, arith,
  ◌==◌, nat_eq, string_eq, if◌then◌else◌, Option-cases, inl, inr, Bool-cases,
}
use circleci_yaml_language_s.Prelude.Dict.{
  Dict, lookup, insert, delete, lookup-insert, lookup-delete,
}
use circleci_yaml_language_s.Contexts.{
  Address, ContextCache, is_ambiguous_short_name, write_org, org_map, index_short, set_short,
  set_organization_context, get_organization_context, short_name, mark_ambiguous_short_name,
  or_empty,
}
use circleci_yaml_language_s.Contexts.Names.{short_name_ne}

pub org_map-write_org :
    (c : ContextCache) (o p : String) (orgs : Dict String Address)
    → org_map (write_org c o orgs) p ≡ (if p == o then orgs else org_map c p)
unfolding org_map write_org
org_map-write_org c o p orgs = ground (arith, lookup-insert p o orgs c.context_cache)

pub org_map-mark_ambiguous_short_name :
    (c : ContextCache) (o p short : String)
    → org_map (mark_ambiguous_short_name c o short) p ≡ org_map c p
unfolding org_map mark_ambiguous_short_name
org_map-mark_ambiguous_short_name c o p short = refl

is_ambiguous-mark :
    (c : ContextCache) (o short : String)
    → is_ambiguous_short_name (mark_ambiguous_short_name c o short) o short ≡ true
unfolding is_ambiguous_short_name mark_ambiguous_short_name
is_ambiguous-mark c o short =
    let marks = or_empty (lookup o c.ambiguous_short_names) in
    ground (
      arith,
      lookup-insert o o (insert short tt marks) c.ambiguous_short_names,
      lookup-insert short short tt marks,
    )

is_ambiguous-write_org :
    (c : ContextCache) (o short : String) (orgs : Dict String Address)
    → is_ambiguous_short_name (write_org c o orgs) o short ≡ is_ambiguous_short_name c o short
unfolding is_ambiguous_short_name write_org
is_ambiguous-write_org c o short orgs = refl

-- The organization's map after `SetOrganizationContext` has dealt with the short name.
abbrev short_entry : Bool → Dict String Address → String → Address → Option Address
short_entry ambiguous orgs short ctx = elim (lookup short orgs) [
  | none ↦ if ambiguous then none else some ctx
  | some existing ↦
      if ambiguous then some existing else if existing == ctx then some existing else none
]

org_map-index_short :
    (c : ContextCache) (o p k short : String) (orgs : Dict String Address) (ctx : Address)
    → org_map c o ≡ orgs
    → lookup k (org_map (index_short c o orgs short ctx (lookup short orgs)) p) ≡ (
        if p == o
        then (if k == short then short_entry false orgs short ctx else lookup k orgs)
        else lookup k (org_map c p))
unfolding index_short
org_map-index_short c o p k short orgs ctx h = elim (Option-cases (lookup short orgs)) [
  | inl absent ↦
      ground
        (arith, org_map-write_org c o p (insert short ctx orgs), lookup-insert k short ctx orgs)
  | inr (existing, found) ↦ ground (
    arith,
    org_map-write_org c o p (delete short orgs),
    org_map-mark_ambiguous_short_name (write_org c o (delete short orgs)) o p short,
    lookup-delete k short orgs,
  )
]

module _ (c : ContextCache) (o : String) (ctx : Address) (name : String) where
  abbrev after : ContextCache
  after = set_organization_context c o ctx name

  abbrev orgs : Dict String Address
  orgs = insert name ctx (org_map c o)

  abbrev named : ContextCache
  named = write_org c o orgs

  lookup-named :
      (p k : String)
      → lookup k (org_map named p) ≡ (
          if p == o
          then (if k == name then some ctx else lookup k (org_map c o))
          else lookup k (org_map c p))
  lookup-named p k =
      ground (arith, org_map-write_org c o p orgs, lookup-insert k name ctx (org_map c o))

  org_map-named : org_map named o ≡ orgs
  org_map-named = ground (arith, org_map-write_org c o o orgs)

  set_plain : short_name name ≡ none → after ≡ named
  unfolding set_organization_context
  set_plain h = rw (h, set_short)

  set_kept :
      (short : String)
      → short_name name ≡ some short
      → ((short ≡ "") ⊎ (is_ambiguous_short_name named o short ≡ true))
      → after ≡ named
  unfolding set_organization_context
  set_kept short h k = ground arith

  set_indexed :
      (short : String)
      → short_name name ≡ some short
      → short ≢ ""
      → is_ambiguous_short_name named o short ≡ false
      → after ≡ index_short named o orgs short ctx (lookup short orgs)
  unfolding set_organization_context
  set_indexed short h n a = ground arith

  -- How a lookup can differ from what the plain write of the full name gives.
  record ByShort (p k : String) : Type 0 where
    short : String
    is_short : short_name name ≡ some short
    here : p ≡ o
    key : k ≡ short
    entry : lookup k (org_map after p) ≡ short_entry false orgs short ctx

  after_indexed :
      (p k short : String)
      → short_name name ≡ some short
      → after ≡ index_short named o orgs short ctx (lookup short orgs)
      → (lookup k (org_map after p) ≡ lookup k (org_map named p)) ⊎ ByShort p k
  after_indexed p k short h e =
      let law =
        org_map-index_short named o p k short orgs ctx
          (ground (arith, org_map-write_org c o o orgs)) in
      let e' = ap (λ t. lookup k (org_map t p)) e in
      elim (string_dec p o) [
        | no other ↦ inl (ground (arith, e', law))
        | yes here ↦ elim (string_dec k short) [
          | no other ↦ inl (ground (arith, e', law, org_map-write_org c o p orgs))
          | yes key ↦ inr (record {
            short = short;
            is_short = h;
            here = here;
            key = key;
            entry = ground (arith, e', law);
          })
        ]
      ]

  after_cases :
      (p k : String) → (lookup k (org_map after p) ≡ lookup k (org_map named p)) ⊎ ByShort p k
  after_cases p k = elim (Option-cases (short_name name)) [
    | inl plain ↦ inl (rw (set_plain plain))
    | inr (short, h) ↦ elim (string_dec short "") [
      | yes e ↦ inl (rw (set_kept short h (inl e)))
      | no n ↦ elim (Bool-cases (is_ambiguous_short_name named o short)) [
        | inl a ↦ inl (rw (set_kept short h (inr a)))
        | inr a ↦ after_indexed p k short h (set_indexed short h n a)
      ]
    ]
  ]

  -- After `SetOrganizationContext` the context is found under its full name.
  pub get-set_organization_context_self : get_organization_context after o name ≡ some ctx
  unfolding get_organization_context
  get-set_organization_context_self = elim (after_cases o name) [
    | inl e ↦ ground (arith, e, lookup-named o name)
    | inr b ↦ absurd (short_name_ne name b.short b.is_short b.key)
  ]

  -- Another organization, and a key that is neither the full name nor the short name, keep what
  -- they lead to.
  pub get-set_organization_context_ne :
      (p k : String)
      → ((p ≢ o) ⊎ ((k ≢ name) × (short_name name ≢ some k)))
      → get_organization_context after p k ≡ get_organization_context c p k
  unfolding get_organization_context
  get-set_organization_context_ne p k h = elim (after_cases p k) [
    | inl e ↦ ground (arith, e, lookup-named p k)
    | inr b ↦ ground (arith, b.is_short, b.here, b.key)
  ]

  -- A pointer that is found afterwards is the new one, under one of its names, or an old one.
  pub get-set_organization_context_inv :
      (p k : String) (found : Address)
      → get_organization_context after p k ≡ some found
      → (p ≡ o) × (found ≡ ctx) × ((k ≡ name) ⊎ (short_name name ≡ some k))
        ⊎ (get_organization_context c p k ≡ some found)
  unfolding get_organization_context
  get-set_organization_context_inv p k found h = elim (after_cases p k) [
    | inl e ↦ ground (arith, e, lookup-named p k)
    | inr b ↦
        ground
          (arith, b.is_short, b.here, b.key, b.entry, lookup-insert b.short name ctx (org_map c o))
  ]

  module _ (short : String) (h : short_name name ≡ some short) where
    lookup-orgs_short : lookup short orgs ≡ get_organization_context c o short
    unfolding get_organization_context
    lookup-orgs_short =
        ground (arith, lookup-insert short name ctx (org_map c o), short_name_ne name short h)

    -- A short name that is not empty and not ambiguous leads to the context if it led nowhere, still
    -- leads to it if it did, and leads nowhere if it led to another context.
    pub get-set_organization_context_short :
        short ≢ ""
        → is_ambiguous_short_name c o short ≡ false
        → get_organization_context after o short ≡ elim (get_organization_context c o short) [
          | none ↦ some ctx
          | some existing ↦ if existing == ctx then some existing else none
        ]
    unfolding get_organization_context is_ambiguous_short_name write_org
    get-set_organization_context_short n a = ground (
      arith,
      ap (λ t. lookup short (org_map t o)) (set_indexed short h n a),
      org_map-index_short named o o short short orgs ctx org_map-named,
      lookup-orgs_short,
      org_map-write_org c o o orgs,
    )

    pub is_ambiguous-set_organization_context :
        short ≢ ""
        → is_ambiguous_short_name c o short ≡ false
        → is_ambiguous_short_name after o short ≡ elim (get_organization_context c o short) [
          | none ↦ false
          | some existing ↦ not (existing == ctx)
        ]
    is_ambiguous-set_organization_context n a =
        let indexed =
          set_indexed short h n (ground (arith, is_ambiguous-write_org c o short orgs)) in
        let found = lookup-orgs_short in
        unfold index_short in
        (ground (
          arith,
          ap (λ t. is_ambiguous_short_name t o short) indexed,
          is_ambiguous-write_org c o short orgs,
          is_ambiguous-write_org named o short (insert short ctx orgs),
          is_ambiguous-mark (write_org named o (delete short orgs)) o short,
        ))

    pub get-set_organization_context_ambiguous :
        is_ambiguous_short_name c o short ≡ true
        → get_organization_context after o short ≡ get_organization_context c o short
    unfolding get_organization_context is_ambiguous_short_name write_org
    get-set_organization_context_ambiguous a = ground (
      arith,
      ap (λ t. lookup short (org_map t o)) (set_kept short h (inr a)),
      lookup-named o short,
      short_name_ne name short h,
    )
