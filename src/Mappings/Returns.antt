-- ===== src/Mappings/Returns.antt =====
-- When the walk over a mapping returns, and when it does not.
use circleci_yaml_language_s.Prelude.{
  ◌++◌, ℕ, zero, suc, ◌+◌, ◌<◌, ◌≤◌, ◌≡◌, ◌≢◌, refl, sym, subst, inl, inr, ◌⊎◌, String, true, false,
  Option, none, some, List, [], ◌∷◌, map, ◌==◌, nat_eq, string_eq, contains, All, arith, Bool-cases,
  List-cases, All-map,
}
use circleci_yaml_language_s.Prelude.Dict.{lookup}
use circleci_yaml_language_s.Diagnostics.{Diagnostic}
use circleci_yaml_language_s.Walk.{IsDone-if, Walk, done, runs_on, pure, ◌>>=◌, IsDone, IsDone-bind}
use circleci_yaml_language_s.Nodes.{Source, get_node_text, get_first_child}
use circleci_yaml_language_s.Mappings.{
  text_tail, collect, as_set, extract_merge_anchor_names, key_text, own_children, merge_names,
  merge_value, iterate_on_mapping, merge_all, is_mapping, iterate_on_block_mapping,
}

-- What holds of a parsed file: the tree is finite, with `depth` the height of a node below `bound`,
-- and an alias has a text. What an anchor merges has a lower `rank` than the mapping that asks for it.
pub record IsRanked (doc : Source) (depth rank : ℕ → ℕ) (bound : ℕ) : Type 0 where
  pub child_below : (n c : ℕ) → contains (doc.tree.children n) c ≡ true → depth c < depth n
  pub field_below :
      (n : ℕ) (name : String) (v : ℕ) → doc.tree.field_of n name ≡ some v → depth v < depth n
  pub below_bound : (n : ℕ) → depth n < bound
  pub alias_named : (n : ℕ) → doc.tree.type n ≡ "alias" → get_node_text doc.tree (some n) ≢ ""
  pub merged_below :
      (fuel n : ℕ) (names : List String) (ds : List Diagnostic)
      → is_mapping doc n ≡ true
      → collect (merge_names doc fuel) (doc.tree.children n) ≡ done names ds
      → All
          (λ name.
            (value first : ℕ)
            → lookup name doc.yaml_anchors ≡ some (some value)
            → get_first_child doc.tree (some value) ≡ some first
            → rank first < rank n)
          (doc.range_order (as_set names))

pub IsDone-text_tail : (s : String) → s ≢ "" → IsDone (text_tail s)
IsDone-text_tail String.[] h = absurd (h refl)
IsDone-text_tail (String.◌∷◌ c s) h = tt

pub IsDone-collect :
    {A : Type 0} (walk : ℕ → Walk (List A)) (nodes : List ℕ)
    → ((n : ℕ) → contains nodes n ≡ true → IsDone (walk n))
    → IsDone (collect walk nodes)
IsDone-collect walk [] h = tt
IsDone-collect walk (n ∷ nodes) h = IsDone-bind (walk n) _ (h n (ground arith)) λ names ds e.
    IsDone-bind (collect walk nodes) _ (IsDone-collect walk nodes (λ m p. h m (ground (arith, p))))
      λ rest es e'. tt

pub iterate-mapping :
    (doc : Source) (fuel node : ℕ)
    → is_mapping doc node ≡ true
    → iterate_on_block_mapping doc (suc fuel) (some node)
      ≡ iterate_on_mapping doc (iterate_on_block_mapping doc fuel) fuel node
unfolding iterate_on_block_mapping
iterate-mapping doc fuel node h = ground (arith, h)

pub iterate-other :
    (doc : Source) (fuel node : ℕ)
    → is_mapping doc node ≡ false
    → iterate_on_block_mapping doc (suc fuel) (some node) ≡ pure []
unfolding iterate_on_block_mapping
iterate-other doc fuel node h = ground (arith, h)

walk_of_option-IsDone :
    (doc : Source) (fuel : ℕ) (start : Option ℕ)
    → 0 < fuel
    → ((node : ℕ) → start ≡ some node → IsDone (iterate_on_block_mapping doc fuel (some node)))
    → IsDone (iterate_on_block_mapping doc fuel start)
unfolding iterate_on_block_mapping
walk_of_option-IsDone doc zero start p h = absurd (omega arith)
walk_of_option-IsDone doc (suc fuel) none p h = tt
walk_of_option-IsDone doc (suc fuel) (some node) p h = h node refl

module _ (doc : Source) (depth rank : ℕ → ℕ) (bound : ℕ)
    (ranked : IsRanked doc depth rank bound) where
  extract-IsDone :
      (fuel node : ℕ) → depth node < fuel → IsDone (extract_merge_anchor_names doc fuel (some node))
  unfolding extract_merge_anchor_names
  extract-IsDone zero node h = absurd (omega arith)
  extract-IsDone (suc fuel) node h = elim (List-cases (doc.tree.children node)) [
    | inl e ↦ subst IsDone (sym (childless e)) tt
    | inr (child, rest, e) ↦ elim (string_eq.dec (doc.tree.type child) "alias") [
      | yes alias ↦ subst IsDone (sym (aliased child rest e alias)) (
          IsDone-bind (text_tail (get_node_text doc.tree (some child))) _
            (IsDone-text_tail _ (ranked.alias_named child alias)) (λ name ds p. tt))
      | no other ↦ elim (Bool-cases (doc.tree.type child == "flow_sequence")) [
        | inl s ↦ subst IsDone (sym (listed child rest e other s)) (
            IsDone-collect (λ n. extract_merge_anchor_names doc fuel (some n))
              (doc.tree.children child)
              (λ n m.
                let a : depth child < depth node =
                  ranked.child_below node child (ground (arith, e)) in
                let b : depth n < depth child = ranked.child_below child n m in
                extract-IsDone fuel n (omega arith)))
        | inr s ↦ subst IsDone (sym (otherwise child rest e other s)) tt
      ]
    ]
  ]
    where
      childless :
          doc.tree.children node ≡ []
          → extract_merge_anchor_names doc (suc fuel) (some node) ≡ pure []
      childless e = ground (arith, e)

      aliased :
          (child : ℕ) (rest : List ℕ)
          → doc.tree.children node ≡ child ∷ rest
          → doc.tree.type child ≡ "alias"
          → extract_merge_anchor_names doc (suc fuel) (some node)
            ≡ (text_tail (get_node_text doc.tree (some child)) >>= λ name. pure (name ∷ []))
      aliased child rest e alias = ground (arith, e, alias)

      listed :
          (child : ℕ) (rest : List ℕ)
          → doc.tree.children node ≡ child ∷ rest
          → doc.tree.type child ≢ "alias"
          → (doc.tree.type child == "flow_sequence") ≡ true
          → extract_merge_anchor_names doc (suc fuel) (some node)
            ≡ collect (λ n. extract_merge_anchor_names doc fuel (some n)) (doc.tree.children child)
      listed child rest e other s = ground (arith, e, other, s)

      otherwise :
          (child : ℕ) (rest : List ℕ)
          → doc.tree.children node ≡ child ∷ rest
          → doc.tree.type child ≢ "alias"
          → (doc.tree.type child == "flow_sequence") ≡ false
          → extract_merge_anchor_names doc (suc fuel) (some node) ≡ pure []
      otherwise child rest e other s = ground (arith, e, other, s)

  extract_value-IsDone :
      (fuel : ℕ) (value : Option ℕ)
      → ((v : ℕ) → value ≡ some v → depth v < suc fuel)
      → IsDone (extract_merge_anchor_names doc (suc fuel) value)
  unfolding extract_merge_anchor_names
  extract_value-IsDone fuel none h = tt
  extract_value-IsDone fuel (some v) h = extract-IsDone (suc fuel) v (h v refl)

  merge_names-IsDone :
      (fuel node child : ℕ)
      → contains (doc.tree.children node) child ≡ true
      → bound ≤ fuel
      → IsDone (merge_names doc fuel child)
  unfolding merge_names
  merge_names-IsDone zero node child m h = absurd (omega (arith, ranked.below_bound node))
  merge_names-IsDone (suc fuel) node child m h =
      IsDone-if (doc.tree.type child == "comment") _ _ tt (
        IsDone-if (key_text doc child == "<<") _ _
          (extract_value-IsDone fuel (doc.tree.field_of child "value")
            (λ v e. omega (arith, ranked.field_below child "value" v e, ranked.below_bound child)))
          tt)

  -- The anchors that may be merged, each with a walk that returns.
  abbrev Returning : (Option ℕ → Walk (List ℕ)) → String → Type 0
  Returning iterate name =
      (value : ℕ)
      → lookup name doc.yaml_anchors ≡ some (some value)
      → IsDone (iterate (get_first_child doc.tree (some value)))

  merge_value-IsDone :
      (iterate : Option ℕ → Walk (List ℕ)) (mapped_keys : List String)
      (others : List String → Walk (List ℕ)) (found : Option (Option ℕ))
      → ((value : ℕ)
          → found ≡ some (some value)
          → IsDone (iterate (get_first_child doc.tree (some value))))
      → ((keys : List String) → IsDone (others keys))
      → IsDone (merge_value doc iterate mapped_keys others found)
  unfolding merge_value
  merge_value-IsDone iterate mapped_keys others none h k = tt
  merge_value-IsDone iterate mapped_keys others (some none) h k = tt
  merge_value-IsDone iterate mapped_keys others (some (some value)) h k =
      IsDone-bind (iterate (get_first_child doc.tree (some value))) _ (h value refl)
        λ children ds e. IsDone-bind (others _) _ (k _) (λ rest es e'. tt)

  merge_all-IsDone :
      (iterate : Option ℕ → Walk (List ℕ)) (mapped_keys names : List String)
      → All (Returning iterate) names
      → IsDone (merge_all doc iterate mapped_keys names)
  unfolding merge_all
  merge_all-IsDone iterate mapped_keys [] h = tt
  merge_all-IsDone iterate mapped_keys (name ∷ names) (h, hs) =
      merge_value-IsDone iterate mapped_keys _ (lookup name doc.yaml_anchors) h
        (λ keys. merge_all-IsDone iterate keys names hs)

  iterate_on_mapping-IsDone :
      (iterate : Option ℕ → Walk (List ℕ)) (fuel node : ℕ)
      → bound ≤ fuel
      → ((names : List String) (ds : List Diagnostic)
          → collect (merge_names doc fuel) (doc.tree.children node) ≡ done names ds
          → All (Returning iterate) (doc.range_order (as_set names)))
      → IsDone (iterate_on_mapping doc iterate fuel node)
  unfolding iterate_on_mapping
  iterate_on_mapping-IsDone iterate fuel node h returning =
      let own = own_children doc (doc.tree.children node) in
      let mapped_keys = map (key_text doc) own in
      IsDone-bind (collect (merge_names doc fuel) (doc.tree.children node)) _
        (IsDone-collect (merge_names doc fuel) (doc.tree.children node)
          (λ c m. merge_names-IsDone fuel node c m h))
        λ names ds e.
          IsDone-bind (merge_all doc iterate mapped_keys (doc.range_order (as_set names)))
            (λ merged. pure (own ++ merged))
            (merge_all-IsDone iterate mapped_keys (doc.range_order (as_set names))
              (returning names ds e))
            λ merged es e'. tt

  -- With fuel above the rank of the mapping and the height of the tree, the walk returns: no anchor
  -- that it merges is merged again inside of itself, and no text of an alias is empty.
  pub iterate_on_block_mapping-IsDone :
      (fuel node : ℕ)
      → rank node + suc bound < fuel
      → IsDone (iterate_on_block_mapping doc fuel (some node))
  iterate_on_block_mapping-IsDone zero node h = absurd (omega arith)
  iterate_on_block_mapping-IsDone (suc fuel) node h = elim (Bool-cases (is_mapping doc node)) [
    | inr other ↦ subst IsDone (sym (iterate-other doc fuel node other)) tt
    | inl mapping ↦ subst IsDone (sym (iterate-mapping doc fuel node mapping)) (
        iterate_on_mapping-IsDone (iterate_on_block_mapping doc fuel) fuel node (omega arith)
          λ names ds e.
            All-map _ (Returning (iterate_on_block_mapping doc fuel))
              (λ name below value found.
                walk_of_option-IsDone doc fuel (get_first_child doc.tree (some value)) (omega arith)
                  λ first p.
                    let lower : rank first < rank node = below value first found p in
                    iterate_on_block_mapping-IsDone fuel first (omega arith))
              (doc.range_order (as_set names)) (ranked.merged_below fuel node names ds mapping e))
  ]

-- A mapping whose first anchor to merge, in the order of Go's loop, has a value that begins with
-- `next`.
pub record LeadsTo (doc : Source) (node next : ℕ) : Type 0 where
  pub name : String
  pub value : ℕ
  pub names : List String
  pub others : List String
  pub mapping : is_mapping doc node ≡ true
  pub asked :
      (fuel : ℕ)
      → (collect (merge_names doc fuel) (doc.tree.children node) ≡ runs_on)
        ⊎ (collect (merge_names doc fuel) (doc.tree.children node) ≡ pure names)
  pub ordered : doc.range_order (as_set names) ≡ name ∷ others
  pub anchored : lookup name doc.yaml_anchors ≡ some (some value)
  pub begins : get_first_child doc.tree (some value) ≡ some next

-- Where each mapping of a class leads to another of that class, as a mapping that merges an anchor
-- of its own name does, the walk returns with no fuel: in Go it recurs until the stack is exhausted.
pub iterate_on_block_mapping-runs_on :
    (doc : Source) (P : ℕ → Type 0) (next : ℕ → ℕ)
    → ((node : ℕ) → P node → LeadsTo doc node (next node) × P (next node))
    → (fuel node : ℕ) → P node
    → iterate_on_block_mapping doc fuel (some node) ≡ runs_on
unfolding iterate_on_block_mapping iterate_on_mapping merge_all merge_value
iterate_on_block_mapping-runs_on doc P next leads zero node p = refl
iterate_on_block_mapping-runs_on doc P next leads (suc fuel) node p =
    let (l, q) = leads node p in
    let ih = iterate_on_block_mapping-runs_on doc P next leads fuel (next node) q in
    elim (l.asked fuel) [
      | inl e ↦ ground (arith, l.mapping, e)
      | inr e ↦ ground (arith, l.mapping, e, l.ordered, l.anchored, l.begins, ih)
    ]
