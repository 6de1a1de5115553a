-- ===== src/Mappings.antt =====
-- pkg/parser/utils.go: the walk over the pairs of a mapping, `iterateOnBlockMapping`, with the merge
-- keys (`<<: *anchor`), and what is built on it. The walk is the list of the nodes for which it
-- calls its function. It recurs through the anchors, so it runs on fuel.
pub mod Returns
pub mod Precedence
use circleci_yaml_language_s.Prelude.{
  ℕ, zero, suc, String, Bool, true, false, ◌||◌, Option, none, some, List, [], ◌∷◌, ◌++◌, map, ◌==◌,
  string_eq, if◌then◌else◌, contains,
}
use circleci_yaml_language_s.Prelude.Dict.{Dict, lookup, insert}
use circleci_yaml_language_s.Walk.{Walk, runs_on, panics, pure, ◌>>=◌}
use circleci_yaml_language_s.Nodes.{
  Source, get_node_text, get_key_value_nodes, get_first_child, child_at, is_pair,
}

-- The text from its second character on, `txt[1:]`.
abbrev pub text_tail : String → Walk String
text_tail String.[] = panics
text_tail (String.◌∷◌ c s) = pure s

-- The walks of a list's nodes, one after another, with their results in one list.
abbrev pub collect : {A : Type 0} → (ℕ → Walk (List A)) → List ℕ → Walk (List A)
collect walk [] = pure []
collect walk (n ∷ nodes) = do names ← walk n; rest ← collect walk nodes; pure (names ++ rest)

-- The keys of Go's set: each name once.
abbrev pub as_set : List String → List String
as_set [] = []
as_set (name ∷ names) = let rest = as_set names in if contains rest name then rest else name ∷ rest

module _ (doc : Source) where
  -- `extractMergeAnchorNames`
  unfoldable pub extract_merge_anchor_names : ℕ → Option ℕ → Walk (List String)
  extract_merge_anchor_names zero start = runs_on
  extract_merge_anchor_names (suc fuel) none = pure []
  extract_merge_anchor_names (suc fuel) (some node) = elim (child_at 0 (doc.tree.children node)) [
    | none ↦ pure []
    | some child ↦ elim (doc.tree.type child == "alias") [
      | true ↦ text_tail (get_node_text doc.tree (some child)) >>= λ name. pure (name ∷ [])
      | false ↦ elim (doc.tree.type child == "flow_sequence") [
        | true ↦ collect (λ n. extract_merge_anchor_names fuel (some n)) (doc.tree.children child)
        | false ↦ pure []
      ]
    ]
  ]

  abbrev pub key_text : ℕ → String
  key_text child = get_node_text doc.tree (doc.tree.field_of child "key")

  -- The pairs of the mapping itself, for which the function is called first.
  unfoldable pub own_children : List ℕ → List ℕ
  own_children [] = []
  own_children (child ∷ children) =
      let rest = own_children children in
      if doc.tree.type child == "comment" || key_text child == "<<" then rest else child ∷ rest

  -- The anchors that one child asks to merge.
  unfoldable pub merge_names : ℕ → ℕ → Walk (List String)
  unfolding extract_merge_anchor_names
  merge_names fuel child =
      if doc.tree.type child == "comment"
      then pure []
      else if key_text child == "<<"
      then extract_merge_anchor_names fuel (doc.tree.field_of child "value")
      else pure []

  abbrev pub entry_key : ℕ → String
  entry_key child = get_node_text doc.tree (get_key_value_nodes doc (some child)).0

  -- The merged pairs whose key is not among the keys before.
  unfoldable pub fresh : List String → List ℕ → List ℕ
  fresh mapped_keys [] = []
  fresh mapped_keys (child ∷ children) = elim (contains mapped_keys (entry_key child)) [
    | true ↦ fresh mapped_keys children
    | false ↦ child ∷ fresh (entry_key child ∷ mapped_keys) children
  ]

  -- One round of the second loop, at what is known of an anchor: one that is unknown, or has no
  -- value, ends the whole walk. `others` is the rest of the loop.
  unfoldable pub merge_value :
      (Option ℕ → Walk (List ℕ))
      → List String
      → (List String → Walk (List ℕ))
      → Option (Option ℕ)
      → Walk (List ℕ)
  unfolding fresh
  merge_value iterate mapped_keys others none = pure []
  merge_value iterate mapped_keys others (some none) = pure []
  merge_value iterate mapped_keys others (some (some value_node)) = do
    children ← iterate (get_first_child doc.tree (some value_node))
    let merged = fresh mapped_keys children
    rest ← others (map entry_key merged ++ mapped_keys)
    pure (merged ++ rest)

  unfoldable pub merge_all : (Option ℕ → Walk (List ℕ)) → List String → List String → Walk (List ℕ)
  unfolding merge_value
  merge_all iterate mapped_keys [] = pure []
  merge_all iterate mapped_keys (name ∷ names) =
      merge_value iterate mapped_keys (λ keys. merge_all iterate keys names)
        (lookup name doc.yaml_anchors)

  abbrev pub is_mapping : ℕ → Bool
  is_mapping node = doc.tree.type node == "block_mapping" || doc.tree.type node == "flow_mapping"

  -- Both loops of `iterateOnBlockMapping`, at a mapping.
  unfoldable pub iterate_on_mapping : (Option ℕ → Walk (List ℕ)) → ℕ → ℕ → Walk (List ℕ)
  unfolding own_children merge_names merge_all
  iterate_on_mapping iterate fuel node = do
    let own = own_children (doc.tree.children node)
    names ← collect (merge_names fuel) (doc.tree.children node)
    merged ← merge_all iterate (map key_text own) (doc.range_order (as_set names))
    pure (own ++ merged)

  -- `iterateOnBlockMapping`
  unfoldable pub iterate_on_block_mapping : ℕ → Option ℕ → Walk (List ℕ)
  unfolding iterate_on_mapping
  iterate_on_block_mapping zero start = runs_on
  iterate_on_block_mapping (suc fuel) none = pure []
  iterate_on_block_mapping (suc fuel) (some node) = elim (is_mapping node) [
    | false ↦ pure []
    | true ↦ iterate_on_mapping (iterate_on_block_mapping fuel) fuel node
  ]

  -- The assignment of `parseDictionary` for one pair.
  abbrev pub add_to_dictionary : Dict String String → ℕ → Dict String String
  add_to_dictionary dictionary child =
      let (key_node, value_node) = get_key_value_nodes doc (some child) in
      if is_pair doc.tree child
      then elim key_node [
        | none ↦ dictionary
        | some key ↦ elim value_node [
          | none ↦ dictionary
          | some value ↦
              insert (get_node_text doc.tree (some key)) (get_node_text doc.tree (some value))
                dictionary
        ]
      ]
      else dictionary

  abbrev pub dictionary_of : Dict String String → List ℕ → Dict String String
  dictionary_of dictionary [] = dictionary
  dictionary_of dictionary (child ∷ children) =
      dictionary_of (add_to_dictionary dictionary child) children

  -- `parseDictionary`
  unfoldable pub parse_dictionary : ℕ → Option ℕ → Walk (Dict String String)
  unfolding iterate_on_block_mapping
  parse_dictionary fuel value_node = do
    children ← iterate_on_block_mapping fuel value_node
    pure (dictionary_of [] children)
