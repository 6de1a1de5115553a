-- ===== src/Walks/Invocations.antt =====
-- pkg/parser/job_invocation.go: the jobs of a workflow or a job group.
use circleci_yaml_language_s.Prelude.{
  ℕ, ◌%◌, ◌+◌, String, Bool, false, ◌&&◌, ◌||◌, Option, none, some, List, [], ◌∷◌, ◌==◌, nat_eq,
  string_eq, if◌then◌else◌, map, u32,
}
use circleci_yaml_language_s.Prelude.Dict.{lookup}
use circleci_yaml_language_s.Position.{Range}
use circleci_yaml_language_s.Syntax.{Require}
use circleci_yaml_language_s.Walk.{Walk, panics, pure}
use circleci_yaml_language_s.Nodes.{
  Source, child_at, get_node_text, get_child_of_type, get_child_sequence, get_first_child,
  get_key_value_nodes, get_node_text_array_with_range, node_to_range, iterate_on_block_sequence,
  no_range, trim_left_func,
}
use circleci_yaml_language_s.Mappings.{collect}

module _ (doc : Source) where
  abbrev success : List String
  success = "success" ∷ []

  -- The closure `getRequire`, for a node that is there or nil.
  unfoldable pub get_require : Option ℕ → Require
  unfolding get_node_text get_first_child node_to_range trim_left_func
  get_require node = elim (get_child_of_type doc.tree node "alias") [
    | none ↦ record {
      name = get_node_text doc.tree node;
      status = success;
      range = node_to_range doc node;
      status_range = node_to_range doc node;
    }
    | some alias ↦
        elim (lookup (trim_left_func (λ c. c == b'*') (get_node_text doc.tree (some alias)))
          doc.yaml_anchors) [
            | none ↦ record { name = ""; status = []; range = no_range; status_range = no_range }
            | some anchor_value ↦
                let value_node = get_first_child doc.tree anchor_value in
                record {
                  name = get_node_text doc.tree value_node;
                  status = success;
                  range = node_to_range doc value_node;
                  status_range = node_to_range doc node;
                }
          ]
  ]

  -- The texts of a list of statuses, and whether an item of a block sequence is among them.
  abbrev status_texts : List ℕ → List String
  status_texts [] = []
  status_texts (item ∷ items) =
      let rest = status_texts items in
      if doc.tree.type item == "flow_node"
      then get_node_text doc.tree (some item) ∷ rest
      else if doc.tree.type item == "block_sequence_item"
      then get_node_text doc.tree (child_at 1 (doc.tree.children item)) ∷ rest
      else rest

  abbrev any_item : List ℕ → Bool
  any_item [] = false
  any_item (item ∷ items) = doc.tree.type item == "block_sequence_item" || any_item items

  -- From behind the colon to the end of the value.
  abbrev behind_colon : Range → Range → Range
  behind_colon key_range value_range = record {
    start = record { line = key_range.end.line; character = (key_range.end.character + 1) % u32 };
    end = value_range.end;
  }

  -- A requirement with statuses, at its key, its value and the first child of the value.
  unfoldable pub require_with_status : ℕ → ℕ → ℕ → Require
  unfolding get_node_text node_to_range iterate_on_block_sequence
  require_with_status key value first =
      let items = iterate_on_block_sequence doc.tree (some first) in
      let rng = node_to_range doc (some value) in
      let key_range = node_to_range doc (some key) in
      if doc.tree.type first == "plain_scalar"
      then record {
        name = get_node_text doc.tree (some key);
        status = get_node_text doc.tree (some value) ∷ [];
        range = key_range;
        status_range = rng;
      }
      else record {
        name = get_node_text doc.tree (some key);
        status = status_texts items;
        range = key_range;
        status_range =
            if any_item items then behind_colon key_range rng else node_to_range doc (some first);
      }

  -- An item whose second child is not a flow node.
  abbrev mapped_require : Option ℕ → Walk (List Require)
  mapped_require element =
      let mapping = get_child_of_type doc.tree element "block_mapping" in
      let (key, value) =
        get_key_value_nodes doc (get_child_of_type doc.tree mapping "block_mapping_pair") in
      elim key [
        | none ↦ pure []
        | some k ↦ elim value [
          | none ↦ pure []
          | some v ↦ elim (get_first_child doc.tree (some v)) [
            | none ↦ panics
            | some first ↦ pure (require_with_status k v first ∷ [])
          ]
        ]
      ]

  abbrev item_require : Option ℕ → Walk (List Require)
  item_require none = mapped_require none
  item_require (some element) =
      if doc.tree.type element == "flow_node"
      then pure (get_require (some element) ∷ [])
      else mapped_require (some element)

  unfoldable pub parse_require : ℕ → Walk (List Require)
  unfolding get_require require_with_status
  parse_require item =
      if doc.tree.type item == "flow_node"
      then pure (get_require (some item) ∷ [])
      else item_require (child_at 1 (doc.tree.children item))

  unfoldable pub parse_single_job_requires : ℕ → Walk (List Require)
  unfolding parse_require get_child_sequence
  parse_single_job_requires requires_node =
      collect parse_require
        (iterate_on_block_sequence doc.tree (get_child_sequence doc.tree (some requires_node)))

  -- The texts of the contexts.
  unfoldable pub parse_context : ℕ → List String
  unfolding get_node_text_array_with_range
  parse_context node = elim (doc.tree.children node) [
    | child ∷ [] ↦
        if doc.tree.type node == "flow_node" && doc.tree.type child == "plain_scalar"
        then get_node_text doc.tree (some node) ∷ []
        else map (λ t. t.0) (get_node_text_array_with_range doc (some node))
    | _ ↦ []
  ]
