-- ===== src/Nodes.antt =====
-- pkg/parser/utils.go: nodes of the syntax tree and their text. The tree is tree-sitter's, a
-- parameter: what the walks call of its API is the record `Tree`, whose nodes are numbers; `none`
-- is Go's nil node. A text has one character for each rune of the file's content.
use Prim.Native.Char.{code}
use circleci_yaml_language_s.Prelude.{
  ℕ, zero, suc, String, Bool, true, false, ◌&&◌, ◌||◌, Option, none, some, List, [], ◌∷◌, map, ◌++◌,
  ◌==◌, nat_eq, string_eq, if◌then◌else◌, leb,
}
use circleci_yaml_language_s.Prelude.Dict.{Dict, lookup}
use circleci_yaml_language_s.Text.{trim_prefix}
use circleci_yaml_language_s.Position.{Position, Range, add_offset_to_range}

pub record Tree : Type 0 where
  pub type : ℕ → String
  pub children : ℕ → List ℕ
  pub parent : ℕ → Option ℕ
  pub next_sibling : ℕ → Option ℕ
  -- ChildByFieldName
  pub field_of : ℕ → String → Option ℕ
  -- Content[StartByte:EndByte]
  pub text_of : ℕ → String
  -- StartPoint and EndPoint
  pub span : ℕ → Range

-- What the walks read of the document: `yaml_anchors` holds the `ValueNode` of each anchor, and
-- `range_order` is the order in which Go ranges over a set of names.
pub record Source : Type 0 where
  pub tree : Tree
  pub offset : Position
  pub yaml_anchors : Dict String (Option ℕ)
  pub range_order : List String → List String
  pub local_orb_name : String

abbrev pub no_position : Position
no_position = record { line = 0; character = 0 }

-- protocol.Range{}
abbrev pub no_range : Range
no_range = record { start = no_position; end = no_position }

-- node.Child(i)
abbrev pub child_at : {A : Type 0} → ℕ → List A → Option A
child_at i [] = none
child_at zero (n ∷ nodes) = some n
child_at (suc i) (n ∷ nodes) = child_at i nodes

-- unicode.IsSpace
abbrev is_white_space : ℕ → Bool
is_white_space c =
    (leb 9 c && leb c 13)
    || (c == 32
        || (c == 133
            || (c == 160
                || (c == 5760
                    || ((leb 8192 c && leb c 8202)
                        || (c == 8232
                            || (c == 8233 || (c == 8239 || (c == 8287 || c == 12288)))))))))

abbrev is_empty_text : String → Bool
is_empty_text String.[] = true
is_empty_text (String.◌∷◌ c s) = false

-- strings.TrimLeftFunc and strings.TrimRightFunc
unfoldable pub trim_left_func : (ℕ → Bool) → String → String
trim_left_func cut String.[] = ""
trim_left_func cut (String.◌∷◌ c s) =
    let rest = trim_left_func cut s in if cut (code c) then rest else String.◌∷◌ c s

unfoldable pub trim_right_func : (ℕ → Bool) → String → String
trim_right_func cut String.[] = ""
trim_right_func cut (String.◌∷◌ c s) =
    let rest = trim_right_func cut s in
    if is_empty_text rest && cut (code c) then "" else String.◌∷◌ c rest

unfoldable pub trim_func : (ℕ → Bool) → String → String
unfolding trim_left_func trim_right_func
trim_func cut s = trim_right_func cut (trim_left_func cut s)

abbrev starts_with : ℕ → String → Bool
starts_with quote String.[] = false
starts_with quote (String.◌∷◌ c s) = code c == quote

unfoldable pub ends_with : ℕ → String → Bool
ends_with quote String.[] = false
ends_with quote (String.◌∷◌ c s) =
    let rest = ends_with quote s in if is_empty_text s then code c == quote else rest

-- The text of a node without its quotes, the marks of a block scalar and the space around it.
unfoldable pub clean_text : String → String
unfolding trim_func ends_with
clean_text raw =
    let unquoted =
      if starts_with b'"' raw && ends_with b'"' raw
      then trim_func (λ c. c == b'"') raw
      else if starts_with b'\'' raw && ends_with b'\'' raw
      then trim_func (λ c. c == b'\'') raw
      else raw in
    let literal = trim_prefix unquoted "|\n" in
    let folded = trim_prefix literal ">-\n" in trim_func is_white_space (trim_prefix folded ">\n")

module _ (tree : Tree) where
  abbrev first_of_type : String → List ℕ → Option ℕ
  first_of_type type_name [] = none
  first_of_type type_name (n ∷ nodes) =
      if tree.type n == type_name then some n else first_of_type type_name nodes

  abbrev pub get_child_of_type : Option ℕ → String → Option ℕ
  get_child_of_type none type_name = none
  get_child_of_type (some node) type_name = first_of_type type_name (tree.children node)

  unfoldable pub get_first_child : Option ℕ → Option ℕ
  get_first_child none = none
  get_first_child (some node) = elim (tree.children node) [
    | [] ↦ none
    | child ∷ rest ↦
        if tree.type child == "comment" || tree.type child == "anchor"
        then child_at 0 rest
        else some child
  ]

  -- The first node that there is.
  abbrev or_else : Option ℕ → Option ℕ → Option ℕ
  or_else none other = other
  or_else (some node) other = some node

  unfoldable pub get_child_mapping : Option ℕ → Option ℕ
  get_child_mapping node =
      or_else (get_child_of_type node "block_mapping") (get_child_of_type node "flow_mapping")

  unfoldable pub get_child_sequence : Option ℕ → Option ℕ
  get_child_sequence node =
      or_else (get_child_of_type node "block_sequence") (get_child_of_type node "flow_sequence")

  unfoldable pub get_block_mapping_node : Option ℕ → Option ℕ
  get_block_mapping_node stream_node =
      get_child_of_type (get_child_of_type (get_child_of_type stream_node "document") "block_node")
        "block_mapping"

  abbrev pub get_raw_node_text : Option ℕ → String
  get_raw_node_text none = ""
  get_raw_node_text (some node) = tree.text_of node

  unfoldable pub get_node_text : Option ℕ → String
  unfolding clean_text
  get_node_text none = ""
  get_node_text (some node) = clean_text (tree.text_of node)

  abbrev pub is_pair : ℕ → Bool
  is_pair node = tree.type node == "block_mapping_pair" || tree.type node == "flow_pair"

  abbrev pub field_of_node : Option ℕ → String → Option ℕ
  field_of_node none name = none
  field_of_node (some node) name = tree.field_of node name

  abbrev but_comments : List ℕ → List ℕ
  but_comments [] = []
  but_comments (n ∷ nodes) =
      let rest = but_comments nodes in if tree.type n == "comment" then rest else n ∷ rest

  -- The children for which `iterateOnBlockSequence` calls its function.
  unfoldable pub iterate_on_block_sequence : Option ℕ → List ℕ
  iterate_on_block_sequence none = []
  iterate_on_block_sequence (some node) =
      if tree.type node == "block_sequence" || tree.type node == "flow_sequence"
      then but_comments (tree.children node)
      else []

module _ (doc : Source) where
  unfoldable pub node_to_range : Option ℕ → Range
  unfolding add_offset_to_range
  node_to_range none = no_range
  node_to_range (some node) = add_offset_to_range (doc.tree.span node) doc.offset

  abbrev resolve : Option ℕ → Option ℕ
  resolve value_node = elim (get_child_of_type doc.tree value_node "alias") [
    | none ↦ value_node
    | some alias_node ↦
        elim (lookup
          (get_node_text doc.tree (get_child_of_type doc.tree (some alias_node) "alias_name"))
          doc.yaml_anchors) [ none ↦ value_node | some anchor_value ↦ anchor_value ]
  ]

  -- The key and the value of a pair, the value behind an alias in its place.
  unfoldable pub get_key_value_nodes : Option ℕ → Option ℕ × Option ℕ
  get_key_value_nodes none = (none, none)
  get_key_value_nodes (some node) =
      if is_pair doc.tree node
      then (doc.tree.field_of node "key", resolve (doc.tree.field_of node "value"))
      else (none, none)

  -- The closure `getText` of `getNodeTextArrayWithRange`, for a node that is there.
  unfoldable pub element_text : Option ℕ → String × Range
  unfolding get_node_text get_first_child node_to_range trim_left_func
  element_text node = elim (get_child_of_type doc.tree node "alias") [
    | none ↦ (get_node_text doc.tree node, node_to_range node)
    | some alias ↦
        elim (lookup (trim_left_func (λ c. c == b'*') (get_node_text doc.tree (some alias)))
          doc.yaml_anchors) [
            | none ↦ ("", no_range)
            | some anchor_value ↦
                let node = get_first_child doc.tree anchor_value in
                (get_node_text doc.tree node, node_to_range node)
          ]
  ]

  -- The texts of one element of a sequence: none where an item has no child.
  unfoldable pub texts_of_child : ℕ → List (String × Range)
  unfolding element_text
  texts_of_child child =
      if doc.tree.type child == "flow_node"
      then element_text (some child) ∷ []
      else elim (get_child_of_type doc.tree (some child) "flow_node") [
        | some element ↦ element_text (some element) ∷ []
        | none ↦ elim (child_at 0 (doc.tree.children child)) [
          | none ↦ []
          | some hyphen_node ↦ element_text (doc.tree.next_sibling hyphen_node) ∷ []
        ]
      ]

  abbrev texts_of_children : List ℕ → List (String × Range)
  texts_of_children [] = []
  texts_of_children (child ∷ children) = texts_of_child child ++ texts_of_children children

  unfoldable pub get_node_text_array_with_range : Option ℕ → List (String × Range)
  unfolding texts_of_child get_child_sequence iterate_on_block_sequence
  get_node_text_array_with_range value_node =
      texts_of_children
        (iterate_on_block_sequence doc.tree (get_child_sequence doc.tree value_node))

  unfoldable pub get_node_text_array : Option ℕ → List String
  unfolding get_node_text_array_with_range
  get_node_text_array value_node = map (λ t. t.0) (get_node_text_array_with_range value_node)

  unfoldable pub get_node_text_array_or_text : Option ℕ → List String
  unfolding get_node_text_array get_node_text
  get_node_text_array_or_text value_node = elim (get_node_text_array value_node) [
    | [] ↦ get_node_text doc.tree value_node ∷ []
    | t ∷ ts ↦ t ∷ ts
  ]
