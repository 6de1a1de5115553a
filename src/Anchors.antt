-- ===== src/Anchors.antt =====
-- pkg/parser/anchors.go: the anchors of a document and the aliases that name them. The nodes that
-- tree-sitter's queries `(anchor)` and `(alias)` match are arguments.
pub mod Aliases
use circleci_yaml_language_s.Prelude.{
  ℕ, String, Bool, true, false, ◌||◌, Option, none, some, List, [], ◌∷◌, ◌++◌, string_eq,
  if◌then◌else◌,
}
use circleci_yaml_language_s.Prelude.Dict.{Dict, lookup, insert}
use circleci_yaml_language_s.Position.{Position, Range, pos_in_range}
use circleci_yaml_language_s.Walk.{Walk, pure, ◌>>=◌, fold}
use circleci_yaml_language_s.Nodes.{Source, get_child_of_type, get_node_text, node_to_range}
use circleci_yaml_language_s.Mappings.{text_tail}

-- YamlAnchor
pub record YamlAnchor : Type 0 where
  pub definition_range : Range
  pub references : List Range
  pub value_node : Option ℕ

-- The field `ValueNode` of each anchor.
abbrev pub value_nodes : Dict String YamlAnchor → Dict String (Option ℕ)
value_nodes [] = []
value_nodes ((name, anchor) ∷ anchors) = (name, anchor.value_node) ∷ value_nodes anchors

-- *anchor.References = append(*anchor.References, aliasRange)
abbrev pub add_reference : YamlAnchor → Range → YamlAnchor
add_reference anchor rng = record {
  definition_range = anchor.definition_range;
  references = anchor.references ++ rng ∷ [];
  value_node = anchor.value_node;
}

module _ (doc : Source) where
  abbrev pub anchor_name : ℕ → String
  anchor_name node = get_node_text doc.tree (get_child_of_type doc.tree (some node) "anchor_name")

  abbrev pub anchor_at : ℕ → YamlAnchor
  anchor_at node = record {
    definition_range = node_to_range doc (some node);
    references = [];
    value_node = doc.tree.parent node;
  }

  -- The loop over the anchors.
  unfoldable pub add_anchors : Dict String YamlAnchor → List ℕ → Dict String YamlAnchor
  add_anchors anchor_map [] = anchor_map
  add_anchors anchor_map (node ∷ nodes) =
      add_anchors (insert (anchor_name node) (anchor_at node) anchor_map) nodes

  -- One round of the loop over the aliases.
  unfoldable pub add_alias : Dict String YamlAnchor → ℕ → Walk (Dict String YamlAnchor)
  add_alias anchor_map node = do
    name ← text_tail (get_node_text doc.tree (some node))
    pure (elim (lookup name anchor_map) [
      | none ↦ anchor_map
      | some anchor ↦ insert name (add_reference anchor (node_to_range doc (some node))) anchor_map
    ])

  unfoldable pub parse_yaml_anchors : List ℕ → List ℕ → Walk (Dict String YamlAnchor)
  unfolding add_anchors add_alias
  parse_yaml_anchors anchor_nodes alias_nodes =
      fold add_alias (add_anchors [] anchor_nodes) alias_nodes

abbrev pub any_in_range : List Range → Position → Bool
any_in_range [] pos = false
any_in_range (rng ∷ ranges) pos = pos_in_range rng pos || any_in_range ranges pos

unfoldable pub is_yaml_alias_position : Dict String YamlAnchor → Position → Bool
is_yaml_alias_position [] pos = false
is_yaml_alias_position ((_, anchor) ∷ anchors) pos =
    any_in_range anchor.references pos || is_yaml_alias_position anchors pos

-- The map is in the order in which Go ranges over it.
unfoldable pub get_yaml_anchor_at_position : Dict String YamlAnchor → Position → Option YamlAnchor
get_yaml_anchor_at_position [] pos = none
get_yaml_anchor_at_position ((_, anchor) ∷ anchors) pos =
    let rest = get_yaml_anchor_at_position anchors pos in
    if pos_in_range anchor.definition_range pos then some anchor else rest
