-- ===== src/Anchors/Aliases.antt =====
-- Which anchor a name stands for, and where its aliases are.
use circleci_yaml_language_s.Prelude.{
  ◌≢◌, true, nat_eq, contains, ℕ, ◌≡◌, refl, ap, ◌∙◌, inl, inr, String, Option, none, some, List,
  [], ◌∷◌, ◌==◌, string_eq, arith, Option-cases, if◌then◌else◌,
}
use circleci_yaml_language_s.Prelude.Dict.{Dict, lookup, insert, lookup-insert}
use circleci_yaml_language_s.Walk.{
  fold, IsDone, Returns, IsDone-bind, IsDone-fold, Yields-Returns, Yields, Yields-then, Yields-fold,
}
use circleci_yaml_language_s.Nodes.{Source, get_node_text, node_to_range}
use circleci_yaml_language_s.Mappings.Returns.{IsDone-text_tail}
use circleci_yaml_language_s.Mappings.{text_tail}
use circleci_yaml_language_s.Anchors.{
  YamlAnchor, value_nodes, add_reference, anchor_name, anchor_at, add_anchors, add_alias,
  parse_yaml_anchors,
}

lookup-value_nodes :
    (k : String) (anchors : Dict String YamlAnchor)
    → lookup k (value_nodes anchors)
      ≡ (elim (lookup k anchors) [ none ↦ none | some anchor ↦ some anchor.value_node ])
unfolding lookup
lookup-value_nodes k [] = refl
lookup-value_nodes k ((j, anchor) ∷ anchors) = ground (arith, lookup-value_nodes k anchors)

module _ (doc : Source) where
  -- The value of the last anchor of a name.
  abbrev pub last_value : String → Option (Option ℕ) → List ℕ → Option (Option ℕ)
  last_value name before [] = before
  last_value name before (node ∷ nodes) =
      last_value name (if name == anchor_name doc node then some (doc.tree.parent node) else before)
        nodes

  lookup-add_anchors :
      (name : String) (anchors : Dict String YamlAnchor) (nodes : List ℕ)
      → lookup name (value_nodes (add_anchors doc anchors nodes))
        ≡ last_value name (lookup name (value_nodes anchors)) nodes
  unfolding add_anchors
  lookup-add_anchors name anchors [] = refl
  lookup-add_anchors name anchors (node ∷ nodes) =
      lookup-add_anchors name (insert (anchor_name doc node) (anchor_at doc node) anchors) nodes
      ∙ ap (λ before. last_value name before nodes) (step_anchor)
    where
      step_anchor :
          lookup name (value_nodes (insert (anchor_name doc node) (anchor_at doc node) anchors)) ≡ (
            if name == anchor_name doc node
            then some (doc.tree.parent node)
            else lookup name (value_nodes anchors))
      step_anchor = ground (
        arith,
        lookup-value_nodes name (insert (anchor_name doc node) (anchor_at doc node) anchors),
        lookup-value_nodes name anchors,
        lookup-insert name (anchor_name doc node) (anchor_at doc node) anchors,
      )

  -- An alias leaves the values of the anchors as they are.
  add_alias-value_nodes :
      (k : String) (v : Option (Option ℕ)) (anchors : Dict String YamlAnchor) (node : ℕ)
      → lookup k (value_nodes anchors) ≡ v
      → Yields (λ m. lookup k (value_nodes m) ≡ v) (add_alias doc anchors node)
  unfolding add_alias
  add_alias-value_nodes k v anchors node h =
      Yields-then (λ m. lookup k (value_nodes m) ≡ v)
        (text_tail (get_node_text doc.tree (some node))) _
        λ name. elim (Option-cases (lookup name anchors)) [
          | inl e ↦ ground (arith, e, h)
          | inr (anchor, e) ↦
              let rng = node_to_range doc (some node) in
              ground (
                arith,
                e,
                h,
                lookup-value_nodes k anchors,
                lookup-value_nodes k (insert name (add_reference anchor rng) anchors),
                lookup-insert k name (add_reference anchor rng) anchors,
              )
        ]

  add_alias-IsDone :
      (m : Dict String YamlAnchor) (node : ℕ)
      → get_node_text doc.tree (some node) ≢ ""
      → IsDone (add_alias doc m node)
  unfolding add_alias
  add_alias-IsDone m node h =
      IsDone-bind (text_tail (get_node_text doc.tree (some node))) _
        (IsDone-text_tail (get_node_text doc.tree (some node)) h) (λ name ds e. tt)

  -- Where every alias has a text, the table of anchors is built without a panic, and a name stands
  -- for the value of its last anchor in the file, wherever its alias is.
  pub lookup-parse_yaml_anchors :
      (name : String) (anchor_nodes alias_nodes : List ℕ)
      → ((n : ℕ) → contains alias_nodes n ≡ true → get_node_text doc.tree (some n) ≢ "")
      → Returns
          (λ m. lookup name (value_nodes m) ≡ last_value name none anchor_nodes)
          (parse_yaml_anchors doc anchor_nodes alias_nodes)
  unfolding parse_yaml_anchors lookup
  lookup-parse_yaml_anchors name anchor_nodes alias_nodes texts =
      Yields-Returns (λ m. lookup name (value_nodes m) ≡ last_value name none anchor_nodes)
        (fold (add_alias doc) (add_anchors doc [] anchor_nodes) alias_nodes)
        (IsDone-fold (add_alias doc) (add_anchors doc [] anchor_nodes) alias_nodes
          (λ m n k. add_alias-IsDone m n (texts n k)))
        (Yields-fold (λ m. lookup name (value_nodes m) ≡ last_value name none anchor_nodes)
          (add_alias doc) (add_anchors doc [] anchor_nodes) alias_nodes
          (lookup-add_anchors name [] anchor_nodes)
          (λ m node h. add_alias-value_nodes name (last_value name none anchor_nodes) m node h))
