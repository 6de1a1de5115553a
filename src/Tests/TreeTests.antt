-- ===== src/Tests/TreeTests.antt =====
-- Runs of the walks over a small tree: a mapping with the pair `k: two` and a merge key for an
-- anchor whose mapping has the pair `k: one`.
use package.text.Mathlib.TextEquality.{eq_iff}
use circleci_yaml_language_s.Prelude.{
  ◌+◌, ℕ, zero, suc, ◌||◌, ◌<◌, ◌≡◌, ◌≢◌, ◌⊎◌, refl, sym, subst, inl, inr, String, true, Option,
  none, some, List, [], ◌∷◌, ◌==◌, nat_eq, string_eq, string_dec, ℕ_discrete, if◌then◌else◌,
  contains, All, arith,
}
use circleci_yaml_language_s.Prelude.Dict.{lookup, insert}
use circleci_yaml_language_s.Position.{add_offset_to_range}
use circleci_yaml_language_s.Diagnostics.{Diagnostic}
use circleci_yaml_language_s.Text.{cut_prefix}
use circleci_yaml_language_s.Walk.{done, runs_on, pure, IsDone, Returns}
use circleci_yaml_language_s.Nodes.{
  Tree, Source, no_position, no_range, get_node_text, get_first_child, get_key_value_nodes,
  clean_text, trim_func, trim_left_func, trim_right_func, ends_with,
}
use circleci_yaml_language_s.Mappings.{
  collect, as_set, is_mapping, merge_names, extract_merge_anchor_names, own_children, fresh,
  merge_value, merge_all, iterate_on_mapping, iterate_on_block_mapping, dictionary_of,
  parse_dictionary,
}
use circleci_yaml_language_s.Mappings.Precedence.{
  OwnFirst, iterate_on_block_mapping-OwnFirst, parse_dictionary-own,
}
use circleci_yaml_language_s.Mappings.Returns.{
  IsRanked, LeadsTo, iterate_on_block_mapping-IsDone, iterate_on_block_mapping-runs_on,
}

abbrev types : ℕ → String
types n =
    if n == 0 || n == 6
    then "block_mapping"
    else if n == 1 || (n == 7 || n == 10)
    then "block_mapping_pair"
    else if n == 4
    then "alias"
    else if n == 5
    then "block_node"
    else "flow_node"

abbrev children : ℕ → List ℕ
children n =
    if n == 0
    then 1 ∷ 7 ∷ []
    else if n == 3
    then 4 ∷ []
    else if n == 5
    then 6 ∷ []
    else if n == 6
    then 10 ∷ []
    else []

abbrev field : ℕ → String → Option ℕ
field n name =
    if n == 1
    then if name == "key" then some 2 else if name == "value" then some 3 else none
    else if n == 7
    then if name == "key" then some 8 else if name == "value" then some 9 else none
    else if n == 10
    then if name == "key" then some 11 else if name == "value" then some 12 else none
    else none

abbrev texts : ℕ → String
texts n =
    if n == 2
    then "<<"
    else if n == 4
    then "*x"
    else if n == 8 || n == 11
    then "k"
    else if n == 9
    then "two"
    else if n == 12
    then "one"
    else ""

abbrev tree : Tree
tree = record {
  type = types;
  children = children;
  parent = λ n. none;
  next_sibling = λ n. none;
  field_of = field;
  text_of = texts;
  span = λ n. no_range;
}

abbrev merging : Source
merging = record {
  tree = tree;
  offset = no_position;
  yaml_anchors = ("x", some 5) ∷ [];
  range_order = λ names. names;
  local_orb_name = "";
}

runs : Unit {0}
unfolding iterate_on_block_mapping iterate_on_mapping merge_all merge_value fresh merge_names
    extract_merge_anchor_names own_children get_node_text clean_text trim_func trim_left_func
    trim_right_func ends_with get_first_child get_key_value_nodes lookup insert string_dec
    ℕ_discrete parse_dictionary add_offset_to_range cut_prefix
runs = tt

entries_run : iterate_on_block_mapping merging 9 (some 0) ≡ pure (7 ∷ [])
unfolding runs
entries_run = refl

dictionary_run : parse_dictionary merging 9 (some 0) ≡ pure (("k", "two") ∷ [])
unfolding runs
dictionary_run = refl

-- The height of each node.
abbrev depth : ℕ → ℕ
depth n =
    if n == 0
    then 5
    else if n == 5
    then 4
    else if n == 1 || n == 6
    then 3
    else if n == 3 || (n == 7 || n == 10)
    then 2
    else 0

abbrev rank : ℕ → ℕ
rank n = if n == 0 then 1 else 0

child_below : (n c : ℕ) → contains (children n) c ≡ true → depth c < depth n
child_below n c h = ground (arith, h)

field_below : (n : ℕ) (name : String) (v : ℕ) → field n name ≡ some v → depth v < depth n
field_below n name v h = ground (arith, h)

alias_text : get_node_text tree (some 4) ≡ "*x"
unfolding runs
alias_text = refl

alias_named : (n : ℕ) → types n ≡ "alias" → get_node_text tree (some n) ≢ ""
alias_named n h = elim (ℕ_discrete n 4) [
  | yes is ↦ λ p.
      let same : get_node_text tree (some 4) ≡ "" =
        subst (λ m. get_node_text tree (some m) ≡ "") is p in
      absurd (ground (arith, alias_text, same, eq_iff "*x" ""))
  | no other ↦ absurd (
      ground (
        arith,
        h,
        other,
        eq_iff "block_mapping" "alias",
        eq_iff "block_mapping_pair" "alias",
        eq_iff "block_node" "alias",
        eq_iff "flow_node" "alias",
      ))
]

mapping_cases : (n : ℕ) → is_mapping merging n ≡ true → (n ≡ 0) ⊎ (n ≡ 6)
mapping_cases n h = elim (ℕ_discrete n 0) [
  | yes zeroth ↦ inl zeroth
  | no other ↦ elim (ℕ_discrete n 6) [
    | yes sixth ↦ inr sixth
    | no another ↦ absurd (
        ground (
          arith,
          h,
          other,
          another,
          eq_iff "alias" "block_mapping",
          eq_iff "block_mapping_pair" "block_mapping",
          eq_iff "block_node" "block_mapping",
          eq_iff "flow_node" "block_mapping",
          eq_iff "alias" "flow_mapping",
          eq_iff "block_mapping_pair" "flow_mapping",
          eq_iff "block_node" "flow_mapping",
          eq_iff "flow_node" "flow_mapping",
        ))
  ]
]

first_names :
    (fuel : ℕ) (names : List String) (ds : List Diagnostic)
    → collect (merge_names merging fuel) (children 0) ≡ done names ds
    → names ≡ "x" ∷ []
unfolding runs
first_names zero names ds h = absurd (ground (arith, h))
first_names (suc fuel) names ds h = ground (arith, h)

no_names :
    (fuel : ℕ) (names : List String) (ds : List Diagnostic)
    → collect (merge_names merging fuel) (children 6) ≡ done names ds
    → names ≡ []
unfolding runs
no_names fuel names ds h = ground (arith, h)

anchored :
    (value first : ℕ)
    → lookup "x" merging.yaml_anchors ≡ some (some value)
    → get_first_child tree (some value) ≡ some first
    → rank first < rank 0
unfolding runs
anchored value first a b =
    let is : 5 ≡ value = ground (arith, a) in
    let c : get_first_child tree (some 5) ≡ some first =
      subst (λ v. get_first_child tree (some v) ≡ some first) (sym is) b in
    let d : 6 ≡ first = ground (arith, c) in subst (λ f. rank f < rank 0) d (omega arith)

abbrev Below : ℕ → String → Type 0
Below n name =
    (value first : ℕ)
    → lookup name merging.yaml_anchors ≡ some (some value)
    → get_first_child tree (some value) ≡ some first
    → rank first < rank n

merged-Below :
    (fuel n : ℕ) (names : List String) (ds : List Diagnostic)
    → is_mapping merging n ≡ true
    → collect (merge_names merging fuel) (children n) ≡ done names ds
    → All (Below n) (as_set names)
merged-Below fuel n names ds m h = elim (mapping_cases n m) [
  | inl zeroth ↦
      let here =
        subst (λ k. collect (merge_names merging fuel) (children k) ≡ done names ds) zeroth h in
      let is = first_names fuel names ds here in
      let all : All (Below 0) (as_set ("x" ∷ [])) = (anchored, tt) in
      subst (λ k. All (Below k) (as_set names)) (sym zeroth)
        (subst (λ l. All (Below 0) (as_set l)) (sym is) all)
  | inr sixth ↦
      let here =
        subst (λ k. collect (merge_names merging fuel) (children k) ≡ done names ds) sixth h in
      let is = no_names fuel names ds here in
      let all : All (Below n) (as_set []) = tt in subst (λ l. All (Below n) (as_set l)) (sym is) all
]

merging-IsRanked : IsRanked merging depth rank 6
merging-IsRanked = record {
  child_below = child_below;
  field_below = field_below;
  below_bound = λ n. ground arith;
  alias_named = alias_named;
  merged_below = merged-Below;
}

iterate_on_block_mapping-IsDone_example : IsDone (iterate_on_block_mapping merging 9 (some 0))
unfolding ℕ_discrete
iterate_on_block_mapping-IsDone_example =
    iterate_on_block_mapping-IsDone merging depth rank 6 merging-IsRanked 9 0 (omega arith)

above_rank : rank 0 + suc 6 < 9
unfolding runs
above_rank = omega arith

iterate_on_block_mapping-OwnFirst_example :
    Returns (OwnFirst merging 0) (iterate_on_block_mapping merging 9 (some 0))
unfolding runs
iterate_on_block_mapping-OwnFirst_example =
    iterate_on_block_mapping-OwnFirst merging depth rank 6 merging-IsRanked 9 0 above_rank refl

parse_dictionary-own_example :
    Returns
      (λ d.
        lookup "k" d ≡ lookup "k" (dictionary_of merging [] (own_children merging (children 0))))
      (parse_dictionary merging 9 (some 0))
unfolding runs
parse_dictionary-own_example =
    parse_dictionary-own merging depth rank 6 merging-IsRanked 9 0 "k" above_rank refl refl

-- `x: &x` over `<<: *x`: the anchor's own mapping asks to merge it.
abbrev own_types : ℕ → String
own_types n = if n == 6 then "anchor" else types n

abbrev own_anchored : ℕ → List ℕ
own_anchored n = if n == 0 then 1 ∷ [] else if n == 5 then 6 ∷ 0 ∷ [] else children n

abbrev cyclic : Source
cyclic = record {
  tree = record {
    type = own_types;
    children = own_anchored;
    parent = λ n. none;
    next_sibling = λ n. none;
    field_of = field;
    text_of = texts;
    span = λ n. no_range;
  };
  offset = no_position;
  yaml_anchors = ("x", some 5) ∷ [];
  range_order = λ names. names;
  local_orb_name = "";
}

asked :
    (fuel : ℕ)
    → (collect (merge_names cyclic fuel) (own_anchored 0) ≡ runs_on)
      ⊎ (collect (merge_names cyclic fuel) (own_anchored 0) ≡ pure ("x" ∷ []))
unfolding runs
asked zero = inl refl
asked (suc fuel) = inr refl

to_itself : LeadsTo cyclic 0 0
unfolding runs
to_itself = record {
  name = "x";
  value = 5;
  names = "x" ∷ [];
  others = [];
  mapping = refl;
  asked = asked;
  ordered = refl;
  anchored = refl;
  begins = refl;
}

abbrev IsStart : ℕ → Type 0
IsStart n = n ≡ 0

again-IsStart : (n : ℕ) → IsStart n → LeadsTo cyclic n 0 × IsStart 0
again-IsStart n e = (subst (λ k. LeadsTo cyclic k 0) (sym e) to_itself, refl)

iterate_on_block_mapping-runs_on_example : iterate_on_block_mapping cyclic 1000 (some 0) ≡ runs_on
iterate_on_block_mapping-runs_on_example =
    iterate_on_block_mapping-runs_on cyclic IsStart (λ n. 0) again-IsStart 1000 0 refl
