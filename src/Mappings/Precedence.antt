-- ===== src/Mappings/Precedence.antt =====
-- The pairs of a mapping itself come first, and no merged pair has the key of one before it.
use circleci_yaml_language_s.Prelude.{
  ℕ, zero, suc, ◌+◌, ◌<◌, ◌≡◌, ◌≢◌, refl, sym, ap, ◌∙◌, subst, inl, inr, String, true, false, ◌||◌,
  Option, none, some, List, [], ◌∷◌, ◌++◌, map, string_eq, contains, arith, Bool-cases,
  Option-cases,
}
use circleci_yaml_language_s.Prelude.Dict.{Dict, lookup, lookup-insert}
use circleci_yaml_language_s.Walk.{
  Walk, pure, Yields, Returns, IsDone-bind, Yields-Returns, Yields-bind, Yields-then,
}
use circleci_yaml_language_s.Nodes.{
  Source, get_node_text, get_key_value_nodes, get_first_child, is_pair,
}
use circleci_yaml_language_s.Mappings.{
  collect, as_set, key_text, own_children, merge_names, entry_key, fresh, merge_value, merge_all,
  is_mapping, iterate_on_mapping, iterate_on_block_mapping, add_to_dictionary, dictionary_of,
  parse_dictionary,
}
use circleci_yaml_language_s.Mappings.Returns.{
  IsRanked, iterate-mapping, iterate_on_block_mapping-IsDone,
}

contains-append :
    (xs ys : List String) (k : String) → contains (xs ++ ys) k ≡ (contains xs k || contains ys k)
contains-append [] ys k = refl
contains-append (x ∷ xs) ys k = ground (arith, contains-append xs ys k)

-- The same names, whatever their order.
abbrev Same : List String → List String → Type 0
Same xs ys = (k : String) → contains xs k ≡ contains ys k

append_assoc : (xs ys zs : List ℕ) → (xs ++ ys) ++ zs ≡ xs ++ (ys ++ zs)
append_assoc [] ys zs = refl
append_assoc (x ∷ xs) ys zs = ap (λ l. x ∷ l) (append_assoc xs ys zs)

module _ (doc : Source) where
  -- Each key is not among the keys before it.
  abbrev pub IsFresh : List String → List ℕ → Type 0
  IsFresh mapped_keys [] = Unit
  IsFresh mapped_keys (child ∷ children) =
      (contains mapped_keys (entry_key doc child) ≡ false)
      × IsFresh (entry_key doc child ∷ mapped_keys) children

  IsFresh-Same :
      (xs ys : List String) (children : List ℕ)
      → Same xs ys
      → IsFresh xs children
      → IsFresh ys children
  IsFresh-Same xs ys [] same h = tt
  IsFresh-Same xs ys (child ∷ children) same (h, hs) = (
    sym (same (entry_key doc child)) ∙ h,
    IsFresh-Same (entry_key doc child ∷ xs) (entry_key doc child ∷ ys) children
        (λ k. ground (arith, same k)) hs,
  )

  fresh-IsFresh :
      (mapped_keys : List String) (children : List ℕ)
      → IsFresh mapped_keys (fresh doc mapped_keys children)
  unfolding fresh
  fresh-IsFresh mapped_keys [] = tt
  fresh-IsFresh mapped_keys (child ∷ children) =
      elim (Bool-cases (contains mapped_keys (entry_key doc child))) [
        | inl e ↦ subst (IsFresh mapped_keys) (sym (known e)) (fresh-IsFresh mapped_keys children)
        | inr e ↦
            subst (IsFresh mapped_keys) (sym (new e))
              (e, fresh-IsFresh (entry_key doc child ∷ mapped_keys) children)
      ]
    where
      known :
          contains mapped_keys (entry_key doc child) ≡ true
          → fresh doc mapped_keys (child ∷ children) ≡ fresh doc mapped_keys children
      known e = ground (arith, e)

      new :
          contains mapped_keys (entry_key doc child) ≡ false
          → fresh doc mapped_keys (child ∷ children)
            ≡ child ∷ fresh doc (entry_key doc child ∷ mapped_keys) children
      new e = ground (arith, e)

  IsFresh-append :
      (mapped_keys : List String) (xs ys : List ℕ)
      → IsFresh mapped_keys xs
      → IsFresh (map (entry_key doc) xs ++ mapped_keys) ys
      → IsFresh mapped_keys (xs ++ ys)
  IsFresh-append mapped_keys [] ys h k = k
  IsFresh-append mapped_keys (x ∷ xs) ys (h, hs) k = (
    h,
    IsFresh-append (entry_key doc x ∷ mapped_keys) xs ys hs (
        IsFresh-Same (entry_key doc x ∷ (map (entry_key doc) xs ++ mapped_keys))
          (map (entry_key doc) xs ++ (entry_key doc x ∷ mapped_keys)) ys
          (λ j. ground (
            arith,
            contains-append (map (entry_key doc) xs) mapped_keys j,
            contains-append (map (entry_key doc) xs) (entry_key doc x ∷ mapped_keys) j,
          ))
          k),
  )

  merge_value-IsFresh :
      (iterate : Option ℕ → Walk (List ℕ)) (mapped_keys : List String)
      (others : List String → Walk (List ℕ)) (found : Option (Option ℕ))
      → ((keys : List String) → Yields (IsFresh keys) (others keys))
      → Yields (IsFresh mapped_keys) (merge_value doc iterate mapped_keys others found)
  unfolding merge_value
  merge_value-IsFresh iterate mapped_keys others none h = tt
  merge_value-IsFresh iterate mapped_keys others (some none) h = tt
  merge_value-IsFresh iterate mapped_keys others (some (some value)) h =
      Yields-then (IsFresh mapped_keys) (iterate (get_first_child doc.tree (some value))) _
        λ children.
          Yields-bind
            (IsFresh (map (entry_key doc) (fresh doc mapped_keys children) ++ mapped_keys))
            (IsFresh mapped_keys) (others _) (λ rest. pure (fresh doc mapped_keys children ++ rest))
            (h _)
            (λ rest f.
              IsFresh-append mapped_keys (fresh doc mapped_keys children) rest
                (fresh-IsFresh mapped_keys children) f)

  merge_all-IsFresh :
      (iterate : Option ℕ → Walk (List ℕ)) (mapped_keys names : List String)
      → Yields (IsFresh mapped_keys) (merge_all doc iterate mapped_keys names)
  unfolding merge_all
  merge_all-IsFresh iterate mapped_keys [] = tt
  merge_all-IsFresh iterate mapped_keys (name ∷ names) =
      merge_value-IsFresh iterate mapped_keys _ (lookup name doc.yaml_anchors)
        (λ keys. merge_all-IsFresh iterate keys names)

  -- The children of a walk: those of the mapping, then others with new keys.
  abbrev pub OwnFirst : ℕ → List ℕ → Type 0
  OwnFirst node children =
      let own = own_children doc (doc.tree.children node) in
      (merged : List ℕ) × (children ≡ own ++ merged) × IsFresh (map (key_text doc) own) merged

  entries-OwnFirst :
      (fuel node : ℕ)
      → is_mapping doc node ≡ true
      → Yields (OwnFirst node) (iterate_on_block_mapping doc fuel (some node))
  unfolding iterate_on_block_mapping iterate_on_mapping
  entries-OwnFirst zero node h = tt
  entries-OwnFirst (suc fuel) node h =
      let own = own_children doc (doc.tree.children node) in
      let iterate = iterate_on_block_mapping doc fuel in
      subst (Yields (OwnFirst node)) (sym (iterate-mapping doc fuel node h)) (
        Yields-then (OwnFirst node) (collect (merge_names doc fuel) (doc.tree.children node)) _
          λ names.
            Yields-bind (IsFresh (map (key_text doc) own)) (OwnFirst node)
              (merge_all doc iterate (map (key_text doc) own) (doc.range_order (as_set names))) _
              (merge_all-IsFresh iterate (map (key_text doc) own) (doc.range_order (as_set names)))
              (λ merged f. (merged, refl, f)))

  dictionary_of-append :
      (d : Dict String String) (xs ys : List ℕ)
      → dictionary_of doc d (xs ++ ys) ≡ dictionary_of doc (dictionary_of doc d xs) ys
  dictionary_of-append d [] ys = refl
  dictionary_of-append d (x ∷ xs) ys = dictionary_of-append (add_to_dictionary doc d x) xs ys

  lookup-add_to_dictionary :
      (k : String) (d : Dict String String) (child : ℕ)
      → k ≢ entry_key doc child
      → lookup k (add_to_dictionary doc d child) ≡ lookup k d
  lookup-add_to_dictionary k d child h = elim (Bool-cases (is_pair doc.tree child)) [
    | inr e ↦ ground (arith, e)
    | inl e ↦ elim (Option-cases (get_key_value_nodes doc (some child)).0) [
      | inl a ↦ ground (arith, e, a)
      | inr (key, a) ↦ elim (Option-cases (get_key_value_nodes doc (some child)).1) [
        | inl b ↦ ground (arith, e, a, b)
        | inr (value, b) ↦
            let other : k ≢ get_node_text doc.tree (some key) =
              λ p. h (p ∙ ap (get_node_text doc.tree) (sym a)) in
            ground (
              arith,
              e,
              a,
              b,
              other,
              lookup-insert k (get_node_text doc.tree (some key))
                  (get_node_text doc.tree (some value)) d,
            )
      ]
    ]
  ]

  lookup-dictionary_of :
      (k : String) (mapped_keys : List String) (d : Dict String String) (children : List ℕ)
      → contains mapped_keys k ≡ true
      → IsFresh mapped_keys children
      → lookup k (dictionary_of doc d children) ≡ lookup k d
  lookup-dictionary_of k mapped_keys d [] h f = refl
  lookup-dictionary_of k mapped_keys d (child ∷ children) h (f, fs) =
      lookup-dictionary_of k (entry_key doc child ∷ mapped_keys) (add_to_dictionary doc d child)
        children (ground (arith, h)) fs
      ∙ lookup-add_to_dictionary k d child (λ e. ground (arith, f, h, e))

  dictionary-own :
      (fuel node : ℕ) (k : String)
      → is_mapping doc node ≡ true
      → contains (map (key_text doc) (own_children doc (doc.tree.children node))) k ≡ true
      → Yields
          (λ d.
            lookup k d
            ≡ lookup k (dictionary_of doc [] (own_children doc (doc.tree.children node))))
          (parse_dictionary doc fuel (some node))
  unfolding parse_dictionary
  dictionary-own fuel node k h m =
      let own = own_children doc (doc.tree.children node) in
      Yields-bind (OwnFirst node) (λ d. lookup k d ≡ lookup k (dictionary_of doc [] own))
        (iterate_on_block_mapping doc fuel (some node))
        (λ children. pure (dictionary_of doc [] children)) (entries-OwnFirst fuel node h)
        λ children (merged, e, f).
          ap (λ c. lookup k (dictionary_of doc [] c)) e
          ∙ ap (lookup k) (dictionary_of-append [] own merged)
          ∙ lookup-dictionary_of k (map (key_text doc) own) (dictionary_of doc [] own) merged m f

-- Where merged anchors are ranked, so that fuel above the rank is enough.
module _ (doc : Source) (depth rank : ℕ → ℕ) (bound : ℕ)
    (ranked : IsRanked doc depth rank bound) where
  -- At a mapping, the walk returns. It calls its function for the children of the mapping itself,
  -- each one that is neither a comment nor a merge key, in their order, and then for merged pairs:
  -- none has the key of a child before it, so a merged value never takes the place of the mapping's
  -- own, and of the merged ones each key comes once.
  pub iterate_on_block_mapping-OwnFirst :
      (fuel node : ℕ)
      → rank node + suc bound < fuel
      → is_mapping doc node ≡ true
      → Returns (OwnFirst doc node) (iterate_on_block_mapping doc fuel (some node))
  iterate_on_block_mapping-OwnFirst fuel node f h =
      Yields-Returns (OwnFirst doc node) (iterate_on_block_mapping doc fuel (some node))
        (iterate_on_block_mapping-IsDone doc depth rank bound ranked fuel node f)
        (entries-OwnFirst doc fuel node h)

  -- The dictionary of a mapping is read, and a key that the mapping has itself is read as from the
  -- mapping's own pairs, whatever its merge keys bring.
  pub parse_dictionary-own :
      (fuel node : ℕ) (k : String)
      → rank node + suc bound < fuel
      → is_mapping doc node ≡ true
      → contains (map (key_text doc) (own_children doc (doc.tree.children node))) k ≡ true
      → Returns
          (λ d.
            lookup k d
            ≡ lookup k (dictionary_of doc [] (own_children doc (doc.tree.children node))))
          (parse_dictionary doc fuel (some node))
  unfolding parse_dictionary
  parse_dictionary-own fuel node k f h m =
      Yields-Returns _ (parse_dictionary doc fuel (some node))
        (IsDone-bind (iterate_on_block_mapping doc fuel (some node))
          (λ children. pure (dictionary_of doc [] children))
          (iterate_on_block_mapping-IsDone doc depth rank bound ranked fuel node f)
          (λ children ds e. tt))
        (dictionary-own doc fuel node k h m)
