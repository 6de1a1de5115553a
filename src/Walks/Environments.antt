-- ===== src/Walks/Environments.antt =====
-- The environment of a run step: `parseRunStep` hands `parseDictionary` the value of the pair, not
-- the mapping inside of it as `parseSingleJob` does.
use circleci_yaml_language_s.Prelude.{
  ℕ, zero, suc, ◌≡◌, refl, sym, ap, subst, inl, inr, String, false, Option, none, some, [], ◌==◌,
  string_eq, arith, Option-cases, Bool-cases,
}
use circleci_yaml_language_s.Prelude.Dict.{Dict}
use circleci_yaml_language_s.Cycles.{ℤ}
use circleci_yaml_language_s.Values.{Run}
use circleci_yaml_language_s.Walk.{
  Walk, IsDone, IsDone-if, IsDone-elim, IsDone-bind, IsDone-with_value, IsDone-fold, Returns,
  Yields-Returns, pure, fold, Yields, Yields-then, Yields-if, Yields-elim, Yields-elim-at,
  Yields-with_value, Yields-fold,
}
use circleci_yaml_language_s.Nodes.{Source, get_child_mapping, get_child_of_type}
use circleci_yaml_language_s.Mappings.{is_mapping, iterate_on_block_mapping, dictionary_of}
use circleci_yaml_language_s.Mappings.Returns.{iterate-other}
use circleci_yaml_language_s.Walks.{Recursion, key_node, value_node, key_name, key_range, at_pair}
use circleci_yaml_language_s.Walks.BuiltIn.{run_of, set_environment, run_of_pairs, parse_run_step}
use circleci_yaml_language_s.Walks.Fuel.{recursion}

IsDone-elim-at {ℓ κ} :
    {A : Type ℓ} {B : Type κ} (o : Option B) (w : Walk A) (f : B → Walk A)
    → IsDone w
    → ((b : B) → o ≡ some b → IsDone (f b))
    → IsDone (elim o [ none ↦ w | some b ↦ f b ])
IsDone-elim-at none w f h k = h
IsDone-elim-at (some b) w f h k = k b refl

module _ (doc : Source) where
  at_pair-value_node :
      (key : String) (child v : ℕ)
      → at_pair doc key (λ c w. w) child ≡ some v
      → value_node doc child ≡ some v
  at_pair-value_node key child v e = elim (Option-cases (key_node doc child)) [
    | inl a ↦ absurd (ground (arith, e, a))
    | inr (k, a) ↦ elim (Option-cases (value_node doc child)) [
      | inl b ↦ absurd (ground (arith, e, a, b))
      | inr (w, b) ↦ elim (Bool-cases (key_name doc child == key)) [
        | inl c ↦ ground (arith, e, a, b, c)
        | inr c ↦ absurd (ground (arith, e, a, b, c))
      ]
    ]
  ]

  key_range-IsDone :
      (node parent : ℕ) → doc.tree.parent node ≡ some parent → IsDone (key_range doc node)
  unfolding key_range
  key_range-IsDone node parent e = ground (arith, e)

  abbrev Empty : Dict String String → Type 0
  Empty d = d ≡ []

  abbrev NoEnvironment : Run → Type 0
  NoEnvironment r = r.environment ≡ []

  module _ (recur : Recursion)
      (others : (v : ℕ) → is_mapping doc v ≡ false → Yields (λ c. c ≡ []) (recur.entries (some v)))
      (wrapped : (child v : ℕ) → value_node doc child ≡ some v → is_mapping doc v ≡ false) where
    set_environment-Empty :
        (d : Dict String String) (child : ℕ)
        → Empty d
        → Yields Empty (set_environment doc recur d child)
    set_environment-Empty d child e =
        Yields-elim-at Empty (at_pair doc "environment" (λ c v. v) child) (pure d) _ (λ a. e)
          λ v a.
            Yields-with_value (λ c. c ≡ []) Empty (dictionary_of doc []) (recur.entries (some v))
              (others v (wrapped child v (at_pair-value_node "environment" child v a)))
              (λ c b. ap (dictionary_of doc []) b)

    set_environment-IsDone :
        (d : Dict String String) (child : ℕ)
        → ((v : ℕ) → is_mapping doc v ≡ false → IsDone (recur.entries (some v)))
        → IsDone (set_environment doc recur d child)
    set_environment-IsDone d child return =
        IsDone-elim-at (at_pair doc "environment" (λ c v. v) child) (pure d) _ tt λ v a.
          IsDone-with_value (dictionary_of doc []) (recur.entries (some v))
            (return v (wrapped child v (at_pair-value_node "environment" child v a)))

    run_step-IsDone :
        (node parent : ℕ)
        → doc.tree.parent node ≡ some parent
        → ((v : ℕ) → is_mapping doc v ≡ false → IsDone (recur.entries (some v)))
        → IsDone (recur.entries (get_child_mapping doc.tree (some node)))
        → IsDone (parse_run_step doc recur node)
    unfolding parse_run_step run_of_pairs
    run_step-IsDone node parent e return pairs =
        let key = key_range-IsDone node parent e in
        IsDone-if (doc.tree.type node == "flow_node") _ _
          (IsDone-with_value (run_of doc node) (key_range doc node) key)
          (IsDone-elim (get_child_of_type doc.tree (some node) "block_scalar") _ _
            (IsDone-bind (key_range doc node) _ key λ rng ds a.
              IsDone-bind (recur.entries (get_child_mapping doc.tree (some node)))
                (run_of_pairs doc recur rng) pairs
                λ children es b.
                  IsDone-with_value _ (fold (set_environment doc recur) [] children) (
                    IsDone-fold (set_environment doc recur) [] children
                      (λ d n m. set_environment-IsDone d n return)))
            (λ scalar. IsDone-with_value (run_of doc scalar) (key_range doc node) key))

    run_step-NoEnvironment : (node : ℕ) → Yields NoEnvironment (parse_run_step doc recur node)
    unfolding parse_run_step run_of_pairs
    run_step-NoEnvironment node =
        Yields-if NoEnvironment (doc.tree.type node == "flow_node") _ _
          (Yields-then NoEnvironment (key_range doc node) (λ rng. pure (run_of doc node rng))
            (λ rng. refl))
          (Yields-elim NoEnvironment (get_child_of_type doc.tree (some node) "block_scalar") _ _
            (Yields-then NoEnvironment (key_range doc node) _ λ rng.
              Yields-then NoEnvironment (recur.entries (get_child_mapping doc.tree (some node)))
                (run_of_pairs doc recur rng)
                λ children.
                  Yields-with_value Empty NoEnvironment _
                    (fold (set_environment doc recur) [] children)
                    (Yields-fold Empty (set_environment doc recur) [] children refl
                      set_environment-Empty)
                    (λ d e. e))
            (λ scalar.
              Yields-then NoEnvironment (key_range doc node) (λ rng. pure (run_of doc scalar rng))
                (λ rng. refl)))

module _ (doc : Source) (atoi : String → Option ℤ) (parameter_name_in : String → String) where
  entries-other :
      (fuel v : ℕ)
      → is_mapping doc v ≡ false
      → Yields (λ c. c ≡ []) ((recursion doc atoi parameter_name_in fuel).entries (some v))
  unfolding recursion
  entries-other zero v h = tt
  entries-other (suc fuel) v h =
      subst (Yields (λ c. c ≡ [])) (sym (iterate-other doc fuel v h)) refl

  entries-IsDone :
      (fuel v : ℕ)
      → is_mapping doc v ≡ false
      → IsDone ((recursion doc atoi parameter_name_in (suc fuel)).entries (some v))
  unfolding recursion
  entries-IsDone fuel v h = subst IsDone (sym (iterate-other doc fuel v h)) tt

  pairs-IsDone :
      (fuel : ℕ) (start : Option ℕ)
      → IsDone (iterate_on_block_mapping doc (suc fuel) start)
      → IsDone ((recursion doc atoi parameter_name_in (suc fuel)).entries start)
  unfolding recursion
  pairs-IsDone fuel start h = h

  -- Where no value of a pair is itself a mapping (tree-sitter wraps the mapping in a block node or a
  -- flow node), the value of `run` has a parent and the walk over its pairs returns, the parser's
  -- walk returns a run step that has no environment, whatever its key `environment` says.
  pub parse_run_step-no_environment :
      (fuel node parent : ℕ)
      → ((child v : ℕ) → value_node doc child ≡ some v → is_mapping doc v ≡ false)
      → doc.tree.parent node ≡ some parent
      → IsDone (iterate_on_block_mapping doc (suc fuel) (get_child_mapping doc.tree (some node)))
      → Returns
          (λ r. r.environment ≡ [])
          (parse_run_step doc (recursion doc atoi parameter_name_in (suc fuel)) node)
  parse_run_step-no_environment fuel node parent wrapped e pairs =
      let recur = recursion doc atoi parameter_name_in (suc fuel) in
      Yields-Returns (λ r. r.environment ≡ []) (parse_run_step doc recur node)
        (run_step-IsDone doc recur (entries-other (suc fuel)) wrapped node parent e
          (entries-IsDone fuel) (pairs-IsDone fuel (get_child_mapping doc.tree (some node)) pairs))
        (run_step-NoEnvironment doc recur (entries-other (suc fuel)) wrapped node)
