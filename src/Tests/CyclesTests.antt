-- ===== src/Tests/CyclesTests.antt =====
-- Runs of pkg/parser/validate/cycles.go.
use text.Mathlib.TextEquality.{eq_iff}
use circleci_yaml_language_s.Prelude.{
  ◌≢◌, ℕ, ◌≡◌, refl, String, true, some, List, [], ◌∷◌, contains, string_eq, string_dec, arith,
  if◌then◌else◌, ◌==◌,
}
use circleci_yaml_language_s.Prelude.Dict.{lookup, insert, IsMap}
use circleci_yaml_language_s.Cycles.{
  Graph, is_valid_dag, loop, visit, relax_children, relax_child, decrement, increment, is_zero,
  init_degrees, count_children, count_edges, initial_queue, initial_visited, not_visited,
}
use circleci_yaml_language_s.Cycles.Reported.{IsIteration, enough, IsRanked, is_valid_dag_total}
use circleci_yaml_language_s.Cycles.Loop.{IsFed}

abbrev pub same_order : List String → List String
same_order l = l

pub same_order-IsIteration : IsIteration same_order
same_order-IsIteration = record { members = λ l x. refl; size = λ l. refl }

-- `a` and `b` require one another, and `c` stands behind them.
abbrev cyclic : Graph
cyclic = ("a", "b" ∷ []) ∷ ("b", "a" ∷ "c" ∷ []) ∷ ("c", []) ∷ ("d", "a" ∷ []) ∷ []

cyclic-IsMap : IsMap cyclic
unfolding lookup string_dec
cyclic-IsMap = (refl, (refl, (refl, (refl, tt))))

runs : Unit {0}
unfolding is_valid_dag loop visit relax_children relax_child decrement increment is_zero
    init_degrees count_children count_edges initial_queue initial_visited not_visited lookup insert
    string_dec
runs = tt

cyclic_run : is_valid_dag same_order same_order 20 cyclic ≡ some ("a" ∷ "b" ∷ "c" ∷ [])
unfolding runs
cyclic_run = refl

cyclic-enough : enough cyclic ≡ 9
unfolding runs
cyclic-enough = refl

is_valid_dag_total_example :
    (nodes : List String) × (is_valid_dag same_order same_order 9 cyclic ≡ some nodes)
    × IsFed cyclic (λ x. contains nodes x ≡ true)
    × ((P : String → Type 0) → IsFed cyclic P → (x : String) → P x → contains nodes x ≡ true)
unfolding runs
is_valid_dag_total_example =
    is_valid_dag_total same_order same_order 9 cyclic same_order-IsIteration same_order-IsIteration
      cyclic-IsMap (omega arith)

abbrev chain : Graph
chain = ("a", "b" ∷ []) ∷ ("b", []) ∷ []

chain-IsMap : IsMap chain
unfolding lookup string_dec
chain-IsMap = (refl, (refl, tt))

abbrev rank : String → ℕ
rank x = if x == "b" then 1 else 0

a_ne_b : ◌≢◌ {A = String} "a" "b"
a_ne_b = ground (arith, eq_iff "a" "b")

chain-IsRanked : IsRanked rank chain
unfolding lookup
chain-IsRanked p x h = ground (arith, a_ne_b)
