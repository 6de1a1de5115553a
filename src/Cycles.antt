-- ===== src/Cycles.antt =====
-- pkg/parser/validate/cycles.go: the test that the jobs of a workflow require one another without
-- a cycle. A Go map is an association list; the two loops whose order shows in the result take
-- their order of iteration as a parameter, since Go leaves it open.
mod Degrees
mod Relax
pub mod Loop
mod Runs
pub mod Reported
use circleci_yaml_language_s.Prelude.{
  ℕ, zero, suc, ◌+◌, String, Bool, true, false, not, Option, none, some, List, [], ◌∷◌, ◌++◌,
  length, string_eq, ◌==◌, if◌then◌else◌,
}
use circleci_yaml_language_s.Prelude.Dict.{Dict, keys, lookup, insert}

-- map[string][]string: each job with the jobs that its edges lead to.
abbrev pub Graph : Type 0
Graph = Dict String (List String)

-- Go's int, as far as the in-degrees use it.
pub data ℤ : Type 0 where
  pos : ℕ → ℤ
  negsuc : ℕ → ℤ

unfoldable pub increment : ℤ → ℤ
increment (pos n) = pos (suc n)
increment (negsuc zero) = pos 0
increment (negsuc (suc n)) = negsuc n

unfoldable pub decrement : ℤ → ℤ
decrement (pos zero) = negsuc 0
decrement (pos (suc n)) = pos n
decrement (negsuc n) = negsuc (suc n)

unfoldable pub is_zero : ℤ → Bool
is_zero (pos zero) = true
is_zero _ = false

-- Reads of a missing key give the zero value.
abbrev pub or_zero : Option ℤ → ℤ
or_zero none = pos 0
or_zero (some n) = n

abbrev pub or_false : Option Bool → Bool
or_false none = false
or_false (some b) = b

abbrev pub or_empty : Option (List String) → List String
or_empty none = []
or_empty (some l) = l

abbrev pub degree : Dict String ℤ → String → ℤ
degree in_degree x = or_zero (lookup x in_degree)

abbrev pub flag : Dict String Bool → String → Bool
flag visited x = or_false (lookup x visited)

abbrev pub children : Graph → String → List String
children dag x = or_empty (lookup x dag)

-- in_degree[node] = 0 for each node of the map.
unfoldable pub init_degrees : Graph → Dict String ℤ → Dict String ℤ
init_degrees [] in_degree = in_degree
init_degrees ((node, _) ∷ dag) in_degree = init_degrees dag (insert node (pos 0) in_degree)

-- in_degree[child]++
unfoldable pub count_children : List String → Dict String ℤ → Dict String ℤ
count_children [] in_degree = in_degree
count_children (child ∷ rest) in_degree =
    count_children rest (insert child (increment (degree in_degree child)) in_degree)

unfoldable pub count_edges : Graph → Dict String ℤ → Dict String ℤ
count_edges [] in_degree = in_degree
count_edges ((_, cs) ∷ dag) in_degree = count_edges dag (count_children cs in_degree)

abbrev pub degrees : Graph → Dict String ℤ
degrees dag = count_edges dag (init_degrees dag [])

unfoldable pub initial_queue : Dict String ℤ → List String → List String
initial_queue in_degree [] = []
initial_queue in_degree (node ∷ rest) =
    let queue = initial_queue in_degree rest in
    if is_zero (degree in_degree node) then node ∷ queue else queue

unfoldable pub initial_visited : List String → Dict String Bool → Dict String Bool
initial_visited [] visited = visited
initial_visited (node ∷ rest) visited = initial_visited rest (insert node false visited)

pub record State : Type 0 where
  pub queue : List String
  pub visited : Dict String Bool
  pub in_degree : Dict String ℤ

unfoldable pub relax_child : String → State → State
relax_child child s =
    let d = decrement (degree s.in_degree child) in
    record s {
      in_degree = insert child d s.in_degree;
      queue = if is_zero d then s.queue ++ child ∷ [] else s.queue;
    }

unfoldable pub relax_children : List String → State → State
relax_children [] s = s
relax_children (child ∷ rest) s = relax_children rest (relax_child child s)

-- The body of the loop for the node that was taken off the queue.
unfoldable pub visit : Graph → String → State → State
visit dag node s =
    if flag s.visited node
    then s
    else relax_children (children dag node) (record s { visited = insert node true s.visited })

-- `for len(queue) > 0`; `none` means that the fuel ran out.
unfoldable pub loop : ℕ → Graph → State → Option State
loop zero dag s = elim s.queue [ [] ↦ some s | _ ↦ none ]
loop (suc fuel) dag s = elim s.queue [
  | [] ↦ some s
  | node ∷ rest ↦ loop fuel dag (visit dag node (record s { queue = rest }))
]

unfoldable pub not_visited : Dict String Bool → List String → List String
not_visited visited [] = []
not_visited visited (node ∷ nodes) =
    let rest = not_visited visited nodes in if flag visited node then rest else node ∷ rest

-- The number of edges that leave unvisited nodes.
abbrev pub edges_left : (String → Bool) → Graph → ℕ
edges_left seen [] = 0
edges_left seen ((node, cs) ∷ dag) = (if seen node then 0 else length cs) + edges_left seen dag

abbrev pub start : (List String → List String) → Graph → State
start order dag = record {
  queue = initial_queue (degrees dag) (order (keys (degrees dag)));
  visited = initial_visited (keys (degrees dag)) [];
  in_degree = degrees dag;
}

unfoldable pub is_valid_dag :
    (List String → List String) → (List String → List String) → ℕ → Graph → Option (List String)
is_valid_dag order order' fuel dag = elim (loop fuel dag (start order dag)) [
  | none ↦ none
  | some s ↦ some (not_visited s.visited (order' (keys s.visited)))
]
