-- ===== src/Cycles/Loop.antt =====
-- The invariants of the outer loop of `isValidDAG`, and the fuel that it needs.
use mathlib.Core.Path.{fun_ext}
use circleci_yaml_language_s.Prelude.{
  ℕ, suc, ◌+◌, ◌≤◌, ◌<◌, ◌≡◌, String, Bool, true, false, some, List, ◌∷◌, inl, inr, arith, length,
  count, contains, string_eq, ◌==◌, if◌then◌else◌, Bool-cases, ap,
}
use circleci_yaml_language_s.Prelude.Dict.{Dict, lookup, insert, lookup-insert, IsMap}
use circleci_yaml_language_s.Cycles.{
  Graph, State, pos, degree, flag, children, relax_children, visit, edges_left,
}
use circleci_yaml_language_s.Cycles.Degrees.{
  edges_into, mark, edges_into-mark, edges_into-pos, edges_left-mark,
}
use circleci_yaml_language_s.Cycles.Relax.{
  Pending, Pending-relax_children, contains-relax_children, contains-relax_children_old,
  contains-relax_children_new, visited-relax_children, length-relax_children,
}

flag-insert :
    (node : String) (visited : Dict String Bool)
    → flag (insert node true visited) ≡ mark node (flag visited)
flag-insert node visited = fun_ext λ x. ground (arith, lookup-insert x node true visited)

-- `P` holds of no node that is visited or waits to be.
abbrev pub Untouched : (String → Type 0) → State → Type 0
Untouched P s = (x : String) → P x → (flag s.visited x ≡ false) × (contains s.queue x ≡ false)

-- Every node of `P` has an edge from a node of `P`.
abbrev pub IsFed : Graph → (String → Type 0) → Type 0
IsFed dag P = (x : String) → P x → (p : String) × P p × (contains (children dag p) x ≡ true)

abbrev pub Known : State → String → Type 0
Known s x = (b : Bool) × (lookup x s.visited ≡ some b)

module _ (dag : Graph) where
  abbrev pub left : State → String → ℕ
  left s = edges_into (flag s.visited) dag

  pub record Inv (s : State) : Type 0 where
    pub counted : (x : String) → degree s.in_degree x ≡ pos (left s x)
    pub queued :
        (x : String) → lookup x s.visited ≡ some false → left s x ≡ 0 → contains s.queue x ≡ true

  -- A bound for the rounds that the loop still makes.
  abbrev pub work : State → ℕ
  work s = length s.queue + edges_left (flag s.visited) dag

  -- The state in which the children of `node` are about to lose their edges.
  abbrev marked : String → List String → State → State
  marked node rest s = record s { queue = rest; visited = insert node true s.visited }

  abbrev pub popped : List String → State → State
  popped rest s = record s { queue = rest }

  visit_old :
      (node : String) (rest : List String) (s : State)
      → flag s.visited node ≡ true
      → visit dag node (popped rest s) ≡ popped rest s
  unfolding visit
  visit_old node rest s h = rw h

  visit_new :
      (node : String) (rest : List String) (s : State)
      → flag s.visited node ≡ false
      → visit dag node (popped rest s) ≡ relax_children (children dag node) (marked node rest s)
  unfolding visit
  visit_new node rest s h = rw h

  module _ (unique : IsMap dag) (node : String) (rest : List String) (s : State)
      (new : flag s.visited node ≡ false) where
    left-marked :
        (x : String) → left s x ≡ left (marked node rest s) x + count x (children dag node)
    left-marked x =
        rw (flag-insert node s.visited) (edges_into-mark (flag s.visited) node dag x unique new)

    Pending-marked :
        ((x : String) → degree s.in_degree x ≡ pos (left s x))
        → Pending (left (marked node rest s)) (children dag node) (marked node rest s)
    Pending-marked h x = cc (h x, left-marked x)

    edges_left-marked :
        edges_left (flag s.visited) dag
        ≡ edges_left (flag (marked node rest s).visited) dag + length (children dag node)
    edges_left-marked =
        rw (flag-insert node s.visited) (edges_left-mark (flag s.visited) node dag unique new)

    relaxed : State
    relaxed = relax_children (children dag node) (marked node rest s)

    left-relaxed : (x : String) → left relaxed x ≡ left (marked node rest s) x
    unfolding relaxed
    left-relaxed x = rw visited-relax_children

    Inv-relaxed : s.queue ≡ node ∷ rest → Inv s → Inv relaxed
    unfolding relaxed
    Inv-relaxed q inv =
        let m = left (marked node rest s) in
        let cs = children dag node in
        let pending = Pending-marked inv.counted in
        record {
          counted = λ x.
              ground
                (arith, Pending-relax_children m cs (marked node rest s) pending x, left-relaxed x);
          queued = λ x known none_left. ground (
            arith,
            left-relaxed x,
            left-marked x,
            ap (lookup x) (visited-relax_children cs (marked node rest s)),
            lookup-insert x node true s.visited,
            inv.queued x,
            contains-relax_children_old m cs (marked node rest s) x pending,
            contains-relax_children_new m cs (marked node rest s) x pending,
          );
        }

    Untouched-relaxed :
        (P : String → Type 0)
        → IsFed dag P
        → s.queue ≡ node ∷ rest
        → Inv s
        → Untouched P s
        → Untouched P relaxed
    unfolding relaxed
    Untouched-relaxed P fed q inv h x px =
        let m = left (marked node rest s) in
        let cs = children dag node in
        let (p, pp, e) = fed x px in
        let some_left : 0 < m x =
          edges_into-pos (flag (insert node true s.visited)) dag p x
            (ground (arith, h p pp, lookup-insert p node true s.visited)) e in
        let before = h x px in
        (
          ground (
            arith,
            ap (lookup x) (visited-relax_children cs (marked node rest s)),
            lookup-insert x node true s.visited,
          ),
          elim (Bool-cases (contains (relax_children cs (marked node rest s)).queue x)) [
            | inl old ↦ ground (
              arith,
              contains-relax_children m cs (marked node rest s) x (Pending-marked inv.counted) old,
            )
            | inr absent ↦ absent
          ],
        )

    Known-relaxed : (x : String) → Known s x → Known relaxed x
    unfolding relaxed
    Known-relaxed x (b, e) = (
      (if x == node then true else b),
      ground (
        arith,
        ap (lookup x) (visited-relax_children (children dag node) (marked node rest s)),
        lookup-insert x node true s.visited,
      ),
    )

    work-relaxed : suc (work relaxed) ≤ suc (length rest) + edges_left (flag s.visited) dag
    unfolding relaxed
    work-relaxed = rw (visited-relax_children (children dag node) (marked node rest s)) (
        omega (
          arith,
          edges_left-marked,
          length-relax_children (children dag node) (marked node rest s),
        ))

  pub work-visit :
      (node : String) (rest : List String) (s : State)
      → IsMap dag
      → work (visit dag node (popped rest s)) ≤ length rest + edges_left (flag s.visited) dag
  work-visit node rest s unique = elim (Bool-cases (flag s.visited node)) [
    | inl old ↦ rw (visit_old node rest s old) (omega arith)
    | inr new ↦
        rw (visit_new node rest s new)
          (unfold relaxed in (omega (arith, work-relaxed unique node rest s new)))
  ]

  pub Known-visit :
      (node : String) (rest : List String) (s : State) (x : String)
      → IsMap dag
      → Known s x
      → Known (visit dag node (popped rest s)) x
  Known-visit node rest s x unique k = elim (Bool-cases (flag s.visited node)) [
    | inl old ↦ rw (visit_old node rest s old) k
    | inr new ↦
        rw (visit_new node rest s new)
          (unfold relaxed in (Known-relaxed unique node rest s new x k))
  ]

  pub Inv-visit :
      (node : String) (rest : List String) (s : State)
      → IsMap dag
      → s.queue ≡ node ∷ rest
      → Inv s
      → Inv (visit dag node (popped rest s))
  Inv-visit node rest s unique q inv = elim (Bool-cases (flag s.visited node)) [
    | inl old ↦ rw (visit_old node rest s old) (record {
      counted = inv.counted;
      queued = λ x known none_left. ground (arith, inv.queued x known none_left);
    })
    | inr new ↦
        rw (visit_new node rest s new)
          (unfold relaxed in (Inv-relaxed unique node rest s new q inv))
  ]

  pub Untouched-visit :
      (P : String → Type 0) (node : String) (rest : List String) (s : State)
      → IsMap dag
      → IsFed dag P
      → s.queue ≡ node ∷ rest
      → Inv s
      → Untouched P s
      → Untouched P (visit dag node (popped rest s))
  Untouched-visit P node rest s unique fed q inv h = elim (Bool-cases (flag s.visited node)) [
    | inl old ↦ rw (visit_old node rest s old) (λ x px. ((h x px).0, ground (arith, (h x px).1)))
    | inr new ↦
        rw (visit_new node rest s new)
          (unfold relaxed in (Untouched-relaxed unique node rest s new P fed q inv h))
  ]
