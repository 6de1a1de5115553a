-- ===== src/Cycles/Reported.antt =====
-- What `isValidDAG` reports: the largest set of jobs in which each has an edge from another one.
use mathlib.Core.Path.{fun_ext}
use circleci_yaml_language_s.Prelude.{
  ℕ, ◌+◌, ◌<◌, ◌≤◌, ◌≡◌, refl, String, Bool, true, false, some, List, [], arith, contains,
  string_eq, length, inl, inr, ◌&&◌, List-cases, zero, suc,
}
use circleci_yaml_language_s.Prelude.Dict.{
  keys, lookup-nil, IsMap, contains-keys_of_lookup, lookup_of_contains-keys,
}
use circleci_yaml_language_s.Cycles.{
  Graph, State, children, degrees, flag, degree, is_zero, start, loop, not_visited, is_valid_dag,
  edges_left,
}
use circleci_yaml_language_s.Cycles.Degrees.{
  edges_into, edges_into-pos, degree-degrees, Source-edges_into, contains-keys-degrees_from,
  contains-keys-degrees_to,
}
use circleci_yaml_language_s.Cycles.Loop.{
  Inv, left, work, Known, Untouched, IsFed, Known-visit, Inv-visit, Untouched-visit,
}
use circleci_yaml_language_s.Cycles.Runs.{
  loop_ind, loop_total, contains-initial_queue, length-initial_queue, flag-initial_visited,
  lookup-initial_visited, contains_of-initial_visited, contains-not_visited,
}

-- A Go `range` over a map visits each key, in some order.
pub record IsIteration (order : List String → List String) : Type 0 where
  pub members : (l : List String) (x : String) → contains (order l) x ≡ contains l x
  pub size : (l : List String) → length (order l) ≡ length l

module _ (order : List String → List String) (it : IsIteration order) (dag : Graph)
    (unique : IsMap dag) where
  flag-start : flag (start order dag).visited ≡ (λ _. false)
  flag-start =
      fun_ext λ x.
        flag-initial_visited (keys (degrees dag)) [] x (ground (arith, lookup-nil {V = Bool} x))

  left-start : (x : String) → left dag (start order dag) x ≡ edges_into (λ _. false) dag x
  left-start x = rw flag-start

  contains-start :
      (x : String)
      → contains (start order dag).queue x
        ≡ (contains (keys (degrees dag)) x && is_zero (degree (degrees dag) x))
  contains-start x = ground (
    arith,
    contains-initial_queue (degrees dag) (order (keys (degrees dag))) x,
    it.members (keys (degrees dag)) x,
  )

  Inv-start : Inv dag (start order dag)
  unfolding is_zero
  Inv-start = record {
    counted = λ x. ground (arith, degree-degrees dag x, left-start x);
    queued = λ x known none_left. ground (
      arith,
      contains-start x,
      degree-degrees dag x,
      left-start x,
      contains_of-initial_visited (keys (degrees dag)) [] x false known,
      lookup-nil {V = Bool} x,
    );
  }

  Untouched-start : (P : String → Type 0) → IsFed dag P → Untouched P (start order dag)
  unfolding is_zero
  Untouched-start P fed x px =
      let (p, pp, e) = fed x px in
      (
        flag-initial_visited (keys (degrees dag)) [] x (ground (arith, lookup-nil {V = Bool} x)),
        ground (
          arith,
          contains-start x,
          degree-degrees dag x,
          edges_into-pos (λ _. false) dag p x refl e,
        ),
      )

  Known-start : (x : String) → contains (keys (degrees dag)) x ≡ true → Known (start order dag) x
  Known-start x h = (
    false,
    lookup-initial_visited (keys (degrees dag)) [] x (inl h)
        (ground (arith, lookup-nil {V = Bool} x)),
  )

  work-start :
      work dag (start order dag) ≤ length (keys (degrees dag)) + edges_left (λ _. false) dag
  work-start = rw flag-start (
      omega (
        arith,
        length-initial_queue (degrees dag) (order (keys (degrees dag))),
        it.size (keys (degrees dag)),
      ))

  module _ (order' : List String → List String) (it' : IsIteration order') (fuel : ℕ)
      (final : State) (ran : loop fuel dag (start order dag) ≡ some final) where
    abbrev reported : List String
    reported = not_visited final.visited (order' (keys final.visited))

    Known-final : (x : String) → contains (keys (degrees dag)) x ≡ true → Known final x
    Known-final x h =
        (loop_ind dag (λ s. Known s x) (λ node rest s _ k. Known-visit dag node rest s x unique k)
          fuel (start order dag) final ran (Known-start x h)).0

    contains-reported :
        (x : String)
        → contains (keys (degrees dag)) x ≡ true
        → flag final.visited x ≡ false
        → contains reported x ≡ true
    contains-reported x h unseen =
        let (b, e) = Known-final x h in
        ground (
          arith,
          contains-not_visited final.visited (order' (keys final.visited)) x,
          it'.members (keys final.visited) x,
          contains-keys_of_lookup x b final.visited e,
        )

    -- Each reported job has an edge from a reported job.
    IsFed-reported : IsFed dag (λ x. contains reported x ≡ true)
    IsFed-reported x h =
        let (inv, done) =
          loop_ind dag (Inv dag) (λ node rest s q i. Inv-visit dag node rest s unique q i) fuel
            (start order dag) final ran Inv-start in
        let known : contains (keys final.visited) x ≡ true = ground (
          arith,
          contains-not_visited final.visited (order' (keys final.visited)) x,
          it'.members (keys final.visited) x,
        ) in
        let (b, e) = lookup_of_contains-keys x final.visited known in
        let source = Source-edges_into (flag final.visited) dag x unique (
          ground (
            arith,
            contains-not_visited final.visited (order' (keys final.visited)) x,
            inv.queued x,
          )) in
        (
          source.node,
          contains-reported source.node (contains-keys-degrees_from dag source.node x source.edge)
              source.unseen,
          source.edge,
        )

    -- A set in which each job has an edge from another one is reported.
    reported_greatest :
        (P : String → Type 0) → IsFed dag P → (x : String) → P x → contains reported x ≡ true
    reported_greatest P fed x px =
        let kept =
          (loop_ind dag (λ s. Inv dag s × Untouched P s)
            (λ node rest s q (i, u). (
              Inv-visit dag node rest s unique q i,
              Untouched-visit dag P node rest s unique fed q i u,
            ))
            fuel (start order dag) final ran (Inv-start, Untouched-start P fed)).0 in
        let (p, pp, e) = fed x px in
        contains-reported x (contains-keys-degrees_to dag p x e) (kept.1 x px).0

-- The rounds that the loop needs at most: one for each job, and one for each edge.
abbrev pub enough : Graph → ℕ
enough dag = suc (length (keys (degrees dag)) + edges_left (λ _. false) dag)

-- With `enough` fuel the test returns a list of jobs, for a graph that is a map and whatever the
-- orders in which Go ranges over its maps. Each job of the list has an edge from a job of the list,
-- and every set of jobs in which each has an edge from one of the set lies in the list.
pub is_valid_dag_total :
    (order order' : List String → List String) (fuel : ℕ) (dag : Graph)
    → IsIteration order
    → IsIteration order'
    → IsMap dag
    → enough dag ≤ fuel
    → (nodes : List String) × (is_valid_dag order order' fuel dag ≡ some nodes)
      × IsFed dag (λ x. contains nodes x ≡ true)
      × ((P : String → Type 0) → IsFed dag P → (x : String) → P x → contains nodes x ≡ true)
unfolding is_valid_dag
is_valid_dag_total order order' fuel dag it it' unique h =
    let (final, ran) =
      loop_total dag fuel (start order dag) unique
        (omega (arith, work-start order it dag unique)) in
    (
      not_visited final.visited (order' (keys final.visited)),
      rw (ran, is_valid_dag),
      IsFed-reported order it dag unique order' it' fuel final ran,
      reported_greatest order it dag unique order' it' fuel final ran,
    )

-- Edges that lead from `a` to `b`, one at least.
pub data Walk (dag : Graph) (a : String) : String → Type 0 where
  edge : {b : String} → contains (children dag a) b ≡ true → Walk dag a b
  onward : {b c : String} → Walk dag a b → contains (children dag b) c ≡ true → Walk dag a c

Walk-IsFed : (dag : Graph) (a : String) → Walk dag a a → IsFed dag (Walk dag a)
Walk-IsFed dag a cycle x (edge e) = (a, cycle, e)
Walk-IsFed dag a cycle x (onward {b} w e) = (b, w, e)

-- A job `b` to which edges lead from a job `a` that lies on a cycle is reported, also where `b`
-- itself lies on no cycle.
pub is_valid_dag_downstream :
    (order order' : List String → List String) (fuel : ℕ) (dag : Graph) (a b : String)
    → IsIteration order
    → IsIteration order'
    → IsMap dag
    → enough dag ≤ fuel
    → Walk dag a a
    → Walk dag a b
    → (nodes : List String) × (is_valid_dag order order' fuel dag ≡ some nodes)
      × (contains nodes b ≡ true)
is_valid_dag_downstream order order' fuel dag a b it it' unique h cycle w =
    let (nodes, e, _, all) = is_valid_dag_total order order' fuel dag it it' unique h in
    (nodes, e, all (Walk dag a) (Walk-IsFed dag a cycle) b w)

-- `rank` rises along every edge, so there is no cycle.
abbrev pub IsRanked : (String → ℕ) → Graph → Type 0
IsRanked rank dag = (p x : String) → contains (children dag p) x ≡ true → rank p < rank x

fed_empty :
    (rank : String → ℕ) (dag : Graph) (P : String → Type 0)
    → IsRanked rank dag
    → IsFed dag P
    → (n : ℕ) (x : String) → rank x < n
    → ¬ P x
fed_empty rank dag P ranked fed zero x h px = absurd (omega arith)
fed_empty rank dag P ranked fed (suc n) x h px =
    let (p, pp, e) = fed x px in
    fed_empty rank dag P ranked fed n p (omega (arith, ranked p x e)) pp

-- Nothing is reported for a graph whose edges all lead to a job of higher rank.
pub is_valid_dag_ranked :
    (order order' : List String → List String) (fuel : ℕ) (dag : Graph) (rank : String → ℕ)
    → IsIteration order
    → IsIteration order'
    → IsMap dag
    → enough dag ≤ fuel
    → IsRanked rank dag
    → is_valid_dag order order' fuel dag ≡ some []
is_valid_dag_ranked order order' fuel dag rank it it' unique h ranked =
    let (nodes, e, fed, _) = is_valid_dag_total order order' fuel dag it it' unique h in
    elim (List-cases nodes) [
      | inl none_left ↦ ground arith
      | inr (x, rest, some_left) ↦ absurd (
          fed_empty rank dag (λ y. contains nodes y ≡ true) ranked fed (suc (rank x)) x
            (omega arith) (ground arith))
    ]
