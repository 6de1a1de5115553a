-- ===== src/JobGraph/Acyclic.antt =====
-- The graph that the parser builds, and what the validation reports of it.
use circleci_yaml_language_s.Prelude.{
  ℕ, ◌<◌, ◌≤◌, ◌≡◌, refl, String, Bool, true, false, ◌&&◌, ◌||◌, some, List, [], ◌∷◌, ◌++◌, arith,
  contains, string_eq, ◌==◌,
}
use circleci_yaml_language_s.Prelude.Dict.{Dict, lookup, insert, IsMap, lookup-insert, IsMap-insert}
use circleci_yaml_language_s.Syntax.{Require, JobInvocation}
use circleci_yaml_language_s.Cycles.{children}
use circleci_yaml_language_s.Cycles.Reported.{
  IsIteration, enough, is_valid_dag_ranked, is_valid_dag_total,
}
use circleci_yaml_language_s.JobGraph.{
  add_requires, add_invocations, build_jobs_dag, report_cycle, report_cycles, validate_dag,
}

-- `requirements` names `p`.
abbrev pub is_required : List Require → String → Bool
is_required [] p = false
is_required (r ∷ requires) p = p == r.name || is_required requires p

contains-append :
    (xs ys : List String) (x : String) → contains (xs ++ ys) x ≡ (contains xs x || contains ys x)
contains-append [] ys x = refl
contains-append (y ∷ xs) ys x = ground (arith, contains-append xs ys x)

contains-children-add_requires :
    (step_name : String) (requires : List Require) (res : Dict String (List String)) (p x : String)
    → contains (children (add_requires step_name requires res) p) x
      ≡ (contains (children res p) x || (is_required requires p && x == step_name))
unfolding add_requires
contains-children-add_requires step_name [] res p x = ground arith
contains-children-add_requires step_name (r ∷ requires) res p x = ground (
  arith,
  contains-children-add_requires step_name requires
      (insert r.name (children res r.name ++ step_name ∷ []) res) p x,
  lookup-insert p r.name (children res r.name ++ step_name ∷ []) res,
  contains-append (children res r.name) (step_name ∷ []) x,
)

IsMap-add_requires :
    (step_name : String) (requires : List Require) (res : Dict String (List String))
    → IsMap res
    → IsMap (add_requires step_name requires res)
unfolding add_requires
IsMap-add_requires step_name [] res m = m
IsMap-add_requires step_name (r ∷ requires) res m =
    IsMap-add_requires step_name requires
      (insert r.name (children res r.name ++ step_name ∷ []) res)
      (IsMap-insert r.name (children res r.name ++ step_name ∷ []) res m)

module _ {Step Value : Type 0} where
  -- Some invocation named `x` requires `p`.
  abbrev pub requires_edge : List (JobInvocation Step Value) → String → String → Bool
  requires_edge [] p x = false
  requires_edge (inv ∷ invs) p x =
      is_required inv.requires p && x == inv.step_name || requires_edge invs p x

  contains-children-add_invocations :
      (invs : List (JobInvocation Step Value)) (res : Dict String (List String)) (p x : String)
      → contains (children (add_invocations invs res) p) x
        ≡ (contains (children res p) x || requires_edge invs p x)
  unfolding add_invocations
  contains-children-add_invocations [] res p x = ground arith
  contains-children-add_invocations (inv ∷ invs) res p x = ground (
    arith,
    contains-children-add_invocations invs (add_requires inv.step_name inv.requires res) p x,
    contains-children-add_requires inv.step_name inv.requires res p x,
  )

  IsMap-add_invocations :
      (invs : List (JobInvocation Step Value)) (res : Dict String (List String))
      → IsMap res
      → IsMap (add_invocations invs res)
  unfolding add_invocations
  IsMap-add_invocations [] res m = m
  IsMap-add_invocations (inv ∷ invs) res m =
      IsMap-add_invocations invs (add_requires inv.step_name inv.requires res)
        (IsMap-add_requires inv.step_name inv.requires res m)

  -- The graph of the invocations is a map, and it has an edge from `p` to `x` exactly where an
  -- invocation named `x` requires `p`.
  pub build_jobs_dag_lem :
      (invs : List (JobInvocation Step Value))
      → IsMap (build_jobs_dag invs)
        × ((p x : String) → contains (children (build_jobs_dag invs) p) x ≡ requires_edge invs p x)
  unfolding build_jobs_dag lookup
  build_jobs_dag_lem invs =
      (IsMap-add_invocations invs [] tt, λ p x. contains-children-add_invocations invs [] p x)

  -- Where `rank` orders the invocations so that each requires names of lower rank only, the
  -- validation of the graph that the parser builds terminates and reports no cycle.
  pub validate_dag_ranked :
      (order order' : List String → List String) (fuel : ℕ) (invs : List (JobInvocation Step Value))
      (rank : String → ℕ)
      → IsIteration order
      → IsIteration order'
      → enough (build_jobs_dag invs) ≤ fuel
      → ((p x : String) → requires_edge invs p x ≡ true → rank p < rank x)
      → validate_dag order order' fuel invs (build_jobs_dag invs) ≡ some []
  unfolding validate_dag
  validate_dag_ranked order order' fuel invs rank it it' h ranked =
      let (unique, edges) = build_jobs_dag_lem invs in
      rw (
        is_valid_dag_ranked order order' fuel (build_jobs_dag invs) rank it it' unique h
            (λ p x e. ranked p x (ground (arith, edges p x))),
        validate_dag,
      )

  -- The names of the jobs that `invs` invoke.
  abbrev pub invokes : List (JobInvocation Step Value) → String → Bool
  invokes [] x = false
  invokes (inv ∷ invs) x = inv.job_name == x || invokes invs x

  report_cycle-silent :
      (node : String) (invs : List (JobInvocation Step Value))
      → invokes invs node ≡ false
      → report_cycle node invs ≡ []
  unfolding report_cycle
  report_cycle-silent node [] h = refl
  report_cycle-silent node (inv ∷ invs) h = ground (arith, report_cycle-silent node invs)

  report_cycles-silent :
      (nodes : List String) (invs : List (JobInvocation Step Value))
      → ((x : String) → contains nodes x ≡ true → invokes invs x ≡ false)
      → report_cycles nodes invs ≡ []
  unfolding report_cycles
  report_cycles-silent [] invs h = refl
  report_cycles-silent (node ∷ nodes) invs h = rw (
    report_cycle-silent node invs (h node (ground arith)),
    report_cycles-silent nodes invs (λ x c. h x (ground arith)),
  )

  -- Where no invocation that requires something has a name that is also the job name of an
  -- invocation, the validation terminates and reports nothing, whether or not there is a cycle: the
  -- names in the graph are those of the steps, and the reports compare job names with them.
  pub validate_dag_renamed :
      (order order' : List String → List String) (fuel : ℕ) (invs : List (JobInvocation Step Value))
      → IsIteration order
      → IsIteration order'
      → enough (build_jobs_dag invs) ≤ fuel
      → ((p x : String) → requires_edge invs p x ≡ true → invokes invs x ≡ false)
      → validate_dag order order' fuel invs (build_jobs_dag invs) ≡ some []
  unfolding validate_dag
  validate_dag_renamed order order' fuel invs it it' h renamed =
      let (unique, edges) = build_jobs_dag_lem invs in
      let (nodes, e, fed, _) =
        is_valid_dag_total order order' fuel (build_jobs_dag invs) it it' unique h in
      rw (
        e,
        validate_dag,
        report_cycles-silent nodes invs
            (λ x c. let (p, _, edge) = fed x c in renamed p x (ground (arith, edges p x))),
      )
