-- ===== src/UsedParams.antt =====
-- `CheckIfParamsExist` of pkg/parser/validate/parameters.go: the references to parameters in the
-- scalars of the document. The scalars are what the tree-sitter queries capture, in their order.
use circleci_yaml_language_s.Prelude.{
  ◌≡◌, ◌↔◌, ◌⊎◌, true, false, refl, ℕ, ◌+◌, ◌-◌, ◌%◌, String, Bool, Option, Option-cases, none,
  some, List, [], ◌∷◌, All, arith, subst, inl, inr, Bool-cases, u32, if◌then◌else◌, bytes_eq,
}
use circleci_yaml_language_s.Prelude.Dict.{Dict}
use circleci_yaml_language_s.Position.{Position}
use circleci_yaml_language_s.Text.{◌+++◌, codes, is_prefixed, lookup_text}
use circleci_yaml_language_s.Parameters.{ParamInString, get_params_in_string}
use circleci_yaml_language_s.Values.{Parameter}
use circleci_yaml_language_s.Diagnostics.{Diagnostic, create_error_diagnostic_from_range}
use circleci_yaml_language_s.Document.{YamlDocument, get_params_with_position}
use circleci_yaml_language_s.ParameterChecks.{Checked, also}
use circleci_yaml_language_s.ParameterChecks.Fitting.{also-silent}

-- A captured node: its text, the start of `NodeToRange`, and its start point (row and column).
pub record Scalar : Type 0 where
  pub content : List ℕ
  pub start : Position
  pub start_point : Position
  pub is_block_scalar : Bool

-- The position in the document; in a block scalar the column is taken off again.
abbrev shift : Scalar → Position → Position
shift node p =
    let moved = (p.character + node.start_point.character) % u32 in
    record {
      line = (p.line + node.start_point.line) % u32;
      character =
          if node.is_block_scalar then (moved + u32 - node.start_point.character) % u32 else moved;
    }

abbrev is_pipeline : ParamInString → Bool
is_pipeline param = is_prefixed (codes "pipeline") param.full_name

module _ (text_of : List ℕ → String) (doc : YamlDocument)
    (pipeline_parameters : Dict String Parameter) where
  abbrev not_defined : Scalar → ParamInString → Diagnostic
  not_defined node param =
      create_error_diagnostic_from_range
        (record {
          start = shift node param.param_range.start;
          end = shift node param.param_range.end;
        })
        ((if is_pipeline param then "Pipeline parameter " else "Parameter ")
          +++ text_of param.name
          +++ " is not defined")

  -- `none` is the panic of `GetParamsWithPosition`.
  abbrev parameters_for : Scalar → ParamInString → Option (Dict String Parameter)
  parameters_for node param =
      if is_pipeline param
      then some pipeline_parameters
      else get_params_with_position doc node.start

  unfoldable pub check_param : Scalar → ParamInString → Checked
  check_param node param = elim (parameters_for node param) [
    | none ↦ none
    | some parameters ↦ elim (lookup_text param.name parameters) [
      | some _ ↦ some []
      | none ↦ some (not_defined node param ∷ [])
    ]
  ]

  unfoldable pub check_params : Scalar → List ParamInString → Checked
  unfolding check_param
  check_params node [] = some []
  check_params node (param ∷ params) = also (check_param node param) (check_params node params)

  -- The nodes that the two queries capture; `none` is the panic of a position out of the text.
  unfoldable pub check_if_params_exist : List Scalar → Checked
  unfolding check_params
  check_if_params_exist [] = some []
  check_if_params_exist (node ∷ nodes) = elim (get_params_in_string node.content) [
    | none ↦ none
    | some params ↦ also (check_params node params) (check_if_params_exist nodes)
  ]

  -- The parameter is defined where it is used: a name that starts with `pipeline` by the pipeline,
  -- any other by the entity around the scalar.
  abbrev pub IsDefined : Scalar → ParamInString → Type 0
  IsDefined node param =
      ((is_prefixed (codes "pipeline") param.full_name ≡ true)
        × ((p : Parameter) × (lookup_text param.name pipeline_parameters ≡ some p)))
      ⊎ ((is_prefixed (codes "pipeline") param.full_name ≡ false)
          × ((around : Dict String Parameter) × (p : Parameter) × (get_params_with_position doc
                  node.start
                ≡ some around)
              × (lookup_text param.name around ≡ some p)))

  check_param-IsDefined :
      (node : Scalar) (param : ParamInString)
      → check_param node param ≡ some [] ↔ IsDefined node param
  unfolding check_param
  check_param-IsDefined node param = elim (Bool-cases (is_pipeline param)) [
    | inl pipeline ↦ elim (Option-cases (lookup_text param.name pipeline_parameters)) [
      | inl missing ↦ (
        λ h. absurd (ground (arith, h, pipeline, missing)),
        λ f. elim f [
          | inl (_, (p, known)) ↦ absurd (ground (arith, known, missing))
          | inr (other, _) ↦ absurd (ground (arith, other, pipeline))
        ],
      )
      | inr (p, known) ↦ (λ h. inl (pipeline, (p, known)), λ f. ground (arith, pipeline, known))
    ]
    | inr other ↦ elim (Option-cases (get_params_with_position doc node.start)) [
      | inl panic ↦ (
        λ h. absurd (ground (arith, h, other, panic)),
        λ f. elim f [
          | inl (pipeline, _) ↦ absurd (ground (arith, other, pipeline))
          | inr (_, (ps, p, there, _)) ↦ absurd (ground (arith, there, panic))
        ],
      )
      | inr (around, there) ↦ elim (Option-cases (lookup_text param.name around)) [
        | inl missing ↦ (
          λ h. absurd (ground (arith, h, other, there, missing)),
          λ f. elim f [
            | inl (pipeline, _) ↦ absurd (ground (arith, other, pipeline))
            | inr (_, (ps, p, there', known)) ↦
                absurd (ground (arith, there, there', missing, known))
          ],
        )
        | inr (p, known) ↦
            (λ h. inr (other, (around, p, there, known)), λ f. ground (arith, other, there, known))
      ]
    ]
  ]

  check_params-IsDefined :
      (node : Scalar) (params : List ParamInString)
      → check_params node params ≡ some [] ↔ All (IsDefined node) params
  unfolding check_params
  check_params-IsDefined node [] = (λ h. tt, λ f. refl)
  check_params-IsDefined node (param ∷ params) =
      let here = check_param-IsDefined node param in
      let rest = check_params-IsDefined node params in
      (
        λ h.
            let (first, others) =
              also-silent (check_param node param) (check_params node params) h in
            (here.0 first, rest.0 others),
        λ (f, fs). rw (here.1 f, rest.1 fs) refl,
      )

  -- The references in the scalar can be read, and each is to a parameter that is defined there.
  abbrev pub AllDefined : Scalar → Type 0
  AllDefined node =
      (params : List ParamInString) × (get_params_in_string node.content ≡ some params)
      × All (IsDefined node) params

  -- The check returns without a diagnostic exactly where the references in each scalar can be read
  -- and each of them is to a parameter that is defined there: one of the pipeline for a name that
  -- starts with `pipeline`, else one of the entity around the scalar.
  pub check_if_params_exist-AllDefined :
      (nodes : List Scalar) → check_if_params_exist nodes ≡ some [] ↔ All AllDefined nodes
  unfolding check_if_params_exist
  check_if_params_exist-AllDefined [] = (λ h. tt, λ f. refl)
  check_if_params_exist-AllDefined (node ∷ nodes) =
      let rest = check_if_params_exist-AllDefined nodes in
      elim (Option-cases (get_params_in_string node.content)) [
        | inl panic ↦ (
          λ h. absurd (ground (arith, h, panic)),
          λ ((ps, e, _), _). absurd (ground (arith, e, panic)),
        )
        | inr (params, e) ↦
            let here = check_params-IsDefined node params in
            (
              λ h.
                  let (first, others) =
                    also-silent (check_params node params) (check_if_params_exist nodes)
                      (ground (arith, h, e)) in
                  ((params, e, here.0 first), rest.0 others),
              λ ((ps, e', d), ds).
                  let same : ps ≡ params = ground (arith, e, e') in
                  let f = here.1 (subst (λ l. All (IsDefined node) l) same d) in
                  let r = rest.1 ds in ground (arith, e, f, r),
            )
      ]
