-- ===== src/ParameterChecks/Deciding.antt =====
-- `checkParamSimpleType` returns, and accepts the values that fit.
use circleci_yaml_language_s.Prelude.{
  ◌≡◌, ap, sym, ◌∙◌, ◌↔◌, inl, inr, refl, String, Option-cases, Bool-cases, ◌≢◌, some, List, [],
  ◌∷◌, ◌++◌, arith, string_eq, ◌==◌, contains, All, subst,
}
use circleci_yaml_language_s.Prelude.Dict.{lookup}
use circleci_yaml_language_s.Diagnostics.{Diagnostic, create_error_diagnostic_from_range}
use circleci_yaml_language_s.Values.{
  BaseParameter, parameter_value, ParameterValue, Values, text, integer, boolean, array, mapping,
  step_list, alias_node, nil_value, Parameter, string_parameter, boolean_parameter,
  integer_parameter, enum_parameter, executor_parameter, steps_parameter, env_variable_parameter,
  value_list, value_of, value_type, value_range, field_dict,
}
use circleci_yaml_language_s.ParameterChecks.{
  Scope, Checked, Found, Finding, report, executor_reference, reports, reported,
  check_executor_param_value, check_enum, check_steps, check_env_var_name, parameter_error,
  check_param_type, check_step_value, check_step_values, check_param_simple_type, missing_command,
  invalid_choice,
}
use circleci_yaml_language_s.ParameterChecks.Fitting.{
  IsTagged, IsTaggedMap, NamesExecutor, AllTagged, FitsType, FitsStep, Fits,
  check_param_type-FitsType, check_step_values-FitsStep,
}

-- The check returns diagnostics, and it returns none of them exactly where `P` holds.
abbrev pub Settles : Checked → Type 0 → Type 0
Settles c P = (ds : List Diagnostic) × (c ≡ some ds) × (ds ≡ [] ↔ P)

-- The diagnostics, without the references to executors.
abbrev pub errors : List Finding → List Diagnostic
errors [] = []
errors (report d ∷ findings) = d ∷ errors findings
errors (executor_reference name rng ∷ findings) = errors findings

-- The check returns, and it finds no diagnostic exactly where `P` holds.
abbrev pub Decides : Found → Type 0 → Type 0
Decides c P = (findings : List Finding) × (c ≡ some findings) × (errors findings ≡ [] ↔ P)

errors-reports : (ds : List Diagnostic) → errors (reports ds) ≡ ds
errors-reports [] = refl
errors-reports (d ∷ ds) = ap (λ es. d ∷ es) (errors-reports ds)

pub Decides-some : (ds : List Diagnostic) (P : Type 0) → ds ≡ [] ↔ P → Decides (some (reports ds)) P
Decides-some ds P (sound, complete) = (
  reports ds,
  refl,
  (λ h. sound (sym (errors-reports ds) ∙ h), λ p. errors-reports ds ∙ complete p),
)

Decides-reported : (c : Checked) (P : Type 0) → Settles c P → Decides (reported c) P
Decides-reported c P (ds, e, h) =
    let (findings, f, g) = Decides-some ds P h in (findings, ap reported e ∙ f, g)

missing_name : ParameterValue → List Finding
missing_name v =
    report (create_error_diagnostic_from_range (value_range v) "Missing executor name") ∷ []

check_executor_param_value-NamesExecutor :
    (v : ParameterValue)
    → IsTagged v
    → IsTaggedMap v
    → Decides (check_executor_param_value v) (NamesExecutor v)
unfolding check_executor_param_value missing_name
check_executor_param_value-NamesExecutor v tagged tagged_map =
    elim (string_eq.dec (value_type v) "map") [
      | no other ↦ elim (string_eq.dec (value_type v) "string") [
        | no plain ↦ (
          executor_reference "" (value_range v) ∷ [],
          ground (arith, other, plain),
          (λ h. inl other, λ f. refl),
        )
        | yes string ↦
            let (s, e) = tagged string in
            (
              executor_reference s (value_range v) ∷ [],
              ground (arith, other, string, e),
              (λ h. inl other, λ f. refl),
            )
      ]
      | yes map ↦
          let (fields, is, names) = tagged_map map in
          elim (Option-cases (lookup "name" (field_dict fields))) [
            | inl missing ↦ (
              missing_name v,
              ground (arith, map, is, missing),
              (
                λ h. absurd (ground (arith, h)),
                λ f. elim f [
                  | inl other ↦ absurd (other map)
                  | inr (fields', w, is', found, _) ↦
                      absurd (ground (arith, is, is', found, missing))
                ],
              ),
            )
            | inr (w, found) ↦ elim (string_eq.dec (value_type w) "string") [
              | no other ↦ (
                missing_name v,
                ground (arith, map, is, found, other),
                (
                  λ h. absurd (ground (arith, h)),
                  λ f. elim f [
                    | inl no_map ↦ absurd (no_map map)
                    | inr (fields', w', is', found', string) ↦
                        absurd (ground (arith, is, is', found, found', string, other))
                  ],
                ),
              )
              | yes string ↦
                  let (s, e) = names w found string in
                  (
                    executor_reference s (value_range w) ∷ [],
                    ground (arith, map, is, found, string, e),
                    (λ h. inr (fields, w, is, found, string), λ f. refl),
                  )
            ]
          ]
    ]

module _ (scope : Scope) where
  check_step_value_total :
      (v : ParameterValue) (step_name : String)
      → IsTagged v
      → (ds : List Diagnostic) × (check_step_value scope step_name v ≡ some ds)
  unfolding check_step_value
  check_step_value_total v step_name tagged = elim (string_eq.dec (value_type v) "string") [
    | no other ↦ elim (Bool-cases (value_type v == "steps")) [
      | inl steps ↦ ([], ground (arith, other, steps))
      | inr neither ↦ (parameter_error v step_name "steps", ground (arith, other, neither))
    ]
    | yes string ↦
        let (name, e) = tagged string in
        elim (Option-cases (lookup name scope.commands)) [
          | inl missing ↦ (missing_command v name, ground (arith, string, e, missing))
          | inr (c, known) ↦ ([], ground (arith, string, e, known))
        ]
  ]

  check_step_values_total :
      (vs : List ParameterValue) (step_name : String)
      → All IsTagged vs
      → (ds : List Diagnostic) × (check_step_values scope step_name vs ≡ some ds)
  unfolding check_step_values
  check_step_values_total [] step_name tagged = ([], refl)
  check_step_values_total (v ∷ vs) step_name (tagged, all) =
      let (ds, e) = check_step_value_total v step_name tagged in
      let (es, e') = check_step_values_total vs step_name all in (ds ++ es, rw (e, e') refl)

  no_array-Fits :
      (b : BaseParameter) (default v : ParameterValue) (step_name : String)
      → check_steps scope v step_name ≡ some (parameter_error v step_name "steps")
      → ((ws : Values) → value_of v ≢ array ws)
      → Settles (check_steps scope v step_name) (Fits scope (steps_parameter b default) v)
  no_array-Fits b default v step_name e other = (
    parameter_error v step_name "steps",
    e,
    (λ h. absurd (ground (arith, h)), λ (vs, (ws, is, _), _). absurd (other ws is)),
  )

  steps_parameter-Fits :
      (b : BaseParameter) (default v : ParameterValue) (step_name : String)
      → AllTagged v
      → Settles (check_steps scope v step_name) (Fits scope (steps_parameter b default) v)
  unfolding check_steps
  steps_parameter-Fits b default (parameter_value n (array ws) r t) step_name (_, all, _) =
      let tags = all (value_list ws) (ws, refl, refl) in
      let (ds, total) = check_step_values_total (value_list ws) step_name tags in
      let fits = check_step_values-FitsStep scope (value_list ws) step_name tags in
      (
        ds,
        total,
        (
          λ h. (value_list ws, (ws, refl, refl), fits.0 (ground (arith, total, h))),
          λ (vs, (us, e, same), f).
              let is_same : vs ≡ value_list ws = ground (arith, e, same) in
              let f' = subst (λ xs. All (FitsStep scope) xs) is_same f in
              ground (arith, total, fits.1 f'),
        ),
      )
  steps_parameter-Fits b default (parameter_value n (text x) r t) step_name _ =
      no_array-Fits b default (parameter_value n (text x) r t) step_name refl
        (λ ws e. absurd (ground (arith, e)))
  steps_parameter-Fits b default (parameter_value n (integer x) r t) step_name _ =
      no_array-Fits b default (parameter_value n (integer x) r t) step_name refl
        (λ ws e. absurd (ground (arith, e)))
  steps_parameter-Fits b default (parameter_value n (boolean x) r t) step_name _ =
      no_array-Fits b default (parameter_value n (boolean x) r t) step_name refl
        (λ ws e. absurd (ground (arith, e)))
  steps_parameter-Fits b default (parameter_value n (mapping x) r t) step_name _ =
      no_array-Fits b default (parameter_value n (mapping x) r t) step_name refl
        (λ ws e. absurd (ground (arith, e)))
  steps_parameter-Fits b default (parameter_value n (step_list x) r t) step_name _ =
      no_array-Fits b default (parameter_value n (step_list x) r t) step_name refl
        (λ ws e. absurd (ground (arith, e)))
  steps_parameter-Fits b default (parameter_value n (alias_node x) r t) step_name _ =
      no_array-Fits b default (parameter_value n (alias_node x) r t) step_name refl
        (λ ws e. absurd (ground (arith, e)))
  steps_parameter-Fits b default (parameter_value n nil_value r t) step_name _ =
      no_array-Fits b default (parameter_value n nil_value r t) step_name refl
        (λ ws e. absurd (ground (arith, e)))

  check_enum-Fits :
      (b : BaseParameter) (default : String) (enum : List String) (v : ParameterValue)
      (step_name : String)
      → IsTagged v
      → Settles (check_enum scope v step_name b enum) (Fits scope (enum_parameter b default enum) v)
  check_enum-Fits b default enum v step_name tagged = elim (string_eq.dec (value_type v) "string") [
    | no other ↦ (
      parameter_error v step_name "string",
      ground (arith, other),
      (λ h. absurd (ground (arith, h)), λ (string, _). absurd (other string)),
    )
    | yes string ↦
        let (s, e) = tagged string in
        elim (Bool-cases (contains enum s)) [
          | inl member ↦
              ([], ground (arith, string, e, member), (λ h. (string, (s, e, member)), λ f. refl))
          | inr stranger ↦ (
            invalid_choice v s b,
            ground (arith, string, e, stranger),
            (
              λ h. absurd (ground (arith, h)),
              λ (_, (s', e', member)). absurd (ground (arith, e, e', member, stranger)),
            ),
          )
        ]
  ]

  -- Where texts are tagged as the parser tags them, the check of a value panics nowhere, and it is
  -- silent exactly for the values that the parameter takes.
  pub check_param_simple_type-Fits :
      (p : Parameter) (v : ParameterValue) (step_name : String)
      → AllTagged v
      → Decides (check_param_simple_type scope v step_name p) (Fits scope p v)
  unfolding check_param_simple_type
  check_param_simple_type-Fits (string_parameter b default) v step_name tagged =
      Decides-some (check_param_type scope "string" v step_name) (FitsType scope "string" v)
        (check_param_type-FitsType scope "string" v step_name)
  check_param_simple_type-Fits (boolean_parameter b default) v step_name tagged =
      Decides-some (check_param_type scope "boolean" v step_name) (FitsType scope "boolean" v)
        (check_param_type-FitsType scope "boolean" v step_name)
  check_param_simple_type-Fits (integer_parameter b default) v step_name tagged =
      Decides-some (check_param_type scope "integer" v step_name) (FitsType scope "integer" v)
        (check_param_type-FitsType scope "integer" v step_name)
  check_param_simple_type-Fits (executor_parameter b default) v step_name (tagged, _, tagged_map) =
      check_executor_param_value-NamesExecutor v tagged tagged_map
  check_param_simple_type-Fits (env_variable_parameter b default) v step_name tagged =
      Decides-some (check_env_var_name scope v step_name) _
        (elim (string_eq.dec (value_type v) "string") [
          | yes string ↦ (λ h. inl string, λ f. ground (arith, string))
          | no other ↦ elim (string_eq.dec (value_type v) "integer") [
            | yes number ↦ (λ h. inr number, λ f. ground (arith, other, number))
            | no neither ↦ (
              λ h. absurd (ground (arith, h, other, neither)),
              λ f. absurd (ground (arith, f, other, neither)),
            )
          ]
        ])
  check_param_simple_type-Fits (enum_parameter b default enum) v step_name (tagged, _, _) =
      Decides-reported (check_enum scope v step_name b enum) _
        (check_enum-Fits b default enum v step_name tagged)
  check_param_simple_type-Fits (steps_parameter b default) v step_name tagged =
      Decides-reported (check_steps scope v step_name) _
        (steps_parameter-Fits b default v step_name tagged)
