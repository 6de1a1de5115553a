-- ===== src/Steps/When.antt =====
-- The field `when` of a run step.
use circleci_yaml_language_s.Prelude.{
  ◌≡◌, ◌≢◌, ◌↔◌, ◌⊎◌, inl, inr, refl, ℕ, String, true, false, ◌&&◌, Option-cases, Bool-cases, none,
  some, List, [], arith, string_eq, string_dec, ◌==◌, nat_eq, if◌then◌else◌, contains, subst, sym,
  ◌∙◌,
}
use circleci_yaml_language_s.Prelude.Dict.{Dict}
use circleci_yaml_language_s.Text.{codes, lookup_text}
use circleci_yaml_language_s.Parameters.{check_if_only_param_used, get_param_name_used_at_pos}
use circleci_yaml_language_s.Values.{
  Parameter, string_parameter, boolean_parameter, integer_parameter, enum_parameter,
  executor_parameter, steps_parameter, env_variable_parameter, Run, is_optional,
}
use circleci_yaml_language_s.ParameterChecks.{Scope}
use circleci_yaml_language_s.Steps.{when_keywords, check_keyword, check_when_param, check_when}

check_keyword-contains :
    (step : Run) (value : String)
    → check_keyword step value ≡ [] ↔ contains when_keywords value ≡ true
check_keyword-contains step value = elim (Bool-cases (contains when_keywords value)) [
  | inl known ↦ (λ h. known, λ f. ground (arith, known))
  | inr unknown ↦
      (λ h. absurd (ground (arith, unknown, h)), λ f. absurd (ground (arith, unknown, f)))
]

empty_no_keyword : contains when_keywords "" ≡ true → ⊥
unfolding string_dec
empty_no_keyword h = absurd (ground (arith, h))

no_when : (when : String) (line : ℕ) → (when == "" && line == 0) ≡ true → (when ≡ "") × (line ≡ 0)
no_when when line h = elim (string_eq.dec when "") [
  | yes e ↦ (e, ground (arith, h))
  | no n ↦ absurd (ground (arith, h, n))
]

-- A string parameter whose default is a keyword.
abbrev pub KeywordDefault : Parameter → Type 0
KeywordDefault (string_parameter b default) =
    (b.has_default ≡ true) × (contains when_keywords default ≡ true)
KeywordDefault _ = ⊥

module _ (text_of : List ℕ → String) (scope : Scope) where
  check_when_param_required :
      (step : Run) (name : List ℕ) (p : Parameter)
      → is_optional p ≡ false
      → check_when_param text_of scope step name p ≡ check_keyword step ""
  unfolding check_when_param
  check_when_param_required step name p missing = rw (missing) refl

  required_refused :
      (step : Run) (name : List ℕ) (p : Parameter)
      → is_optional p ≡ false
      → check_when_param text_of scope step name p ≢ []
  required_refused step name p missing h =
      empty_no_keyword (
        (check_keyword-contains step "").0
          (sym (check_when_param_required step name p missing) ∙ h))

  check_when_param-KeywordDefault :
      (step : Run) (name : List ℕ) (p : Parameter)
      → check_when_param text_of scope step name p ≡ [] ↔ KeywordDefault p
  unfolding check_when_param
  check_when_param-KeywordDefault step name (string_parameter b default) =
      let keyword = check_keyword-contains step default in
      elim (Bool-cases b.has_default) [
        | inl given ↦ (
          λ h. (given, keyword.0 (ground (arith, given, h))),
          λ (_, f). let silent = keyword.1 f in ground (arith, given, silent),
        )
        | inr missing ↦ (
          λ h. absurd (required_refused step name (string_parameter b default) missing h),
          λ (given, _). absurd (ground (arith, given, missing)),
        )
      ]
  check_when_param-KeywordDefault step name (boolean_parameter b default) = (
    λ h. elim (Bool-cases b.has_default) [
      | inl given ↦ absurd (ground (arith, given, h))
      | inr missing ↦ absurd (required_refused step name (boolean_parameter b default) missing h)
    ],
    λ f. absurd f,
  )
  check_when_param-KeywordDefault step name (integer_parameter b default) = (
    λ h. elim (Bool-cases b.has_default) [
      | inl given ↦ absurd (ground (arith, given, h))
      | inr missing ↦ absurd (required_refused step name (integer_parameter b default) missing h)
    ],
    λ f. absurd f,
  )
  check_when_param-KeywordDefault step name (enum_parameter b default enum) = (
    λ h. elim (Bool-cases b.has_default) [
      | inl given ↦ absurd (ground (arith, given, h))
      | inr missing ↦ absurd (required_refused step name (enum_parameter b default enum) missing h)
    ],
    λ f. absurd f,
  )
  check_when_param-KeywordDefault step name (executor_parameter b default) = (
    λ h. elim (Bool-cases b.has_default) [
      | inl given ↦ absurd (ground (arith, given, h))
      | inr missing ↦ absurd (required_refused step name (executor_parameter b default) missing h)
    ],
    λ f. absurd f,
  )
  check_when_param-KeywordDefault step name (steps_parameter b default) = (
    λ h. elim (Bool-cases b.has_default) [
      | inl given ↦ absurd (ground (arith, given, h))
      | inr missing ↦ absurd (required_refused step name (steps_parameter b default) missing h)
    ],
    λ f. absurd f,
  )
  check_when_param-KeywordDefault step name (env_variable_parameter b default) = (
    λ h. elim (Bool-cases b.has_default) [
      | inl given ↦ absurd (ground (arith, given, h))
      | inr missing ↦
          absurd (required_refused step name (env_variable_parameter b default) missing h)
    ],
    λ f. absurd f,
  )

  -- Nothing is given, or a keyword, or a reference to an unknown parameter or to one of type string
  -- whose default is a keyword.
  abbrev pub WhenAllowed : Run → Dict String Parameter → Type 0
  WhenAllowed step parameters =
      let (name, is_pipeline) = get_param_name_used_at_pos scope.content step.when_range.end in
      let used = lookup_text name (if is_pipeline then scope.pipeline_parameters else parameters) in
      ((step.when ≡ "") × (step.when_range.start.line ≡ 0))
      ⊎ (((check_if_only_param_used (codes step.when) ≡ false)
            × (contains when_keywords step.when ≡ true))
          ⊎ ((check_if_only_param_used (codes step.when) ≡ true)
              × ((used ≡ none) ⊎ ((p : Parameter) × (used ≡ some p) × KeywordDefault p))))

  when_given :
      (step : Run) (parameters : Dict String Parameter)
      → (step.when == "" && step.when_range.start.line == 0) ≡ false
      → check_when text_of scope step parameters ≡ [] ↔ WhenAllowed step parameters
  unfolding check_when
  when_given step parameters given =
      let (name, is_pipeline) = get_param_name_used_at_pos scope.content step.when_range.end in
      let used = lookup_text name (if is_pipeline then scope.pipeline_parameters else parameters) in
      elim (Bool-cases (check_if_only_param_used (codes step.when))) [
        | inr literal ↦
            let keyword = check_keyword-contains step step.when in
            (
              λ h. inr (inl (literal, keyword.0 (ground (arith, given, literal, h)))),
              λ f. elim f [
                | inl (e, l) ↦ absurd (ground (arith, e, l, given))
                | inr (inl (_, known)) ↦
                    let silent = keyword.1 known in ground (arith, given, literal, silent)
                | inr (inr (reference, _)) ↦ absurd (ground (arith, reference, literal))
              ],
            )
        | inl reference ↦ elim (Option-cases used) [
          | inl unknown ↦ (
            λ h. inr (inr (reference, inl unknown)),
            λ f. ground (arith, given, reference, unknown),
          )
          | inr (p, known) ↦
              let param = check_when_param-KeywordDefault step name p in
              (
                λ h. inr (
                    inr (
                      reference,
                      inr (p, known, param.0 (ground (arith, given, reference, known, h))),
                    )),
                λ f. elim f [
                  | inl (e, l) ↦ absurd (ground (arith, e, l, given))
                  | inr (inl (literal, _)) ↦ absurd (ground (arith, reference, literal))
                  | inr (inr (_, inl unknown)) ↦ absurd (ground (arith, known, unknown))
                  | inr (inr (_, inr (q, known', default))) ↦
                      let same : q ≡ p = ground (arith, known, known') in
                      let silent = param.1 (subst KeywordDefault same default) in
                      ground (arith, given, reference, known, silent)
                ],
              )
        ]
      ]

  -- The check of `when` adds no diagnostic exactly where the field is empty and on the first line, or
  -- is a keyword, or refers to a parameter that is unknown or of type string with a keyword as its
  -- default. A reference to a string parameter without a default gets one.
  pub check_when-silent :
      (step : Run) (parameters : Dict String Parameter)
      → check_when text_of scope step parameters ≡ [] ↔ WhenAllowed step parameters
  unfolding check_when
  check_when-silent step parameters =
      elim (Bool-cases (step.when == "" && step.when_range.start.line == 0)) [
        | inr given ↦ when_given step parameters given
        | inl empty ↦ (
          λ h. inl (no_when step.when step.when_range.start.line empty),
          λ f. ground (arith, empty),
        )
      ]
