-- ===== src/ParameterChecks/Assignments.antt =====
-- The check of one assigned parameter, and of the default of an enumeration.
use circleci_yaml_language_s.Prelude.{
  ◌≡◌, ap, sym, ◌∙◌, ◌≢◌, ◌↔◌, ◌⊎◌, inl, inr, refl, String, true, false, Option-cases, Bool-cases,
  none, some, List, [], ◌∷◌, ◌++◌, arith, string_eq, if◌then◌else◌, contains,
}
use circleci_yaml_language_s.Prelude.Dict.{Dict}
use circleci_yaml_language_s.Text.{codes, lookup_text}
use circleci_yaml_language_s.Diagnostics.{Diagnostic}
use circleci_yaml_language_s.Parameters.{check_if_only_param_used, get_param_name_used_at_pos}
use circleci_yaml_language_s.Values.{
  ParameterValue, text, Parameter, string_parameter, boolean_parameter, integer_parameter,
  enum_parameter, executor_parameter, steps_parameter, env_variable_parameter, value_of,
  value_range, value_type, get_type,
}
use circleci_yaml_language_s.ParameterChecks.{
  Scope, Found, Finding, report, executor_reference, reports, also, check_param_simple_type,
  check_param_used_with_param, check_enum_type_definition, check_assigned,
}
use circleci_yaml_language_s.ParameterChecks.Fitting.{AllTagged, Fits}
use circleci_yaml_language_s.ParameterChecks.Deciding.{
  Decides, Decides-some, errors, check_param_simple_type-Fits,
}

errors-append : (fs gs : List Finding) → errors (fs ++ gs) ≡ errors fs ++ errors gs
errors-append [] gs = refl
errors-append (report d ∷ fs) gs = ap (λ ds. d ∷ ds) (errors-append fs gs)
errors-append (executor_reference name rng ∷ fs) gs = errors-append fs gs

empty_parts : (ds es : List Diagnostic) → ds ++ es ≡ [] → (ds ≡ []) × (es ≡ [])
empty_parts [] es h = (refl, h)
empty_parts (d ∷ ds) es h = absurd (ground (arith, h))

pub Decides_map : (c d : Found) (P Q : Type 0) → c ≡ d → P ↔ Q → Decides d P → Decides c Q
Decides_map c d P Q e (to, from) (ds, e', (sound, complete)) =
    (ds, ground (arith, e, e'), (λ h. to (sound h), λ q. complete (from q)))

pub Decides-also :
    (c d : Found) (P Q : Type 0) → Decides c P → Decides d Q → Decides (also c d) (P × Q)
Decides-also c d P Q (ds, e, (sound, complete)) (es, e', (sound', complete')) = (
  ds ++ es,
  rw (e, e') refl,
  (
    λ h.
        let (left, right) = empty_parts (errors ds) (errors es) (sym (errors-append ds es) ∙ h) in
        (sound left, sound' right),
    λ (p, q). errors-append ds es ∙ rw (complete p, complete' q) refl,
  ),
)

-- The default of an enumeration is one of its values.
abbrev pub DefaultInEnum : Parameter → Type 0
DefaultInEnum (enum_parameter b default enum) =
    (b.has_default ≡ false) ⊎ (contains enum default ≡ true)
DefaultInEnum _ = Unit

pub check_enum_type_definition-DefaultInEnum :
    (p : Parameter) → check_enum_type_definition p ≡ [] ↔ DefaultInEnum p
unfolding check_enum_type_definition
check_enum_type_definition-DefaultInEnum (enum_parameter b default enum) =
    elim (Bool-cases b.has_default) [
      | inr none_given ↦ (λ h. inl none_given, λ f. ground (arith, none_given))
      | inl given ↦ elim (Bool-cases (contains enum default)) [
        | inl member ↦ (λ h. inr member, λ f. ground (arith, given, member))
        | inr stranger ↦ (
          λ h. absurd (ground (arith, given, stranger, h)),
          λ f. elim f [
            | inl not_given ↦ absurd (ground (arith, given, not_given))
            | inr member ↦ absurd (ground (arith, member, stranger))
          ],
        )
      ]
    ]
check_enum_type_definition-DefaultInEnum (string_parameter b default) = (λ h. tt, λ h. refl)
check_enum_type_definition-DefaultInEnum (boolean_parameter b default) = (λ h. tt, λ h. refl)
check_enum_type_definition-DefaultInEnum (integer_parameter b default) = (λ h. tt, λ h. refl)
check_enum_type_definition-DefaultInEnum (executor_parameter b default) = (λ h. tt, λ h. refl)
check_enum_type_definition-DefaultInEnum (steps_parameter b default) = (λ h. tt, λ h. refl)
check_enum_type_definition-DefaultInEnum (env_variable_parameter b default) = (λ h. tt, λ h. refl)

module _ (scope : Scope) where
  -- A reference to a parameter: unknown here, of the same type, or an enumeration for a string.
  abbrev pub ReferenceFits : Dict String Parameter → Parameter → ParameterValue → Type 0
  ReferenceFits usable defined v =
      let (name, is_pipeline_param) =
        get_param_name_used_at_pos scope.content (value_range v).end in
      let used =
        lookup_text name (if is_pipeline_param then scope.pipeline_parameters else usable) in
      (used ≡ none)
      ⊎ ((p : Parameter) × (used ≡ some p)
          × ((get_type defined ≡ get_type p)
              ⊎ ((get_type defined ≡ "string") × (get_type p ≡ "enum"))))

  abbrev pub Reference : ParameterValue → Type 0
  Reference v =
      (s : String) × (value_type v ≡ "string")
      × (value_of v ≡ text s)
      × (check_if_only_param_used (codes s) ≡ true)

  abbrev pub Literal : ParameterValue → Type 0
  Literal v =
      (value_type v ≢ "string")
      ⊎ ((s : String) × (value_of v ≡ text s) × (check_if_only_param_used (codes s) ≡ false))

  abbrev pub Assigned : Dict String Parameter → Parameter → ParameterValue → Type 0
  Assigned usable defined v =
      (Reference v × ReferenceFits usable defined v) ⊎ (Literal v × Fits scope defined v)

  check_param_used_with_param-ReferenceFits :
      (v : ParameterValue) (name : String) (defined : Parameter) (usable : Dict String Parameter)
      → check_param_used_with_param scope v name defined usable ≡ []
        ↔ ReferenceFits usable defined v
  unfolding check_param_used_with_param
  check_param_used_with_param-ReferenceFits v name defined usable =
      let (param_name, is_pipeline_param) =
        get_param_name_used_at_pos scope.content (value_range v).end in
      let used =
        lookup_text param_name (if is_pipeline_param then scope.pipeline_parameters else usable) in
      elim (Option-cases used) [
        | inl unknown ↦ (λ h. inl unknown, λ f. ground (arith, unknown))
        | inr (p, known) ↦ (
          λ h. inr (
            p,
            known,
            elim (string_eq.dec (get_type defined) (get_type p)) [
              | yes same ↦ inl same
              | no differ ↦ elim (string_eq.dec (get_type defined) "string") [
                | no other ↦ absurd (ground (arith, known, differ, other, h))
                | yes string ↦ elim (string_eq.dec (get_type p) "enum") [
                  | no other ↦ absurd (ground (arith, known, differ, string, other, h))
                  | yes enum ↦ inr (string, enum)
                ]
              ]
            ],
          ),
          λ f. elim f [
            | inl unknown ↦ absurd (ground (arith, known, unknown))
            | inr (q, known', fits) ↦ elim fits [
              | inl same ↦ ground (arith, known, known', same)
              | inr (string, enum) ↦ ground (arith, known, known', string, enum)
            ]
          ],
        )
      ]

  Reference-cases : (v : ParameterValue) → AllTagged v → Reference v ⊎ Literal v
  Reference-cases v (tagged, _, _) = elim (string_eq.dec (value_type v) "string") [
    | no other ↦ inr (inl other)
    | yes string ↦
        let (s, e) = tagged string in
        elim (Bool-cases (check_if_only_param_used (codes s))) [
          | inl reference ↦ inl (s, string, e, reference)
          | inr literal ↦ inr (inr (s, e, literal))
        ]
  ]

  check_assigned-Reference :
      (v : ParameterValue) (name : String) (defined : Parameter) (usable : Dict String Parameter)
      → Reference v
      → check_assigned scope v name defined usable
        ≡ some (reports (check_param_used_with_param scope v name defined usable))
  unfolding check_assigned
  check_assigned-Reference v name defined usable (s, string, e, reference) =
      ground (arith, string, e, reference)

  check_assigned-Literal :
      (v : ParameterValue) (name : String) (defined : Parameter) (usable : Dict String Parameter)
      → AllTagged v
      → Literal v
      → check_assigned scope v name defined usable ≡ check_param_simple_type scope v name defined
  unfolding check_assigned
  check_assigned-Literal v name defined usable _ (inl other) = ground (arith, other)
  check_assigned-Literal v name defined usable (tagged, _, _) (inr (s, e, literal)) =
      elim (string_eq.dec (value_type v) "string") [
        | no other ↦ ground (arith, other)
        | yes string ↦ ground (arith, string, e, literal)
      ]

  not_both : (v : ParameterValue) → Reference v → Literal v → ⊥
  not_both v (s, string, e, reference) (inl other) = other string
  not_both v (s, string, e, reference) (inr (s', e', literal)) =
      absurd (ground (arith, e, e', reference, literal))

  pub check_assigned-Assigned :
      (v : ParameterValue) (name : String) (defined : Parameter) (usable : Dict String Parameter)
      → AllTagged v
      → Decides (check_assigned scope v name defined usable) (Assigned usable defined v)
  check_assigned-Assigned v name defined usable tagged = elim (Reference-cases v tagged) [
    | inl reference ↦
        Decides_map (check_assigned scope v name defined usable)
          (some (reports (check_param_used_with_param scope v name defined usable)))
          (ReferenceFits usable defined v) (Assigned usable defined v)
          (check_assigned-Reference v name defined usable reference)
          (
            λ f. inl (reference, f),
            λ a. elim a [
              | inl (_, f) ↦ f
              | inr (literal, _) ↦ absurd (not_both v reference literal)
            ],
          )
          (Decides-some (check_param_used_with_param scope v name defined usable)
            (ReferenceFits usable defined v)
            (check_param_used_with_param-ReferenceFits v name defined usable))
    | inr literal ↦
        Decides_map (check_assigned scope v name defined usable)
          (check_param_simple_type scope v name defined) (Fits scope defined v)
          (Assigned usable defined v) (check_assigned-Literal v name defined usable tagged literal)
          (
            λ f. inr (literal, f),
            λ a. elim a [
              | inl (reference, _) ↦ absurd (not_both v reference literal)
              | inr (_, f) ↦ f
            ],
          )
          (check_param_simple_type-Fits scope defined v name tagged)
  ]
