-- ===== src/ParameterChecks/Loops.antt =====
-- `validateParametersValue` and the checks of its loops.
use circleci_yaml_language_s.Prelude.{
  ◌≡◌, ◌↔◌, ◌⊎◌, inl, inr, refl, String, true, Option-cases, Bool-cases, none, some, [], ◌∷◌, arith,
  string_eq, All, subst,
}
use circleci_yaml_language_s.Prelude.Dict.{Dict, lookup}
use circleci_yaml_language_s.Position.{Range}
use circleci_yaml_language_s.Values.{
  ParameterValue, Parameter, value_name, is_optional, parameter_name,
}
use circleci_yaml_language_s.ParameterChecks.{
  Scope, reports, also, check_enum_type_definition, check_assigned, check_defined,
  check_all_defined, check_unknown, validate_parameters_value, missing_parameter,
}
use circleci_yaml_language_s.ParameterChecks.Fitting.{AllTagged}
use circleci_yaml_language_s.ParameterChecks.Deciding.{Decides, Decides-some}
use circleci_yaml_language_s.ParameterChecks.Assignments.{
  DefaultInEnum, check_enum_type_definition-DefaultInEnum, Assigned, check_assigned-Assigned,
  Decides_map, Decides-also,
}

module _ (scope : Scope) where
  -- The parameter has a value that suits, or needs none.
  abbrev pub Given : Dict String ParameterValue → Dict String Parameter → Parameter → Type 0
  Given params usable defined =
      ((lookup (parameter_name defined) params ≡ none) × (is_optional defined ≡ true))
      ⊎ ((v : ParameterValue) × (lookup (parameter_name defined) params ≡ some v)
          × Assigned scope usable defined v)

  abbrev pub Satisfied :
      Dict String ParameterValue → Dict String Parameter → String × Parameter → Type 0
  Satisfied params usable (_, defined) = DefaultInEnum defined × Given params usable defined

  check_defined-Satisfied :
      (params : Dict String ParameterValue) (name : String) (range : Range) (defined : Parameter)
      (usable : Dict String Parameter)
      → ((k : String) (v : ParameterValue) → lookup k params ≡ some v → AllTagged v)
      → Decides (check_defined scope params name range defined usable) (Given params usable defined)
  unfolding check_defined
  check_defined-Satisfied params name range defined usable tagged =
      elim (Option-cases (lookup (parameter_name defined) params)) [
        | inl missing ↦ elim (Bool-cases (is_optional defined)) [
          | inl optional ↦
              ([], ground (arith, missing, optional), (λ h. inl (missing, optional), λ f. refl))
          | inr required ↦ (
            reports (missing_parameter defined range name),
            ground (arith, missing, required),
            (
              λ h. absurd (ground (arith, h)),
              λ f. elim f [
                | inl (_, optional) ↦ absurd (ground (arith, optional, required))
                | inr (v, found, _) ↦ absurd (ground (arith, missing, found))
              ],
            ),
          )
        ]
        | inr (v, found) ↦
            Decides_map (check_defined scope params name range defined usable)
              (check_assigned scope v name defined usable) (Assigned scope usable defined v)
              (Given params usable defined) (ground (arith, found))
              (
                λ a. inr (v, found, a),
                λ g. elim g [
                  | inl (missing, _) ↦ absurd (ground (arith, missing, found))
                  | inr (w, found', a) ↦
                      let same : w ≡ v = ground (arith, found, found') in
                      subst (λ u. Assigned scope usable defined u) same a
                ],
              )
              (check_assigned-Assigned scope v name defined usable
                (tagged (parameter_name defined) v found))
      ]

  check_all_defined-Satisfied :
      (params : Dict String ParameterValue) (name : String) (range : Range)
      (defined usable : Dict String Parameter)
      → ((k : String) (v : ParameterValue) → lookup k params ≡ some v → AllTagged v)
      → Decides
          (check_all_defined scope params name range defined usable)
          (All (Satisfied params usable) defined)
  unfolding check_all_defined
  check_all_defined-Satisfied params name range [] usable tagged = ([], refl, (λ h. tt, λ h. refl))
  check_all_defined-Satisfied params name range ((k, p) ∷ ps) usable tagged =
      let enum = check_enum_type_definition p in
      let here = check_defined scope params name range p usable in
      let rest = check_all_defined scope params name range ps usable in
      Decides_map (also (some (reports enum)) (also here rest))
        (also (some (reports enum)) (also here rest))
        (DefaultInEnum p × (Given params usable p × All (Satisfied params usable) ps))
        (Satisfied params usable (k, p) × All (Satisfied params usable) ps) refl
        (λ (e, (g, r)). ((e, g), r), λ ((e, g), r). (e, (g, r)))
        (Decides-also (some (reports enum)) (also here rest) (DefaultInEnum p)
          (Given params usable p × All (Satisfied params usable) ps)
          (Decides-some enum (DefaultInEnum p) (check_enum_type_definition-DefaultInEnum p))
          (Decides-also here rest (Given params usable p) (All (Satisfied params usable) ps)
            (check_defined-Satisfied params name range p usable tagged)
            (check_all_defined-Satisfied params name range ps usable tagged)))

-- A value for a parameter that the entity defines.
abbrev pub Known : Dict String Parameter → String × ParameterValue → Type 0
Known defined (_, v) = (p : Parameter) × (lookup (value_name v) defined ≡ some p)

check_unknown-Known :
    (params : Dict String ParameterValue) (name : String) (defined : Dict String Parameter)
    → check_unknown params name defined ≡ [] ↔ All (Known defined) params
unfolding check_unknown
check_unknown-Known [] name defined = (λ h. tt, λ f. refl)
check_unknown-Known ((k, v) ∷ params) name defined =
    let rest = check_unknown-Known params name defined in
    elim (Option-cases (lookup (value_name v) defined)) [
      | inl unknown ↦ (
        λ h. absurd (ground (arith, unknown, h)),
        λ ((p, known), _). absurd (ground (arith, known, unknown)),
      )
      | inr (p, known) ↦ (
        λ h. ((p, known), rest.0 (ground (arith, known, h))),
        λ (_, all). let silent = rest.1 all in ground (arith, known, silent),
      )
    ]

-- Where texts and maps are tagged as the parser tags them, the checks of the values for the
-- parameters of an entity panic nowhere. Besides executors to look up, they find nothing exactly
-- where the default of each enumeration is one of its values, each required parameter has a value,
-- each value that a parameter has fits it or refers to a parameter that fits, and each value is for
-- a parameter that the entity defines. A value fits an executor where it names one: a map has a text
-- under `name`.
pub validate_parameters_value-Satisfied :
    (scope : Scope) (params : Dict String ParameterValue) (name : String) (range : Range)
    (defined usable : Dict String Parameter)
    → ((k : String) (v : ParameterValue) → lookup k params ≡ some v → AllTagged v)
    → Decides
        (validate_parameters_value scope params name range defined usable)
        (All (Satisfied scope params usable) defined × All (Known defined) params)
unfolding validate_parameters_value
validate_parameters_value-Satisfied scope params name range defined usable tagged =
    Decides-also (check_all_defined scope params name range defined usable)
      (some (reports (check_unknown params name defined)))
      (All (Satisfied scope params usable) defined) (All (Known defined) params)
      (check_all_defined-Satisfied scope params name range defined usable tagged)
      (Decides-some (check_unknown params name defined) (All (Known defined) params)
        (check_unknown-Known params name defined))
