-- ===== src/ParameterChecks/Fitting.antt =====
-- Which values `checkParamSimpleType` accepts.
use package.text.Mathlib.TextEquality.{eq_iff}
use circleci_yaml_language_s.Prelude.{
  ◌≡◌, ◌≢◌, ◌↔◌, ◌⊎◌, inl, inr, refl, String, true, false, Option-cases, Bool-cases, none, some,
  List, [], ◌∷◌, arith, string_eq, contains, All,
}
use circleci_yaml_language_s.Prelude.Dict.{lookup}
use circleci_yaml_language_s.Text.{is_empty, lookup_text}
use circleci_yaml_language_s.Parameters.{get_param_name_used_at_pos}
use circleci_yaml_language_s.Values.{
  ParameterValue, Values, Fields, text, array, mapping, field_dict, Parameter, string_parameter,
  boolean_parameter, integer_parameter, enum_parameter, executor_parameter, steps_parameter,
  env_variable_parameter, value_list, value_of, value_range, value_type, get_type, Command,
}
use circleci_yaml_language_s.ParameterChecks.{
  Scope, Checked, also, check_param_type, check_step_value, check_step_values,
}

-- A value that is tagged as a text is one, as the parser makes it.
abbrev pub IsTagged : ParameterValue → Type 0
IsTagged v = value_type v ≡ "string" → (s : String) × (value_of v ≡ text s)

-- The values of an array.
abbrev pub Elements : ParameterValue → List ParameterValue → Type 0
Elements v vs = (ws : Values) × (value_of v ≡ array ws) × (value_list ws ≡ vs)

-- A value that is tagged as a map is one, and its text under `name` is one if it is tagged so.
abbrev pub IsTaggedMap : ParameterValue → Type 0
IsTaggedMap v =
    value_type v ≡ "map"
    → (fields : Fields) × (value_of v ≡ mapping fields)
      × ((w : ParameterValue) → lookup "name" (field_dict fields) ≡ some w → IsTagged w)

abbrev pub AllTagged : ParameterValue → Type 0
AllTagged v =
    IsTagged v × ((vs : List ParameterValue) → Elements v vs → All IsTagged vs) × IsTaggedMap v

-- The value names an executor: a map has a text under `name`, and any other value is taken for one.
abbrev pub NamesExecutor : ParameterValue → Type 0
NamesExecutor v =
    (value_type v ≢ "map")
    ⊎ ((fields : Fields) × (w : ParameterValue) × (value_of v ≡ mapping fields)
        × (lookup "name" (field_dict fields) ≡ some w)
        × (value_type w ≡ "string"))

pub also-silent : (a b : Checked) → also a b ≡ some [] → (a ≡ some []) × (b ≡ some [])
also-silent none b h = absurd (ground (arith, h))
also-silent (some []) none h = absurd (ground (arith, h))
also-silent (some []) (some es) h = (refl, h)
also-silent (some (d ∷ ds)) none h = absurd (ground (arith, h))
also-silent (some (d ∷ ds)) (some es) h = absurd (ground (arith, h))

module _ (scope : Scope) where
  -- A value of the type, or a reference to a parameter: one of the pipeline has that type.
  abbrev pub FitsType : String → ParameterValue → Type 0
  FitsType t v =
      let name = (get_param_name_used_at_pos scope.content (value_range v).end).0 in
      ((is_empty name ≡ true) × (value_type v ≡ t))
      ⊎ ((is_empty name ≡ false)
          × ((p : Parameter)
              → lookup_text name scope.pipeline_parameters ≡ some p
              → get_type p ≡ t))

  -- A step, or the name of a command of the document.
  abbrev pub FitsStep : ParameterValue → Type 0
  FitsStep v =
      (value_type v ≡ "steps")
      ⊎ ((name : String) × (c : Command) × (value_type v ≡ "string")
          × (value_of v ≡ text name)
          × (lookup name scope.commands ≡ some c))

  -- The values that a parameter takes.
  abbrev pub Fits : Parameter → ParameterValue → Type 0
  Fits (string_parameter b default) v = FitsType "string" v
  Fits (boolean_parameter b default) v = FitsType "boolean" v
  Fits (integer_parameter b default) v = FitsType "integer" v
  Fits (enum_parameter b default enum) v =
      (value_type v ≡ "string") × ((s : String) × (value_of v ≡ text s) × (contains enum s ≡ true))
  Fits (executor_parameter b default) v = NamesExecutor v
  Fits (steps_parameter b default) v = (vs : List ParameterValue) × Elements v vs × All FitsStep vs
  Fits (env_variable_parameter b default) v = (value_type v ≡ "string") ⊎ (value_type v ≡ "integer")

  pub check_param_type-FitsType :
      (t : String) (v : ParameterValue) (step_name : String)
      → check_param_type scope t v step_name ≡ [] ↔ FitsType t v
  unfolding check_param_type
  check_param_type-FitsType t v step_name =
      let name = (get_param_name_used_at_pos scope.content (value_range v).end).0 in
      elim (Bool-cases (is_empty name)) [
        | inl plain ↦ (
          λ h. inl (plain, ground (arith, h, plain)),
          λ f. elim f [
            | inl (_, same) ↦ ground (arith, plain, same)
            | inr (other, _) ↦ absurd (ground (arith, plain, other))
          ],
        )
        | inr refers ↦ elim (Option-cases (lookup_text name scope.pipeline_parameters)) [
          | inl unknown ↦ (
            λ h. inr (refers, λ p e. absurd (ground (arith, unknown, e))),
            λ f. ground (arith, refers, unknown),
          )
          | inr (q, known) ↦ (
            λ h. inr (refers, λ p e. ground (arith, refers, known, e, h)),
            λ f. elim f [
              | inl (other, _) ↦ absurd (ground (arith, refers, other))
              | inr (_, same) ↦ ground (arith, refers, known, same q known)
            ],
          )
        ]
      ]

  pub check_step_value-FitsStep :
      (v : ParameterValue) (step_name : String)
      → IsTagged v
      → check_step_value scope step_name v ≡ some [] ↔ FitsStep v
  unfolding check_step_value
  check_step_value-FitsStep v step_name tagged = elim (string_eq.dec (value_type v) "string") [
    | no other ↦ (
      λ h. inl (ground (arith, other, h)),
      λ f. elim f [
        | inl steps ↦ ground (arith, other, steps)
        | inr (name, c, string, _, _) ↦ absurd (other string)
      ],
    )
    | yes string ↦
        let (name, e) = tagged string in
        elim (Option-cases (lookup name scope.commands)) [
          | inl missing ↦ (
            λ h. absurd (ground (arith, string, e, missing, h)),
            λ f. elim f [
              | inl steps ↦ absurd (ground (arith, string, steps, eq_iff "string" "steps"))
              | inr (name', c, _, e', known) ↦ absurd (ground (arith, e, e', known, missing))
            ],
          )
          | inr (c, known) ↦
              (λ h. inr (name, c, string, e, known), λ f. ground (arith, string, e, known))
        ]
  ]

  pub check_step_values-FitsStep :
      (vs : List ParameterValue) (step_name : String)
      → All IsTagged vs
      → check_step_values scope step_name vs ≡ some [] ↔ All FitsStep vs
  unfolding check_step_values
  check_step_values-FitsStep [] step_name tagged = (λ h. tt, λ f. refl)
  check_step_values-FitsStep (v ∷ vs) step_name (tagged, all) =
      let here = check_step_value-FitsStep v step_name tagged in
      let rest = check_step_values-FitsStep vs step_name all in
      (
        λ h.
            let (first, others) =
              also-silent (check_step_value scope step_name v)
                (check_step_values scope step_name vs) h in
            (here.0 first, rest.0 others),
        λ (f, fs). rw (here.1 f, rest.1 fs) refl,
      )
