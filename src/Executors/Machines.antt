-- ===== src/Executors/Machines.antt =====
-- `validateMachineExecutor`: which machines it accepts.
use circleci_yaml_language_s.Prelude.{
  ◌≡◌, ◌≢◌, ◌↔◌, ◌⊎◌, inl, inr, String, Bool, true, false, ◌&&◌, ◌||◌, Option, Option-cases,
  Bool-cases, none, some, List, [], ◌∷◌, arith, string_eq, contains, subst,
}
use circleci_yaml_language_s.Text.{codes}
use circleci_yaml_language_s.Parameters.{contains_param}
use circleci_yaml_language_s.Offerings.{
  Offerings, MachinePair, machine_pairs, machine_resource_classes, is_self_hosted_runner,
}
use circleci_yaml_language_s.Executors.{
  MachineExecutor, has_rc, has_img, scan_pairs, report_pairs, validate_machine_executor,
}

-- The resource class is that of the pair, a reference to a parameter, or empty.
abbrev pub ClassFits : MachineExecutor → MachinePair → Type 0
ClassFits executor pair =
    (pair.resource_class ≡ executor.base.resource_class)
    ⊎ ((contains_param (codes executor.base.resource_class) ≡ true)
        ⊎ (executor.base.resource_class ≡ ""))

-- The image is one of the pair, or a reference to a parameter.
abbrev pub ImageFits : MachineExecutor → MachinePair → Type 0
ImageFits executor pair =
    (contains pair.images executor.image ≡ true) ⊎ (contains_param (codes executor.image) ≡ true)

-- Some pair has the resource class and the image.
abbrev pub Offered : MachineExecutor → List MachinePair → Type 0
Offered executor [] = ⊥
Offered executor (pair ∷ pairs) =
    (ClassFits executor pair × ImageFits executor pair) ⊎ Offered executor pairs

has_rc-ClassFits :
    (executor : MachineExecutor) (pair : MachinePair)
    → has_rc executor pair ≡ true ↔ ClassFits executor pair
has_rc-ClassFits executor pair =
    let class = executor.base.resource_class in
    elim (string_eq.dec pair.resource_class class) [
      | yes same ↦ (λ h. inl same, λ f. ground (arith, same))
      | no other ↦ elim (Bool-cases (contains_param (codes class))) [
        | inl param ↦ (λ h. inr (inl param), λ f. ground (arith, param))
        | inr plain ↦ elim (string_eq.dec class "") [
          | yes none_given ↦ (λ h. inr (inr none_given), λ f. ground (arith, none_given))
          | no given ↦ (
            λ h. absurd (ground (arith, h, other, plain, given)),
            λ f. elim f [
              | inl same ↦ absurd (other same)
              | inr (inl param) ↦ absurd (ground (arith, param, plain))
              | inr (inr none_given) ↦ absurd (given none_given)
            ],
          )
        ]
      ]
    ]

has_img-ImageFits :
    (executor : MachineExecutor) (pair : MachinePair)
    → has_img executor pair ≡ true ↔ ImageFits executor pair
has_img-ImageFits executor pair = elim (Bool-cases (contains pair.images executor.image)) [
  | inl member ↦ (λ h. inl member, λ f. ground (arith, member))
  | inr stranger ↦ (
    λ h. inr (ground (arith, h, stranger)),
    λ f. elim f [
      | inl member ↦ absurd (ground (arith, member, stranger))
      | inr param ↦ ground (arith, param)
    ],
  )
]

and_left : (a b : Bool) → a && b ≡ true → a ≡ true
and_left a b h = ground (arith, h)

and_right : (a b : Bool) → a && b ≡ true → b ≡ true
and_right a b h = ground (arith, h)

scan_pairs-Offered :
    (executor : MachineExecutor) (pairs : List MachinePair) (rc img : Bool)
    → scan_pairs executor pairs rc img ≡ none ↔ Offered executor pairs
unfolding scan_pairs
scan_pairs-Offered executor [] rc img = (λ h. absurd (ground (arith, h)), λ f. absurd f)
scan_pairs-Offered executor (pair ∷ pairs) rc img =
    let class = has_rc-ClassFits executor pair in
    let image = has_img-ImageFits executor pair in
    let rest =
      scan_pairs-Offered executor pairs
        (rc || (has_rc executor pair || contains_param (codes executor.base.resource_class)))
        (img || (has_img executor pair || contains_param (codes executor.image))) in
    elim (Bool-cases (has_rc executor pair && has_img executor pair)) [
      | inl both ↦ (
        λ h. inl (
          class.0 (and_left (has_rc executor pair) (has_img executor pair) both),
          image.0 (and_right (has_rc executor pair) (has_img executor pair) both),
        ),
        λ f. ground (arith, both),
      )
      | inr differ ↦ (
        λ h. inr (rest.0 (ground (arith, h, differ))),
        λ f. elim f [
          | inl (a, b) ↦ absurd (ground (arith, class.1 a, image.1 b, differ))
          | inr later ↦ let found = rest.1 later in ground (arith, differ, found)
        ],
      )
    ]

report_pairs_some :
    (offerings : Option Offerings) (executor : MachineExecutor) (rc img : Bool)
    → report_pairs offerings executor rc img ≢ []
unfolding report_pairs
report_pairs_some offerings executor false img h = absurd (ground (arith, h))
report_pairs_some offerings executor true false h = absurd (ground (arith, h))
report_pairs_some offerings executor true true h = absurd (ground (arith, h))

-- A resource class that needs no image.
abbrev pub ClassKnown : Option Offerings → String → Type 0
ClassKnown offerings class =
    (class ≡ "")
    ⊎ ((is_self_hosted_runner class ≡ true)
        ⊎ ((contains_param (codes class) ≡ true)
            ⊎ (contains (machine_resource_classes offerings) class ≡ true)))

-- What the machine executor needs to be right: the old `machine: true`, no offerings to compare
-- with, a known resource class without an image, or an image that is offered for the class.
abbrev pub MachineAllowed : Option Offerings → MachineExecutor → Type 0
MachineAllowed offerings executor =
    (executor.is_deprecated ≡ true)
    ⊎ ((machine_pairs offerings ≡ none)
        ⊎ (((executor.image ≡ "") × ClassKnown offerings executor.base.resource_class)
            ⊎ ((pairs : List MachinePair) × (machine_pairs offerings ≡ some pairs)
                × (executor.image ≢ "")
                × (is_self_hosted_runner executor.base.resource_class ≡ false)
                × Offered executor pairs)))

class_check :
    (offerings : Option Offerings) (executor : MachineExecutor) (pairs : List MachinePair)
    → executor.is_deprecated ≡ false
    → machine_pairs offerings ≡ some pairs
    → executor.image ≡ ""
    → validate_machine_executor offerings executor ≡ []
      ↔ ClassKnown offerings executor.base.resource_class
unfolding validate_machine_executor
class_check offerings executor pairs fresh known plain =
    let class = executor.base.resource_class in
    elim (string_eq.dec class "") [
      | yes e ↦ (λ h. inl e, λ f. ground (arith, fresh, known, plain, e))
      | no n ↦ elim (Bool-cases (is_self_hosted_runner class)) [
        | inl e ↦ (λ h. inr (inl e), λ f. ground (arith, fresh, known, plain, e))
        | inr n' ↦ elim (Bool-cases (contains_param (codes class))) [
          | inl e ↦ (λ h. inr (inr (inl e)), λ f. ground (arith, fresh, known, plain, e))
          | inr n'' ↦ elim (Bool-cases (contains (machine_resource_classes offerings) class)) [
            | inl e ↦ (λ h. inr (inr (inr e)), λ f. ground (arith, fresh, known, plain, e))
            | inr n''' ↦ (
              λ h. absurd (ground (arith, fresh, known, plain, n, n', n'', n''', h)),
              λ f. absurd (elim f [
                | inl e ↦ n e
                | inr (inl e) ↦ ground (arith, e, n')
                | inr (inr (inl e)) ↦ ground (arith, e, n'')
                | inr (inr (inr e)) ↦ ground (arith, e, n''')
              ]),
            )
          ]
        ]
      ]
    ]

pair_check :
    (offerings : Option Offerings) (executor : MachineExecutor) (pairs : List MachinePair)
    → executor.is_deprecated ≡ false
    → machine_pairs offerings ≡ some pairs
    → executor.image ≢ ""
    → validate_machine_executor offerings executor ≡ []
      ↔ (is_self_hosted_runner executor.base.resource_class ≡ false) × Offered executor pairs
unfolding validate_machine_executor
pair_check offerings executor pairs fresh known image =
    let scan = scan_pairs-Offered executor pairs false false in
    elim (Bool-cases (is_self_hosted_runner executor.base.resource_class)) [
      | inl own ↦ (
        λ h. absurd (ground (arith, fresh, known, image, own, h)),
        λ (other, _). absurd (ground (arith, own, other)),
      )
      | inr other ↦ elim (Option-cases (scan_pairs executor pairs false false)) [
        | inl found ↦
            (λ h. (other, scan.0 found), λ f. ground (arith, fresh, known, image, other, found))
        | inr ((rc, img), missed) ↦ (
          λ h. absurd (
              report_pairs_some offerings executor rc img
                (ground (arith, fresh, known, image, other, missed, h))),
          λ (_, f). let found = scan.1 f in absurd (ground (arith, found, missed)),
        )
      ]
    ]

-- A machine executor gets no diagnostic exactly where it uses the old `machine: true`, or no
-- offerings could be had, or it has no image and its resource class is empty, self-hosted, a
-- parameter or offered, or its class is not self-hosted and one offered pair has both its resource
-- class and its image, where a parameter stands for any of them and an empty class for any class.
pub validate_machine_executor-silent :
    (offerings : Option Offerings) (executor : MachineExecutor)
    → validate_machine_executor offerings executor ≡ [] ↔ MachineAllowed offerings executor
unfolding validate_machine_executor
validate_machine_executor-silent offerings executor = elim (Bool-cases executor.is_deprecated) [
  | inl old ↦ (λ h. inl old, λ f. ground (arith, old))
  | inr fresh ↦ elim (Option-cases (machine_pairs offerings)) [
    | inl unknown ↦ (λ h. inr (inl unknown), λ f. ground (arith, fresh, unknown))
    | inr (pairs, known) ↦ elim (string_eq.dec executor.image "") [
      | yes plain ↦
          let check = class_check offerings executor pairs fresh known plain in
          (
            λ h. inr (inr (inl (plain, check.0 h))),
            λ f. elim f [
              | inl old ↦ absurd (ground (arith, old, fresh))
              | inr (inl unknown) ↦ absurd (ground (arith, unknown, known))
              | inr (inr (inl (_, c))) ↦ check.1 c
              | inr (inr (inr (_, _, image, _, _))) ↦ absurd (image plain)
            ],
          )
      | no image ↦
          let check = pair_check offerings executor pairs fresh known image in
          (
            λ h.
                let (other, offered) = check.0 h in
                inr (inr (inr (pairs, known, image, other, offered))),
            λ f. elim f [
              | inl old ↦ absurd (ground (arith, old, fresh))
              | inr (inl unknown) ↦ absurd (ground (arith, unknown, known))
              | inr (inr (inl (plain, _))) ↦ absurd (image plain)
              | inr (inr (inr (qs, known', _, other, offered))) ↦
                  let same : qs ≡ pairs = ground (arith, known, known') in
                  check.1 (other, subst (Offered executor) same offered)
            ],
          )
    ]
  ]
]
