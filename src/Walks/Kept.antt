-- ===== src/Walks/Kept.antt =====
-- `parseCommands` of pkg/parser/commands.go: which command a name stands for where several have it.
use circleci_yaml_language_s.Prelude.{
  ℕ, ◌≡◌, ◌∙◌, refl, sym, subst, String, Option, Option-cases, Bool-cases, none, some, true, false,
  List, [], ◌∷◌, ◌==◌, string_eq, arith, if◌then◌else◌, inl, inr,
}
use circleci_yaml_language_s.Prelude.Dict.{Dict, lookup, lookup-insert}
use circleci_yaml_language_s.Cycles.{ℤ}
use circleci_yaml_language_s.Diagnostics.{Diagnostic}
use circleci_yaml_language_s.Values.{Command}
use circleci_yaml_language_s.Walk.{Walk, done, panics, runs_on, ◌>>=◌, reporting, fold, Returns}
use circleci_yaml_language_s.Nodes.{Source, get_child_mapping}
use circleci_yaml_language_s.Walks.{Recursion}
use circleci_yaml_language_s.Walks.Commands.{parse_single_command, add_command, parse_commands}

-- The first command of the name.
abbrev pub first_named : String → List Command → Option Command
first_named k [] = none
first_named k (c ∷ commands) =
    let rest = first_named k commands in if c.name == k then some c else rest

-- What a name stands for: what it stood for before, or the first command that has it; the empty name
-- for no new command.
abbrev pub named_after : Dict String Command → List Command → String → Option Command
named_after before commands k = elim (lookup k before) [
  | some c ↦ some c
  | none ↦ if k == "" then none else first_named k commands
]

Returns-reporting {ℓ} :
    {A : Type ℓ} (P : A → Type 0) (m : Walk A) (ds : _) → Returns P m → Returns P (reporting ds m)
Returns-reporting P (done a es) ds h = h
Returns-reporting P panics ds h = h
Returns-reporting P runs_on ds h = h

Returns-bind {ℓ κ} :
    {A : Type ℓ} {B : Type κ} (Q : A → Type 0) (P : B → Type 0) (m : Walk A) (f : A → Walk B)
    → Returns Q m
    → ((a : A) → Q a → Returns P (f a))
    → Returns P (m >>= f)
Returns-bind Q P (done a ds) f q h = Returns-reporting P (f a) ds (h a q)
Returns-bind Q P panics f q h = absurd q
Returns-bind Q P runs_on f q h = absurd q

Returns-map {ℓ} :
    {A : Type ℓ} (P Q : A → Type 0) (m : Walk A) → ((a : A) → P a → Q a) → Returns P m → Returns Q m
Returns-map P Q (done a ds) h p = h a p
Returns-map P Q panics h p = p
Returns-map P Q runs_on h p = p

Returns-cases {ℓ κ} :
    {A : Type ℓ} {B : Type κ} (P : A → Type 0) (o : Option B) (w : Walk A) (f : B → Walk A)
    → (o ≡ none → Returns P w)
    → ((b : B) → o ≡ some b → Returns P (f b))
    → Returns P (elim o [ none ↦ w | some b ↦ f b ])
Returns-cases P none w f h k = h refl
Returns-cases P (some b) w f h k = k b refl

Returns-at {ℓ κ} :
    {A : Type ℓ} {B : Type κ} (P : A → Type 0) (o : Option B) (b : B) (w : Walk A) (f : B → Walk A)
    → o ≡ some b
    → Returns P (f b)
    → Returns P (elim o [ none ↦ w | some b ↦ f b ])
Returns-at P none b w f e h = absurd (ground (arith, e))
Returns-at P (some a) b w f e h =
    let same : a ≡ b = ground (arith, e) in subst (λ x. Returns P (f x)) (sym same) h

named_after-cons :
    (before d : Dict String Command) (c : Command) (commands : List Command) (k : String)
    → lookup k d ≡ named_after before (c ∷ []) k
    → named_after d commands k ≡ named_after before (c ∷ commands) k
named_after-cons before d c commands k h = elim (Option-cases (lookup k before)) [
  | inr (old, e) ↦ ground (arith, h, e)
  | inl e ↦ elim (Bool-cases (k == "")) [
    | inl unnamed ↦ ground (arith, h, e, unnamed)
    | inr named ↦ elim (Bool-cases (c.name == k)) [
      | inl same ↦ ground (arith, h, e, named, same)
      | inr other ↦ ground (arith, h, e, named, other)
    ]
  ]
]

module _ (doc : Source) (atoi : String → Option ℤ) (parameter_name_in : String → String)
    (recur : Recursion) where
  abbrev Named : Dict String Command → List Command → Dict String Command → Type 0
  Named before commands d = (k : String) → lookup k d ≡ named_after before commands k

  kept_lookup :
      (before : Dict String Command) (c : Command) (k : String)
      → (lookup k before ≡ none → (k == "") ≡ false → (c.name == k) ≡ true → ⊥)
      → lookup k before ≡ named_after before (c ∷ []) k
  kept_lookup before c k no_first = elim (Option-cases (lookup k before)) [
    | inr (old, e) ↦ ground (arith, e)
    | inl e ↦ elim (Bool-cases (k == "")) [
      | inl unnamed ↦ ground (arith, e, unnamed)
      | inr named ↦ elim (Bool-cases (c.name == k)) [
        | inl same ↦ absurd (no_first e named same)
        | inr other ↦ ground (arith, e, named, other)
      ]
    ]
  ]

  add_command-Named :
      (before : Dict String Command) (c : Command)
      → Returns (Named before (c ∷ [])) (add_command doc atoi parameter_name_in recur before c)
  add_command-Named before c =
      Returns-cases (Named before (c ∷ [])) (lookup c.name before) _ _
        (λ new k. elim (Bool-cases (c.name == "")) [
          | inl unnamed ↦
              let kept =
                kept_lookup before c k (λ e named same. ground (arith, unnamed, named, same)) in
              ground (arith, unnamed, kept)
          | inr named ↦
              let added = lookup-insert k c.name c before in
              elim (string_eq.dec k c.name) [
                | yes same ↦ ground (arith, named, added, same, new)
                | no other ↦
                    let kept = kept_lookup before c k (λ e _ same. ground (arith, same, other)) in
                    ground (arith, named, added, other, kept)
              ]
        ])
        (λ old defined k. kept_lookup before c k (λ e named same. ground (arith, e, same, defined)))

  -- The commands that the nodes are read as.
  abbrev pub Reads : List ℕ → List Command → Type 0
  Reads [] [] = Unit
  Reads (n ∷ nodes) (c ∷ commands) =
      ((ds : List Diagnostic) × (parse_single_command doc atoi parameter_name_in recur n
          ≡ done c ds))
      × Reads nodes commands
  Reads [] (c ∷ commands) = ⊥
  Reads (n ∷ nodes) [] = ⊥

  abbrev add_child : Dict String Command → ℕ → Walk (Dict String Command)
  add_child before child =
      parse_single_command doc atoi parameter_name_in recur child
      >>= add_command doc atoi parameter_name_in recur before

  add_child-Named :
      (before : Dict String Command) (child : ℕ) (c : Command) (ds : List Diagnostic)
      → parse_single_command doc atoi parameter_name_in recur child ≡ done c ds
      → Returns (Named before (c ∷ [])) (add_child before child)
  add_child-Named before child c ds e =
      Returns-bind (λ a. a ≡ c) (Named before (c ∷ []))
        (parse_single_command doc atoi parameter_name_in recur child)
        (add_command doc atoi parameter_name_in recur before)
        (subst (Returns (λ a. a ≡ c)) (sym e) refl)
        (λ a same.
          subst
            (λ b.
              Returns (Named before (c ∷ []))
                (add_command doc atoi parameter_name_in recur before b))
            (sym same) (add_command-Named before c))

  fold-Named :
      (before : Dict String Command) (nodes : List ℕ) (commands : List Command)
      → Reads nodes commands
      → Returns (Named before commands) (fold add_child before nodes)
  fold-Named before [] [] reads = λ k. elim (Option-cases (lookup k before)) [
    | inr (old, e) ↦ ground (arith, e)
    | inl e ↦ ground (arith, e)
  ]
  fold-Named before [] (c ∷ commands) reads = absurd reads
  fold-Named before (n ∷ nodes) [] reads = absurd reads
  fold-Named before (n ∷ nodes) (c ∷ commands) ((ds, e), reads) =
      Returns-bind (Named before (c ∷ [])) (Named before (c ∷ commands)) (add_child before n)
        (λ d. fold add_child d nodes) (add_child-Named before n c ds e)
        λ d named.
          Returns-map (Named d commands) (Named before (c ∷ commands)) (fold add_child d nodes)
            (λ d' named' k. named' k ∙ named_after-cons before d c commands k (named k))
            (fold-Named d nodes commands reads)

  -- Where the pairs of a mapping are read as the given commands, the walk over the mapping returns.
  -- Afterwards each name stands for what it stood for before, else for the first of the commands that
  -- has it; a command without a name is left out.
  pub lookup-parse_commands :
      (before : Dict String Command) (node mapping : ℕ) (children : List ℕ)
      (commands : List Command) (ds : List Diagnostic)
      → get_child_mapping doc.tree (some node) ≡ some mapping
      → recur.entries (some mapping) ≡ done children ds
      → Reads children commands
      → Returns
          (λ d. (k : String) → lookup k d ≡ named_after before commands k)
          (parse_commands doc atoi parameter_name_in recur before (some node))
  unfolding parse_commands
  lookup-parse_commands before node mapping children commands ds e pairs reads =
      Returns-at (Named before commands) (get_child_mapping doc.tree (some node)) mapping _ _ e (
        Returns-bind (λ cs. cs ≡ children) (Named before commands) (recur.entries (some mapping))
          (λ cs. fold add_child before cs) (subst (Returns (λ cs. cs ≡ children)) (sym pairs) refl)
          (λ cs same.
            subst (λ l. Returns (Named before commands) (fold add_child before l)) (sym same)
              (fold-Named before children commands reads)))
