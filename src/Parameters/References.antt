-- ===== src/Parameters/References.antt =====
-- References to parameters are read back.
use mathlib.Core.List.{append_assoc}
use circleci_yaml_language_s.Prelude.{
  All-map, All-append, ℕ, ◌≡◌, ◌∙◌, refl, subst, ap, Bool, true, false, some, List, [], ◌∷◌, ◌++◌,
  ◌==◌, nat_eq, arith, contains, ◌⊎◌, inl, inr, ℕ_discrete,
}
use circleci_yaml_language_s.Text.{
  codes, is_space, is_empty, skip_spaces, strip_prefix, trim_left, trim_right, trim, last_part,
}
use circleci_yaml_language_s.Parameters.{
  is_word, skip_word, skip_path, match_param, check_if_only_param_used, extract_parameter_name,
}
use circleci_yaml_language_s.Parameters.Trimming.{
  AllSpace, AllWord, AllBut, AllBlank, trim_left-AllBut, trim_left-same, trim_right-AllBut,
  trim_right-same, last_part-append, contains-AllBut, append_nil, is_empty-append,
}

-- Matching.

skip_spaces-AllSpace : (ws t : List ℕ) → AllSpace ws → skip_spaces (ws ++ t) ≡ skip_spaces t
unfolding skip_spaces
skip_spaces-AllSpace [] t h = refl
skip_spaces-AllSpace (w ∷ ws) t (h, hw) = ground (arith, h, skip_spaces-AllSpace ws t hw)

skip_word-AllWord : (name t : List ℕ) → AllWord name → skip_word (name ++ t) ≡ skip_word t
unfolding skip_word
skip_word-AllWord [] t h = refl
skip_word-AllWord (c ∷ name) t (h, hn) = rw (h, skip_word-AllWord name t hn) refl

-- `parameters.` or `pipeline.parameters.`
abbrev pub path : Bool → List ℕ
path true = codes "pipeline.parameters."
path false = codes "parameters."

-- `<<`, `before`, the parameter, `after`, `>>`
abbrev pub reference : List ℕ → List ℕ → List ℕ → List ℕ
reference before parameter after = codes "<<" ++ ((before ++ (parameter ++ after)) ++ codes ">>")

skip_path-reference :
    (before : List ℕ) (pipeline : Bool) (name after : List ℕ)
    → AllSpace before
    → skip_path (skip_spaces ((before ++ ((path pipeline ++ name) ++ after)) ++ codes ">>"))
      ≡ some ((name ++ after) ++ codes ">>")
unfolding skip_path strip_prefix skip_spaces ℕ_discrete
skip_path-reference before true name after h =
    rw (append_assoc before ((path true ++ name) ++ after) (codes ">>"))
      (ap skip_path (skip_spaces-AllSpace before (((path true ++ name) ++ after) ++ codes ">>") h))
skip_path-reference before false name after h =
    rw (append_assoc before ((path false ++ name) ++ after) (codes ">>"))
      (ap skip_path (skip_spaces-AllSpace before (((path false ++ name) ++ after) ++ codes ">>") h))

space_is_no_word : (c : ℕ) → is_space c ≡ true → is_word c ≡ false
space_is_no_word c h = ground arith

skip_word-AllSpace :
    (after : List ℕ) → AllSpace after → skip_word (after ++ codes ">>") ≡ after ++ codes ">>"
unfolding skip_word ℕ_discrete
skip_word-AllSpace [] h = refl
skip_word-AllSpace (c ∷ after) (h, hs) = rw (space_is_no_word c h) refl

close-reference :
    (name after : List ℕ)
    → AllWord name
    → AllSpace after
    → strip_prefix (codes ">>") (skip_spaces (skip_word ((name ++ after) ++ codes ">>"))) ≡ some []
unfolding strip_prefix ℕ_discrete skip_spaces
close-reference name after hn hs =
    rw
      (
        append_assoc name after (codes ">>"),
        skip_word-AllWord name (after ++ codes ">>") hn,
        skip_word-AllSpace after hs,
        skip_spaces-AllSpace after (codes ">>") hs,
      )
      refl

match_param-reference :
    (before : List ℕ) (pipeline : Bool) (name after : List ℕ)
    → AllSpace before
    → AllWord name
    → AllSpace after
    → match_param (reference before (path pipeline ++ name) after) ≡ some []
unfolding match_param strip_prefix ℕ_discrete
match_param-reference before pipeline name after hb hn ha =
    rw (skip_path-reference before pipeline name after hb, match_param)
      (close-reference name after hn ha)

-- Extracting.

AllBut-path :
    (cut : ℕ) (pipeline : Bool)
    → (cut ≡ b'<') ⊎ ((cut ≡ b'>') ⊎ (cut ≡ b' '))
    → AllBut cut (path pipeline)
AllBut-path cut true h = ground (arith, h)
AllBut-path cut false h = ground (arith, h)

AllBut-core :
    (cut : ℕ) (pipeline : Bool) (name : List ℕ)
    → (cut ≡ b'<') ⊎ ((cut ≡ b'>') ⊎ (cut ≡ b' '))
    → AllWord name
    → AllBut cut (path pipeline ++ name)
AllBut-core cut pipeline name h hn =
    All-append (λ c. (c == cut) ≡ false) (path pipeline) name (AllBut-path cut pipeline h)
      (All-map (λ c. is_word c ≡ true) (λ c. (c == cut) ≡ false) (λ c w. ground (arith, h, w)) name
        hn)

AllBut-AllWord : (name : List ℕ) → AllWord name → AllBut b'.' name
AllBut-AllWord =
    All-map (λ c. is_word c ≡ true) (λ c. (c == b'.') ≡ false) (λ c w. ground (arith, w))

trim-brackets :
    (body : List ℕ)
    → AllBut b'<' body
    → AllBut b'>' body
    → is_empty body ≡ false
    → trim b'>' (trim b'<' (codes "<<" ++ (body ++ codes ">>"))) ≡ body
unfolding trim ℕ_discrete
trim-brackets body left right full =
    let inner = body ++ codes ">>" in
    let opened : trim_left b'<' (codes "<<" ++ inner) ≡ inner =
      trim_left-same b'<' (codes "<<") inner (refl, (refl, tt))
      ∙ trim_left-AllBut b'<' body (codes ">>") left full in
    let kept : trim_right b'<' inner ≡ inner =
      trim_right-AllBut b'<' inner
        (All-append (λ c. (c == b'<') ≡ false) body (codes ">>") left (refl, (refl, tt))) in
    rw
      (
        opened,
        kept,
        trim_left-AllBut b'>' body (codes ">>") right full,
        trim_right-same b'>' body (codes ">>") (refl, (refl, tt)),
      )
      (trim_right-AllBut b'>' body right)

last_part-core :
    (pipeline : Bool) (name : List ℕ)
    → contains name b'.' ≡ false
    → last_part b'.' (path pipeline ++ name) ≡ name
last_part-core true name h = last_part-append b'.' (codes "pipeline.parameters") name h
last_part-core false name h = last_part-append b'.' (codes "parameters") name h

is_empty-core :
    (pipeline : Bool) (name t : List ℕ) → is_empty ((path pipeline ++ name) ++ t) ≡ false
is_empty-core true name t = refl
is_empty-core false name t = refl

AllBut-body :
    (cut : ℕ) (before core after : List ℕ)
    → (cut ≡ b'<') ⊎ (cut ≡ b'>')
    → AllSpace before
    → AllBut cut core
    → AllSpace after
    → AllBut cut (before ++ (core ++ after))
AllBut-body cut before core after h hb hc ha =
    let spaces =
      All-map (λ c. is_space c ≡ true) (λ c. (c == cut) ≡ false) (λ c w. ground (arith, h, w)) in
    All-append (λ c. (c == cut) ≡ false) before (core ++ after) (spaces before hb)
      (All-append (λ c. (c == cut) ≡ false) core after hc (spaces after ha))

AllSpace-AllBlank : (ws : List ℕ) → AllBlank ws → AllSpace ws
AllSpace-AllBlank =
    All-map (λ c. (c == b' ') ≡ true) (λ c. is_space c ≡ true) (λ c h. ground (arith, h))

extract-trimmed :
    (before : List ℕ) (pipeline : Bool) (name after full : List ℕ)
    → AllSpace before
    → AllWord name
    → AllSpace after
    → trim b' ' (before ++ ((path pipeline ++ name) ++ after)) ≡ full
    → extract_parameter_name (reference before (path pipeline ++ name) after)
      ≡ (full, last_part b'.' full)
unfolding extract_parameter_name
extract-trimmed before pipeline name after full hb hn ha e =
    let core = path pipeline ++ name in
    rw
      (
        trim-brackets (before ++ (core ++ after))
            (AllBut-body b'<' before core after (inl refl) hb
              (AllBut-core b'<' pipeline name (inl refl) hn) ha)
            (AllBut-body b'>' before core after (inr refl) hb
              (AllBut-core b'>' pipeline name (inr (inl refl)) hn) ha)
            (is_empty-append before (core ++ after) (is_empty-core pipeline name after)),
        e,
      )
      refl

trim-blanks :
    (before core after : List ℕ)
    → AllBlank before
    → AllBut b' ' core
    → is_empty core ≡ false
    → AllBlank after
    → trim b' ' (before ++ (core ++ after)) ≡ core
unfolding trim
trim-blanks before core after hb hc full ha =
    rw
      (
        trim_left-same b' ' before (core ++ after) hb,
        trim_left-AllBut b' ' core after hc full,
        trim_right-same b' ' core after ha,
      )
      (trim_right-AllBut b' ' core hc)

is_empty-path : (pipeline : Bool) (name : List ℕ) → is_empty (path pipeline ++ name) ≡ false
is_empty-path true name = refl
is_empty-path false name = refl

-- A reference that is written with any number of blanks on either side of `parameters.name` or
-- `pipeline.parameters.name` is recognised as a parameter and nothing else, and its full path and
-- its name are read back from it.
pub extract_parameter_name-reference :
    (before : List ℕ) (pipeline : Bool) (name after : List ℕ)
    → AllBlank before
    → AllWord name
    → AllBlank after
    → (check_if_only_param_used (reference before (path pipeline ++ name) after) ≡ true)
      × (extract_parameter_name (reference before (path pipeline ++ name) after)
          ≡ (path pipeline ++ name, name))
unfolding check_if_only_param_used
extract_parameter_name-reference before pipeline name after hb hn ha =
    let before_spaces = AllSpace-AllBlank before hb in
    let after_spaces = AllSpace-AllBlank after ha in
    let core = path pipeline ++ name in
    (
      rw
          (
            match_param-reference before pipeline name after before_spaces hn after_spaces,
            check_if_only_param_used,
          )
          refl,
      extract-trimmed before pipeline name after core before_spaces hn after_spaces (
            trim-blanks before core after hb (AllBut-core b' ' pipeline name (inr (inr refl)) hn)
              (is_empty-path pipeline name) ha)
          ∙ ap (λ (n : List ℕ). (core, n))
              (last_part-core pipeline name (contains-AllBut b'.' name (AllBut-AllWord name hn))),
    )

-- Where a tab or a line break stands between the name and `>>`, the reference is recognised as a
-- parameter too, but that byte is read as a part of the name.
pub extract_parameter_name-tab :
    (before : List ℕ) (pipeline : Bool) (name : List ℕ) (tab : ℕ)
    → AllBlank before
    → AllWord name
    → is_space tab ≡ true
    → (tab == b' ') ≡ false
    → (check_if_only_param_used (reference before (path pipeline ++ name) (tab ∷ [])) ≡ true)
      × (extract_parameter_name (reference before (path pipeline ++ name) (tab ∷ []))
          ≡ ((path pipeline ++ name) ++ tab ∷ [], name ++ tab ∷ []))
unfolding check_if_only_param_used
extract_parameter_name-tab before pipeline name tab hb hn space other =
    let core = path pipeline ++ name in
    let longer = core ++ tab ∷ [] in
    let before_spaces = AllSpace-AllBlank before hb in
    let trimmed : trim b' ' (before ++ longer) ≡ longer =
      subst (λ l. trim b' ' (before ++ l) ≡ longer) (append_nil longer)
        (trim-blanks before longer [] hb
          (All-append (λ c. (c == b' ') ≡ false) core (tab ∷ [])
            (AllBut-core b' ' pipeline name (inr (inr refl)) hn) (other, tt))
          (is_empty-core pipeline name (tab ∷ [])) tt) in
    let dotless : contains (name ++ tab ∷ []) b'.' ≡ false =
      contains-AllBut b'.' (name ++ tab ∷ []) (
        All-append (λ c. (c == b'.') ≡ false) name (tab ∷ []) (AllBut-AllWord name hn)
          (ground (arith, space), tt)) in
    let last : last_part b'.' longer ≡ name ++ tab ∷ [] =
      ap (last_part b'.') (append_assoc (path pipeline) name (tab ∷ []))
      ∙ last_part-core pipeline (name ++ tab ∷ []) dotless in
    (
      rw
          (
            match_param-reference before pipeline name (tab ∷ []) before_spaces hn (space, tt),
            check_if_only_param_used,
          )
          refl,
      extract-trimmed before pipeline name (tab ∷ []) longer before_spaces hn (space, tt) trimmed
          ∙ ap (λ (n : List ℕ). (longer, n)) last,
    )
