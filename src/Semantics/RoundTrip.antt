-- ===== src/Semantics/RoundTrip.antt =====
-- A client that decodes the tokens gets them back, sorted.
use mathlib.Core.List.Perm
use mathlib.Core.List.{Perm, append_assoc, append-nil, perm_middle}
use circleci_yaml_language_s.Prelude.{
  ℕ, ◌+◌, ◌-◌, ◌%◌, ◌<◌, ◌≤◌, ◌≡◌, ◌⊎◌, refl, ap, sym, ◌∙◌, List, [], ◌∷◌, ◌++◌, ◌==◌, nat_eq,
  if◌then◌else◌, u32, arith, All, Bool-cases, inl, inr,
}
use circleci_yaml_language_s.Position.{IsU32}
use circleci_yaml_language_s.Semantics.{
  Token, is_before, insert_token, sort_onto, slice_stable, Encoder, process_each, process_tokens,
}

-- The decoding that the Language Server Protocol gives: five numbers to a token, a line relative
-- to the line before, and a character relative to the token before on the same line.
pub decode : ℕ → ℕ → List ℕ → List Token
decode line character (dl ∷ dc ∷ length ∷ token_type ∷ token_modifiers ∷ rest) =
    let line' = line + dl in
    let character' = if dl == 0 then character + dc else dc in
    record {
      position = record { line = line'; character = character' };
      length = length;
      token_type = token_type;
      token_modifiers = token_modifiers;
    }
    ∷ decode line' character' rest
decode line character _ = []

abbrev pub IsAfter : ℕ → ℕ → Token → Type 0
IsAfter line character t =
    (line < t.position.line) ⊎ (line ≡ t.position.line) × (character ≤ t.position.character)

-- Each token stands at or behind the one before it.
abbrev pub IsSorted : ℕ → ℕ → List Token → Type 0
IsSorted line character [] = Unit
IsSorted line character (t ∷ tokens) =
    IsAfter line character t × IsSorted t.position.line t.position.character tokens

abbrev pub AllU32 : List Token → Type 0
AllU32 = All (λ t. IsU32 t.position)

insert_token-IsSorted :
    (line character : ℕ) (t : Token) (tokens : List Token)
    → IsAfter line character t
    → IsSorted line character tokens
    → IsSorted line character (insert_token t tokens)
unfolding insert_token
insert_token-IsSorted line character t [] a s = (a, tt)
insert_token-IsSorted line character t (u ∷ tokens) a s = elim (Bool-cases (is_before t u)) [
  | inl before ↦ rw (before, insert_token) (a, (ground arith, s.1))
  | inr behind ↦
      rw (behind, insert_token)
        (
          s.0,
          insert_token-IsSorted u.position.line u.position.character t tokens (ground arith) s.1,
        )
]

insert_token-AllU32 :
    (t : Token) (tokens : List Token)
    → IsU32 t.position
    → AllU32 tokens
    → AllU32 (insert_token t tokens)
unfolding insert_token
insert_token-AllU32 t [] a s = (a, tt)
insert_token-AllU32 t (u ∷ tokens) a s = ground (arith, insert_token-AllU32 t tokens a s.1)

insert_token-perm : (t : Token) (tokens : List Token) → Perm (insert_token t tokens) (t ∷ tokens)
unfolding insert_token
insert_token-perm t [] = Perm.refl _
insert_token-perm t (u ∷ tokens) = elim (Bool-cases (is_before t u)) [
  | inl before ↦ rw (before, insert_token) (Perm.refl _)
  | inr behind ↦
      rw (behind, insert_token)
        (Perm.trans (Perm.cons u (insert_token-perm t tokens)) (Perm.swap _ _ _))
]

sort_onto-IsSorted :
    (sorted tokens : List Token) → IsSorted 0 0 sorted → IsSorted 0 0 (sort_onto sorted tokens)
unfolding sort_onto
sort_onto-IsSorted sorted [] s = s
sort_onto-IsSorted sorted (t ∷ tokens) s =
    sort_onto-IsSorted (insert_token t sorted) tokens
      (insert_token-IsSorted 0 0 t sorted (ground arith) s)

sort_onto-AllU32 :
    (sorted tokens : List Token) → AllU32 sorted → AllU32 tokens → AllU32 (sort_onto sorted tokens)
unfolding sort_onto
sort_onto-AllU32 sorted [] s h = s
sort_onto-AllU32 sorted (t ∷ tokens) s h =
    sort_onto-AllU32 (insert_token t sorted) tokens (insert_token-AllU32 t sorted h.0 s) h.1

sort_onto-perm : (sorted tokens : List Token) → Perm (sort_onto sorted tokens) (sorted ++ tokens)
unfolding sort_onto
sort_onto-perm sorted [] = rw append-nil (Perm.refl sorted)
sort_onto-perm sorted (t ∷ tokens) = Perm.trans (sort_onto-perm (insert_token t sorted) tokens) (
    Perm.trans (Perm.append_right tokens (insert_token-perm t sorted))
      (Perm.symm (perm_middle sorted tokens)))

-- The numbers that are written for the tokens behind a token at `line` and `character`.
abbrev encode : ℕ → ℕ → List ℕ → List Token → List ℕ
encode line character out tokens =
    let e : Encoder = record {
      prev_line = line;
      prev_character = character;
      processed_tokens = out;
    } in
    (process_each e tokens).processed_tokens

abbrev five : ℕ → ℕ → Token → List ℕ
five line character t =
    (t.position.line + u32 - line) % u32
    ∷ (if t.position.line == line
        then (t.position.character + u32 - character) % u32
        else t.position.character)
    ∷ t.length
    ∷ t.token_type
    ∷ t.token_modifiers
    ∷ []

-- What is written already stays in front.
encode-append :
    (line character : ℕ) (out more : List ℕ) (tokens : List Token)
    → encode line character (out ++ more) tokens ≡ out ++ encode line character more tokens
unfolding process_each
encode-append line character out more [] = refl
encode-append line character out more (t ∷ tokens) =
    ap (λ o. encode t.position.line t.position.character o tokens)
      (append_assoc out more (five line character t))
    ∙ encode-append t.position.line t.position.character out (more ++ five line character t) tokens

encode-cons :
    (line character : ℕ) (t : Token) (tokens : List Token)
    → encode line character [] (t ∷ tokens)
      ≡ five line character t ++ encode t.position.line t.position.character [] tokens
unfolding process_each
encode-cons line character t tokens =
    ap (λ o. encode t.position.line t.position.character o tokens)
      (sym (append-nil (five line character t)))
    ∙ encode-append t.position.line t.position.character (five line character t) [] tokens

-- One token is decoded to itself, and the next ones relative to it.
decode-five :
    (line character : ℕ) (t : Token) (rest : List ℕ)
    → line < u32
    → character < u32
    → IsAfter line character t
    → IsU32 t.position
    → decode line character (five line character t ++ rest)
      ≡ t ∷ decode t.position.line t.position.character rest
unfolding decode
decode-five line character t rest hl hc a h =
    let dl = (t.position.line + u32 - line) % u32 in
    let dc =
      if t.position.line == line
      then (t.position.character + u32 - character) % u32
      else t.position.character in
    let line_eq : line + dl ≡ t.position.line = ground arith in
    let character_eq : (if dl == 0 then character + dc else dc) ≡ t.position.character =
      ground arith in
    λ i.
      record {
        position = record { line = line_eq i; character = character_eq i };
        length = t.length;
        token_type = t.token_type;
        token_modifiers = t.token_modifiers;
      }
      ∷ decode (line_eq i) (character_eq i) rest

decode-encode :
    (line character : ℕ) (tokens : List Token)
    → line < u32
    → character < u32
    → IsSorted line character tokens
    → AllU32 tokens
    → decode line character (encode line character [] tokens) ≡ tokens
unfolding decode process_each
decode-encode line character [] hl hc s h = refl
decode-encode line character (t ∷ tokens) hl hc s h =
    ap (decode line character) (encode-cons line character t tokens)
    ∙ decode-five line character t _ hl hc s.0 h.0
    ∙ ap (◌∷◌ t) (decode-encode t.position.line t.position.character tokens h.0.0 h.0.1 s.1 h.1)

-- Tokens at uint32 positions are decoded to the stably sorted tokens: these stand in the order of
-- their positions, and are the given tokens rearranged.
pub decode-process_tokens :
    (tokens : List Token)
    → AllU32 tokens
    → (decode 0 0 (process_tokens tokens) ≡ slice_stable tokens)
      × IsSorted 0 0 (slice_stable tokens)
      × Perm (slice_stable tokens) tokens
unfolding process_tokens
decode-process_tokens tokens h =
    let sorted = sort_onto-IsSorted [] tokens tt in
    (
      decode-encode 0 0 (slice_stable tokens) (omega arith) (omega arith) sorted
          (sort_onto-AllU32 [] tokens tt h),
      sorted,
      sort_onto-perm [] tokens,
    )
