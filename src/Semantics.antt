-- ===== src/Semantics.antt =====
-- `processTokens` of pkg/services/semantics.go: the semantic tokens in the relative encoding of the
-- protocol. `sort.SliceStable` is an insertion sort, which is stable as well.
pub mod RoundTrip
use circleci_yaml_language_s.Prelude.{
  ℕ, ◌+◌, ◌-◌, ◌%◌, Bool, List, [], ◌∷◌, ◌++◌, ◌==◌, nat_eq, ltb, if◌then◌else◌, u32,
}
use circleci_yaml_language_s.Position.{Position}

pub record Token : Type 0 where
  pub position : Position
  pub length : ℕ
  pub token_type : ℕ
  pub token_modifiers : ℕ

-- The less function that the sort is given.
unfoldable pub is_before : Token → Token → Bool
is_before a b =
    if a.position.line == b.position.line
    then ltb a.position.character b.position.character
    else ltb a.position.line b.position.line

unfoldable pub insert_token : Token → List Token → List Token
unfolding is_before
insert_token t [] = t ∷ []
insert_token t (u ∷ tokens) =
    let rest = insert_token t tokens in if is_before t u then t ∷ u ∷ tokens else u ∷ rest

-- Each token goes behind those that it is not before, so equal ones keep their order.
unfoldable pub sort_onto : List Token → List Token → List Token
unfolding insert_token
sort_onto sorted [] = sorted
sort_onto sorted (t ∷ tokens) = sort_onto (insert_token t sorted) tokens

unfoldable pub slice_stable : List Token → List Token
unfolding sort_onto
slice_stable = sort_onto []

-- `prev` and `processedTokens`
pub record Encoder : Type 0 where
  pub prev_line : ℕ
  pub prev_character : ℕ
  pub processed_tokens : List ℕ

-- The differences are uint32.
unfoldable pub process_token : Encoder → Token → Encoder
process_token e token = record {
  prev_line = token.position.line;
  prev_character = token.position.character;
  processed_tokens =
      e.processed_tokens
      ++ (token.position.line + u32 - e.prev_line) % u32
        ∷ (if token.position.line == e.prev_line
            then (token.position.character + u32 - e.prev_character) % u32
            else token.position.character)
        ∷ token.length
        ∷ token.token_type
        ∷ token.token_modifiers
        ∷ [];
}

unfoldable pub process_each : Encoder → List Token → Encoder
unfolding process_token
process_each e [] = e
process_each e (token ∷ tokens) = process_each (process_token e token) tokens

unfoldable pub process_tokens : List Token → List ℕ
unfolding process_each slice_stable
process_tokens tokens =
    (process_each (record { prev_line = 0; prev_character = 0; processed_tokens = [] })
      (slice_stable tokens)).processed_tokens
