-- ===== src/Text.antt =====
-- Texts as lists of bytes, and the pieces of Go's regular expressions that the matchers share.
use Prim.Native.Char.{code}
use Prim.Native.String.{◌++◌}
use circleci_yaml_language_s.Prelude.{
  leb, ltb, ℕ, suc, String, Bool, true, false, ◌||◌, ◌&&◌, contains, Option, none, some, List, [],
  ◌∷◌, ◌==◌, nat_eq, if◌then◌else◌, bytes_eq,
}

-- Concatenation of texts, beside the one of lists.
infixr 45 ◌+++◌
abbrev pub ◌+++◌ : String → String → String
s +++ t = s ++ t

-- strings.Join
abbrev pub join : String → List String → String
join separator [] = ""
join separator (s ∷ []) = s
join separator (s ∷ t ∷ texts) = s +++ separator +++ join separator (t ∷ texts)

-- The bytes of an ASCII text.
abbrev pub codes : String → List ℕ
codes String.[] = []
codes (String.◌∷◌ c s) = code c ∷ codes s

-- `\s` of Go's regular expressions
abbrev pub is_space : ℕ → Bool
is_space c = c == 32 || (c == 9 || (c == 10 || (c == 12 || c == 13)))

unfoldable pub skip_spaces : List ℕ → List ℕ
skip_spaces [] = []
skip_spaces (c ∷ text) = let rest = skip_spaces text in if is_space c then rest else c ∷ text

-- What follows `literal` at the front of the text.
unfoldable pub strip_prefix : List ℕ → List ℕ → Option (List ℕ)
strip_prefix [] text = some text
strip_prefix (l ∷ literal) [] = none
strip_prefix (l ∷ literal) (c ∷ text) =
    let rest = strip_prefix literal text in if c == l then rest else none

abbrev pub is_empty : List ℕ → Bool
is_empty [] = true
is_empty (_ ∷ _) = false

-- What follows one character, `.` in a regular expression, of a UTF-8 text.
-- The bytes behind the first of a character that is no ASCII, from the next character on.
abbrev drop_continuation : List ℕ → List ℕ
drop_continuation [] = []
drop_continuation (c ∷ text) =
    let rest = drop_continuation text in if leb 128 c && ltb c 192 then rest else c ∷ text

abbrev pub after_any : Option (List ℕ) → Option (List ℕ)
after_any none = none
after_any (some []) = none
after_any (some (c ∷ text)) =
    if c == b'\n' then none else if ltb c 192 then some text else some (drop_continuation text)

abbrev pub is_prefixed : List ℕ → List ℕ → Bool
is_prefixed literal text = elim (strip_prefix literal text) [ none ↦ false | some _ ↦ true ]

-- bytes.Index
unfoldable pub index_of : List ℕ → List ℕ → Option ℕ
unfolding strip_prefix
index_of needle [] = if is_empty needle then some 0 else none
index_of needle (c ∷ text) =
    let rest = index_of needle text in
    if is_prefixed needle (c ∷ text)
    then some 0
    else elim rest [ none ↦ none | some i ↦ some (suc i) ]

-- bytes.LastIndex
unfoldable pub last_index_of : List ℕ → List ℕ → Option ℕ
unfolding strip_prefix
last_index_of needle [] = if is_empty needle then some 0 else none
last_index_of needle (c ∷ text) = elim (last_index_of needle text) [
  | some i ↦ some (suc i)
  | none ↦ if is_prefixed needle (c ∷ text) then some 0 else none
]

-- strings.Trim with one byte to cut
unfoldable pub trim_left : ℕ → List ℕ → List ℕ
trim_left cut [] = []
trim_left cut (c ∷ text) = let rest = trim_left cut text in if c == cut then rest else c ∷ text

unfoldable pub trim_right : ℕ → List ℕ → List ℕ
trim_right cut [] = []
trim_right cut (c ∷ text) =
    let rest = trim_right cut text in if is_empty rest && c == cut then [] else c ∷ rest

unfoldable pub trim : ℕ → List ℕ → List ℕ
unfolding trim_left trim_right
trim cut text = trim_right cut (trim_left cut text)

-- The last part of strings.Split at one byte.
unfoldable pub last_part : ℕ → List ℕ → List ℕ
last_part separator [] = []
last_part separator (c ∷ text) =
    let rest = last_part separator text in
    if c == separator || contains text separator then rest else c ∷ text

-- A map of texts, read at the bytes of a key.
unfoldable pub lookup_text : {V : Type 0} → List ℕ → List (String × V) → Option V
lookup_text name [] = none
lookup_text name ((k, v) ∷ d) = if codes k == name then some v else lookup_text name d

-- strings.Split at one byte
unfoldable pub split : ℕ → String → List String
split separator String.[] = "" ∷ []
split separator (String.◌∷◌ c s) =
    let rest = split separator s in
    if code c == separator
    then "" ∷ rest
    else elim rest [ [] ↦ String.◌∷◌ c "" ∷ [] | part ∷ parts ↦ String.◌∷◌ c part ∷ parts ]

-- strings.CutPrefix
unfoldable pub cut_prefix : String → String → Option String
cut_prefix String.[] s = some s
cut_prefix (String.◌∷◌ p prefix) String.[] = none
cut_prefix (String.◌∷◌ p prefix) (String.◌∷◌ c s) =
    let rest = cut_prefix prefix s in if code p == code c then rest else none

-- strings.TrimPrefix
abbrev pub trim_prefix : String → String → String
trim_prefix s prefix = elim (cut_prefix prefix s) [ none ↦ s | some rest ↦ rest ]
