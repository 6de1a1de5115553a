-- ===== src/Contexts/Names.antt =====
-- The names of contexts: `strings.LastIndex(name, "/")` and what stands behind that place.
use Prim.Native.Char.{code}
use Prim.Native.String.{[], ◌∷◌, ◌++◌}
use circleci_yaml_language_s.Prelude.{
  ℕ, suc, ◌<◌, ◌≡◌, ◌≢◌, String, Option, none, some, arith, if◌then◌else◌, ◌==◌, nat_eq, ap,
}

-- `name[i+1:]` for the last `/` at `i`; `none` where `LastIndex` is -1.
unfoldable pub short_name : String → Option String
short_name [] = none
short_name (c ∷ s) = elim (short_name s) [
  | some short ↦ some short
  | none ↦ if code c == b'/' then some s else none
]

-- organizationSlug + "/" + workflowContextName
unfoldable pub joined : String → String → String
joined slug name = slug ++ "/" ++ name

abbrev size : String → ℕ
size [] = 0
size (c ∷ s) = suc (size s)

size-short_name : (name short : String) → short_name name ≡ some short → size short < size name
unfolding short_name
size-short_name [] short h = ground arith
size-short_name (c ∷ s) short h = ground (arith, size-short_name s short)

-- The part behind the slash is another name.
pub short_name_ne : (name short : String) → short_name name ≡ some short → name ≢ short
short_name_ne name short h e = omega (arith, size-short_name name short h, ap size e)

pub short_name-short_name :
    (name short : String) → short_name name ≡ some short → short_name short ≡ none
unfolding short_name
short_name-short_name [] short h = ground arith
short_name-short_name (c ∷ s) short h = ground (arith, short_name-short_name s short)
