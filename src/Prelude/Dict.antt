-- ===== src/Prelude/Dict.antt =====
-- Go's maps as association lists. The laws speak of lookups only; a loop over a map says itself
-- which order it assumes.
use mathlib.Core.Path.{◌≡◌, refl}
use mathlib.Core.Logic.{inl, inr}
use mathlib.Core.Bool.{true}
use mathlib.Core.Option.{Option, none, some}
use mathlib.Core.List.{List, [], ◌∷◌}
use native.Mathlib.Omega.{arith}
use circleci_yaml_language_s.Prelude.Tests.{Bool-cases, Eq, ◌==◌, if◌then◌else◌}
use circleci_yaml_language_s.Prelude.Lists.{contains}

abbrev pub Dict {ℓ κ} : Type ℓ → Type κ → Type (ℓ ⊔ κ)
Dict K V = List (K × V)

abbrev pub keys {ℓ κ} : {K : Type ℓ} {V : Type κ} → Dict K V → List K
keys [] = []
keys ((k, v) ∷ d) = k ∷ keys d

module _ {ℓ κ} {K : Type ℓ} {V : Type κ} ⦃e : Eq K⦄ where
  -- `v, ok := d[k]`
  unfoldable pub lookup : K → Dict K V → Option V
  lookup k [] = none
  lookup k ((j, v) ∷ d) = if k == j then some v else lookup k d

  -- `d[k] = v`
  unfoldable pub insert : K → V → Dict K V → Dict K V
  insert k v [] = (k, v) ∷ []
  insert k v ((j, w) ∷ d) = if k == j then (k, v) ∷ d else (j, w) ∷ insert k v d

  -- `delete(d, k)`
  unfoldable pub delete : K → Dict K V → Dict K V
  delete k [] = []
  delete k ((j, w) ∷ d) = let rest = delete k d in if k == j then rest else (j, w) ∷ rest

  pub lookup-nil : (k : K) → lookup k [] ≡ none
  unfolding lookup
  lookup-nil k = refl

  pub lookup-insert :
      (j k : K) (v : V) (d : Dict K V)
      → lookup j (insert k v d) ≡ (if j == k then some v else lookup j d)
  unfolding insert lookup
  lookup-insert j k v [] = ground arith
  lookup-insert j k v (_ ∷ d) = ground (arith, lookup-insert j k v d)

  pub lookup-delete :
      (j k : K) (d : Dict K V) → lookup j (delete k d) ≡ (if j == k then none else lookup j d)
  unfolding delete lookup
  lookup-delete j k [] = ground arith
  lookup-delete j k (_ ∷ d) = ground (arith, lookup-delete j k d)

pub ruleset dict_laws = (lookup-nil, lookup-insert, lookup-delete)

module _ {ℓ κ} {K : Type ℓ} {V : Type κ} ⦃e : Eq K⦄ where
  -- A map holds a key once.
  abbrev pub IsMap : Dict K V → Type κ
  IsMap [] = Unit
  IsMap ((k, _) ∷ d) = (lookup k d ≡ none) × IsMap d

  pub contains-keys_of_lookup :
      (k : K) (v : V) (d : Dict K V) → lookup k d ≡ some v → contains (keys d) k ≡ true
  unfolding lookup
  contains-keys_of_lookup k v [] h = ground arith
  contains-keys_of_lookup k v ((j, w) ∷ d) h = ground (arith, contains-keys_of_lookup k v d)

  pub lookup_of_contains-keys :
      (k : K) (d : Dict K V) → contains (keys d) k ≡ true → (v : V) × (lookup k d ≡ some v)
  unfolding lookup
  lookup_of_contains-keys k [] h = absurd (ground arith)
  lookup_of_contains-keys k ((j, w) ∷ d) h = elim (e.dec k j) [
    | yes p ↦ (w, ground arith)
    | no p ↦ let (v, q) = lookup_of_contains-keys k d (ground arith) in (v, ground arith)
  ]

  pub IsMap-insert : (k : K) (v : V) (d : Dict K V) → IsMap d → IsMap (insert k v d)
  unfolding insert lookup
  IsMap-insert k v [] m = (refl, tt)
  IsMap-insert k v ((j, w) ∷ d) (fresh, m) = elim (Bool-cases (k == j)) [
    | inl e ↦ rw e (ground arith, m)
    | inr e ↦ rw e (ground (arith, lookup-insert j k v d), IsMap-insert k v d m)
  ]
