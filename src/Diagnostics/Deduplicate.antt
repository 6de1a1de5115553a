-- ===== src/Diagnostics/Deduplicate.antt =====
-- `deduplicateDiagnosticsByRange` keeps the first diagnostic of each key.
use circleci_yaml_language_s.Prelude.{
  ◌≡◌, refl, String, false, List, [], ◌∷◌, arith, contains, string_eq, ◌==◌, if◌then◌else◌, count,
}
use circleci_yaml_language_s.Diagnostics.{
  Diagnostic, deduplicate_from, deduplicate_diagnostics_by_range,
}

module _ (key : Diagnostic → String) where
  -- The keys of `ds`.
  abbrev pub keys_of : List Diagnostic → List String
  keys_of [] = []
  keys_of (d ∷ ds) = key d ∷ keys_of ds

  count-keys-deduplicate_from :
      (seen : List String) (ds : List Diagnostic) (k : String)
      → count k (keys_of (deduplicate_from key seen ds))
        ≡ (if contains seen k then 0 else if contains (keys_of ds) k then 1 else 0)
  unfolding deduplicate_from
  count-keys-deduplicate_from seen [] k = ground arith
  count-keys-deduplicate_from seen (d ∷ ds) k = ground (
    arith,
    count-keys-deduplicate_from seen ds k,
    count-keys-deduplicate_from (key d ∷ seen) ds k,
  )

  -- The first diagnostic of a key.
  abbrev pub first_of_key : String → List Diagnostic → List Diagnostic
  first_of_key k [] = []
  first_of_key k (d ∷ ds) = if k == key d then d ∷ [] else first_of_key k ds

  first_of_key-deduplicate_from :
      (seen : List String) (ds : List Diagnostic) (k : String)
      → contains seen k ≡ false
      → first_of_key k (deduplicate_from key seen ds) ≡ first_of_key k ds
  unfolding deduplicate_from
  first_of_key-deduplicate_from seen [] k h = refl
  first_of_key-deduplicate_from seen (d ∷ ds) k h = ground (
    arith,
    first_of_key-deduplicate_from seen ds k,
    first_of_key-deduplicate_from (key d ∷ seen) ds k,
  )

  -- Each key that occurs is kept once, no other is, and the diagnostic that is kept for a key is
  -- the first one of that key.
  pub deduplicate_diagnostics_by_range_lem :
      (ds : List Diagnostic) (k : String)
      → (count k (keys_of (deduplicate_diagnostics_by_range key ds))
          ≡ (if contains (keys_of ds) k then 1 else 0))
        × (first_of_key k (deduplicate_diagnostics_by_range key ds) ≡ first_of_key k ds)
  unfolding deduplicate_diagnostics_by_range
  deduplicate_diagnostics_by_range_lem ds k =
      (count-keys-deduplicate_from [] ds k, first_of_key-deduplicate_from [] ds k refl)
