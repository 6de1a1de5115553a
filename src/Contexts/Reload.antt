-- ===== src/Contexts/Reload.antt =====
-- What a second load of the contexts does to short names.
use circleci_yaml_language_s.Prelude.{
  ◌+◌, ◌≡◌, ◌≢◌, String, false, none, some, arith, Bool-cases, inl, inr, ap, sym, ◌∙◌,
}
use circleci_yaml_language_s.Contexts.{
  is_ambiguous_short_name, set_organization_context, get_organization_context, short_name,
}
use circleci_yaml_language_s.Contexts.Lookup.{
  get-set_organization_context_short, is_ambiguous-set_organization_context,
  get-set_organization_context_ambiguous,
}
use circleci_yaml_language_s.Contexts.Load.{Store, Item, add_new}
use circleci_yaml_language_s.Contexts.Indexed.{IsIndexed}

-- In an indexed store, two contexts of one name with a non-empty short name that is not ambiguous,
-- set one after the other as by two loads of one list, leave the short name leading nowhere.
pub add_new_twice :
    (o : String) (c c' : Item) (s : Store) (short : String)
    → IsIndexed s
    → c.name ≡ c'.name
    → short_name c.name ≡ some short
    → short ≢ ""
    → is_ambiguous_short_name s.cache o short ≡ false
    → get_organization_context (add_new o c' (add_new o c s)).cache o short ≡ none
unfolding add_new
add_new_twice o c c' s short inv same h n a =
    let first = s.cache in
    let second = set_organization_context first o s.next c.name in
    let h' : short_name c'.name ≡ some short = ap short_name (sym same) ∙ h in
    let found = get-set_organization_context_short first o s.next c.name short h n a in
    let mark = is_ambiguous-set_organization_context first o s.next c.name short h n a in
    elim (Bool-cases (is_ambiguous_short_name second o short)) [
      | inl amb ↦
          ground (
            arith,
            get-set_organization_context_ambiguous second o (s.next + 1) c'.name short h' amb,
          )
      | inr free ↦
          ground (
            arith,
            get-set_organization_context_short second o (s.next + 1) c'.name short h' n free,
          )
    ]
