-- ===== src/Images/RoundTrip.antt =====
-- The parts of the name of a Docker image are read back.
use circleci_yaml_language_s.Prelude.{
  ◌≡◌, refl, ℕ, Bool, true, false, not, some, List, [], ◌∷◌, ◌++◌, arith, sym, ◌==◌, nat_eq,
  if◌then◌else◌, All, ap, ◌∙◌, bytes_eq,
}
use circleci_yaml_language_s.Text.{codes, is_empty}
use circleci_yaml_language_s.Parameters.Trimming.{append_nil}
use circleci_yaml_language_s.Images.{
  is_name, span, remove_alias, match_digest, match_tag, match_name, match_image,
  parse_docker_image_value,
}

-- The name as it is written: a namespace, a tag and a digest are left out where they are empty.
abbrev pub with_namespace : List ℕ → List ℕ → List ℕ
with_namespace [] text = text
with_namespace (c ∷ namespace) text = (c ∷ namespace) ++ b'/' ∷ text

abbrev pub print_tag : List ℕ → List ℕ
print_tag [] = []
print_tag (c ∷ tag) = b':' ∷ c ∷ tag

abbrev pub print_digest : List ℕ → List ℕ
print_digest [] = []
print_digest (c ∷ digest) = b'@' ∷ c ∷ digest

abbrev pub printed : (namespace name tag digest : List ℕ) → List ℕ
printed namespace name tag digest =
    with_namespace namespace (name ++ (print_tag tag ++ print_digest digest))

abbrev pub AllName : List ℕ → Type 0
AllName = All (λ c. is_name c ≡ true)

-- What follows is empty or starts with a byte that the test refuses.
abbrev Stops : (ℕ → Bool) → List ℕ → Type 0
Stops test [] = Unit
Stops test (c ∷ text) = test c ≡ false

span-append :
    (test : ℕ → Bool) (part rest : List ℕ)
    → All (λ c. test c ≡ true) part
    → Stops test rest
    → span test (part ++ rest) ≡ (part, rest)
unfolding span
span-append test [] [] all stops = refl
span-append test [] (c ∷ rest) all stops = rw (stops) refl
span-append test (c ∷ part) rest (h, all) stops = rw (h, span-append test part rest all stops) refl

abbrev pub no_break : ℕ → Bool
no_break b = not (b == b'\n')

abbrev pub no_at : ℕ → Bool
no_at b = not (b == b'@')

match_digest-print :
    (digest : List ℕ)
    → All (λ c. no_break c ≡ true) digest
    → match_digest (print_digest digest) ≡ some digest
unfolding match_digest
match_digest-print [] all = refl
match_digest-print (c ∷ digest) (h, all) =
    let whole : span no_break digest ≡ (digest, []) =
      ap (span no_break) (sym (append_nil digest)) ∙ span-append no_break digest [] all tt in
    rw (h, whole) (ground arith)

print_digest-Stops : (digest : List ℕ) → Stops no_at (print_digest digest)
print_digest-Stops [] = tt
print_digest-Stops (c ∷ digest) = ground arith

match_tag-print :
    (tag digest : List ℕ)
    → All (λ c. no_at c ≡ true) tag
    → All (λ c. no_break c ≡ true) digest
    → match_tag (print_tag tag ++ print_digest digest) ≡ some (tag, digest)
unfolding match_tag
match_tag-print [] [] plain line = refl
match_tag-print [] (d ∷ digest) plain line =
    let e = match_digest-print (d ∷ digest) line in ground (arith, e)
match_tag-print (c ∷ tag) digest (h, plain) line =
    let e = match_digest-print digest line in
    let parts = span-append no_at tag (print_digest digest) plain (print_digest-Stops digest) in
    rw (h, parts, e) (ground arith)

suffix-Stops : (tag digest : List ℕ) → Stops is_name (print_tag tag ++ print_digest digest)
suffix-Stops [] [] = tt
suffix-Stops [] (d ∷ digest) = ground arith
suffix-Stops (c ∷ tag) digest = ground arith

match_name-print :
    (name tag digest : List ℕ)
    → AllName name
    → is_empty name ≡ false
    → All (λ c. no_at c ≡ true) tag
    → All (λ c. no_break c ≡ true) digest
    → match_name (name ++ (print_tag tag ++ print_digest digest)) ≡ some (name, tag, digest)
unfolding match_name
match_name-print name tag digest named some_name plain line =
    let parts =
      span-append is_name name (print_tag tag ++ print_digest digest) named
        (suffix-Stops tag digest) in
    let tags = match_tag-print tag digest plain line in ground (arith, parts, some_name, tags)

match_image-print :
    (namespace name tag digest : List ℕ)
    → AllName namespace
    → AllName name
    → is_empty name ≡ false
    → All (λ c. no_at c ≡ true) tag
    → All (λ c. no_break c ≡ true) digest
    → match_image (printed namespace name tag digest) ≡ some (namespace, name, tag, digest)
unfolding match_image
match_image-print [] name [] [] _ named some_name plain line =
    let groups = match_name-print name [] [] named some_name plain line in
    let parts = span-append is_name name [] named tt in ground (arith, parts, groups)
match_image-print [] name [] (d ∷ digest) _ named some_name plain line =
    let groups = match_name-print name [] (d ∷ digest) named some_name plain line in
    let parts = span-append is_name name (b'@' ∷ d ∷ digest) named (ground arith) in
    ground (arith, parts, groups)
match_image-print [] name (t ∷ tag) digest _ named some_name plain line =
    let groups = match_name-print name (t ∷ tag) digest named some_name plain line in
    let parts =
      span-append is_name name (b':' ∷ t ∷ tag ++ print_digest digest) named (ground arith) in
    ground (arith, parts, groups)
match_image-print (c ∷ namespace) name tag digest spaced named some_name plain line =
    let rest = name ++ (print_tag tag ++ print_digest digest) in
    let groups = match_name-print name tag digest named some_name plain line in
    let parts = span-append is_name (c ∷ namespace) (b'/' ∷ rest) spaced (ground arith) in
    ground (arith, parts, groups)

-- A name character is no ampersand.
remove_alias-name : (c : ℕ) (text : List ℕ) → is_name c ≡ true → remove_alias (c ∷ text) ≡ c ∷ text
unfolding remove_alias
remove_alias-name c text h = let e : (c == b'&') ≡ false = ground (arith, h) in rw (e) refl

remove_alias-printed :
    (namespace name tag digest : List ℕ)
    → AllName namespace
    → AllName name
    → is_empty name ≡ false
    → remove_alias (printed namespace name tag digest) ≡ printed namespace name tag digest
remove_alias-printed [] [] tag digest _ _ some_name = absurd (ground (arith, some_name))
remove_alias-printed [] (c ∷ name) tag digest _ (h, _) _ =
    remove_alias-name c (name ++ (print_tag tag ++ print_digest digest)) h
remove_alias-printed (c ∷ namespace) name tag digest (h, _) _ _ =
    remove_alias-name c (namespace ++ b'/' ∷ (name ++ (print_tag tag ++ print_digest digest))) h

parse-groups :
    (value namespace name tag digest : List ℕ)
    → remove_alias value ≡ value
    → match_image value ≡ some (namespace, name, tag, digest)
    → parse_docker_image_value value ≡ record {
      namespace = if is_empty namespace then codes "library" else namespace;
      name = name;
      tag = tag;
      digest = digest;
      full_path = value;
    }
unfolding parse_docker_image_value
parse-groups value namespace name tag digest unaliased groups = ground (arith, unaliased, groups)

-- The parts of an image name are read back from its text: a namespace (or `library` where there is
-- none), a name, a tag and a digest, where namespace and name consist of the characters of names, the
-- name is not empty, the tag has no `@` and the digest no line break.
pub parse_docker_image_value-printed :
    (namespace name tag digest : List ℕ)
    → AllName namespace
    → AllName name
    → is_empty name ≡ false
    → All (λ c. no_at c ≡ true) tag
    → All (λ c. no_break c ≡ true) digest
    → parse_docker_image_value (printed namespace name tag digest) ≡ record {
      namespace = if is_empty namespace then codes "library" else namespace;
      name = name;
      tag = tag;
      digest = digest;
      full_path = printed namespace name tag digest;
    }
parse_docker_image_value-printed namespace name tag digest spaced named some_name plain line =
    parse-groups (printed namespace name tag digest) namespace name tag digest
      (remove_alias-printed namespace name tag digest spaced named some_name)
      (match_image-print namespace name tag digest spaced named some_name plain line)
