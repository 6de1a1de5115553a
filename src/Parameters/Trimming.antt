-- ===== src/Parameters/Trimming.antt =====
-- Trimming of texts, for Parameters.References.
use circleci_yaml_language_s.Prelude.{
  ℕ, ◌≡◌, refl, ap, true, false, List, [], ◌∷◌, ◌++◌, ◌==◌, nat_eq, arith, All, contains,
}
use circleci_yaml_language_s.Text.{is_space, is_empty, trim_left, trim_right, last_part}
use circleci_yaml_language_s.Parameters.{is_word}

abbrev pub AllSpace : List ℕ → Type 0
AllSpace = All (λ c. is_space c ≡ true)

abbrev pub AllWord : List ℕ → Type 0
AllWord = All (λ c. is_word c ≡ true)

abbrev pub AllBut : ℕ → List ℕ → Type 0
AllBut cut = All (λ c. (c == cut) ≡ false)

abbrev pub AllBlank : List ℕ → Type 0
AllBlank = All (λ c. (c == b' ') ≡ true)

-- Trimming.

pub trim_left-AllBut :
    (cut : ℕ) (xs t : List ℕ)
    → AllBut cut xs
    → is_empty xs ≡ false
    → trim_left cut (xs ++ t) ≡ xs ++ t
unfolding trim_left
trim_left-AllBut cut [] t h e = absurd (ground arith)
trim_left-AllBut cut (x ∷ xs) t (h, hx) e = ground (arith, h)

pub trim_left-same :
    (cut : ℕ) (ws t : List ℕ)
    → All (λ c. (c == cut) ≡ true) ws
    → trim_left cut (ws ++ t) ≡ trim_left cut t
unfolding trim_left
trim_left-same cut [] t h = refl
trim_left-same cut (w ∷ ws) t (h, hw) = ground (arith, h, trim_left-same cut ws t hw)

pub trim_right-AllBut : (cut : ℕ) (xs : List ℕ) → AllBut cut xs → trim_right cut xs ≡ xs
unfolding trim_right
trim_right-AllBut cut [] h = refl
trim_right-AllBut cut (x ∷ xs) (h, hx) = ground (arith, h, trim_right-AllBut cut xs hx)

pub trim_right-same :
    (cut : ℕ) (xs ws : List ℕ)
    → All (λ c. (c == cut) ≡ true) ws
    → trim_right cut (xs ++ ws) ≡ trim_right cut xs
unfolding trim_right
trim_right-same cut [] [] h = refl
trim_right-same cut [] (w ∷ ws) (h, hw) = ground (arith, h, trim_right-same cut [] ws hw)
trim_right-same cut (x ∷ xs) ws h = ground (arith, trim_right-same cut xs ws h)

pub contains-middle :
    (separator : ℕ) (xs name : List ℕ) → contains (xs ++ separator ∷ name) separator ≡ true
contains-middle separator [] name = ground arith
contains-middle separator (x ∷ xs) name = ground (arith, contains-middle separator xs name)

pub last_part-append :
    (separator : ℕ) (xs name : List ℕ)
    → contains name separator ≡ false
    → last_part separator (xs ++ separator ∷ name) ≡ name
unfolding last_part
last_part-append separator [] [] h = ground arith
last_part-append separator [] (c ∷ name) h = ground (arith, h)
last_part-append separator (x ∷ xs) name h =
    ground (arith, last_part-append separator xs name h, contains-middle separator xs name)

pub contains-AllBut : (cut : ℕ) (xs : List ℕ) → AllBut cut xs → contains xs cut ≡ false
contains-AllBut cut [] h = refl
contains-AllBut cut (c ∷ xs) (h, hx) = ground (arith, h, contains-AllBut cut xs hx)

pub append_nil : (xs : List ℕ) → xs ++ [] ≡ xs
append_nil [] = refl
append_nil (x ∷ xs) = ap (◌∷◌ x) (append_nil xs)

pub is_empty-append : (before t : List ℕ) → is_empty t ≡ false → is_empty (before ++ t) ≡ false
is_empty-append [] t h = h
is_empty-append (c ∷ before) t h = refl
