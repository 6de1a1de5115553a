-- ===== src/Walk.antt =====
-- How a walk over the syntax tree of pkg/parser ends: with a value and the diagnostics that it adds
-- in their order (`addDiagnostic` of pkg/parser/yamlparser.go), with a panic of Go's runtime, or
-- not yet, since the fuel of its recursion is used up.
use circleci_yaml_language_s.Prelude.{
  ℕ, nat_eq, contains, arith, ◌≡◌, refl, Option, none, some, Bool, true, false, if◌then◌else◌, List,
  [], ◌∷◌, ◌++◌,
}
use circleci_yaml_language_s.Diagnostics.{Diagnostic}

pub data Walk {ℓ} (A : Type ℓ) : Type ℓ where
  done : A → List Diagnostic → Walk A
  panics : Walk A
  runs_on : Walk A

abbrev pub reporting {ℓ} : {A : Type ℓ} → List Diagnostic → Walk A → Walk A
reporting ds (done a es) = done a (ds ++ es)
reporting ds panics = panics
reporting ds runs_on = runs_on

infixl 5 ◌>>=◌ ◌>>◌
abbrev pub ◌>>=◌ {ℓ κ} : {A : Type ℓ} {B : Type κ} → Walk A → (A → Walk B) → Walk B
done a ds >>= f = reporting ds (f a)
panics >>= f = panics
runs_on >>= f = runs_on

abbrev pub ◌>>◌ {ℓ} : {B : Type ℓ} → Walk (Unit {0}) → Walk B → Walk B
m >> k = m >>= λ _. k

abbrev pub pure {ℓ} : {A : Type ℓ} → A → Walk A
pure a = done a []

-- What becomes of the value.
abbrev pub with_value {ℓ κ} : {A : Type ℓ} {B : Type κ} → (A → B) → Walk A → Walk B
with_value f m = m >>= λ a. pure (f a)

-- addDiagnostic
abbrev pub add_diagnostic : Diagnostic → Walk (Unit {0})
add_diagnostic diagnostic = done tt (diagnostic ∷ [])

-- A callback for each node, with the state that the callback writes.
abbrev pub fold {ℓ} : {N : Type 0} {S : Type ℓ} → (S → N → Walk S) → S → List N → Walk S
fold callback s [] = pure s
fold callback s (n ∷ nodes) = callback s n >>= λ s'. fold callback s' nodes

-- The walk returns.
abbrev pub IsDone {ℓ} : {A : Type ℓ} → Walk A → Type 0
IsDone (done a ds) = Unit
IsDone panics = ⊥
IsDone runs_on = ⊥

-- `P` of the value, if there is one.
abbrev pub Yields {ℓ κ} : {A : Type ℓ} → (A → Type κ) → Walk A → Type κ
Yields P (done a ds) = P a
Yields P panics = Unit
Yields P runs_on = Unit

-- The walk returns, with a value of which `P` holds.
abbrev pub Returns {ℓ} : {A : Type ℓ} → (A → Type 0) → Walk A → Type 0
Returns P (done a ds) = P a
Returns P panics = ⊥
Returns P runs_on = ⊥

pub Yields-Returns {ℓ} :
    {A : Type ℓ} (P : A → Type 0) (w : Walk A) → IsDone w → Yields P w → Returns P w
Yields-Returns P (done a ds) h p = p
Yields-Returns P panics h p = absurd h
Yields-Returns P runs_on h p = absurd h

IsDone-reporting {ℓ} :
    {A : Type ℓ} (ds : List Diagnostic) (w : Walk A) → IsDone w → IsDone (reporting ds w)
IsDone-reporting ds (done a es) h = tt
IsDone-reporting ds panics h = h
IsDone-reporting ds runs_on h = h

Yields-reporting {ℓ κ} :
    {A : Type ℓ} (P : A → Type κ) (ds : List Diagnostic) (w : Walk A)
    → Yields P w
    → Yields P (reporting ds w)
Yields-reporting P ds (done a es) h = h
Yields-reporting P ds panics h = tt
Yields-reporting P ds runs_on h = tt

-- A chain returns if its first walk does, and then the second one.
pub IsDone-bind {ℓ κ} :
    {A : Type ℓ} {B : Type κ} (m : Walk A) (f : A → Walk B)
    → IsDone m
    → ((a : A) (ds : List Diagnostic) → m ≡ done a ds → IsDone (f a))
    → IsDone (m >>= f)
IsDone-bind (done a ds) f h k = IsDone-reporting ds (f a) (k a ds refl)
IsDone-bind panics f h k = absurd h
IsDone-bind runs_on f h k = absurd h

pub Yields-bind {ℓ κ μ ν} :
    {A : Type ℓ} {B : Type κ} (P : A → Type μ) (Q : B → Type ν) (m : Walk A) (f : A → Walk B)
    → Yields P m
    → ((a : A) → P a → Yields Q (f a))
    → Yields Q (m >>= f)
Yields-bind P Q (done a ds) f p k = Yields-reporting Q ds (f a) (k a p)
Yields-bind P Q panics f p k = tt
Yields-bind P Q runs_on f p k = tt

-- Whatever the first walk's value is.
pub Yields-then {ℓ κ μ} :
    {A : Type ℓ} {B : Type κ} (Q : B → Type μ) (m : Walk A) (f : A → Walk B)
    → ((a : A) → Yields Q (f a))
    → Yields Q (m >>= f)
Yields-then Q (done a ds) f k = Yields-reporting Q ds (f a) (k a)
Yields-then Q panics f k = tt
Yields-then Q runs_on f k = tt

pub Yields-if {ℓ κ} :
    {A : Type ℓ} (P : A → Type κ) (b : Bool) (w v : Walk A)
    → Yields P w
    → Yields P v
    → Yields P (if b then w else v)
Yields-if P true w v h k = h
Yields-if P false w v h k = k

pub Yields-elim {ℓ κ μ} :
    {A : Type ℓ} {B : Type μ} (P : A → Type κ) (o : Option B) (w : Walk A) (f : B → Walk A)
    → Yields P w
    → ((b : B) → Yields P (f b))
    → Yields P (elim o [ none ↦ w | some b ↦ f b ])
Yields-elim P none w f h k = h
Yields-elim P (some b) w f h k = k b

-- The same, with what each case knows.
pub Yields-elim-at {ℓ κ μ} :
    {A : Type ℓ} {B : Type μ} (P : A → Type κ) (o : Option B) (w : Walk A) (f : B → Walk A)
    → (o ≡ none → Yields P w)
    → ((b : B) → o ≡ some b → Yields P (f b))
    → Yields P (elim o [ none ↦ w | some b ↦ f b ])
Yields-elim-at P none w f h k = h refl
Yields-elim-at P (some b) w f h k = k b refl

pub Yields-with_value {ℓ κ μ ν} :
    {A : Type ℓ} {B : Type κ} (P : A → Type μ) (Q : B → Type ν) (f : A → B) (m : Walk A)
    → Yields P m
    → ((a : A) → P a → Q (f a))
    → Yields Q (with_value f m)
Yields-with_value P Q f m p k = Yields-bind P Q m (λ a. pure (f a)) p k

pub Yields-fold {ℓ κ} :
    {N : Type 0} {S : Type ℓ} (P : S → Type κ) (callback : S → N → Walk S) (s : S) (nodes : List N)
    → P s
    → ((s : S) (n : N) → P s → Yields P (callback s n))
    → Yields P (fold callback s nodes)
Yields-fold P callback s [] p keep = p
Yields-fold P callback s (n ∷ nodes) p keep =
    Yields-bind P P (callback s n) (λ s'. fold callback s' nodes) (keep s n p)
      (λ s' p'. Yields-fold P callback s' nodes p' keep)

pub IsDone-fold {ℓ} :
    {S : Type ℓ} (callback : S → ℕ → Walk S) (s : S) (nodes : List ℕ)
    → ((s : S) (n : ℕ) → contains nodes n ≡ true → IsDone (callback s n))
    → IsDone (fold callback s nodes)
IsDone-fold callback s [] h = tt
IsDone-fold callback s (n ∷ nodes) h =
    IsDone-bind (callback s n) (λ s'. fold callback s' nodes) (h s n (ground arith))
      λ s' ds e. IsDone-fold callback s' nodes (λ t m k. h t m (ground (arith, k)))

pub IsDone-if {ℓ} :
    {A : Type ℓ} (b : Bool) (w v : Walk A) → IsDone w → IsDone v → IsDone (if b then w else v)
IsDone-if true w v h k = h
IsDone-if false w v h k = k

pub IsDone-elim {ℓ κ} :
    {A : Type ℓ} {B : Type κ} (o : Option B) (w : Walk A) (f : B → Walk A)
    → IsDone w
    → ((b : B) → IsDone (f b))
    → IsDone (elim o [ none ↦ w | some b ↦ f b ])
IsDone-elim none w f h k = h
IsDone-elim (some b) w f h k = k b

pub IsDone-with_value {ℓ κ} :
    {A : Type ℓ} {B : Type κ} (f : A → B) (m : Walk A) → IsDone m → IsDone (with_value f m)
IsDone-with_value f m h = IsDone-bind m (λ a. pure (f a)) h (λ a ds e. tt)
