-- ===== src/Cycles/Degrees.antt =====
-- The in-degrees of pkg/parser/validate/cycles.go count edges.
use circleci_yaml_language_s.Prelude.{
  ℕ, ◌+◌, ◌<◌, ◌≡◌, refl, String, Bool, true, false, none, some, List, [], ◌∷◌, inl, inr, arith,
  length, count, contains, string_eq, ◌==◌, if◌then◌else◌, string_dec, Bool-cases, Option-cases,
}
use circleci_yaml_language_s.Prelude.Dict.{
  Dict, keys, lookup, insert, lookup-nil, lookup-insert, IsMap, contains-keys_of_lookup,
}
use circleci_yaml_language_s.Cycles.{
  Graph, ℤ, pos, increment, degree, children, init_degrees, count_children, count_edges, degrees,
  edges_left,
}

-- The edges into `x` from the nodes that are not seen.
abbrev pub edges_into : (String → Bool) → Graph → String → ℕ
edges_into seen [] x = 0
edges_into seen ((node, cs) ∷ dag) x = (if seen node then 0 else count x cs) + edges_into seen dag x

abbrev pub mark : String → (String → Bool) → String → Bool
mark node seen x = if x == node then true else seen x

degree-init_degrees :
    (dag : Graph) (d : Dict String ℤ) (x : String)
    → degree d x ≡ pos 0
    → degree (init_degrees dag d) x ≡ pos 0
unfolding init_degrees
degree-init_degrees [] d x h = h
degree-init_degrees ((node, _) ∷ dag) d x h =
    degree-init_degrees dag (insert node (pos 0) d) x
      (ground (arith, lookup-insert x node (pos 0) d))

degree-count_child :
    (c : String) (d : Dict String ℤ) (m : String → ℕ) (x : String)
    → ((y : String) → degree d y ≡ pos (m y))
    → degree (insert c (increment (degree d c)) d) x ≡ pos (m x + (if x == c then 1 else 0))
unfolding increment
degree-count_child c d m x h =
    ground (arith, lookup-insert x c (increment (degree d c)) d, h c, h x)

degree-count_children :
    (cs : List String) (d : Dict String ℤ) (m : String → ℕ) (x : String)
    → ((y : String) → degree d y ≡ pos (m y))
    → degree (count_children cs d) x ≡ pos (m x + count x cs)
unfolding count_children
degree-count_children [] d m x h = ground (arith, h x)
degree-count_children (c ∷ cs) d m x h = ground (
  arith,
  degree-count_children cs (insert c (increment (degree d c)) d)
      (λ y. m y + (if y == c then 1 else 0)) x (λ y. degree-count_child c d m y h),
)

degree-count_edges :
    (dag : Graph) (d : Dict String ℤ) (m : String → ℕ) (x : String)
    → ((y : String) → degree d y ≡ pos (m y))
    → degree (count_edges dag d) x ≡ pos (m x + edges_into (λ _. false) dag x)
unfolding count_edges
degree-count_edges [] d m x h = ground (arith, h x)
degree-count_edges ((_, cs) ∷ dag) d m x h = ground (
  arith,
  degree-count_edges dag (count_children cs d) (λ y. m y + count y cs) x
      (λ y. degree-count_children cs d m y h),
)

-- Before the loop the in-degree of a node is the number of edges into it.
pub degree-degrees :
    (dag : Graph) (x : String) → degree (degrees dag) x ≡ pos (edges_into (λ _. false) dag x)
degree-degrees dag x = ground (
  arith,
  degree-count_edges dag (init_degrees dag []) (λ _. 0) x
      (λ y. degree-init_degrees dag [] y (ground (arith, lookup-nil {V = ℤ} y))),
)

module _ (seen : String → Bool) (node : String) where
  edges_into-mark_absent :
      (dag : Graph) (x : String)
      → lookup node dag ≡ none
      → edges_into (mark node seen) dag x ≡ edges_into seen dag x
  unfolding lookup
  edges_into-mark_absent [] x h = refl
  edges_into-mark_absent ((n, cs) ∷ dag) x h = ground (arith, edges_into-mark_absent dag x)

  -- To mark an unseen node takes its edges away.
  pub edges_into-mark :
      (dag : Graph) (x : String)
      → IsMap dag
      → seen node ≡ false
      → edges_into seen dag x ≡ edges_into (mark node seen) dag x + count x (children dag node)
  unfolding lookup
  edges_into-mark [] x u h = omega arith
  edges_into-mark ((n, cs) ∷ dag) x u h =
      ground (arith, edges_into-mark_absent dag x, edges_into-mark dag x)

  edges_left-mark_absent :
      (dag : Graph) → lookup node dag ≡ none → edges_left (mark node seen) dag ≡ edges_left seen dag
  unfolding lookup
  edges_left-mark_absent [] h = refl
  edges_left-mark_absent ((n, cs) ∷ dag) h = ground (arith, edges_left-mark_absent dag)

  pub edges_left-mark :
      (dag : Graph)
      → IsMap dag
      → seen node ≡ false
      → edges_left seen dag ≡ edges_left (mark node seen) dag + length (children dag node)
  unfolding lookup
  edges_left-mark [] u h = omega arith
  edges_left-mark ((n, cs) ∷ dag) u h =
      ground (arith, edges_left-mark_absent dag, edges_left-mark dag)

pub count-pos_of_contains : (x : String) (cs : List String) → contains cs x ≡ true → 0 < count x cs
count-pos_of_contains x [] h = ground arith
count-pos_of_contains x (c ∷ cs) h = ground (arith, count-pos_of_contains x cs)

pub contains_of_count-pos : (x : String) (cs : List String) → 0 < count x cs → contains cs x ≡ true
contains_of_count-pos x [] h = absurd (omega arith)
contains_of_count-pos x (c ∷ cs) h = ground (arith, contains_of_count-pos x cs)

-- An edge from an unseen node counts.
pub edges_into-pos :
    (seen : String → Bool) (dag : Graph) (p x : String)
    → seen p ≡ false
    → contains (children dag p) x ≡ true
    → 0 < edges_into seen dag x
unfolding lookup
edges_into-pos seen [] p x h e = ground arith
edges_into-pos seen ((n, cs) ∷ dag) p x h e =
    ground (arith, edges_into-pos seen dag p x, count-pos_of_contains x cs)

pub record Source (seen : String → Bool) (dag : Graph) (x : String) : Type 0 where
  pub node : String
  pub unseen : seen node ≡ false
  pub edge : contains (children dag node) x ≡ true

Source-cons :
    {seen : String → Bool} (n : String) (cs : List String) {dag : Graph} {x : String}
    → IsMap ((n, cs) ∷ dag)
    → Source seen dag x
    → Source seen ((n, cs) ∷ dag) x
unfolding lookup
Source-cons n cs u s = record { node = s.node; unseen = s.unseen; edge = ground arith }

-- Where edges are left, one of them comes from an unseen node.
pub Source-edges_into :
    (seen : String → Bool) (dag : Graph) (x : String)
    → IsMap dag
    → 0 < edges_into seen dag x
    → Source seen dag x
unfolding lookup
Source-edges_into seen [] x u h = absurd (omega arith)
Source-edges_into seen ((n, cs) ∷ dag) x u h = elim (Bool-cases (seen n)) [
  | inl old ↦ Source-cons n cs u (Source-edges_into seen dag x u.1 (ground arith))
  | inr new ↦ elim (Bool-cases (contains cs x)) [
    | inl here ↦ record { node = n; unseen = new; edge = ground arith }
    | inr there ↦
        let none_here : count x cs ≡ 0 = ground (arith, contains_of_count-pos x cs) in
        Source-cons n cs u (Source-edges_into seen dag x u.1 (ground arith))
  ]
]

abbrev IsKey : Dict String ℤ → String → Type 0
IsKey d x = (v : ℤ) × (lookup x d ≡ some v)

IsKey-insert : (d : Dict String ℤ) (y x : String) (w : ℤ) → IsKey d x → IsKey (insert y w d) x
IsKey-insert d y x w (v, h) = (if x == y then w else v, ground (arith, lookup-insert x y w d))

IsKey-init_degrees :
    (dag : Graph) (d : Dict String ℤ) (x : String) → IsKey d x → IsKey (init_degrees dag d) x
unfolding init_degrees
IsKey-init_degrees [] d x h = h
IsKey-init_degrees ((n, _) ∷ dag) d x h =
    IsKey-init_degrees dag (insert n (pos 0) d) x (IsKey-insert d n x (pos 0) h)

IsKey-init_degrees_new :
    (dag : Graph) (d : Dict String ℤ) (x : String) (cs : List String)
    → lookup x dag ≡ some cs
    → IsKey (init_degrees dag d) x
unfolding init_degrees lookup
IsKey-init_degrees_new [] d x cs h = absurd (ground arith)
IsKey-init_degrees_new ((n, ns) ∷ dag) d x cs h = elim (string_dec x n) [
  | yes p ↦
      IsKey-init_degrees dag (insert n (pos 0) d) x
        (pos 0, ground (arith, lookup-insert x n (pos 0) d))
  | no p ↦ IsKey-init_degrees_new dag (insert n (pos 0) d) x cs (ground arith)
]

IsKey-count_children :
    (cs : List String) (d : Dict String ℤ) (x : String) → IsKey d x → IsKey (count_children cs d) x
unfolding count_children
IsKey-count_children [] d x h = h
IsKey-count_children (c ∷ cs) d x h =
    IsKey-count_children cs (insert c (increment (degree d c)) d) x
      (IsKey-insert d c x (increment (degree d c)) h)

IsKey-count_edges :
    (dag : Graph) (d : Dict String ℤ) (x : String) → IsKey d x → IsKey (count_edges dag d) x
unfolding count_edges
IsKey-count_edges [] d x h = h
IsKey-count_edges ((_, cs) ∷ dag) d x h =
    IsKey-count_edges dag (count_children cs d) x (IsKey-count_children cs d x h)

-- A node with an edge is among the keys, and so is a node that an edge leads to.
pub contains-keys-degrees_from :
    (dag : Graph) (p x : String)
    → contains (children dag p) x ≡ true
    → contains (keys (degrees dag)) p ≡ true
contains-keys-degrees_from dag p x h = elim (Option-cases (lookup p dag)) [
  | inl absent ↦ absurd (ground arith)
  | inr (cs, found) ↦
      let (v, e) =
        IsKey-count_edges dag (init_degrees dag []) p (IsKey-init_degrees_new dag [] p cs found) in
      contains-keys_of_lookup p v (degrees dag) e
]

pub contains-keys-degrees_to :
    (dag : Graph) (p x : String)
    → contains (children dag p) x ≡ true
    → contains (keys (degrees dag)) x ≡ true
contains-keys-degrees_to dag p x h = elim (Option-cases (lookup x (degrees dag))) [
  | inl absent ↦
      absurd (ground (arith, degree-degrees dag x, edges_into-pos (λ _. false) dag p x refl h))
  | inr (v, e) ↦ contains-keys_of_lookup x v (degrees dag) e
]
