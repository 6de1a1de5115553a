-- ===== src/Cycles/Runs.antt =====
-- The loop of `isValidDAG` from its first state to its last, and the list that it returns.
use circleci_yaml_language_s.Prelude.{
  ℕ, zero, suc, ◌≤◌, ◌<◌, ◌≡◌, refl, String, Bool, true, false, some, none, List, [], ◌∷◌, ◌⊎◌, inl,
  inr, arith, length, contains, string_eq, List-cases, ap, subst, sym, ◌∙◌, ◌&&◌, not,
}
use circleci_yaml_language_s.Prelude.Dict.{Dict, lookup, insert, lookup-insert, IsMap}
use circleci_yaml_language_s.Cycles.{
  Graph, State, ℤ, is_zero, degree, flag, initial_queue, initial_visited, visit, loop, not_visited,
}
use circleci_yaml_language_s.Cycles.Loop.{work, popped, work-visit}

module _ (dag : Graph) where
  loop_ended : (fuel : ℕ) (s : State) → s.queue ≡ [] → loop fuel dag s ≡ some s
  unfolding loop
  loop_ended zero s h = ground arith
  loop_ended (suc fuel) s h = ground arith

  loop_stuck :
      (node : String) (rest : List String) (s : State)
      → s.queue ≡ node ∷ rest
      → loop zero dag s ≡ none
  unfolding loop
  loop_stuck node rest s h = ground arith

  loop_round :
      (fuel : ℕ) (node : String) (rest : List String) (s : State)
      → s.queue ≡ node ∷ rest
      → loop (suc fuel) dag s ≡ loop fuel dag (visit dag node (popped dag rest s))
  unfolding loop
  loop_round fuel node rest s h = ground arith

  module _ (Q : State → Type 0)
      (keep : (node : String) (rest : List String) (s : State)
        → s.queue ≡ node ∷ rest
        → Q s
        → Q (visit dag node (popped dag rest s))) where
    pub loop_ind :
        (fuel : ℕ) (s final : State)
        → loop fuel dag s ≡ some final
        → Q s
        → Q final × (final.queue ≡ [])
    loop_ind zero s final h qs = elim (List-cases s.queue) [
      | inl done ↦
          let same : s ≡ final = ground (arith, loop_ended zero s done) in
          (subst Q same qs, ground arith)
      | inr (node, rest, more) ↦ absurd (ground (arith, loop_stuck node rest s more))
    ]
    loop_ind (suc fuel) s final h qs = elim (List-cases s.queue) [
      | inl done ↦
          let same : s ≡ final = ground (arith, loop_ended (suc fuel) s done) in
          (subst Q same qs, ground arith)
      | inr (node, rest, more) ↦
          loop_ind fuel (visit dag node (popped dag rest s)) final
            (sym (loop_round fuel node rest s more) ∙ h) (keep node rest s more qs)
    ]

  pub loop_total :
      (fuel : ℕ) (s : State)
      → IsMap dag
      → work dag s < fuel
      → (final : State) × (loop fuel dag s ≡ some final)
  loop_total zero s unique h = absurd (omega arith)
  loop_total (suc fuel) s unique h = elim (List-cases s.queue) [
    | inl done ↦ (s, loop_ended (suc fuel) s done)
    | inr (node, rest, more) ↦
        let (final, e) =
          loop_total fuel (visit dag node (popped dag rest s)) unique
            (omega (arith, work-visit dag node rest s unique, ap (length {0}) more)) in
        (final, loop_round fuel node rest s more ∙ e)
  ]

pub contains-initial_queue :
    (d : Dict String ℤ) (l : List String) (x : String)
    → contains (initial_queue d l) x ≡ (contains l x && is_zero (degree d x))
unfolding initial_queue
contains-initial_queue d [] x = refl
contains-initial_queue d (y ∷ l) x = ground (arith, contains-initial_queue d l x)

pub length-initial_queue :
    (d : Dict String ℤ) (l : List String) → length (initial_queue d l) ≤ length l
unfolding initial_queue
length-initial_queue d [] = omega arith
length-initial_queue d (y ∷ l) = ground (arith, length-initial_queue d l)

pub flag-initial_visited :
    (l : List String) (visited : Dict String Bool) (x : String)
    → flag visited x ≡ false
    → flag (initial_visited l visited) x ≡ false
unfolding initial_visited
flag-initial_visited [] visited x h = h
flag-initial_visited (y ∷ l) visited x h =
    flag-initial_visited l (insert y false visited) x
      (ground (arith, lookup-insert x y false visited))

pub lookup-initial_visited :
    (l : List String) (visited : Dict String Bool) (x : String)
    → (contains l x ≡ true) ⊎ (lookup x visited ≡ some false)
    → flag visited x ≡ false
    → lookup x (initial_visited l visited) ≡ some false
unfolding initial_visited
lookup-initial_visited [] visited x h f = ground arith
lookup-initial_visited (y ∷ l) visited x h f =
    ground
      (arith, lookup-initial_visited l (insert y false visited) x, lookup-insert x y false visited)

pub contains_of-initial_visited :
    (l : List String) (visited : Dict String Bool) (x : String) (b : Bool)
    → lookup x (initial_visited l visited) ≡ some b
    → (contains l x ≡ true) ⊎ (lookup x visited ≡ some b)
unfolding initial_visited
contains_of-initial_visited [] visited x b h = inr h
contains_of-initial_visited (y ∷ l) visited x b h = ground (
  arith,
  contains_of-initial_visited l (insert y false visited) x b,
  lookup-insert x y false visited,
)

pub contains-not_visited :
    (visited : Dict String Bool) (l : List String) (x : String)
    → contains (not_visited visited l) x ≡ (contains l x && not (flag visited x))
unfolding not_visited
contains-not_visited visited [] x = refl
contains-not_visited visited (y ∷ l) x = ground (arith, contains-not_visited visited l x)
