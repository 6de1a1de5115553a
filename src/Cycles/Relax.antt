-- ===== src/Cycles/Relax.antt =====
-- The inner loop of `isValidDAG`: the children of one node lose an edge each.
use circleci_yaml_language_s.Prelude.{
  ℕ, ◌+◌, ◌≤◌, ◌<◌, ◌≡◌, refl, String, true, ◌&&◌, leb, List, [], ◌∷◌, ◌++◌, ◌⊎◌, inl, arith,
  length, count, contains, string_eq, ◌==◌, if◌then◌else◌, length-append,
}
use circleci_yaml_language_s.Prelude.Dict.{lookup-insert}
use circleci_yaml_language_s.Cycles.{
  State, pos, decrement, is_zero, degree, relax_child, relax_children,
}

contains-snoc :
    (l : List String) (c x : String)
    → contains (l ++ c ∷ []) x ≡ (if x == c then true else contains l x)
contains-snoc [] c x = ground arith
contains-snoc (y ∷ l) c x = ground (arith, contains-snoc l c x)

-- `m` is the count that will be left when all of the children have lost their edge.
abbrev pub Pending : (String → ℕ) → List String → State → Type 0
Pending m cs s = (x : String) → degree s.in_degree x ≡ pos (m x + count x cs)

module _ (m : String → ℕ) where
  Pending-relax_child :
      (c : String) (cs : List String) (s : State)
      → Pending m (c ∷ cs) s
      → Pending m cs (relax_child c s)
  unfolding relax_child decrement
  Pending-relax_child c cs s h x =
      ground (arith, h c, h x, lookup-insert x c (decrement (degree s.in_degree c)) s.in_degree)

  contains-relax_child :
      (c : String) (cs : List String) (s : State) (x : String)
      → Pending m (c ∷ cs) s
      → contains (relax_child c s).queue x
        ≡ (if x == c && leb (m c + count c cs) 0 then true else contains s.queue x)
  unfolding relax_child decrement is_zero
  contains-relax_child c cs s x h = ground (arith, h c, contains-snoc s.queue c x)

  pub Pending-relax_children :
      (cs : List String) (s : State) → Pending m cs s → Pending m [] (relax_children cs s)
  unfolding relax_children
  Pending-relax_children [] s h = h
  Pending-relax_children (c ∷ cs) s h =
      Pending-relax_children cs (relax_child c s) (Pending-relax_child c cs s h)

  -- A node in the queue afterwards was there, or has no edge left.
  pub contains-relax_children :
      (cs : List String) (s : State) (x : String)
      → Pending m cs s
      → contains (relax_children cs s).queue x ≡ true
      → (contains s.queue x ≡ true) ⊎ (m x ≡ 0)
  unfolding relax_children
  contains-relax_children [] s x h e = inl e
  contains-relax_children (c ∷ cs) s x h e = ground (
    arith,
    contains-relax_children cs (relax_child c s) x (Pending-relax_child c cs s h),
    contains-relax_child c cs s x h,
  )

  pub contains-relax_children_old :
      (cs : List String) (s : State) (x : String)
      → Pending m cs s
      → contains s.queue x ≡ true
      → contains (relax_children cs s).queue x ≡ true
  unfolding relax_children
  contains-relax_children_old [] s x h e = e
  contains-relax_children_old (c ∷ cs) s x h e = ground (
    arith,
    contains-relax_children_old cs (relax_child c s) x (Pending-relax_child c cs s h),
    contains-relax_child c cs s x h,
  )

  -- A child that has lost its last edge is in the queue afterwards.
  pub contains-relax_children_new :
      (cs : List String) (s : State) (x : String)
      → Pending m cs s
      → 0 < count x cs
      → m x ≡ 0
      → contains (relax_children cs s).queue x ≡ true
  unfolding relax_children
  contains-relax_children_new [] s x h p z = absurd (omega arith)
  contains-relax_children_new (c ∷ cs) s x h p z = ground (
    arith,
    contains-relax_children_new cs (relax_child c s) x (Pending-relax_child c cs s h),
    contains-relax_children_old cs (relax_child c s) x (Pending-relax_child c cs s h),
    contains-relax_child c cs s x h,
  )

pub visited-relax_children :
    (cs : List String) (s : State) → (relax_children cs s).visited ≡ s.visited
unfolding relax_children relax_child
visited-relax_children [] s = refl
visited-relax_children (c ∷ cs) s = visited-relax_children cs (relax_child c s)

pub length-relax_children :
    (cs : List String) (s : State) → length (relax_children cs s).queue ≤ length s.queue + length cs
unfolding relax_children relax_child
length-relax_children [] s = omega arith
length-relax_children (c ∷ cs) s =
    ground (arith, length-relax_children cs (relax_child c s), length-append s.queue (c ∷ []))
