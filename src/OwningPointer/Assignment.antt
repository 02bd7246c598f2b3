-- ===== src/OwningPointer/Assignment.antt =====
-- include/cpp_playground/memory/owning_pointer.hpp: the move assignment, and runs of all calls.
use cpp_playground.OwningPointer.{
  OwningPointer, World, Command, constructing, moving, destroying, assigning_null, releasing,
  move_assigning, read_pointer, write_pointer, delete_object, move_from, move_assign, perform, run,
}
use cpp_playground.OwningPointer.Ownership.{
  log_of, owned, weight, adopted, Alive, Ready, read, write, logged, delete_object_lem, Done,
  constructing_lem, moving_lem, destroying_lem, assigning_null_lem, releasing_lem,
}
use mathlib.Core.Path.{subst}
use cpp_playground.Prelude.{
  [], ◌∷◌, refl, none, some, inl, inr, List, Option, Outcome, ℕ, ==-cases, object_at, returned, ◌≡◌,
  ◌≢◌, arith, eq→==, set, threw, total, ap, fault, get_or-set_ne, ne→==, ◌+◌, >>=-returned, ◌∙◌,
  sym, total-set, object_at-set_self,
}

-- Two writes at different addresses.
written :
    {A : Type 0} (xs : List (Option A)) (i j : ℕ) (a b x y : A)
    → i ≢ j
    → object_at xs i ≡ some x
    → object_at xs j ≡ some y
    → (object_at (set (set xs i (some a)) j (some b)) i ≡ some a)
      × (object_at (set xs i (some a)) j ≡ some y)
      × (object_at (set (set xs i (some a)) j (some b)) j ≡ some b)
      × ((k : ℕ)
          → i ≢ k
          → j ≢ k
          → object_at (set (set xs i (some a)) j (some b)) k ≡ object_at xs k)
written xs i j a b x y n e e' =
    let there = get_or-set_ne xs i j (some a) none n ∙ e' in
    (
      get_or-set_ne (set xs i (some a)) j i (some b) none (λ r. n (sym r))
          ∙ object_at-set_self xs i x (some a) e,
      there,
      object_at-set_self (set xs i (some a)) j y (some b) there,
      λ k m m'.
          get_or-set_ne (set xs i (some a)) j k (some b) none m'
          ∙ get_or-set_ne xs i k (some a) none m,
    )

module _ {D : Type 0} (moved : D → D) where
  -- What the move assignment leaves in `other`, with a pointer.
  abbrev pub left_with : OwningPointer D → Option ℕ → OwningPointer D
  left_with p ptr = record { m_deleter = moved p.m_deleter; m_ptr = ptr }

  move_from_lem :
      (s : World D) (this other : ℕ) (p q : OwningPointer D)
      → this ≢ other
      → object_at s.pointers this ≡ some q
      → object_at s.pointers other ≡ some p
      → (s' : World D) × (move_from moved this other s ≡ returned tt s')
        × (object_at s'.pointers this ≡ some p)
        × (object_at s'.pointers other ≡ some (left_with p none))
        × ((k : ℕ) → this ≢ k → other ≢ k → object_at s'.pointers k ≡ object_at s.pointers k)
        × (s'.deleted ≡ log_of p.m_deleter q.m_ptr s.deleted)
        × ((v : ℕ → ℕ) → weight v s' ≡ weight v s)
  unfolding move_from
  move_from_lem s this other p q n e e' =
      let q1 : OwningPointer D = record q { m_deleter = p.m_deleter } in
      let p1 = left_with p p.m_ptr in
      let ps1 = set s.pointers this (some q1) in
      let ps2 = set ps1 other (some p1) in
      let s2 = record s { pointers = ps2 } in
      let (here1, there1, other1, rest1) = written s.pointers this other q1 p1 q p n e e' in
      let (ran, points, weighs) = delete_object_lem p.m_deleter q.m_ptr s2 in
      let s3 = logged p.m_deleter q.m_ptr s2 in
      let e3 = ap (λ ps. object_at ps this) points ∙ here1 in
      let e3' = ap (λ ps. object_at ps other) points ∙ other1 in
      let ps4 = set s3.pointers this (some p) in
      let p2 = left_with p none in
      let (here2, there2, other2, rest2) = written s3.pointers this other p p2 q1 p1 n e3 e3' in
      (
        record s3 { pointers = set ps4 other (some p2) },
        >>=-returned (read_pointer this) _ (read s this q e)
            ∙ >>=-returned (read_pointer other) _ (read s other p e')
            ∙ >>=-returned (write_pointer this q1) _ (write s this q1 q e)
            ∙ >>=-returned (write_pointer other p1) _
                (write (record s { pointers = ps1 }) other p1 p there1)
            ∙ >>=-returned (delete_object p.m_deleter q.m_ptr) _ ran
            ∙ >>=-returned (write_pointer this p) _ (write s3 this p q1 e3)
            ∙ write (record s3 { pointers = ps4 }) other p2 p1 there2,
        here2,
        other2,
        (λ k m m'. rest2 k m m' ∙ ap (λ ps. object_at ps k) points ∙ rest1 k m m'),
        refl,
        λ v. omega (
          arith,
          weighs v,
          total-set (owned v) s.pointers this q (some q1) e,
          total-set (owned v) ps1 other p (some p1) there1,
          total-set (owned v) s3.pointers this q1 (some p) e3,
          total-set (owned v) ps4 other p1 (some p2) there2,
        ),
      )

  -- The move assignment of a pointer to itself changes nothing. Between two pointers that are
  -- alive, it returns: `*this` then has the pointer and the deleter of `other`, `other` has no
  -- pointer and what the move left of its deleter, no other pointer changes, and the object that
  -- `*this` had, if any, is deleted, by the deleter that `other` had.
  pub owning_move_assign_lem :
      (s : World D) (this other : ℕ) (p q : OwningPointer D)
      → object_at s.pointers this ≡ some q
      → object_at s.pointers other ≡ some p
      → this ≢ other
      → (move_assign moved this this s ≡ returned tt s)
        × ((s' : World D) × (move_assign moved this other s ≡ returned tt s')
            × (object_at s'.pointers this ≡ some p)
            × (object_at s'.pointers other ≡ some (left_with p none))
            × ((k : ℕ) → this ≢ k → other ≢ k → object_at s'.pointers k ≡ object_at s.pointers k)
            × (s'.deleted ≡ log_of p.m_deleter q.m_ptr s.deleted))
  unfolding move_assign
  owning_move_assign_lem s this other p q e e' n =
      let (s', ran, here, there, rest, log, weighs) = move_from_lem s this other p q n e e' in
      (rw (eq→== this this refl) refl, (s', rw (ne→== this other n) ran, here, there, rest, log))

  move_assigning_lem :
      (s : World D) (this other : ℕ)
      → Alive s this × Alive s other
      → Done moved s (move_assigning this other)
  unfolding perform move_assign
  move_assigning_lem s this other ((q, e), (p, e')) = elim (==-cases this other) [
    | inl (same, t) ↦ (s, rw t refl, λ v. omega arith)
    | inr (n, t) ↦
        let (s', ran, here, there, rest, log, weighs) = move_from_lem s this other p q n e e' in
        (s', rw t ran, λ v. omega (arith, weighs v))
  ]

  perform_lem : (s : World D) (c : Command D) → Ready s c → Done moved s c
  perform_lem s (constructing ptr deleter) ready = constructing_lem moved s ptr deleter
  perform_lem s (moving other) ready = moving_lem moved s other ready
  perform_lem s (destroying this) ready = destroying_lem moved s this ready
  perform_lem s (assigning_null this) ready = assigning_null_lem moved s this ready
  perform_lem s (releasing this) ready = releasing_lem moved s this ready
  perform_lem s (move_assigning this other) ready = move_assigning_lem s this other ready

  -- The state that an outcome leaves.
  abbrev left_in : World D → Outcome (World D) (Unit {0}) → World D
  left_in s (returned a s') = s'
  left_in s (threw e s') = s'
  left_in s fault = s

  -- The state after a call.
  unfoldable pub after : Command D → World D → World D
  after c s = left_in s (perform moved c s)

  -- The objects that the calls name are alive where the calls are made.
  unfoldable pub AllReady : World D → List (Command D) → Type 0
  unfolding after
  AllReady s [] = Unit {0}
  AllReady s (c ∷ cs) = Ready s c × AllReady (after c s) cs

  -- From every state, for every list of calls of the constructors, the destructor, both
  -- assignments and `release`, each on objects that are alive: the run returns, and the objects
  -- that are deleted, released or owned at the end are those that were so at the start and those
  -- that the calls adopted, each as often.
  pub owning_run_lem :
      (cs : List (Command D)) (s : World D)
      → AllReady s cs
      → (s' : World D) × (run moved cs s ≡ returned tt s')
        × ((v : ℕ → ℕ) → weight v s' ≡ total (adopted v) cs + weight v s)
  unfolding run AllReady after
  owning_run_lem [] s ready = (s, refl, λ v. omega arith)
  owning_run_lem (c ∷ cs) s (ready, rest) =
      let (s1, ran, kept) = perform_lem s c ready in
      let there : after c s ≡ s1 = rw (after, ran) refl in
      let (s2, ran2, kept2) = owning_run_lem cs s1 (subst (λ g. AllReady g cs) there rest) in
      (s2, >>=-returned (perform moved c) _ ran ∙ ran2, λ v. omega (arith, kept v, kept2 v))
