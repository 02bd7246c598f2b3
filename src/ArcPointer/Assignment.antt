-- ===== src/ArcPointer/Assignment.antt =====
-- include/cpp_playground/arc_pointer.hpp: what the assignments do to the counts.
use mathlib.Core.Path.{subst}
use cpp_playground.ArcPointer.{
  ArcPointer, Heap, copy_assigning, move_assigning, release_ref, read_pointer, write_pointer,
  copy_assign, move_assign, block_of, perform, get,
}
use cpp_playground.ArcPointer.Owners.{is_at, owns, owners, owners-positive}
use cpp_playground.ArcPointer.Counted.{Counted, release_ref_lem}
use cpp_playground.Prelude.{
  refl, none, some, inl, inr, ℕ, ◌≡◌, length, returned, ◌+◌, ◌<◌, arith, word_mod, ap, >>=-returned,
  ◌∙◌, Option, set, length-set, sym, Bool-cases, List, ==-cases, ◌==◌, get_or-set_ne, ◌≢◌,
  total-set, object_at-set_self, object_at,
}
use cpp_playground.ArcPointer.Steps.{Alive, Owning, Done, disowned, read, block, write, owned_block}
use cpp_playground.ArcPointer.Sharing.{sharing_lem}

-- After `*this` takes the members of `other`, `other` still has them.
pub still_there :
    (ps : List (Option ArcPointer)) (this other : ℕ) (p q : ArcPointer)
    → object_at ps this ≡ some q
    → object_at ps other ≡ some p
    → object_at (set ps this (some p)) other ≡ some p
still_there ps this other p q e' e = elim (==-cases this other) [
  | inl (same, _) ↦
      subst (λ k. object_at (set ps this (some p)) k ≡ some p) same
        (object_at-set_self ps this q (some p) e')
  | inr (n, _) ↦ get_or-set_ne ps this other (some p) none n ∙ e
]

module _ {D : Type 0} where
  pub copy_assigning_lem :
      (h : Heap D) (this other : ℕ)
      → Counted h
      → length h.pointers + 1 < word_mod
      → Owning h this × Owning h other
      → Done h (copy_assigning this other)
  unfolding perform copy_assign
  copy_assigning_lem h this other counted fits ((q, d, e', at'), (p, b, e, at)) =
      elim (Bool-cases (this == other)) [
        | inl t ↦ (h, rw t refl, counted, omega arith, λ w. omega arith)
        | inr t ↦
            let (h', ran, after, few, same) =
              sharing_lem h this b d p q counted fits (at, at')
                (owners-positive h.pointers other b p e at) e' in
            (
              h',
              rw t (
                  >>=-returned (read_pointer other) _ (read h other p e)
                  ∙ >>=-returned (read_pointer this) _ (read h this q e')
                  ∙ ran),
              after,
              few,
              λ w. omega (arith, same w),
            )
      ]

  -- The move assignment, after the release of the old control block.
  move_assigned :
      (h h1 : Heap D) (this other d : ℕ) (p q : ArcPointer)
      → object_at h.pointers this ≡ some q
      → q.m_control_block ≡ some d
      → object_at h.pointers other ≡ some p
      → release_ref d h ≡ returned tt h1
      → h1.pointers ≡ h.pointers
      → (object_at (set h1.pointers this (some p)) other ≡ some p)
        × (object_at h1.pointers this ≡ some q)
        × (move_assign this other h
            ≡ returned tt (record h1 {
              pointers = set (set h1.pointers this (some p)) other (some (disowned p));
            }))
  unfolding move_assign
  move_assigned h h1 this other d p q e' at' e released points =
      let e1 = ap (λ ps. object_at ps this) points ∙ e' in
      let e2 = ap (λ ps. object_at ps other) points ∙ e in
      let taken = set h1.pointers this (some p) in
      let e3 = still_there h1.pointers this other p q e1 e2 in
      (
        e3,
        e1,
        >>=-returned (read_pointer this) _ (read h this q e')
            ∙ >>=-returned (block_of q) _ (block h d q at')
            ∙ >>=-returned (release_ref d) _ released
            ∙ >>=-returned (read_pointer other) _ (read h1 other p e2)
            ∙ >>=-returned (write_pointer this (λ _. p)) _ (write h1 this (λ _. p) q e1)
            ∙ write (record h1 { pointers = taken }) other disowned p e3,
      )

  pub move_assigning_lem :
      (h : Heap D) (this other : ℕ)
      → Counted h
      → length h.pointers + 1 < word_mod
      → Owning h this × Alive h other
      → Done h (move_assigning this other)
  unfolding perform
  move_assigning_lem h this other counted fits ((q, d, e', at'), (p, e)) =
      let (c, there, few) = owned_block h this d q counted e' at' in
      let (h1, released, points, loses, shared, same) =
        release_ref_lem d c h there (omega arith) counted.shared in
      let taken = set h1.pointers this (some p) in
      let (e3, e1, ran) = move_assigned h h1 this other d p q e' at' e released points in
      (
        record h1 { pointers = set taken other (some (disowned p)) },
        ran,
        record {
          owned = λ j. omega (
            arith,
            loses j,
            counted.owned j,
            ap (is_at j) at',
            total-set (owns j) h1.pointers this q (some p) e1,
            total-set (owns j) taken other p (some (disowned p)) e3,
            ap (λ ps. owners ps j) points,
          );
          shared = shared;
        },
        omega (
          arith,
          length-set taken other (some (disowned p)),
          length-set h1.pointers this (some p),
          ap length points,
        ),
        (λ w. omega (arith, same w)),
      )

  -- On counted references, the move assignment to a pointer with a control block from another
  -- pointer returns, `*this` then has the pointer to the object that `other` had, and so has
  -- `other` still.
  pub move_assign-get :
      (h : Heap D) (this other d : ℕ) (p q : ArcPointer)
      → Counted h
      → length h.pointers < word_mod
      → this ≢ other
      → object_at h.pointers this ≡ some q
      → q.m_control_block ≡ some d
      → object_at h.pointers other ≡ some p
      → (h' : Heap D) × (move_assign this other h ≡ returned tt h')
        × (get this h' ≡ returned p.m_ptr h')
        × (get other h' ≡ returned p.m_ptr h')
  unfolding get
  move_assign-get h this other d p q counted fits differ e' at' e =
      let (c, there, few) = owned_block h this d q counted e' at' in
      let (h1, released, points, loses, shared, same) =
        release_ref_lem d c h there (omega arith) counted.shared in
      let taken = set h1.pointers this (some p) in
      let (e3, e1, ran) = move_assigned h h1 this other d p q e' at' e released points in
      let h' = record h1 { pointers = set taken other (some (disowned p)) } in
      (
        h',
        ran,
        >>=-returned (read_pointer this) _ (
            read h' this p (
              get_or-set_ne taken other this (some (disowned p)) none (λ r. differ (sym r))
              ∙ object_at-set_self h1.pointers this q (some p) e1)),
        >>=-returned (read_pointer other) _
            (read h' other (disowned p) (object_at-set_self taken other p (some (disowned p)) e3)),
      )
