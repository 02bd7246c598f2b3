-- ===== src/ArcPointer/Sharing.antt =====
-- include/cpp_playground/arc_pointer.hpp: the copy assignment between two objects.
use cpp_playground.ArcPointer.{
  ControlBlock, ArcPointer, Heap, add_ref, release_ref, share_block, block_of, same_block,
}
use cpp_playground.ArcPointer.Owners.{
  references, count_of, is_at, owns, owners, owners-positive, owners-le, is_at-le,
}
use cpp_playground.ArcPointer.Counted.{Counted, SameWeight, add_ref_lem, release_ref_lem, Shared}
use cpp_playground.Prelude.{
  refl, some, inl, inr, ℕ, ◌≡◌, length, returned, ◌≤◌, ◌+◌, Option-cases, ◌<◌, arith, word_mod, ap,
  >>=-returned, ◌∙◌, set, length-set, sym, Bool-cases, false, total-set, object_at,
}
use cpp_playground.ArcPointer.Steps.{block, write}

module _ {D : Type 0} where
  counted_block :
      (h : Heap D) (b : ℕ)
      → 0 < references h.blocks b
      → (c : ControlBlock D) × (object_at h.blocks b ≡ some c)
        × (c.m_num_shared ≡ references h.blocks b)
  counted_block h b some_left = elim (Option-cases (object_at h.blocks b)) [
    | inl dead ↦ absurd (omega (arith, ap count_of dead))
    | inr (c, there) ↦ (c, there, sym (ap count_of there))
  ]

  -- One owner more of the control block at `b`, and one less of that at `d`.
  Exchanged : ℕ → ℕ → Heap D → Heap D → Type 0
  Exchanged b d h h2 =
      (h1 : Heap D) × (add_ref b h ≡ returned tt h1)
      × (release_ref d h1 ≡ returned tt h2)
      × (h2.pointers ≡ h.pointers)
      × ((j : ℕ)
          → references h2.blocks j + is_at j (some d) ≡ references h.blocks j + is_at j (some b))
      × Shared h2
      × SameWeight h h2

  exchange_lem :
      (h : Heap D) (b d : ℕ)
      → Counted h
      → length h.pointers + 1 < word_mod
      → 0 < owners h.pointers b
      → 0 < owners h.pointers d
      → (h2 : Heap D) × Exchanged b d h h2
  unfolding Exchanged
  exchange_lem h b d counted fits some_owner mine =
      let (c, there, count) = counted_block h b (omega (arith, counted.owned b)) in
      let (h1, added, points1, gains, shared1, same1) =
        add_ref_lem b c h there (omega (arith, counted.owned b, owners-le h.pointers b))
          counted.shared in
      let (c', there', count') = counted_block h1 d (omega (arith, gains d, counted.owned d)) in
      let few : c'.m_num_shared < word_mod =
        omega (arith, gains d, counted.owned d, is_at-le d (some b), owners-le h.pointers d) in
      let (h2, released, points2, loses, shared2, same2) =
        release_ref_lem d c' h1 there' few shared1 in
      (
        h2,
        (
          h1,
          added,
          released,
          points2 ∙ points1,
          (λ j. loses j ∙ gains j),
          shared2,
          (λ w. same2 w ∙ same1 w),
        ),
      )

  -- The rest of the copy assignment, when the control blocks differ.
  exchanged_lem :
      (h h2 : Heap D) (this b d : ℕ) (p q : ArcPointer)
      → Counted h
      → p.m_control_block ≡ some b
      → q.m_control_block ≡ some d
      → object_at h.pointers this ≡ some q
      → same_block p.m_control_block q.m_control_block ≡ false
      → Exchanged b d h h2
      → (h' : Heap D) × (share_block this p q h ≡ returned tt h')
        × Counted h'
        × (length h'.pointers ≤ length h.pointers + 1)
        × SameWeight h h'
  unfolding share_block Exchanged
  exchanged_lem h h2 this b d p q counted at at' e t
        (h1, added, released, points, balance, shared, same) =
      (
        record h2 { pointers = set h2.pointers this (some p) },
        rw t (
            >>=-returned (block_of p) _ (block h b p at)
            ∙ >>=-returned (add_ref b) _ added
            ∙ >>=-returned (block_of q) _ (block h1 d q at')
            ∙ >>=-returned (release_ref d) _ released
            ∙ write h2 this (λ _. p) q (ap (λ ps. object_at ps this) points ∙ e)),
        record {
          owned = λ j. omega (
            arith,
            balance j,
            counted.owned j,
            ap (is_at j) at,
            ap (is_at j) at',
            total-set (owns j) h.pointers this q (some p) e,
            ap (λ ps. owners (set ps this (some p)) j) points,
          );
          shared = shared;
        },
        omega (arith, length-set h2.pointers this (some p), ap length points),
        same,
      )

  pub sharing_lem :
      (h : Heap D) (this b d : ℕ) (p q : ArcPointer)
      → Counted h
      → length h.pointers + 1 < word_mod
      → (p.m_control_block ≡ some b) × (q.m_control_block ≡ some d)
      → 0 < owners h.pointers b
      → object_at h.pointers this ≡ some q
      → (h' : Heap D) × (share_block this p q h ≡ returned tt h')
        × Counted h'
        × (length h'.pointers ≤ length h.pointers + 1)
        × SameWeight h h'
  unfolding share_block
  sharing_lem h this b d p q counted fits (at, at') some_owner e =
      elim (Bool-cases (same_block p.m_control_block q.m_control_block)) [
        | inl t ↦ (h, rw t refl, counted, omega arith, λ w. refl)
        | inr t ↦
            let mine = owners-positive h.pointers this d q e at' in
            let (h2, exchanged) = exchange_lem h b d counted fits some_owner mine in
            exchanged_lem h h2 this b d p q counted at at' e t exchanged
      ]
