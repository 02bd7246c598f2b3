-- ===== src/ArcPointer/Counted.antt =====
-- include/cpp_playground/arc_pointer.hpp: the invariant of the reference counts, and what the steps
-- of the operations change.
use cpp_playground.ArcPointer.Owners.{references, weight, owners, is_at}
use cpp_playground.ArcPointer.{ControlBlock, Heap, add_ref, release_ref, destroy_object}
use mathlib.Core.Path.{subst}
use cpp_playground.ArcPointer.Owners.{
  references, count_of, is_at, weight, block_weight, object_weight, owners,
}
use cpp_playground.Prelude.{
  refl, none, some, inl, inr, ℕ, Option, ◌≡◌, set, ◌+◌, ◌<◌, word_mod, returned, ◌≢◌, ==-cases,
  add64, sym, ◌∙◌, arith, eq→==, ne→==, ap, Option-cases, sub64, total, total-set, object_at,
  object_at-set,
}

pub is_at_eq : (b j : ℕ) → b ≡ j → is_at j (some b) ≡ 1
is_at_eq b j q = rw (eq→== b j q) refl

pub is_at_ne : (b j : ℕ) → b ≢ j → is_at j (some b) ≡ 0
is_at_ne b j n = rw (ne→== b j n) refl

module _ {D : Type 0} where
  -- A control block that is alive counts a reference.
  abbrev pub Shared : Heap D → Type 0
  Shared h = (b : ℕ) (c : ControlBlock D) → object_at h.blocks b ≡ some c → 0 < c.m_num_shared

  -- Each control block counts the pointers that own it, and is alive while there is one.
  pub record Counted (h : Heap D) : Type 0 where
    pub owned : (b : ℕ) → references h.blocks b ≡ owners h.pointers b
    pub shared : Shared h

  -- One reference more, and one less.
  abbrev pub Gains : ℕ → Heap D → Heap D → Type 0
  Gains b h h' = (j : ℕ) → references h'.blocks j ≡ references h.blocks j + is_at j (some b)

  abbrev pub Loses : ℕ → Heap D → Heap D → Type 0
  Loses b h h' = (j : ℕ) → references h'.blocks j + is_at j (some b) ≡ references h.blocks j

  abbrev pub SameWeight : Heap D → Heap D → Type 0
  SameWeight h h' = (w : D × ℕ → ℕ) → weight w h' ≡ weight w h

  -- A control block changes, and what is there now counts a reference.
  Shared-set :
      (h : Heap D) (b : ℕ) (c : ControlBlock D) (v : Option (ControlBlock D))
      → object_at h.blocks b ≡ some c
      → ((d : ControlBlock D) → v ≡ some d → 0 < d.m_num_shared)
      → Shared h
      → (j : ℕ) (d : ControlBlock D) → object_at (set h.blocks b v) j ≡ some d
      → 0 < d.m_num_shared
  Shared-set h b c v e new shared j d at = elim (object_at-set h.blocks b c v j e) [
    | inl (q, there, _) ↦ new d (sym there ∙ at)
    | inr (n, same) ↦ shared j d (sym same ∙ at)
  ]

  Loses-set :
      (h : Heap D) (b : ℕ) (c : ControlBlock D) (v : Option (ControlBlock D))
      → object_at h.blocks b ≡ some c
      → count_of v + 1 ≡ c.m_num_shared
      → Loses b h (record h { blocks = set h.blocks b v })
  Loses-set h b c v e less j = elim (object_at-set h.blocks b c v j e) [
    | inl (q, new, old) ↦ omega (arith, ap count_of new, ap count_of old, is_at_eq b j q)
    | inr (m, same) ↦ omega (arith, ap count_of same, is_at_ne b j m)
  ]

  pub add_ref_lem :
      (b : ℕ) (c : ControlBlock D) (h : Heap D)
      → object_at h.blocks b ≡ some c
      → c.m_num_shared + 1 < word_mod
      → Shared h
      → (h' : Heap D) × (add_ref b h ≡ returned tt h')
        × (h'.pointers ≡ h.pointers)
        × Gains b h h'
        × Shared h'
        × SameWeight h h'
  unfolding add_ref
  add_ref_lem b c h e fits shared =
      let c' : ControlBlock D = record c { m_num_shared = add64 c.m_num_shared 1 } in
      let one : add64 c.m_num_shared 1 ≡ c.m_num_shared + 1 = omega arith in
      (
        record h { blocks = set h.blocks b (some c') },
        rw (e, add_ref) refl,
        refl,
        (λ j. elim (object_at-set h.blocks b c (some c') j e) [
          | inl (q, new, old) ↦ ap count_of new ∙ omega (arith, ap count_of old, is_at_eq b j q)
          | inr (n, same) ↦ omega (arith, ap count_of same, is_at_ne b j n)
        ]),
        Shared-set h b c (some c') e (λ d q. subst (λ o. 0 < count_of o) q (omega arith)) shared,
        (λ w. omega (arith, total-set (block_weight w) h.blocks b c (some c') e)),
      )

  destroy_object_lem :
      (c : ControlBlock D) (h : Heap D)
      → ((destroy_object c h).pointers ≡ h.pointers)
        × ((w : D × ℕ → ℕ)
            → total w (destroy_object c h).deleted
              ≡ object_weight w c.m_deleter c.m_ptr + total w h.deleted)
  unfolding destroy_object
  destroy_object_lem c h = elim (Option-cases c.m_ptr) [
    | inl e ↦ (rw e refl, λ w. rw e (omega arith))
    | inr (p, e) ↦ (rw e refl, λ w. rw e refl)
  ]

  pub release_ref_lem :
      (b : ℕ) (c : ControlBlock D) (h : Heap D)
      → object_at h.blocks b ≡ some c
      → c.m_num_shared < word_mod
      → Shared h
      → (h' : Heap D) × (release_ref b h ≡ returned tt h')
        × (h'.pointers ≡ h.pointers)
        × Loses b h h'
        × Shared h'
        × SameWeight h h'
  unfolding release_ref
  release_ref_lem b c h e fits shared =
      let n = sub64 c.m_num_shared 1 in
      let some_left = shared b c e in
      let less : n + 1 ≡ c.m_num_shared = omega arith in
      let c' : ControlBlock D = record c { m_num_shared = n } in
      elim (==-cases n 0) [
        | inl (z, t) ↦
            let (points, deletes) = destroy_object_lem c h in
            (
              record (destroy_object c h) { blocks = set h.blocks b none },
              rw (e, release_ref, t) refl,
              points,
              Loses-set h b c none e (omega (arith, z, less)),
              Shared-set h b c none e (λ d q. absurd (ground arith)) shared,
              (λ w. omega (arith, deletes w, total-set (block_weight w) h.blocks b c none e)),
            )
        | inr (m, t) ↦ (
          record h { blocks = set h.blocks b (some c') },
          rw (e, release_ref, t) refl,
          refl,
          Loses-set h b c (some c') e less,
          Shared-set h b c (some c') e (λ d q. subst (λ o. 0 < count_of o) q (omega arith)) shared,
          (λ w. omega (arith, total-set (block_weight w) h.blocks b c (some c') e)),
        )
      ]
