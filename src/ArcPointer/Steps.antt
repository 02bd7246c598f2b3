-- ===== src/ArcPointer/Steps.antt =====
-- include/cpp_playground/arc_pointer.hpp: what the constructors and the destructor do to the counts.
use mathlib.Core.Path.{subst}
use cpp_playground.ArcPointer.{
  ControlBlock, ArcPointer, Heap, Command, constructing, copying, moving, destroying,
  copy_assigning, move_assigning, add_ref, read_pointer, write_pointer, place_pointer, place_block,
  construct, copy_construct, move_construct, destruct, release_block, end_pointer, block_of,
  perform,
}
use cpp_playground.ArcPointer.Owners.{
  count_of, is_at, owns, weight, block_weight, object_weight, owners, owners-positive, owners-le,
}
use cpp_playground.ArcPointer.Counted.{Counted, add_ref_lem, release_ref_lem, is_at_eq, is_at_ne}
use cpp_playground.Prelude.{
  [], ◌∷◌, refl, none, some, inl, inr, ℕ, ◌≡◌, length, returned, ◌≤◌, ◌+◌, Option-cases, ◌<◌, arith,
  word_mod, ap, ◌++◌, length-snoc, >>=-returned, pure, ◌∙◌, Option, set, length-set, sym,
  object_at-snoc, total-set, total-snoc, object_at,
}

abbrev unowned : ArcPointer → ArcPointer
unowned q = record { m_control_block = none; m_ptr = none }

abbrev pub disowned : ArcPointer → ArcPointer
disowned q = record q { m_control_block = none }

module _ {D : Type 0} where
  -- An `ArcPointer` is alive at the address, with or without a control block.
  abbrev pub Alive : Heap D → ℕ → Type 0
  Alive h i = (p : ArcPointer) × (object_at h.pointers i ≡ some p)

  abbrev pub Owning : Heap D → ℕ → Type 0
  Owning h i =
      (p : ArcPointer) × (b : ℕ) × (object_at h.pointers i ≡ some p) × (p.m_control_block ≡ some b)

  -- The calls whose behaviour is defined: those that follow `m_control_block` need one.
  abbrev pub Ready : Heap D → Command D → Type 0
  Ready h (constructing ptr deleter) = Unit {0}
  Ready h (copying other) = Owning h other
  Ready h (moving other) = Alive h other
  Ready h (copy_assigning this other) = Owning h this × Owning h other
  Ready h (move_assigning this other) = Owning h this × Alive h other
  Ready h (destroying this) = Alive h this

  -- What a call adopts: the objects that the constructor is given.
  abbrev pub adopted : (D × ℕ → ℕ) → Command D → ℕ
  adopted w (constructing ptr deleter) = object_weight w deleter ptr
  adopted w (copying _) = 0
  adopted w (moving _) = 0
  adopted w (copy_assigning _ _) = 0
  adopted w (move_assigning _ _) = 0
  adopted w (destroying _) = 0

  -- A control block with an owner is alive, and its count is far from the wrap-around.
  pub owned_block :
      (h : Heap D) (i b : ℕ) (p : ArcPointer)
      → Counted h
      → object_at h.pointers i ≡ some p
      → p.m_control_block ≡ some b
      → (c : ControlBlock D) × (object_at h.blocks b ≡ some c)
        × (c.m_num_shared ≤ length h.pointers)
  owned_block h i b p counted e at =
      let some_owner = owners-positive h.pointers i b p e at in
      elim (Option-cases (object_at h.blocks b)) [
        | inl dead ↦ absurd (omega (arith, counted.owned b, ap count_of dead))
        | inr (c, there) ↦
            (c, there, omega (arith, counted.owned b, ap count_of there, owners-le h.pointers b))
      ]

  -- The final heap of a call, and how its pointers differ.
  abbrev pub Done : Heap D → Command D → Type 0
  Done h c =
      (h' : Heap D) × (perform c h ≡ returned tt h')
      × Counted h'
      × (length h'.pointers ≤ length h.pointers + 1)
      × ((w : D × ℕ → ℕ) → weight w h' ≡ adopted w c + weight w h)

  pub read :
      (h : Heap D) (i : ℕ) (p : ArcPointer)
      → object_at h.pointers i ≡ some p
      → read_pointer i h ≡ returned p h
  unfolding read_pointer
  read h i p e = rw e refl

  pub block :
      (h : Heap D) (b : ℕ) (p : ArcPointer)
      → p.m_control_block ≡ some b
      → block_of p h ≡ returned b h
  unfolding block_of
  block h b p e = rw e refl

  copying_runs :
      (h h' : Heap D) (other b : ℕ) (p : ArcPointer)
      → object_at h.pointers other ≡ some p
      → p.m_control_block ≡ some b
      → add_ref b h ≡ returned tt h'
      → perform (copying other) h
        ≡ returned tt (record h' { pointers = h'.pointers ++ some p ∷ [] })
  unfolding perform copy_construct place_pointer
  copying_runs h h' other b p e at added =
      >>=-returned (copy_construct other) (λ _. pure tt)
        (>>=-returned (read_pointer other) _ (read h other p e)
          ∙ >>=-returned (block_of p) _ (block h b p at)
          ∙ >>=-returned (add_ref b) _ added)

  pub copying_lem :
      (h : Heap D) (other : ℕ)
      → Counted h
      → length h.pointers + 1 < word_mod
      → Owning h other
      → Done h (copying other)
  copying_lem h other counted fits (p, b, e, at) =
      let (c, there, few) = owned_block h other b p counted e at in
      let (h', added, points, gains, shared, same) =
        add_ref_lem b c h there (omega arith) counted.shared in
      (
        record h' { pointers = h'.pointers ++ some p ∷ [] },
        copying_runs h h' other b p e at added,
        record {
          owned = λ j. omega (
            arith,
            gains j,
            counted.owned j,
            total-snoc (owns j) h'.pointers (some p),
            ap (λ ps. owners ps j) points,
            ap (is_at j) at,
          );
          shared = shared;
        },
        omega (arith, length-snoc h'.pointers (some p), ap length points),
        (λ w. omega (arith, same w)),
      )

  pub write :
      (h : Heap D) (i : ℕ) (f : ArcPointer → ArcPointer) (p : ArcPointer)
      → object_at h.pointers i ≡ some p
      → write_pointer i f h ≡ returned tt (record h { pointers = set h.pointers i (some (f p)) })
  unfolding write_pointer
  write h i f p e = rw (e, write_pointer) refl

  pub moving_lem : (h : Heap D) (other : ℕ) → Counted h → Alive h other → Done h (moving other)
  unfolding perform move_construct place_pointer
  moving_lem h other counted (p, e) =
      let left = set h.pointers other (some (unowned p)) in
      (
        record h { pointers = left ++ some p ∷ [] },
        >>=-returned (move_construct other) (λ _. pure tt)
            (>>=-returned (read_pointer other) _ (read h other p e)
              ∙ >>=-returned (write_pointer other unowned) _ (write h other unowned p e)),
        record {
          owned = λ j. omega (
            arith,
            counted.owned j,
            total-snoc (owns j) left (some p),
            total-set (owns j) h.pointers other p (some (unowned p)) e,
          );
          shared = counted.shared;
        },
        omega (arith, length-snoc left (some p), length-set h.pointers other (some (unowned p))),
        (λ w. omega arith),
      )

  -- A control block with one reference, after all others.
  pub constructing_lem :
      (h : Heap D) (ptr : Option ℕ) (deleter : D) → Counted h → Done h (constructing ptr deleter)
  unfolding perform construct place_block place_pointer
  constructing_lem h ptr deleter counted =
      let n = length h.blocks in
      let c : ControlBlock D = record { m_ptr = ptr; m_num_shared = 1; m_deleter = deleter } in
      let p : ArcPointer = record { m_control_block = some n; m_ptr = ptr } in
      (
        record h { blocks = h.blocks ++ some c ∷ []; pointers = h.pointers ++ some p ∷ [] },
        refl,
        record {
          owned = λ j. elim (object_at-snoc h.blocks (some c) j) [
            | inl (q, there, nothing) ↦ omega (
              arith,
              ap count_of there,
              ap count_of nothing,
              counted.owned j,
              total-snoc (owns j) h.pointers (some p),
              is_at_eq n j (sym q),
            )
            | inr (m, there) ↦ omega (
              arith,
              ap count_of there,
              counted.owned j,
              total-snoc (owns j) h.pointers (some p),
              is_at_ne n j m,
            )
          ];
          shared = λ j d at. elim (object_at-snoc h.blocks (some c) j) [
            | inl (q, there, nothing) ↦ subst (λ o. 0 < count_of o) (sym there ∙ at) (omega arith)
            | inr (m, there) ↦ counted.shared j d (sym there ∙ at)
          ];
        },
        omega (arith, length-snoc h.pointers (some p)),
        (λ w. omega (arith, total-snoc (block_weight w) h.blocks (some c))),
      )

  pub destroying_lem :
      (h : Heap D) (this : ℕ)
      → Counted h
      → length h.pointers + 1 < word_mod
      → Alive h this
      → Done h (destroying this)
  unfolding perform destruct end_pointer release_block
  destroying_lem h this counted fits (p, e) = elim (Option-cases p.m_control_block) [
    | inl at ↦ (
      record h { pointers = set h.pointers this none },
      >>=-returned (read_pointer this) _ (read h this p e) ∙ rw at refl,
      record {
        owned = λ j.
            omega (
              arith,
              counted.owned j,
              total-set (owns j) h.pointers this p none e,
              ap (is_at j) at,
            );
        shared = counted.shared;
      },
      omega (arith, length-set h.pointers this none),
      (λ w. omega arith),
    )
    | inr (b, at) ↦
        let (c, there, few) = owned_block h this b p counted e at in
        let (h', released, points, loses, shared, same) =
          release_ref_lem b c h there (omega arith) counted.shared in
        (
          record h' { pointers = set h'.pointers this none },
          >>=-returned (read_pointer this) _ (read h this p e)
              ∙ >>=-returned (release_block p.m_control_block) _
                  (ap (λ o. release_block o h) at ∙ released),
          record {
            owned = λ j. omega (
              arith,
              loses j,
              counted.owned j,
              total-set (owns j) h.pointers this p none e,
              ap (is_at j) at,
              ap (λ ps. owners (set ps this none) j) points,
            );
            shared = shared;
          },
          omega (arith, length-set h'.pointers this none, ap length points),
          (λ w. omega (arith, same w)),
        )
  ]
