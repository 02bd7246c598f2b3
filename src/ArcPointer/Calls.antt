-- ===== src/ArcPointer/Calls.antt =====
-- include/cpp_playground/arc_pointer.hpp: what the member functions do to the counts, and when the
-- objects are deleted.
use mathlib.Core.Path.{subst}
use cpp_playground.ArcPointer.Owners.{weight, count_of, owns, block_weight}
use cpp_playground.ArcPointer.{
  Heap, Command, constructing, copying, moving, destroying, copy_assigning, move_assigning,
  empty_heap, perform, run, ArcPointer, copy_construct, copy_assign, move_assign, block_of,
  share_block, read_pointer, same_block, add_ref,
}
use cpp_playground.ArcPointer.Counted.{Counted, add_ref_lem}
use cpp_playground.Prelude.{
  [], none, some, inl, inr, length, ◌+◌, ◌<◌, word_mod, List, Option, Outcome, ℕ, arith, none,
  returned, ◌∷◌, ◌≡◌, Option-cases, refl, threw, ap, fault, inl, inr, sym, ◌∙◌, >>=-returned, ◌≢◌,
  >>=-fault, ne→==, false, total, none_alive, object_at,
}
use cpp_playground.ArcPointer.Steps.{
  Ready, Done, constructing_lem, copying_lem, moving_lem, destroying_lem, adopted, owned_block,
  read, block,
}
use cpp_playground.ArcPointer.Assignment.{copy_assigning_lem, move_assigning_lem}

to_empty :
    (p q : ArcPointer) (b : ℕ)
    → p.m_control_block ≡ some b
    → q.m_control_block ≡ none
    → same_block p.m_control_block q.m_control_block ≡ false
to_empty p q b at at' = rw (at, at') refl

module _ {D : Type 0} where
  pub arc_perform_lem :
      (h : Heap D) (c : Command D)
      → Counted h
      → length h.pointers + 1 < word_mod
      → Ready h c
      → Done h c
  arc_perform_lem h (constructing ptr deleter) counted fits ready =
      constructing_lem h ptr deleter counted
  arc_perform_lem h (copying other) counted fits ready = copying_lem h other counted fits ready
  arc_perform_lem h (moving other) counted fits ready = moving_lem h other counted ready
  arc_perform_lem h (copy_assigning this other) counted fits ready =
      copy_assigning_lem h this other counted fits ready
  arc_perform_lem h (move_assigning this other) counted fits ready =
      move_assigning_lem h this other counted fits ready
  arc_perform_lem h (destroying this) counted fits ready = destroying_lem h this counted fits ready

  -- The heap that an outcome leaves.
  abbrev left_in : Heap D → Outcome (Heap D) (Unit {0}) → Heap D
  left_in h (returned a h') = h'
  left_in h (threw e h') = h'
  left_in h fault = h

  -- The heap after a call.
  unfoldable pub after : Command D → Heap D → Heap D
  after c h = left_in h (perform c h)

  -- The behaviour of each call is defined where it is made.
  unfoldable pub AllReady : Heap D → List (Command D) → Type 0
  unfolding after
  AllReady h [] = Unit {0}
  AllReady h (c ∷ cs) = Ready h c × AllReady (after c h) cs

  -- From a heap with counted references, every list of calls, each defined where it is made and
  -- fewer in all than 2^64 with the pointers there are: the run returns, the references are
  -- counted in the final heap, and the objects that are deleted or kept by a control block are
  -- those that were at the start and those that the calls adopted, each as often.
  pub arc_run_lem :
      (cs : List (Command D)) (h : Heap D)
      → Counted h
      → length h.pointers + length cs < word_mod
      → AllReady h cs
      → (h' : Heap D) × (run cs h ≡ returned tt h')
        × Counted h'
        × ((w : D × ℕ → ℕ) → weight w h' ≡ total (adopted w) cs + weight w h)
  unfolding run AllReady after
  arc_run_lem [] h counted fits ready = (h, refl, counted, λ w. omega arith)
  arc_run_lem (c ∷ cs) h counted fits (ready, rest) =
      let (h1, ran, counted1, more, kept) = arc_perform_lem h c counted (omega arith) ready in
      let there : after c h ≡ h1 = rw (after, ran) refl in
      let ready1 = subst (λ g. AllReady g cs) there rest in
      let (h2, ran2, counted2, kept2) = arc_run_lem cs h1 counted1 (omega arith) ready1 in
      (h2, >>=-returned (perform c) _ ran ∙ ran2, counted2, (λ w. omega (arith, kept w, kept2 w)))

  empty_heap-Counted : Counted {D = D} empty_heap
  empty_heap-Counted = record { owned = λ b. refl; shared = λ b c e. absurd (ground arith) }

  no_block_left :
      (h : Heap D)
      → Counted h
      → ((i : ℕ) → object_at h.pointers i ≡ none)
      → (b : ℕ) → object_at h.blocks b ≡ none
  no_block_left h counted dead b = elim (Option-cases (object_at h.blocks b)) [
    | inl e ↦ e
    | inr (c, there) ↦ absurd (
        omega (
          arith,
          counted.shared b c there,
          counted.owned b,
          ap count_of there,
          none_alive (owns b) h.pointers refl dead,
        ))
  ]

  -- From the empty heap, every list of fewer than 2^64 calls, each defined where it is made, after
  -- which no pointer is alive: no control block is alive, and the objects that were deleted are
  -- exactly those that the calls adopted, each as often and with the deleter it came with.
  pub arc_deletes :
      (cs : List (Command D)) (h : Heap D)
      → length cs < word_mod
      → AllReady empty_heap cs
      → run cs empty_heap ≡ returned tt h
      → ((i : ℕ) → object_at h.pointers i ≡ none)
      → ((b : ℕ) → object_at h.blocks b ≡ none)
        × ((w : D × ℕ → ℕ) → total w h.deleted ≡ total (adopted w) cs)
  arc_deletes cs h fits ready ran dead =
      let (h', ran', counted', kept') =
        arc_run_lem cs empty_heap empty_heap-Counted (omega arith) ready in
      let same : h' ≡ h = ap (left_in empty_heap) (sym ran' ∙ ran) in
      let gone = no_block_left h (subst Counted same counted') dead in
      (
        gone,
        λ w.
            omega
              (arith, kept' w, ap (weight w) same, none_alive (block_weight w) h.blocks refl gone),
      )

  no_block : (h : Heap D) (p : ArcPointer) → p.m_control_block ≡ none → block_of p h ≡ fault
  unfolding block_of
  no_block h p at = rw at refl

  different :
      (h : Heap D) (i j b : ℕ) (p q : ArcPointer)
      → object_at h.pointers i ≡ some p
      → p.m_control_block ≡ none
      → object_at h.pointers j ≡ some q
      → q.m_control_block ≡ some b
      → i ≢ j
  different h i j b p q e at e' at' r =
      let owner_of : Option ArcPointer → Option ℕ =
        λ o. elim o [ none ↦ none | some x ↦ x.m_control_block ] in
      let none_is_some : none ≡ some b =
        sym at ∙ ap owner_of (sym e ∙ ap (object_at h.pointers) r ∙ e') ∙ at' in
      absurd (ground arith)

  -- In a heap whose counters count its pointers, of which there are fewer than 2^64 - 1, for a pointer
  -- without a control block, as a moved-from pointer is: copying it is undefined, and so is its copy
  -- assignment to a pointer with a control block, and both the copy and the move assignment of a
  -- pointer with a control block to it.
  pub moved_from_faults :
      (h : Heap D) (empty owning b : ℕ) (p q : ArcPointer)
      → object_at h.pointers empty ≡ some p
      → p.m_control_block ≡ none
      → object_at h.pointers owning ≡ some q
      → q.m_control_block ≡ some b
      → length h.pointers + 1 < word_mod
      → Counted h
      → (copy_construct empty h ≡ fault)
        × (copy_assign owning empty h ≡ fault)
        × (copy_assign empty owning h ≡ fault)
        × (move_assign empty owning h ≡ fault)
  unfolding copy_construct copy_assign share_block move_assign
  moved_from_faults h empty owning b p q e at e' at' fits counted =
      let n = different h empty owning b p q e at e' at' in
      let (c, there, few) = owned_block h owning b q counted e' at' in
      let (h1, added, _, _, _, _) = add_ref_lem b c h there (omega arith) counted.shared in
      (
        >>=-returned (read_pointer empty) _ (read h empty p e)
            ∙ >>=-fault (block_of p) _ (no_block h p at),
        rw (ne→== owning empty (λ r. n (sym r))) (
            >>=-returned (read_pointer empty) _ (read h empty p e)
            ∙ >>=-returned (read_pointer owning) _ (read h owning q e')
            ∙ rw (at, at', block_of) refl),
        rw (ne→== empty owning n) (
            >>=-returned (read_pointer owning) _ (read h owning q e')
            ∙ >>=-returned (read_pointer empty) _ (read h empty p e)
            ∙ rw (to_empty q p b at' at) (
                >>=-returned (block_of q) _ (block h b q at')
                ∙ >>=-returned (add_ref b) _ added
                ∙ >>=-fault (block_of p) _ (no_block h1 p at))),
        >>=-returned (read_pointer empty) _ (read h empty p e)
            ∙ >>=-fault (block_of p) _ (no_block h p at),
      )
