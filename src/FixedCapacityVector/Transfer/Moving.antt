-- ===== src/FixedCapacityVector/Transfer/Moving.antt =====
-- The move constructors and move assignments, on vectors of lists: the elements go over in order,
-- and the vector moved from is empty, with no live object in its storage.
use cpp_playground.FixedCapacityVector.Elements.{
  construct_element-of_list, increment_size-uncounted, uncounted, clear_lem,
}
use cpp_playground.FixedCapacityVector.Layout.{of_list, construct-of_list}
use cpp_playground.Storage.{Slots, destroy_at-append, read_at-append, alive, dead-append}
use cpp_playground.FixedCapacityVector.{
  destroy_element, subscript, FixedCapacityVector, increment_size, construct_element, construct,
  clear,
}
use cpp_playground.Prelude.{
  ℕ, suc, ◌≤◌, ◌<◌, List, [], ◌∷◌, ◌++◌, length, ◌≡◌, refl, ap, ◌∙◌, arith, word_mod, some, none,
  returned, snoc_shift, Action, replicate, ◌>>◌, append-nil, length-append, length-snoc,
  >>=-returned, ◌-◌, if◌then◌else◌, ltb, ◌==◌, threw, ==-cases, length_error, inl, ltb-cases, inr,
  lt→ltb, &&-false,
}
use cpp_playground.FixedCapacityVector.Transfer.{
  Transfer, move_elements, move_all, on_source, on_target, on_source-returned, on_target-returned,
  reset_source_size, move_assign, move_assign_from, move_construct, move_construct_from,
  replace_by_move, Vectors, store, write_back_both,
}

module _ {ℓ} {T : Type ℓ} (cap : ℕ) (word : cap < word_mod) where
  -- A vector whose elements from index `length p` on are still to be moved.
  abbrev draining : ℕ → Slots T → FixedCapacityVector T
  draining n s = record { m_size = n; m_buffer = s }

  drain_step :
      (n : ℕ) (p s : Slots T) (y : T)
      → destroy_element (length p) (draining n (p ++ some y ∷ s))
        ≡ returned tt (draining n ((p ++ none ∷ []) ++ s))
  unfolding destroy_element
  drain_step n p s y = rw (destroy_at-append p s y, destroy_element, snoc_shift p none s)

  read_step :
      (n : ℕ) (p s : Slots T) (y : T)
      → subscript (length p) (draining n (p ++ some y ∷ s))
        ≡ returned y (draining n (p ++ some y ∷ s))
  unfolding subscript
  read_step n p s y = rw (read_at-append p s y, subscript)

  -- One round of the loop.
  move_step :
      (rounds n : ℕ) (p s : Slots T) (y : T) (xs : List T)
      → length p ≡ length xs
      → length xs < cap
      → move_elements
          (suc rounds)
          (length xs)
          (record { target = of_list cap xs; source = draining n (p ++ some y ∷ s) })
        ≡ move_elements rounds (suc (length xs)) (record {
          target = of_list cap (xs ++ y ∷ []);
          source = draining n ((p ++ none ∷ []) ++ s);
        })
  unfolding move_elements
  move_step rounds n p s y xs e room =
      >>=-returned (on_source (subscript i)) (λ x. do on_target (construct_element i x); count)
        (on_source-returned (subscript i) before (rw (← e) (read_step n p s y)))
      ∙ >>=-returned (on_target (construct_element i y)) (λ _. count)
          (on_target-returned (construct_element i y) before
            (construct_element-of_list cap xs y room))
      ∙ >>=-returned (on_target increment_size) (λ _. kill)
          (on_target-returned increment_size (record before { target = uncounted cap xs y })
            (increment_size-uncounted cap xs y room word))
      ∙ >>=-returned (on_source (destroy_element i)) (λ _. move_elements rounds (suc i))
          (on_source-returned (destroy_element i)
            (record before { target = of_list cap (xs ++ y ∷ []) }) (rw (← e) (drain_step n p s y)))
    where
      i : ℕ
      i = length xs

      before : Transfer T
      before = record { target = of_list cap xs; source = draining n (p ++ some y ∷ s) }

      kill : Action (Transfer T) (Unit {0})
      kill = do on_source (destroy_element i); move_elements rounds (suc i)

      count : Action (Transfer T) (Unit {0})
      count = do on_target increment_size; kill

  -- The loop, from an index in the middle: the elements left go to the target, and die in the
  -- source.
  pub move_elements_lem :
      (ys : List T) (n : ℕ) (p s : Slots T) (xs : List T)
      → length p ≡ length xs
      → length (xs ++ ys) ≤ cap
      → move_elements
          (length ys)
          (length xs)
          (record { target = of_list cap xs; source = draining n (p ++ (alive ys ++ s)) })
        ≡ returned tt (record {
          target = of_list cap (xs ++ ys);
          source = draining n (p ++ (replicate (length ys) none ++ s));
        })
  unfolding move_elements
  move_elements_lem [] n p s xs e fits = rw (append-nil xs)
  move_elements_lem (y ∷ ys) n p s xs e fits =
      move_step (length ys) n p (alive ys ++ s) y xs e (omega (arith, length-append xs (y ∷ ys)))
      ∙ rw
          (
            ← length-snoc xs y,
            snoc_shift xs y ys,
            snoc_shift p none (replicate (length ys) none ++ s),
          )
          (move_elements_lem ys n (p ++ none ∷ []) s (xs ++ y ∷ [])
            (omega (arith, length-snoc p none, length-snoc xs y, e))
            (omega (arith, ap length (snoc_shift xs y ys))))

  -- All elements of a valid vector go to an empty one: it is left empty.
  pub move_all_lem :
      (other_cap : ℕ) (ys : List T)
      → length ys ≤ cap
      → length ys ≤ other_cap
      → move_all (record { target = of_list cap []; source = of_list other_cap ys })
        ≡ returned tt (record { target = of_list cap ys; source = of_list other_cap [] })
  unfolding move_all
  move_all_lem other_cap ys fits held =
      >>=-returned (move_elements (length ys) 0) (λ _. reset_source_size)
        (move_elements_lem ys (length ys) [] (replicate (other_cap - length ys) none) [] refl fits)
      ∙ ap (λ b. returned tt (record { target = of_list cap ys; source = draining 0 b }))
          (dead-append other_cap (length ys) held)

  pub move_all-construct :
      (other_cap : ℕ) (ys : List T)
      → length ys ≤ cap
      → length ys ≤ other_cap
      → move_all (record { target = construct cap; source = of_list other_cap ys })
        ≡ returned tt (record { target = of_list cap ys; source = of_list other_cap [] })
  move_all-construct other_cap ys fits held =
      ap (λ v. move_all (record { target = v; source = of_list other_cap ys }))
        (construct-of_list cap)
      ∙ move_all_lem other_cap ys fits held

  -- The move constructor takes the elements of a vector of the same capacity.
  pub move_construct_lem :
      (ys : List T)
      → length ys ≤ cap
      → move_construct cap (of_list cap ys)
        ≡ returned tt (record { target = of_list cap ys; source = of_list cap [] })
  unfolding move_construct
  move_construct_lem ys fits = move_all-construct cap ys fits fits

  -- Move construction from a vector within another capacity, the target's capacity a
  -- `std::size_t`, throws exactly if the elements do not fit, and then leaves the other vector as
  -- it was; else it takes the elements and leaves the other vector empty.
  pub move_construct_from_lem :
      (other_cap : ℕ) (ys : List T)
      → length ys ≤ other_cap
      → move_construct_from cap (of_list other_cap ys) ≡ (
          if ltb cap (length ys)
          then threw length_error
              (record { target = of_list cap []; source = of_list other_cap ys })
          else returned tt (record { target = of_list cap ys; source = of_list other_cap [] }))
  unfolding move_construct_from
  move_construct_from_lem other_cap ys held = elim (ltb-cases cap (length ys)) [
    | inl (gt, t) ↦ rw t (
        ap (λ v. threw length_error (record { target = v; source = of_list other_cap ys }))
          (construct-of_list cap))
    | inr (le, t) ↦ rw t (move_all-construct other_cap ys le held)
  ]

  -- The body of move assignment.
  pub replace_by_move_lem :
      (other_cap : ℕ) (xs ys : List T)
      → length xs ≤ cap
      → length ys ≤ cap
      → length ys ≤ other_cap
      → replace_by_move (record { target = of_list cap xs; source = of_list other_cap ys })
        ≡ returned tt (record { target = of_list cap ys; source = of_list other_cap [] })
  unfolding replace_by_move
  replace_by_move_lem other_cap xs ys fits room held =
      >>=-returned (on_target clear) (λ _. move_all)
        (on_target-returned clear
          (record { target = of_list cap xs; source = of_list other_cap ys })
          (clear_lem cap xs fits))
      ∙ move_all_lem other_cap ys room held

  -- For vectors within their capacities, the target's a `std::size_t`, move assignment from
  -- another capacity throws exactly if the elements do not fit, and then changes neither vector;
  -- else it replaces the elements and leaves the other vector empty.
  pub move_assign_from_lem :
      (other_cap : ℕ) (xs ys : List T)
      → length xs ≤ cap
      → length ys ≤ other_cap
      → move_assign_from cap other_cap
          (record { target = of_list cap xs; source = of_list other_cap ys })
        ≡ (if ltb cap (length ys)
            then threw length_error
                (record { target = of_list cap xs; source = of_list other_cap ys })
            else returned tt (record { target = of_list cap ys; source = of_list other_cap [] }))
  unfolding move_assign_from
  move_assign_from_lem other_cap xs ys fits held = elim (ltb-cases cap (length ys)) [
    | inl (gt, t) ↦ rw (lt→ltb cap other_cap (omega arith), t)
    | inr (le, t) ↦ rw (t, &&-false) (replace_by_move_lem other_cap xs ys fits le held)
  ]

  -- For vectors within the capacity, a `std::size_t`, move assignment between two addresses gives
  -- `this` the elements of `other`, empties `other` and leaves all other vectors alone; at one
  -- address it changes nothing.
  pub move_assign_lem :
      (this other : ℕ) (vectors : Vectors T) (xs ys : List T)
      → vectors this ≡ of_list cap xs
      → vectors other ≡ of_list cap ys
      → length xs ≤ cap
      → length ys ≤ cap
      → move_assign this other vectors
        ≡ returned tt (
            if this == other
            then vectors
            else store (store vectors this (of_list cap ys)) other (of_list cap []))
  unfolding move_assign
  move_assign_lem this other vectors xs ys p q fits room = elim (==-cases this other) [
    | inl (e, t) ↦ rw t
    | inr (ne, t) ↦ rw t (ap (write_back_both vectors this other) done)
  ]
    where
      done :
          replace_by_move (record { target = vectors this; source = vectors other })
          ≡ returned tt (record { target = of_list cap ys; source = of_list cap [] })
      done = rw (p, q) (replace_by_move_lem cap xs ys fits room room)
