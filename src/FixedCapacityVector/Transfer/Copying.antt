-- ===== src/FixedCapacityVector/Transfer/Copying.antt =====
-- The copy constructors and copy assignments, on vectors of lists.
use cpp_playground.Storage.{read_at, read_at-filled}
use cpp_playground.Prelude.{
  ℕ, suc, ◌≤◌, ◌<◌, List, [], ◌∷◌, ◌++◌, length, ◌≡◌, ap, ◌∙◌, arith, word_mod, append-nil,
  length-append, returned, some, ◌-◌, get_elem?-append_middle, >>=-returned, length-snoc,
  snoc_shift, if◌then◌else◌, ltb, ◌==◌, ==-cases, threw, inl, length_error, inr, ltb-cases, lt→ltb,
  &&-false,
}
use cpp_playground.FixedCapacityVector.{FixedCapacityVector, construct, destroy_elements}
use cpp_playground.FixedCapacityVector.Layout.{of_list, construct-of_list}
use cpp_playground.FixedCapacityVector.Elements.{construct_and_count_then, destroy_elements_lem}
use cpp_playground.FixedCapacityVector.Transfer.{
  copy_elements, replace_by_copy, copy_assign, copy_construct, copy_construct_from,
  copy_assign_from, Vectors, store, write_back,
}

module _ {ℓ} {T : Type ℓ} (cap : ℕ) (word : cap < word_mod) (other_cap : ℕ) where
  -- The loop appends the elements of `other` that are left.
  pub copy_elements_lem :
      (ys xs : List T)
      → length (xs ++ ys) ≤ cap
      → copy_elements (length ys) (length xs) (of_list other_cap (xs ++ ys)) (of_list cap xs)
        ≡ returned tt (of_list cap (xs ++ ys))
  unfolding copy_elements
  copy_elements_lem [] xs fits = rw append-nil
  copy_elements_lem (y ∷ ys) xs fits =
      let room : length xs < cap = omega (arith, length-append xs (y ∷ ys)) in
      rw (found, copy_elements)
        (construct_and_count_then cap (copy_elements (length ys) (suc (length xs)) other) xs y room
            word
          ∙ rw (← length-snoc xs y, snoc_shift xs y ys)
              (copy_elements_lem ys (xs ++ y ∷ []) (omega (arith, ap length (snoc_shift xs y ys)))))
    where
      other : FixedCapacityVector T
      other = of_list other_cap (xs ++ y ∷ ys)

      found : read_at other.m_buffer (length xs) ≡ some y
      found =
          read_at-filled (xs ++ y ∷ ys) (other_cap - length (xs ++ y ∷ ys)) (length xs)
          ∙ get_elem?-append_middle xs y ys

  -- Copy construction, within the capacity: the new vector has the elements of `other`.
  pub copy_elements-construct :
      (ys : List T)
      → length ys ≤ cap
      → copy_elements (length ys) 0 (of_list other_cap ys) (construct cap)
        ≡ returned tt (of_list cap ys)
  copy_elements-construct ys fits = rw construct-of_list (copy_elements_lem ys [] fits)

  -- The body of copy assignment replaces the elements.
  pub replace_by_copy_lem :
      (xs ys : List T)
      → length xs ≤ cap
      → length ys ≤ cap
      → replace_by_copy (of_list other_cap ys) (of_list cap xs) ≡ returned tt (of_list cap ys)
  unfolding replace_by_copy
  replace_by_copy_lem xs ys fits room =
      >>=-returned destroy_elements (λ _. copy_elements (length ys) 0 (of_list other_cap ys))
        (destroy_elements_lem cap xs fits)
      ∙ copy_elements_lem ys [] room

module _ {ℓ} {T : Type ℓ} (cap : ℕ) (word : cap < word_mod) where
  -- The copy constructor makes a vector of the same elements.
  pub copy_construct_lem :
      (ys : List T)
      → length ys ≤ cap
      → copy_construct cap (of_list cap ys) ≡ returned tt (of_list cap ys)
  unfolding copy_construct
  copy_construct_lem ys fits = copy_elements-construct cap word cap ys fits

  -- Copy construction from a vector of another capacity, the target's capacity a `std::size_t`,
  -- throws exactly if the elements do not fit, and else copies them in order.
  pub copy_construct_from_lem :
      (other_cap : ℕ) (ys : List T)
      → copy_construct_from cap (of_list other_cap ys) ≡ (
          if ltb cap (length ys)
          then threw length_error (of_list cap [])
          else returned tt (of_list cap ys))
  unfolding copy_construct_from
  copy_construct_from_lem other_cap ys = elim (ltb-cases cap (length ys)) [
    | inl (gt, t) ↦ rw (t, construct-of_list)
    | inr (le, t) ↦ rw t (copy_elements-construct cap word other_cap ys le)
  ]

  -- For vectors within their capacities, the target's a `std::size_t`, copy assignment from
  -- another capacity throws exactly if the elements do not fit, and then leaves the vector as it
  -- was; else it replaces the elements.
  pub copy_assign_from_lem :
      (other_cap : ℕ) (xs ys : List T)
      → length xs ≤ cap
      → length ys ≤ other_cap
      → copy_assign_from cap other_cap (of_list other_cap ys) (of_list cap xs) ≡ (
          if ltb cap (length ys)
          then threw length_error (of_list cap xs)
          else returned tt (of_list cap ys))
  unfolding copy_assign_from
  copy_assign_from_lem other_cap xs ys fits held = elim (ltb-cases cap (length ys)) [
    | inl (gt, t) ↦ rw (lt→ltb cap other_cap (omega arith), t)
    | inr (le, t) ↦ rw (t, &&-false) (replace_by_copy_lem cap word other_cap xs ys fits le)
  ]

  -- For vectors within the capacity, a `std::size_t`, copy assignment between two addresses gives
  -- `this` the elements of `other` and leaves all other vectors alone; at one address it changes
  -- nothing.
  pub copy_assign_lem :
      (this other : ℕ) (vectors : Vectors T) (xs ys : List T)
      → vectors this ≡ of_list cap xs
      → vectors other ≡ of_list cap ys
      → length xs ≤ cap
      → length ys ≤ cap
      → copy_assign this other vectors
        ≡ returned tt (if this == other then vectors else store vectors this (of_list cap ys))
  unfolding copy_assign
  copy_assign_lem this other vectors xs ys p q fits room = elim (==-cases this other) [
    | inl (e, t) ↦ rw t
    | inr (ne, t) ↦ rw t (ap (write_back vectors this) done)
  ]
    where
      done : replace_by_copy (vectors other) (vectors this) ≡ returned tt (of_list cap ys)
      done = rw (p, q) (replace_by_copy_lem cap word cap xs ys fits room)
