-- ===== src/FixedCapacityVector/Elements.antt =====
-- What the element access, `push_back`, `emplace_back`, `pop_back` and `clear` do to the vector of
-- a list.
use cpp_playground.Prelude.{
  ℕ, ◌-◌, ◌≤◌, ◌<◌, Option, none, some, List, [], ◌∷◌, ◌++◌, length, get_elem?, ◌≡◌, refl, ap, sym,
  ◌∙◌, arith, word_mod, add64, sub64, ◌==◌, if◌then◌else◌, eq→==, ne→==, length-snoc,
  get_elem?-append_middle, get_elem?-eq-none, get_elem?-eq-some, ==-cases, leb-cases, length_error,
  out_of_range, Exception, Outcome, returned, threw, snoc_view, inl, inr, >>=-returned, head?, ◌>>◌,
  Action, take, take-append, take_of_length-le, fault,
}
use cpp_playground.Storage.{
  filled, construct_at-filled, destroy_at-filled, read_at-filled, destroy-filled,
}
use cpp_playground.FixedCapacityVector.{
  FixedCapacityVector, construct_element, subscript, increment_size, destroy_elements, front, back,
  at, clear, pop_back, push_back, emplace_back, last_element,
}
use cpp_playground.FixedCapacityVector.Layout.{of_list}

-- An element that is there, or the exception of the checked accessors.
abbrev pub found_or {ℓ} :
    {T : Type ℓ} → FixedCapacityVector T → Exception → Option T → Outcome (FixedCapacityVector T) T
found_or v e none = threw e v
found_or v e (some x) = returned x v

module _ {ℓ} {T : Type ℓ} (cap : ℕ) where
  abbrev vec : List T → FixedCapacityVector T
  vec = of_list cap

  pub subscript-of_list :
      (xs : List T) (i : ℕ) {x : T}
      → get_elem? xs i ≡ some x
      → subscript i (vec xs) ≡ returned x (vec xs)
  unfolding subscript
  subscript-of_list xs i e = ground (arith, read_at-filled xs (cap - length xs) i)

  -- Behind the last element there is nothing to read.
  pub subscript-none : (xs : List T) (i : ℕ) → get_elem? xs i ≡ none → subscript i (vec xs) ≡ fault
  unfolding subscript
  subscript-none xs i e = ground (arith, read_at-filled xs (cap - length xs) i)

  -- A vector whose new element is alive, and not yet counted.
  abbrev pub uncounted : List T → T → FixedCapacityVector T
  uncounted xs x = record { m_size = length xs; m_buffer = filled cap (xs ++ x ∷ []) }

  pub construct_element-of_list :
      (xs : List T) (x : T)
      → length xs < cap
      → construct_element (length xs) x (vec xs) ≡ returned tt (uncounted xs x)
  unfolding construct_element
  construct_element-of_list xs x h = rw (construct_at-filled cap xs x h, construct_element)

  pub increment_size-uncounted :
      (xs : List T) (x : T)
      → length xs < cap
      → cap < word_mod
      → increment_size (uncounted xs x) ≡ returned tt (vec (xs ++ x ∷ []))
  unfolding increment_size
  increment_size-uncounted xs x h w =
      let e : add64 (length xs) 1 ≡ length (xs ++ x ∷ []) = omega (arith, length-snoc xs x) in
      ap (λ n. returned tt (record { m_size = n; m_buffer = filled cap (xs ++ x ∷ []) })) e

  -- `new (data() + m_size) T(x); ++m_size;` in a vector with room.
  pub construct_and_count :
      (xs : List T) (x : T)
      → length xs < cap
      → cap < word_mod
      → (do construct_element (length xs) x; increment_size) (vec xs)
        ≡ returned tt (vec (xs ++ x ∷ []))
  construct_and_count xs x h w =
      >>=-returned (construct_element (length xs) x) (λ _. increment_size)
        (construct_element-of_list xs x h)
      ∙ increment_size-uncounted xs x h w

  -- The same in front of more code.
  pub construct_and_count_then {κ} :
      {A : Type κ} (k : Action (FixedCapacityVector T) A) (xs : List T) (x : T)
      → length xs < cap
      → cap < word_mod
      → (do construct_element (length xs) x; increment_size; k) (vec xs) ≡ k (vec (xs ++ x ∷ []))
  construct_and_count_then k xs x h w =
      >>=-returned (construct_element (length xs) x) (λ _. do increment_size; k)
        (construct_element-of_list xs x h)
      ∙ >>=-returned increment_size (λ _. k) (increment_size-uncounted xs x h w)

  -- On a vector within the capacity, a `std::size_t`, `push_back` appends the value, or throws and
  -- changes nothing if the vector is full.
  pub push_back_lem :
      (xs : List T) (x : T)
      → length xs ≤ cap
      → cap < word_mod
      → push_back cap x (vec xs) ≡ (
          if length xs == cap
          then threw length_error (vec xs)
          else returned tt (vec (xs ++ x ∷ [])))
  unfolding push_back
  push_back_lem xs x h w = elim (==-cases (length xs) cap) [
    | inl (e, t) ↦ rw t
    | inr (ne, t) ↦ rw t (construct_and_count xs x (omega arith) w)
  ]

  last_element-of_list :
      (xs : List T) (x : T)
      → length xs < cap
      → cap < word_mod
      → last_element cap (vec (xs ++ x ∷ [])) ≡ returned x (vec (xs ++ x ∷ []))
  unfolding last_element
  last_element-of_list xs x h w =
      subscript-of_list (xs ++ x ∷ []) (sub64 (length (xs ++ x ∷ [])) 1)
        (rw (last, get_elem?-append_middle xs x []))
    where
      last : sub64 (length (xs ++ x ∷ [])) 1 ≡ length xs
      last = omega (arith, length-snoc xs x)

  -- `emplace_back` does so too, and returns the new element.
  pub emplace_back_lem :
      (xs : List T) (x : T)
      → length xs ≤ cap
      → cap < word_mod
      → emplace_back cap x (vec xs) ≡ (
          if length xs == cap then threw length_error (vec xs) else returned x (vec (xs ++ x ∷ [])))
  unfolding emplace_back
  emplace_back_lem xs x h w = elim (==-cases (length xs) cap) [
    | inl (e, t) ↦ rw t
    | inr (ne, t) ↦
        let room : length xs < cap = omega arith in
        rw t (
          construct_and_count_then (last_element cap) xs x room w
          ∙ last_element-of_list xs x room w)
  ]

  pub emplace_back_room :
      (xs : List T) (x : T)
      → length xs < cap
      → cap < word_mod
      → emplace_back cap x (vec xs) ≡ returned x (vec (xs ++ x ∷ []))
  emplace_back_room xs x h w =
      emplace_back_lem xs x (omega arith) w ∙ rw (ne→== (length xs) cap (omega arith))

  pub emplace_back_full :
      (xs : List T) (x : T)
      → length xs ≡ cap
      → cap < word_mod
      → emplace_back cap x (vec xs) ≡ threw length_error (vec xs)
  emplace_back_full xs x h w = emplace_back_lem xs x (omega arith) w ∙ rw (eq→== (length xs) cap h)

  -- `pop_back` of a vector with elements, within the capacity, a `std::size_t`, destroys the last
  -- and no other.
  pub pop_back_lem :
      (xs : List T) (x : T)
      → length xs < cap
      → cap < word_mod
      → pop_back (vec (xs ++ x ∷ [])) ≡ returned tt (vec xs)
  unfolding pop_back
  pop_back_lem xs x h w = ground (arith, destroy_at-filled cap xs x, length-snoc xs x)

  pub pop_back-nil : pop_back (vec []) ≡ threw out_of_range (vec [])
  unfolding pop_back
  pop_back-nil = refl

  -- So `pop_back` keeps all elements but the last.
  pub pop_back-cons :
      (x : T) (xs : List T)
      → length xs < cap
      → cap < word_mod
      → pop_back (vec (x ∷ xs)) ≡ returned tt (vec (take (length xs) (x ∷ xs)))
  pop_back-cons x xs h w =
      let (ys, y, split) = snoc_view (x ∷ xs) (omega arith) in
      let long : length xs ≡ length ys = omega (arith, ap length split, length-snoc ys y) in
      let front_part : take (length xs) (x ∷ xs) ≡ ys =
        ap (take (length xs)) split
        ∙ take-append (length xs) ys (y ∷ []) (omega arith)
        ∙ take_of_length-le (length xs) ys (omega arith) in
      ap (λ l. pop_back (vec l)) split
      ∙ pop_back_lem ys y (omega arith) w
      ∙ ap (λ l. returned tt (vec l)) (sym front_part)

  pub destroy_elements_lem :
      (xs : List T) → length xs ≤ cap → destroy_elements (vec xs) ≡ returned tt (vec [])
  unfolding destroy_elements
  destroy_elements_lem xs h = rw (destroy-filled cap xs h, destroy_elements)

  -- `clear` of a vector within the capacity destroys every element.
  pub clear_lem : (xs : List T) → length xs ≤ cap → clear (vec xs) ≡ returned tt (vec [])
  unfolding clear
  clear_lem [] h = refl
  clear_lem (x ∷ xs) h =
      rw (ne→== (length (x ∷ xs)) 0 (omega arith)) (destroy_elements_lem (x ∷ xs) h)

  -- `at` returns the element at the index, or throws where there is none.
  pub at_lem :
      (xs : List T) (index : ℕ)
      → at index (vec xs) ≡ found_or (vec xs) out_of_range (get_elem? xs index)
  unfolding at
  at_lem xs index = elim (leb-cases (length xs) index) [
    | inl (h, t) ↦ rw (t, get_elem?-eq-none xs index h)
    | inr (h, t) ↦
        let (x, e) = get_elem?-eq-some xs index h in rw (t, e) (subscript-of_list xs index e)
  ]

  pub front_lem : (xs : List T) → front (vec xs) ≡ found_or (vec xs) out_of_range (head? xs)
  unfolding front
  front_lem [] = refl
  front_lem (x ∷ xs) =
      rw (ne→== (length (x ∷ xs)) 0 (omega arith)) (subscript-of_list (x ∷ xs) 0 refl)

  pub back_lem :
      (xs : List T)
      → length xs ≤ cap
      → cap < word_mod
      → back (vec xs) ≡ found_or (vec xs) out_of_range (get_elem? xs (length xs - 1))
  unfolding back
  back_lem [] h w = refl
  back_lem (x ∷ xs) h w =
      let (y, e) = get_elem?-eq-some (x ∷ xs) (length (x ∷ xs) - 1) (omega arith) in
      let last : sub64 (length (x ∷ xs)) 1 ≡ length (x ∷ xs) - 1 = omega arith in
      rw (ne→== (length (x ∷ xs)) 0 (omega arith), last, e)
        (subscript-of_list (x ∷ xs) (length (x ∷ xs) - 1) e)
