-- ===== src/FixedCapacityVector/Iteration.antt =====
-- Iteration over a vector, from `begin` to `end` and from `rbegin` to `rend`.
use cpp_playground.Prelude.{
  ℕ, zero, suc, ◌-◌, ◌≤◌, ◌<◌, Option, none, some, List, [], ◌∷◌, ◌++◌, length, reverse, ◌≡◌, refl,
  ap, sym, ◌∙◌, arith, word_mod, get_elem?-append_middle, snoc_shift, length-snoc, add64, snoc_view,
  append-nil,
}
use mathlib.Core.Option
use mathlib.Core.List.{reverse-append}
use cpp_playground.Storage.{read_at, read_at-filled, filled}
use cpp_playground.FixedCapacityVector.{FixedCapacityVector, begin, end, rbegin, rend}
use cpp_playground.FixedCapacityVector.Layout.{of_list}

module _ {ℓ} {T : Type ℓ} where
  -- A client's `for (auto it = first; it != last; ++it)` that collects `*it`, with `rounds` rounds
  -- left; a read of a slot without a live object has no result.
  pub collect : (rounds first : ℕ) → FixedCapacityVector T → Option (List T)
  collect zero first v = some []
  collect (suc rounds) first v = elim (read_at v.m_buffer first) [
    | none ↦ none
    | some x ↦ Option.map (◌∷◌ x) (collect rounds (suc first) v)
  ]

  -- The same through `std::reverse_iterator`s: `*it` reads the slot before the one kept.
  pub collect_back : (rounds first : ℕ) → FixedCapacityVector T → Option (List T)
  collect_back zero first v = some []
  collect_back (suc rounds) first v = elim (read_at v.m_buffer (first - 1)) [
    | none ↦ none
    | some x ↦ Option.map (◌∷◌ x) (collect_back rounds (first - 1) v)
  ]

module _ {ℓ} {T : Type ℓ} (cap : ℕ) where
  found_at :
      (xs : List T) (y : T) (ys : List T) → read_at (filled cap (xs ++ y ∷ ys)) (length xs) ≡ some y
  found_at xs y ys =
      read_at-filled (xs ++ y ∷ ys) (cap - length (xs ++ y ∷ ys)) (length xs)
      ∙ get_elem?-append_middle xs y ys

  collect_lem :
      (ys xs : List T) → collect (length ys) (length xs) (of_list cap (xs ++ ys)) ≡ some ys
  unfolding collect
  collect_lem [] xs = refl
  collect_lem (y ∷ ys) xs =
      let v : FixedCapacityVector T = of_list cap (xs ++ y ∷ ys) in
      let rest : collect (length ys) (suc (length xs)) v ≡ some ys =
        rw (← length-snoc xs y, snoc_shift xs y ys) (collect_lem ys (xs ++ y ∷ [])) in
      rw (found_at xs y ys, collect, rest)

  collect_back_step :
      (n : ℕ) (zs : List T) (z : T) (ys : List T)
      → length zs ≡ n
      → collect_back n n (of_list cap (zs ++ z ∷ ys)) ≡ some (reverse zs)
      → collect_back (suc n) (suc n) (of_list cap (zs ++ z ∷ ys)) ≡ some (z ∷ reverse zs)
  unfolding collect_back
  collect_back_step n zs z ys long rest =
      let last : suc n - 1 ≡ n = omega arith in
      let here : read_at (filled cap (zs ++ z ∷ ys)) n ≡ some z = rw (← long) (found_at zs z ys) in
      rw (last, here, collect_back, last, rest)

  collect_back_lem :
      (n : ℕ) (xs ys : List T)
      → length xs ≡ n
      → collect_back n n (of_list cap (xs ++ ys)) ≡ some (reverse xs)
  unfolding collect_back
  collect_back_lem zero [] ys e = refl
  collect_back_lem zero (x ∷ xs) ys e = absurd (omega arith)
  collect_back_lem (suc n) xs ys e =
      let (zs, z, split) = snoc_view xs (omega arith) in
      let long : length zs ≡ n = omega (arith, ap length split, length-snoc zs z) in
      let whole : xs ++ ys ≡ zs ++ z ∷ ys = ap (λ l. l ++ ys) split ∙ sym (snoc_shift zs z ys) in
      let back : reverse xs ≡ z ∷ reverse zs = ap reverse split ∙ reverse-append zs (z ∷ []) in
      ap (λ l. collect_back (suc n) (suc n) (of_list cap l)) whole
      ∙ collect_back_step n zs z ys long (collect_back_lem n zs (z ∷ ys) long)
      ∙ ap some (sym back)

  -- On a vector within the capacity, a `std::size_t`, iteration from `begin` to `end` visits the
  -- elements in order, iteration from `rbegin` to `rend` in reverse, and neither reads a slot
  -- without a live object.
  pub iteration :
      (xs : List T)
      → length xs ≤ cap
      → cap < word_mod
      → let v = of_list cap xs in
        (collect (end v - begin v) (begin v) v ≡ some xs)
        × (collect_back (rbegin v - rend v) (rbegin v) v ≡ some (reverse xs))
  unfolding begin end rbegin rend
  iteration xs fits word = (rw distance (collect_lem xs []), rw (distance, index) backwards)
    where
      distance : add64 0 (length xs) - 0 ≡ length xs
      distance = omega arith

      index : add64 0 (length xs) ≡ length xs
      index = omega arith

      backwards : collect_back (length xs) (length xs) (of_list cap xs) ≡ some (reverse xs)
      backwards =
          ap (λ l. collect_back (length xs) (length xs) (of_list cap l)) (sym (append-nil xs))
          ∙ collect_back_lem (length xs) xs [] refl
