-- ===== src/FixedCapacityVector/Init.antt =====
-- The initializer list constructor.
use cpp_playground.Prelude.{
  ℕ, ◌≤◌, ◌<◌, List, [], ◌∷◌, ◌++◌, length, ◌≡◌, ap, ◌∙◌, arith, word_mod, append-nil,
  length-append, returned, snoc_shift, if◌then◌else◌, ltb, threw, inl, length_error, inr, ltb-cases,
}
use cpp_playground.FixedCapacityVector.{append_items, construct_init}
use cpp_playground.FixedCapacityVector.Layout.{of_list, construct-of_list}
use cpp_playground.FixedCapacityVector.Elements.{construct_and_count_then}

module _ {ℓ} {T : Type ℓ} (cap : ℕ) (word : cap < word_mod) where
  append_items_lem :
      (init xs : List T)
      → length (xs ++ init) ≤ cap
      → append_items cap init (of_list cap xs) ≡ returned tt (of_list cap (xs ++ init))
  unfolding append_items
  append_items_lem [] xs fits = rw append-nil
  append_items_lem (x ∷ init) xs fits =
      construct_and_count_then cap (append_items cap init) xs x
        (omega (arith, length-append xs (x ∷ init))) word
      ∙ rw (snoc_shift xs x init)
          (append_items_lem init (xs ++ x ∷ []) (omega (arith, ap length (snoc_shift xs x init))))

  -- Construction from an initializer list, the capacity a `std::size_t`, throws exactly if the list
  -- is longer than the capacity, and else gives a vector of its elements in order.
  pub construct_init_lem :
      (init : List T)
      → construct_init cap init ≡ (
          if ltb cap (length init)
          then threw length_error (of_list cap [])
          else returned tt (of_list cap init))
  unfolding construct_init
  construct_init_lem init = elim (ltb-cases cap (length init)) [
    | inl (more, t) ↦ rw (t, construct-of_list)
    | inr (fits, t) ↦ rw (t, construct-of_list) (append_items_lem init [] fits)
  ]
