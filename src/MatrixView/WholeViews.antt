-- ===== src/MatrixView/WholeViews.antt =====
-- src/matrix_view.cpp: a view of a whole matrix prints what the matrix prints.
use cpp_playground.MatrixView.ViewPrinting.{print_view, view_columns, view_element, view_rows}
use native.Mathlib.Nat.{zero-add}
use cpp_playground.Prelude.{
  ◌∷◌, refl, zero, suc, none, some, ◌≡◌, arith, le→leb, ℕ, ◌+◌, ◌<◌, add64, mul64, lt→ltb, ap,
  get_elem?, Option, ap₂, List, ◌++◌,
}
use cpp_playground.MatrixView.{Matrix, MatrixView, address, view_of, element, view, index}
use cpp_playground.MatrixView.Printing.{
  Token, value, blank, newline, print, print_columns, print_rows,
}

module _ {ℓ} {T : Type ℓ} where
  -- The view of a whole matrix.
  abbrev whole : Matrix T → MatrixView
  whole m = record { m_rows = m.m_rows; m_cols = m.m_cols; m_stride = m.m_cols; m_data = 0 }

  view_of-whole : (m : Matrix T) → view_of m ≡ some (whole m)
  unfolding view_of view
  view_of-whole m = rw (le→leb m.m_cols m.m_cols (omega arith)) refl

  view_element-whole :
      (row col : ℕ) (m : Matrix T)
      → row < m.m_rows
      → col < m.m_cols
      → view_element row col (whole m) m.m_data ≡ element row col m
  unfolding view_element element address index
  view_element-whole row col m r c =
      let i = add64 (mul64 row m.m_cols) col in
      let found : address row col (whole m) ≡ some (0 + i) =
        rw (address, lt→ltb row m.m_rows r, lt→ltb col m.m_cols c) refl in
      rw (view_element, found) (ap (get_elem? m.m_data) (zero-add i))

  -- What a round of the inner loop prints, and what one of the outer loop does.
  abbrev one_element : Option T → Option (List (Token T)) → Option (List (Token T))
  one_element o rest = elim o [
    | none ↦ none
    | some x ↦ elim rest [ none ↦ none | some ts ↦ some (value x ∷ blank ∷ ts) ]
  ]

  abbrev one_row : Option (List (Token T)) → Option (List (Token T)) → Option (List (Token T))
  one_row o rest = elim o [
    | none ↦ none
    | some ts ↦ elim rest [ none ↦ none | some us ↦ some (ts ++ newline ∷ us) ]
  ]

  whole_columns :
      (rounds col row : ℕ) (m : Matrix T)
      → row < m.m_rows
      → col + rounds ≡ m.m_cols
      → view_columns rounds col row (whole m) m.m_data ≡ print_columns rounds col row m
  unfolding view_columns print_columns
  whole_columns zero col row m r end = refl
  whole_columns (suc rounds) col row m r end =
      ap₂ one_element (view_element-whole row col m r (omega (arith, end)))
        (whole_columns rounds (suc col) row m r (omega (arith, end)))

  whole_rows :
      (rounds row : ℕ) (m : Matrix T)
      → row + rounds ≡ m.m_rows
      → view_rows rounds row (whole m) m.m_data ≡ print_rows rounds row m
  unfolding view_rows print_rows
  whole_rows zero row m end = refl
  whole_rows (suc rounds) row m end =
      ap₂ one_row (whole_columns m.m_cols 0 row m (omega (arith, end)) (omega arith))
        (whole_rows rounds (suc row) m (omega (arith, end)))

  -- The view of a matrix that its constructor makes exists, and printing it does what printing the
  -- matrix does: the same output, or none for both.
  pub print_view-view_of :
      (m : Matrix T) → (v : MatrixView) × (view_of m ≡ some v) × (print_view v m.m_data ≡ print m)
  unfolding print_view print
  print_view-view_of m = (whole m, view_of-whole m, whole_rows m.m_rows 0 m (omega arith))
