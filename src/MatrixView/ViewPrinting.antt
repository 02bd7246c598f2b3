-- ===== src/MatrixView/ViewPrinting.antt =====
-- src/matrix_view.cpp: `operator<<` of a view, as the list of what it prints.
use cpp_playground.Prelude.{
  [], ◌∷◌, refl, zero, suc, none, some, List, ℕ, Option, take, ◌+◌, ◌<◌, drop, get_elem?, ◌*◌, ◌++◌,
  ◌≡◌, word_mod, ◌≤◌, add64, length, arith, mul64, ap, lt→ltb, ◌∙◌, ap₂,
}
use cpp_playground.MatrixView.{MatrixView, address, index}
use cpp_playground.MatrixView.Printing.{
  Token, value, blank, newline, row_of, values, lines, drop-cons, values-append, lines-append,
}

module _ {ℓ} {T : Type ℓ} where
  -- `operator()`, read. The elements are those of the matrix that the view points into; none where
  -- an assertion fails or the element is not there.
  unfoldable pub view_element : (row col : ℕ) → MatrixView → List T → Option T
  unfolding address
  view_element row col v xs = elim (address row col v) [ none ↦ none | some a ↦ get_elem? xs a ]

  -- The rest of a row, from column `col` on.
  unfoldable pub view_columns : (rounds col row : ℕ) → MatrixView → List T → Option (List (Token T))
  unfolding view_element
  view_columns zero col row v xs = some []
  view_columns (suc rounds) col row v xs =
      let rest = view_columns rounds (suc col) row v xs in
      elim (view_element row col v xs) [
        | none ↦ none
        | some x ↦ elim rest [ none ↦ none | some ts ↦ some (value x ∷ blank ∷ ts) ]
      ]

  unfoldable pub view_rows : (rounds row : ℕ) → MatrixView → List T → Option (List (Token T))
  unfolding view_columns
  view_rows zero row v xs = some []
  view_rows (suc rounds) row v xs =
      let rest = view_rows rounds (suc row) v xs in
      elim (view_columns v.m_cols 0 row v xs) [
        | none ↦ none
        | some ts ↦ elim rest [ none ↦ none | some us ↦ some (ts ++ newline ∷ us) ]
      ]

  unfoldable pub print_view : MatrixView → List T → Option (List (Token T))
  unfolding view_rows
  print_view v xs = view_rows v.m_rows 0 v xs

  -- The elements of `n` rows from row `row` on, one row after the other.
  abbrev pub row_slices : (n row : ℕ) → MatrixView → List T → List T
  row_slices zero row v xs = []
  row_slices (suc n) row v xs =
      take v.m_cols (drop (v.m_data + row * v.m_stride) xs) ++ row_slices n (suc row) v xs

  -- What is printed for these rows: each element and a blank, and a newline behind each row.
  abbrev pub rendered_slices : (n row : ℕ) → MatrixView → List T → List (Token T)
  rendered_slices zero row v xs = []
  rendered_slices (suc n) row v xs =
      row_of (take v.m_cols (drop (v.m_data + row * v.m_stride) xs))
      ++ newline ∷ rendered_slices n (suc row) v xs

  view_element_lem :
      (row col : ℕ) (v : MatrixView) (xs : List T) (x : T)
      → row < v.m_rows
      → col < v.m_cols
      → row * v.m_stride + col < word_mod
      → get_elem? xs (v.m_data + (row * v.m_stride + col)) ≡ some x
      → view_element row col v xs ≡ some x
  unfolding view_element address index
  view_element_lem row col v xs x r c word e =
      let small : add64 (mul64 row v.m_stride) col ≡ row * v.m_stride + col = omega arith in
      let found : address row col v ≡ some (v.m_data + (row * v.m_stride + col)) =
        rw (address, lt→ltb row v.m_rows r, lt→ltb col v.m_cols c)
          (ap (λ i. some (v.m_data + i)) small) in
      rw (view_element, found) e

  view_columns_lem :
      (rounds col row : ℕ) (v : MatrixView) (xs : List T)
      → row < v.m_rows
      → col + rounds ≡ v.m_cols
      → v.m_data + (row * v.m_stride + v.m_cols) ≤ length xs
      → length xs < word_mod
      → (ts : List (Token T)) × (view_columns rounds col row v xs ≡ some ts)
        × (ts ≡ row_of (take rounds (drop (v.m_data + row * v.m_stride + col) xs)))
        × (values ts ≡ take rounds (drop (v.m_data + row * v.m_stride + col) xs))
        × (lines ts ≡ 0)
  unfolding view_columns
  view_columns_lem zero col row v xs r end fits word = ([], refl, refl, refl, refl)
  view_columns_lem (suc rounds) col row v xs r end fits word =
      let k = v.m_data + row * v.m_stride + col in
      let (x, there, from) = drop-cons xs k (omega (arith, end, fits)) in
      let (ts, ran, laid, read, none_ended) =
        view_columns_lem rounds (suc col) row v xs r (omega (arith, end)) fits word in
      let at : v.m_data + (row * v.m_stride + col) ≡ k = omega arith in
      let found =
        view_element_lem row col v xs x r (omega (arith, end)) (omega (arith, end, fits, word))
          (ap (get_elem? xs) at ∙ there) in
      let after : v.m_data + row * v.m_stride + suc col ≡ suc k = omega arith in
      (
        value x ∷ blank ∷ ts,
        rw (view_columns, found, ran) refl,
        rw from (
            ap (λ us. value x ∷ blank ∷ us)
              (laid ∙ ap (λ j. row_of (take rounds (drop j xs))) after)),
        rw from (ap (λ ys. x ∷ ys) (read ∙ ap (λ j. take rounds (drop j xs)) after)),
        none_ended,
      )

  view_rows_lem :
      (rounds row : ℕ) (v : MatrixView) (xs : List T)
      → row + rounds ≡ v.m_rows
      → ((i : ℕ) → i < v.m_rows → v.m_data + (i * v.m_stride + v.m_cols) ≤ length xs)
      → length xs < word_mod
      → (ts : List (Token T)) × (view_rows rounds row v xs ≡ some ts)
        × (ts ≡ rendered_slices rounds row v xs)
        × (values ts ≡ row_slices rounds row v xs)
        × (lines ts ≡ rounds)
  unfolding view_rows
  view_rows_lem zero row v xs end fits word = ([], refl, refl, refl, refl)
  view_rows_lem (suc rounds) row v xs end fits word =
      let inside : row < v.m_rows = omega (arith, end) in
      let (ts, ran, laid, read, none_ended) =
        view_columns_lem v.m_cols 0 row v xs inside (omega arith) (fits row inside) word in
      let (us, ran', laid', read', ended) =
        view_rows_lem rounds (suc row) v xs (omega (arith, end)) fits word in
      let start : v.m_data + row * v.m_stride + 0 ≡ v.m_data + row * v.m_stride = omega arith in
      (
        ts ++ newline ∷ us,
        rw (view_rows, ran, ran') refl,
        ap₂ (λ ys zs. ys ++ newline ∷ zs)
            (laid ∙ ap (λ j. row_of (take v.m_cols (drop j xs))) start) laid',
        values-append ts (newline ∷ us)
            ∙ ap₂ (λ ys zs. ys ++ zs) (read ∙ ap (λ j. take v.m_cols (drop j xs)) start) read',
        omega (arith, lines-append ts (newline ∷ us), none_ended, ended),
      )

  -- Printing a view whose rows all lie in the elements of a matrix, fewer than 2^64, meets no failed
  -- assertion and reads elements that are there only: it prints for each row the elements of the row
  -- in order, as many as the view has columns, each with a blank behind it, and ends the row with a
  -- newline.
  pub print_view-values :
      (v : MatrixView) (xs : List T)
      → ((i : ℕ) → i < v.m_rows → v.m_data + (i * v.m_stride + v.m_cols) ≤ length xs)
      → length xs < word_mod
      → (ts : List (Token T)) × (print_view v xs ≡ some ts)
        × (ts ≡ rendered_slices v.m_rows 0 v xs)
        × (values ts ≡ row_slices v.m_rows 0 v xs)
        × (lines ts ≡ v.m_rows)
  unfolding print_view
  print_view-values v xs fits word = view_rows_lem v.m_rows 0 v xs (omega arith) fits word
