-- ===== src/MatrixView/PartPrinting.antt =====
-- src/matrix_view.cpp: what a part of a view prints.
use cpp_playground.MatrixView.ViewPrinting.{
  row_slices, rendered_slices, print_view, print_view-values,
}
use native.Mathlib.Nat.{add-mul}
use cpp_playground.Prelude.{
  [], ◌∷◌, refl, zero, suc, some, ℕ, List, ◌*◌, ◌+◌, take, ◌<◌, ◌≤◌, drop, length, word_mod, ◌≡◌,
  arith, returned, take-take, ◌++◌, ap₂, ap, not_lt→ltb, ◌∙◌, add64, le→leb, sym,
}
use cpp_playground.MatrixView.{MatrixView, subview, index, view}
use cpp_playground.MatrixView.Printing.{Token, newline, row_of, values, lines, drop-drop}

index_small :
    (v : MatrixView) (row col : ℕ)
    → row * v.m_stride + col < word_mod
    → index row col v ≡ row * v.m_stride + col
unfolding index
index_small v row col h = omega (arith, h)

-- The part of a view that `subview` gives.
abbrev part : (start_row start_column num_rows num_cols : ℕ) → MatrixView → MatrixView
part start_row start_column num_rows num_cols v = record {
  m_rows = num_rows;
  m_cols = num_cols;
  m_stride = v.m_stride;
  m_data = v.m_data + index start_row start_column v;
}

module _ {ℓ} {T : Type ℓ} where
  -- The elements of `n` rows of a view from row `row` on, in `num_cols` columns from `col` on.
  abbrev pub block : (n row col num_cols : ℕ) → MatrixView → List T → List T
  block zero row col num_cols v xs = []
  block (suc n) row col num_cols v xs =
      take num_cols (drop col (take v.m_cols (drop (v.m_data + row * v.m_stride) xs)))
      ++ block n (suc row) col num_cols v xs

  -- What is printed for these elements: each one and a blank, and a newline behind each row.
  abbrev pub rendered_block : (n row col num_cols : ℕ) → MatrixView → List T → List (Token T)
  rendered_block zero row col num_cols v xs = []
  rendered_block (suc n) row col num_cols v xs =
      row_of (take num_cols (drop col (take v.m_cols (drop (v.m_data + row * v.m_stride) xs))))
      ++ newline ∷ rendered_block n (suc row) col num_cols v xs

  take-drop-take :
      (n k c : ℕ) (ys : List T) → k + n ≤ c → take n (drop k (take c ys)) ≡ take n (drop k ys)
  take-drop-take n zero c ys h = take-take n c ys (omega (arith, h))
  take-drop-take n (suc k) zero ys h = absurd (omega (arith, h))
  take-drop-take n (suc k) (suc c) [] h = refl
  take-drop-take n (suc k) (suc c) (y ∷ ys) h = take-drop-take n k c ys (omega (arith, h))

  -- One row of the part.
  slice_part :
      (row sr sc nc : ℕ) (v : MatrixView) (xs : List T)
      → index sr sc v ≡ sr * v.m_stride + sc
      → sc + nc ≤ v.m_cols
      → take nc (drop (v.m_data + index sr sc v + row * v.m_stride) xs)
        ≡ take nc (drop sc (take v.m_cols (drop (v.m_data + (sr + row) * v.m_stride) xs)))
  slice_part row sr sc nc v xs at fits =
      let first = v.m_data + (sr + row) * v.m_stride in
      let same : v.m_data + index sr sc v + row * v.m_stride ≡ first + sc =
        omega (arith, at, add-mul sr row v.m_stride) in
      ap (λ k. take nc (drop k xs)) same
      ∙ ap (take nc) (drop-drop sc first xs)
      ∙ sym (take-drop-take nc sc v.m_cols (drop first xs) fits)

  slices_block :
      (n row sr sc nr nc : ℕ) (v : MatrixView) (xs : List T)
      → (0 < n → index sr sc v ≡ sr * v.m_stride + sc)
      → sc + nc ≤ v.m_cols
      → row_slices n row (part sr sc nr nc v) xs ≡ block n (sr + row) sc nc v xs
  slices_block zero row sr sc nr nc v xs at fits = refl
  slices_block (suc n) row sr sc nr nc v xs at fits =
      let next : sr + suc row ≡ suc (sr + row) = omega arith in
      ap₂ (λ ys zs. ys ++ zs) (slice_part row sr sc nc v xs (at (omega arith)) fits)
        (slices_block n (suc row) sr sc nr nc v xs (λ h. at (omega arith)) fits
          ∙ ap (λ k. block n k sc nc v xs) next)

  rendered_slices_block :
      (n row sr sc nr nc : ℕ) (v : MatrixView) (xs : List T)
      → (0 < n → index sr sc v ≡ sr * v.m_stride + sc)
      → sc + nc ≤ v.m_cols
      → rendered_slices n row (part sr sc nr nc v) xs ≡ rendered_block n (sr + row) sc nc v xs
  rendered_slices_block zero row sr sc nr nc v xs at fits = refl
  rendered_slices_block (suc n) row sr sc nr nc v xs at fits =
      let next : sr + suc row ≡ suc (sr + row) = omega arith in
      ap₂ (λ ys zs. row_of ys ++ newline ∷ zs)
        (slice_part row sr sc nc v xs (at (omega arith)) fits)
        (rendered_slices_block n (suc row) sr sc nr nc v xs (λ h. at (omega arith)) fits
          ∙ ap (λ k. rendered_block n k sc nc v xs) next)

  -- For a view whose rows all lie in the elements of a matrix, fewer than 2^64, whose stride covers
  -- its columns, and which has fewer than 2^64 rows and columns: `subview` of rows and columns that
  -- the view has returns a view, and printing it meets no failed assertion and prints, row by row,
  -- the elements of these rows of the view in these columns, each with a blank behind it, and a
  -- newline behind each row.
  pub print_view-subview :
      (v : MatrixView) (xs : List T) (sr sc nr nc : ℕ)
      → ((i : ℕ) → i < v.m_rows → v.m_data + (i * v.m_stride + v.m_cols) ≤ length xs)
      → length xs < word_mod
      → v.m_cols ≤ v.m_stride
      → v.m_rows < word_mod
      → v.m_cols < word_mod
      → sr + nr ≤ v.m_rows
      → sc + nc ≤ v.m_cols
      → (w : MatrixView) × (ts : List (Token T)) × (subview sr sc nr nc v ≡ returned w v)
        × (print_view w xs ≡ some ts)
        × (ts ≡ rendered_block nr sr sc nc v xs)
        × (values ts ≡ block nr sr sc nc v xs)
        × (lines ts ≡ nr)
  unfolding subview view
  print_view-subview v xs sr sc nr nc fits word covers few_rows few_cols rows cols =
      let w = part sr sc nr nc v in
      let at : 0 < nr → index sr sc v ≡ sr * v.m_stride + sc = λ some_rows.
        index_small v sr sc (omega (arith, fits sr (omega (arith, rows, some_rows)), word, cols)) in
      let inside : (i : ℕ) → i < nr → w.m_data + (i * v.m_stride + nc) ≤ length xs = λ i h. omega (
        arith,
        at (omega (arith, h)),
        fits (sr + i) (omega (arith, rows, h)),
        add-mul sr i v.m_stride,
        cols,
      ) in
      let (ts, ran, laid, read, ended) = print_view-values w xs inside word in
      let start : sr + 0 ≡ sr = omega arith in
      (
        w,
        ts,
        rw
            (
              not_lt→ltb v.m_rows (add64 sr nr) (omega (arith, rows, few_rows)),
              not_lt→ltb v.m_cols (add64 sc nc) (omega (arith, cols, few_cols)),
              le→leb nc v.m_stride (omega (arith, cols, covers)),
            )
            refl,
        ran,
        laid
            ∙ rendered_slices_block nr 0 sr sc nr nc v xs at cols
            ∙ ap (λ k. rendered_block nr k sc nc v xs) start,
        read ∙ slices_block nr 0 sr sc nr nc v xs at cols ∙ ap (λ k. block nr k sc nc v xs) start,
        ended,
      )
