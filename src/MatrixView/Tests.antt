-- ===== src/MatrixView/Tests.antt =====
-- Runs of the matrix views on small inputs, and the theorems at concrete inputs.
use cpp_playground.MatrixView.WholeViews.{print_view-view_of}
use cpp_playground.MatrixView.Program.{main}
use cpp_playground.MatrixView.PartPrinting.{print_view-subview}
use cpp_playground.MatrixView.ViewPrinting.{print_view}
use cpp_playground.MatrixView.Printing.{
  Token, value, blank, newline, print, values, lines, print-values,
}
use cpp_playground.Prelude.{
  [], ◌∷◌, arith, ℕ, ◌<◌, ◌≡◌, refl, threw, ◌+◌, ◌⊎◌, out_of_range, returned, ◌*◌, invalid_argument,
  List, some, ◌≤◌, length,
}
use cpp_playground.MatrixView.{assign, Matrix, MatrixView, subview, element, view_of}
use cpp_playground.MatrixView.Bounds.{IsValid, HasShape}
use cpp_playground.MatrixView.Parts.{IsPart, subview_lem}
use cpp_playground.MatrixView.Strided.Views
use cpp_playground.MatrixView.Strided.Views.{IsStrided, transpose_lem, stride_lem}
use cpp_playground.MatrixView.Strided.{StridedMatrixView, stride}

-- 2 rows, 3 columns.
abbrev six : Matrix ℕ
six = record { m_data = 1 ∷ 2 ∷ 3 ∷ 4 ∷ 5 ∷ 6 ∷ []; m_rows = 2; m_cols = 3 }

six-HasShape : HasShape six
six-HasShape = record {
  word = omega arith;
  word_rows = omega arith;
  word_cols = omega arith;
  count = refl;
}

abbrev six_view : MatrixView
six_view = record { m_rows = 2; m_cols = 3; m_stride = 3; m_data = 0 }

six_view-IsValid : IsValid 6 six_view
six_view-IsValid = record {
  word = omega arith;
  word_rows = omega arith;
  word_cols = omega arith;
  narrow = omega arith;
  inside = λ i hi. omega arith;
}

abbrev three : ℕ
three = 3

subview_lem_example :
    (((2 < 1 + 1) ⊎ (3 < 1 + 2)) × (subview 1 1 1 2 six_view ≡ threw out_of_range six_view))
    ⊎ ((w : MatrixView) × (subview 1 1 1 2 six_view ≡ returned w six_view)
        × IsPart 6 six_view 1 1 1 2 w)
subview_lem_example = subview_lem 6 1 1 1 2 six_view six_view-IsValid (omega arith) (omega arith)

abbrev six_strided : StridedMatrixView
six_strided = record { m_data = 0; m_rows = 2; m_cols = 3; m_row_stride = 3; m_col_stride = 1 }

six_strided-IsValid : Views.IsValid 6 six_strided
six_strided-IsValid = record {
  word = omega arith;
  word_rows = omega arith;
  word_cols = omega arith;
  inside = λ i j hi hj. omega arith;
}

abbrev two : ℕ
two = 2

stride_lem_example :
    (((two ≡ 0) ⊎ (two ≡ 0)) × (stride 2 2 six_strided ≡ threw invalid_argument six_strided))
    ⊎ ((w : StridedMatrixView) × (stride 2 2 six_strided ≡ returned w six_strided)
        × IsStrided 6 six_strided 2 2 w)
stride_lem_example = stride_lem 6 2 2 six_strided six_strided-IsValid (omega arith) (omega arith)

-- Two rows, as main prints them.
abbrev printed_matrix : Matrix ℕ
printed_matrix = record { m_data = 5 ∷ 6 ∷ 8 ∷ 9 ∷ []; m_rows = 2; m_cols = 2 }

abbrev printed_tokens : List (Token ℕ)
printed_tokens =
    value 5 ∷ blank ∷ value 6 ∷ blank ∷ newline ∷ value 8 ∷ blank ∷ value 9 ∷ blank ∷ newline ∷ []

printed_lem : print printed_matrix ≡ some printed_tokens
unfolding print element
printed_lem = refl

print-values_example :
    (print printed_matrix ≡ some printed_tokens)
    × (values printed_tokens ≡ 5 ∷ 6 ∷ 8 ∷ 9 ∷ [])
    × (lines printed_tokens ≡ 2)
print-values_example = print-values printed_matrix refl (omega arith)

-- `main` with numbers for its values.
program_lem :
    main 0 1 (λ n. n + 1)
    ≡ some (
        value 1
        ∷ blank
        ∷ value 2
        ∷ blank
        ∷ value 3
        ∷ blank
        ∷ newline
        ∷ value 4
        ∷ blank
        ∷ value 5
        ∷ blank
        ∷ value 6
        ∷ blank
        ∷ newline
        ∷ value 7
        ∷ blank
        ∷ value 8
        ∷ blank
        ∷ value 9
        ∷ blank
        ∷ newline
        ∷ newline
        ∷ value 5
        ∷ blank
        ∷ value 6
        ∷ blank
        ∷ newline
        ∷ value 8
        ∷ blank
        ∷ value 9
        ∷ blank
        ∷ newline
        ∷ newline
        ∷ [])
unfolding main assign element
program_lem = refl

print_view-view_of_example :
    (v : MatrixView) × (view_of printed_matrix ≡ some v)
    × (print_view v (5 ∷ 6 ∷ 8 ∷ 9 ∷ []) ≡ print printed_matrix)
print_view-view_of_example = print_view-view_of printed_matrix

-- Three rows of three elements.
abbrev square : MatrixView
square = record { m_rows = 3; m_cols = 3; m_stride = 3; m_data = 0 }

abbrev nine : List ℕ
nine = 1 ∷ 2 ∷ 3 ∷ 4 ∷ 5 ∷ 6 ∷ 7 ∷ 8 ∷ 9 ∷ []

square_fits : (i : ℕ) → i < 3 → 0 + (i * 3 + 3) ≤ length nine
square_fits i h = omega arith

print_view-subview_example :
    (w : MatrixView) × (ts : List (Token ℕ)) × (subview 1 1 2 2 square ≡ returned w square)
    × (print_view w nine ≡ some ts)
    × (ts ≡ printed_tokens)
    × (values ts ≡ 5 ∷ 6 ∷ 8 ∷ 9 ∷ [])
    × (lines ts ≡ 2)
print_view-subview_example =
    print_view-subview square nine 1 1 2 2 square_fits (omega arith) (omega arith) (omega arith)
      (omega arith) (omega arith) (omega arith)
