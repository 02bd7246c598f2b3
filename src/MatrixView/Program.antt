-- ===== src/MatrixView/Program.antt =====
-- src/matrix_view.cpp: `main`. The values are those of `double`, with `zero_value`, `1.0` and
-- `value += 1.0`.
use cpp_playground.MatrixView.Filling.{fill}
use cpp_playground.MatrixView.ViewPrinting.{print_view}
use cpp_playground.Prelude.{[], ◌∷◌, none, some, Option, List, returned, ◌++◌, threw, fault}
use cpp_playground.MatrixView.{Matrix, MatrixView, construct, subview, view_of}
use cpp_playground.MatrixView.Printing.{Token, newline, print}

module _ {ℓ} {T : Type ℓ} (zero_value one : T) (next : T → T) where
  -- `std::cout << view << '\n'`, where the view is that of a part of the matrix.
  pub print_part : Matrix T → MatrixView → Option (List (Token T))
  unfolding subview print_view
  print_part m v = elim (subview 1 1 2 2 v) [
    | returned w _ ↦ elim (print_view w m.m_data) [
      | none ↦ none
      | some ts ↦ some (ts ++ newline ∷ [])
    ]
    | threw e _ ↦ none
    | fault ↦ none
  ]

  pub print_both : Matrix T → Option (List (Token T))
  unfolding print view_of print_part
  print_both m = elim (print m) [
    | none ↦ none
    | some ts ↦ elim (view_of m) [
      | none ↦ none
      | some v ↦ elim (print_part m v) [ none ↦ none | some us ↦ some (ts ++ newline ∷ us) ]
    ]
  ]

  -- What the program prints; none for an exception or undefined behaviour.
  unfoldable pub main : Option (List (Token T))
  unfolding construct fill print_both
  main = elim (fill next one (construct zero_value 3 3)) [
    | none ↦ none
    | some (_, m) ↦ print_both m
  ]
