-- ===== src/MatrixView/Strided.antt =====
-- src/matrix_view.cpp: views with a step from row to row and one from column to column.
pub mod Views
pub mod Parts
use cpp_playground.Prelude.{
  ℕ, ◌+◌, ◌/◌, Option, none, some, Action, returned, threw, add64, mul64, sub64, ltb, ◌==◌, ◌||◌,
  if◌then◌else◌, out_of_range, invalid_argument,
}
use cpp_playground.MatrixView.{Matrix}

pub record StridedMatrixView : Type 0 where
  pub m_data : ℕ
  pub m_rows : ℕ
  pub m_cols : ℕ
  pub m_row_stride : ℕ
  pub m_col_stride : ℕ

-- The default constructor leaves the pointer without a value: `indeterminate` is what it then is.
pub empty_strided_view : (indeterminate : ℕ) → StridedMatrixView
empty_strided_view indeterminate = record {
  m_data = indeterminate;
  m_rows = 0;
  m_cols = 0;
  m_row_stride = 0;
  m_col_stride = 0;
}

-- The constructors from a matrix, and from a constant one.
pub strided_view_of {ℓ} : {T : Type ℓ} → Matrix T → StridedMatrixView
strided_view_of m = record {
  m_data = 0;
  m_rows = m.m_rows;
  m_cols = m.m_cols;
  m_row_stride = m.m_cols;
  m_col_stride = 1;
}

-- The conversion to a view of constants.
pub strided_as_const : StridedMatrixView → StridedMatrixView
strided_as_const v = record {
  m_data = v.m_data;
  m_rows = v.m_rows;
  m_cols = v.m_cols;
  m_row_stride = v.m_row_stride;
  m_col_stride = v.m_col_stride;
}

pub strided_index : (row col : ℕ) → StridedMatrixView → ℕ
strided_index row col v = add64 (mul64 row v.m_row_stride) (mul64 col v.m_col_stride)

-- `&operator()(row, col)`; none where an assertion fails.
pub strided_address : (row col : ℕ) → StridedMatrixView → Option ℕ
unfolding strided_index
strided_address row col v =
    if ltb row v.m_rows
    then (if ltb col v.m_cols then some (v.m_data + strided_index row col v) else none)
    else none

pub strided_subview :
    (start_row start_col num_rows num_cols : ℕ) → Action StridedMatrixView StridedMatrixView
unfolding strided_index
strided_subview start_row start_col num_rows num_cols v =
    if ltb v.m_rows (add64 start_row num_rows) || ltb v.m_cols (add64 start_col num_cols)
    then threw out_of_range v
    else returned
        (record v {
          m_data = v.m_data + strided_index start_row start_col v;
          m_rows = num_rows;
          m_cols = num_cols;
        })
        v

pub transpose : StridedMatrixView → StridedMatrixView
transpose v = record {
  m_data = v.m_data;
  m_rows = v.m_cols;
  m_cols = v.m_rows;
  m_row_stride = v.m_col_stride;
  m_col_stride = v.m_row_stride;
}

-- `(size + step - 1) / step`
pub ceil_div : (size step : ℕ) → ℕ
ceil_div size step = sub64 (add64 size step) 1 / step

pub stride : (row_step col_step : ℕ) → Action StridedMatrixView StridedMatrixView
unfolding ceil_div
stride row_step col_step v =
    if (row_step == 0) || (col_step == 0)
    then threw invalid_argument v
    else returned
        (record {
          m_data = v.m_data;
          m_rows = ceil_div v.m_rows row_step;
          m_cols = ceil_div v.m_cols col_step;
          m_row_stride = mul64 v.m_row_stride row_step;
          m_col_stride = mul64 v.m_col_stride col_step;
        })
        v
