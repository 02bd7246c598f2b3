-- ===== src/MatrixView.antt =====
-- src/matrix_view.cpp: a matrix in row-major order, and views of a part of it. A pointer into the
-- elements of a matrix is the index of an element.
pub mod Bounds
pub mod Parts
pub mod Reshape
pub mod Printing
pub mod ViewPrinting
pub mod PartPrinting
pub mod Filling
pub mod WholeViews
pub mod Program
pub mod Strided
mod Tests
use cpp_playground.Prelude.{
  ℕ, ◌+◌, Bool, List, Option, none, some, Action, Outcome, returned, threw, fault, add64, mul64,
  ltb, leb, ◌==◌, ◌||◌, not, if◌then◌else◌, replicate, get_elem?, set, out_of_range, length_error,
  logic_error, length,
}

pub record Matrix {ℓ} (T : Type ℓ) : Type ℓ where
  pub m_data : List T
  pub m_rows : ℕ
  pub m_cols : ℕ

module _ {ℓ} {T : Type ℓ} where
  -- `value` is `T()`.
  pub construct : T → (rows cols : ℕ) → Matrix T
  construct value rows cols = record {
    m_data = replicate (mul64 rows cols) value;
    m_rows = rows;
    m_cols = cols;
  }

  -- `operator()` has no check: none where the element is not there.
  pub element : (row col : ℕ) → Matrix T → Option T
  element row col m = get_elem? m.m_data (add64 (mul64 row m.m_cols) col)

  -- An assignment to `operator()`.
  pub assign : (row col : ℕ) → T → Matrix T → Option (Matrix T)
  assign row col value m =
      let i = add64 (mul64 row m.m_cols) col in
      if ltb i (length m.m_data) then some (record m { m_data = set m.m_data i value }) else none

pub record MatrixView : Type 0 where
  pub m_rows : ℕ
  pub m_cols : ℕ
  pub m_stride : ℕ
  pub m_data : ℕ

-- The default constructor. A null pointer is index 0: there is no element to read.
pub empty_view : MatrixView
empty_view = record { m_rows = 0; m_cols = 0; m_stride = 0; m_data = 0 }

-- The constructor; none where its assertion fails.
pub view : (first rows cols stride : ℕ) → Option MatrixView
view first rows cols stride =
    if leb cols stride
    then some (record { m_rows = rows; m_cols = cols; m_stride = stride; m_data = first })
    else none

-- The constructors from a matrix, and from a constant one.
pub view_of {ℓ} : {T : Type ℓ} → Matrix T → Option MatrixView
unfolding view
view_of m = view 0 m.m_rows m.m_cols m.m_cols

-- The conversion to a view of constants: its constructor asserts again.
pub as_const : MatrixView → Option MatrixView
unfolding view
as_const v = view v.m_data v.m_rows v.m_cols v.m_stride

pub index : (row col : ℕ) → MatrixView → ℕ
index row col v = add64 (mul64 row v.m_stride) col

-- `&operator()(row, col)`; none where an assertion fails.
pub address : (row col : ℕ) → MatrixView → Option ℕ
unfolding index
address row col v =
    if ltb row v.m_rows
    then (if ltb col v.m_cols then some (v.m_data + index row col v) else none)
    else none

pub is_contiguous : MatrixView → Bool
is_contiguous v = v.m_stride == v.m_cols

pub is_empty : MatrixView → Bool
is_empty v = (v.m_rows == 0) || (v.m_cols == 0)

pub subview : (start_row start_column num_rows num_cols : ℕ) → Action MatrixView MatrixView
unfolding index view
subview start_row start_column num_rows num_cols v =
    if ltb v.m_rows (add64 start_row num_rows) || ltb v.m_cols (add64 start_column num_cols)
    then threw out_of_range v
    else elim (view (v.m_data + index start_row start_column v) num_rows num_cols v.m_stride) [
      | none ↦ fault
      | some w ↦ returned w v
    ]

pub crop : (num_rows num_cols : ℕ) → Action MatrixView (Unit {0})
crop num_rows num_cols v =
    if ltb v.m_rows num_rows || ltb v.m_cols num_cols
    then threw length_error v
    else returned tt (record v { m_rows = num_rows; m_cols = num_cols })

pub reshape : (num_rows num_cols : ℕ) → Action MatrixView (Unit {0})
unfolding is_contiguous
reshape num_rows num_cols v =
    if not (is_contiguous v)
    then threw logic_error v
    else if not (mul64 num_rows num_cols == mul64 v.m_rows v.m_cols)
    then threw length_error v
    else returned tt (record v { m_rows = num_rows; m_cols = num_cols; m_stride = num_cols })

pub row_begin : ℕ → MatrixView → ℕ
unfolding index
row_begin row v = v.m_data + index row 0 v

pub row_end : ℕ → MatrixView → ℕ
unfolding row_begin
row_end row v = row_begin row v + v.m_cols
