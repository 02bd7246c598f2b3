-- ===== src/MatrixView/Strided/Views.antt =====
-- What `transpose`, `stride` and `subview` show of a view.
use cpp_playground.Prelude.{
  refl, zero, suc, ap₂, sub64, ◌⊎◌, add64, threw, invalid_argument, ◌-◌, returned, ◌/◌, ==-cases,
  inl, inr,
}
use cpp_playground.Prelude.{
  ℕ, ◌+◌, ◌<◌, word_mod, ◌*◌, ◌≡◌, ◌≤◌, arith, mul64, some, lt→ltb, ◌∙◌, ap, sym,
}
use native.Mathlib.Nat.{div-le_self, suc-mul, mul_assoc, mul_comm, le-div_iff_mul-le}
use cpp_playground.MatrixView.Strided.{
  StridedMatrixView, strided_index, strided_address, transpose, ceil_div, stride,
}

-- A view of an array of `n` elements: the place of each element is within the array.
pub record IsValid (n : ℕ) (v : StridedMatrixView) : Type 0 where
  pub word : n < word_mod
  pub word_rows : v.m_rows < word_mod
  pub word_cols : v.m_cols < word_mod
  pub inside :
      (row col : ℕ)
      → row < v.m_rows
      → col < v.m_cols
      → v.m_data + (row * v.m_row_stride + col * v.m_col_stride) < n

abbrev pub place : (row col : ℕ) → StridedMatrixView → ℕ
place row col v = v.m_data + (row * v.m_row_stride + col * v.m_col_stride)

-- In a valid view, the address of an element is computed without wrapping, within the array.
pub strided_address_lem :
    (n row col : ℕ) (v : StridedMatrixView)
    → IsValid n v
    → row < v.m_rows
    → col < v.m_cols
    → (strided_address row col v ≡ some (place row col v)) × (place row col v < n)
unfolding strided_address strided_index
strided_address_lem n row col v h r c =
    let inside = h.inside row col r c in
    let small : strided_index row col v ≡ row * v.m_row_stride + col * v.m_col_stride =
      omega (arith, h.word) in
    (rw (lt→ltb row v.m_rows r, lt→ltb col v.m_cols c, small), inside)

-- The transpose of a valid view is valid, its transpose is the view, and its element in a column and
-- a row within the bounds is the element in the row and the column.
pub transpose_lem :
    (n row col : ℕ) (v : StridedMatrixView)
    → IsValid n v
    → row < v.m_rows
    → col < v.m_cols
    → IsValid n (transpose v)
      × (transpose (transpose v) ≡ v)
      × (strided_address col row (transpose v) ≡ strided_address row col v)
unfolding transpose
transpose_lem n row col v h r c =
    let valid : IsValid n (transpose v) = record {
      word = h.word;
      word_rows = h.word_cols;
      word_cols = h.word_rows;
      inside = λ i j hi hj. omega (arith, h.inside j i hj hi);
    } in
    (
      valid,
      refl,
      (strided_address_lem n col row (transpose v) valid c r).0
          ∙ ap some (omega arith)
          ∙ sym (strided_address_lem n row col v h r c).0,
    )

-- Rounding up, the multiples of a step below a size.
ceil_div_lem :
    (size step i : ℕ) → 0 < step → size + step ≤ word_mod → i < ceil_div size step → i * step < size
unfolding ceil_div
ceil_div_lem size step i positive small h =
    let sum : sub64 (add64 size step) 1 ≡ size + step - 1 = omega arith in
    let below : i < (size + step - 1) / step = rw (← sum) h in
    let least : suc i * step ≤ size + step - 1 = (le-div_iff_mul-le positive).0 below in
    omega (arith, least, suc-mul i step)

ceil_div_all :
    (size step i : ℕ) → 0 < step → size + step ≤ word_mod → i * step < size → i < ceil_div size step
unfolding ceil_div
ceil_div_all size step i positive small h =
    let sum : sub64 (add64 size step) 1 ≡ size + step - 1 = omega arith in
    let least : suc i * step ≤ size + step - 1 = omega (arith, suc-mul i step) in
    rw sum ((le-div_iff_mul-le positive).1 least)

ceil_div-lt : (size step : ℕ) → ceil_div size step < word_mod
unfolding ceil_div
ceil_div-lt size step = omega (arith, div-le_self (sub64 (add64 size step) 1) step)

-- A product of strides that does not wrap unless the index is 0.
scaled : (a s t n : ℕ) → n < word_mod → a * t * s ≤ n → a * mul64 s t ≡ a * t * s
scaled zero s t n word h = omega arith
scaled (suc b) s t n word h =
    let order : s * t ≡ t * s = mul_comm s t in
    let first : suc b * t * s ≡ b * (t * s) + t * s = mul_assoc (suc b) t s ∙ suc-mul b (t * s) in
    let small : mul64 s t ≡ t * s = omega arith in
    ap (λ k. suc b * k) small ∙ sym (mul_assoc (suc b) t s)

-- `w` is a valid view of every `row_step`-th row and every `col_step`-th column of `v`.
pub record IsStrided (n : ℕ) (v : StridedMatrixView) (row_step col_step : ℕ) (w : StridedMatrixView)
    : Type 0 where
  pub valid : IsValid n w
  pub row_inside : (i : ℕ) → i < w.m_rows → i * row_step < v.m_rows
  pub col_inside : (j : ℕ) → j < w.m_cols → j * col_step < v.m_cols
  pub row_shown : (i : ℕ) → i * row_step < v.m_rows → i < w.m_rows
  pub col_shown : (j : ℕ) → j * col_step < v.m_cols → j < w.m_cols
  pub shows :
      (i j : ℕ)
      → i < w.m_rows
      → j < w.m_cols
      → strided_address i j w ≡ strided_address (i * row_step) (j * col_step) v

abbrev strided : (row_step col_step : ℕ) → StridedMatrixView → StridedMatrixView
strided row_step col_step v = record {
  m_data = v.m_data;
  m_rows = ceil_div v.m_rows row_step;
  m_cols = ceil_div v.m_cols col_step;
  m_row_stride = mul64 v.m_row_stride row_step;
  m_col_stride = mul64 v.m_col_stride col_step;
}

strided-IsStrided :
    (n s t : ℕ) (v : StridedMatrixView)
    → IsValid n v
    → (0 < s) × (v.m_rows + s ≤ word_mod)
    → (0 < t) × (v.m_cols + t ≤ word_mod)
    → IsStrided n v s t (strided s t v)
strided-IsStrided n s t v h (ps, ws) (pt, wt) = record {
  valid = valid;
  row_inside = rows;
  col_inside = cols;
  row_shown = λ i. ceil_div_all v.m_rows s i ps ws;
  col_shown = λ j. ceil_div_all v.m_cols t j pt wt;
  shows = λ i j hi hj.
      (strided_address_lem n i j (strided s t v) valid hi hj).0
      ∙ ap some (same i j hi hj)
      ∙ sym (strided_address_lem n (i * s) (j * t) v h (rows i hi) (cols j hj)).0;
}
  where
    rows : (i : ℕ) → i < ceil_div v.m_rows s → i * s < v.m_rows
    rows i hi = ceil_div_lem v.m_rows s i ps ws hi

    cols : (j : ℕ) → j < ceil_div v.m_cols t → j * t < v.m_cols
    cols j hj = ceil_div_lem v.m_cols t j pt wt hj

    same :
        (i j : ℕ)
        → i < ceil_div v.m_rows s
        → j < ceil_div v.m_cols t
        → place i j (strided s t v) ≡ place (i * s) (j * t) v
    same i j hi hj =
        let inside = h.inside (i * s) (j * t) (rows i hi) (cols j hj) in
        let row = scaled i v.m_row_stride s n h.word (omega arith) in
        let col = scaled j v.m_col_stride t n h.word (omega arith) in
        ap₂ (λ a b. v.m_data + (a + b)) row col

    valid : IsValid n (strided s t v)
    valid = record {
      word = h.word;
      word_rows = ceil_div-lt v.m_rows s;
      word_cols = ceil_div-lt v.m_cols t;
      inside = λ i j hi hj. rw (same i j hi hj) (h.inside (i * s) (j * t) (rows i hi) (cols j hj));
    }

-- On a valid view, if no size and step add up to more than 2 ^ 64, `stride` throws exactly if a step
-- is 0; else it returns a valid view of the rows and columns a step apart, the first ones included.
pub stride_lem :
    (n s t : ℕ) (v : StridedMatrixView)
    → IsValid n v
    → v.m_rows + s ≤ word_mod
    → v.m_cols + t ≤ word_mod
    → (((s ≡ 0) ⊎ (t ≡ 0)) × (stride s t v ≡ threw invalid_argument v))
      ⊎ ((w : StridedMatrixView) × (stride s t v ≡ returned w v) × IsStrided n v s t w)
unfolding stride
stride_lem n s t v h ws wt = elim (==-cases s 0) [
  | inl (e, b) ↦ inl (inl e, rw b)
  | inr (ps, b) ↦ elim (==-cases t 0) [
    | inl (e, c) ↦ inl (inr e, rw (b, c))
    | inr (pt, c) ↦
        inr (
          strided s t v,
          rw (b, c),
          strided-IsStrided n s t v h (omega arith, ws) (omega arith, wt),
        )
  ]
]
