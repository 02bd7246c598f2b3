-- ===== src/MatrixView/Bounds.antt =====
-- The elements of a view are elements of its matrix, and different elements are different.
use cpp_playground.Prelude.{
  ℕ, ◌+◌, ◌<◌, word_mod, ◌*◌, ◌≡◌, some, ◌≤◌, arith, lt→ltb, sym, ◌∙◌, ap, ltb-cases, inl, inr, ◌⊎◌,
  add64, le→leb, length, get_elem?, get_elem?-eq-some, mul64, ◌≢◌, refl,
}
use native.Mathlib.Nat.{mul-le-mul_right, suc-mul}
use mathlib.Core.Option.{some-injective}
use cpp_playground.MatrixView.{
  MatrixView, index, address, view, view_of, Matrix, element, as_const, empty_view,
}

-- A view of an array of `n` elements: each of its rows ends within the array.
pub record IsValid (n : ℕ) (v : MatrixView) : Type 0 where
  pub word : n < word_mod
  pub word_rows : v.m_rows < word_mod
  pub word_cols : v.m_cols < word_mod
  pub narrow : v.m_cols ≤ v.m_stride
  pub inside : (row : ℕ) → row < v.m_rows → v.m_data + (row * v.m_stride + v.m_cols) ≤ n

-- A row ends before a later one starts.
pub rows_apart : (r r' s : ℕ) → r < r' → r * s + s ≤ r' * s
rows_apart r r' s h = omega (arith, mul-le-mul_right s h, suc-mul r s)

abbrev pub offset : (row col : ℕ) → MatrixView → ℕ
offset row col v = v.m_data + (row * v.m_stride + col)

-- In a valid view, the address of an element is computed without wrapping, within the array.
pub address_lem :
    (n row col : ℕ) (v : MatrixView)
    → IsValid n v
    → row < v.m_rows
    → col < v.m_cols
    → (address row col v ≡ some (offset row col v)) × (offset row col v < n)
unfolding address index
address_lem n row col v h r c =
    let inside = h.inside row r in
    let small : index row col v ≡ row * v.m_stride + col = omega (arith, h.word) in
    (rw (lt→ltb row v.m_rows r, lt→ltb col v.m_cols c, small), omega (arith, inside))

address-injective :
    (n r c r' c' : ℕ) (v : MatrixView)
    → IsValid n v
    → (r < v.m_rows) × (c < v.m_cols)
    → (r' < v.m_rows) × (c' < v.m_cols)
    → address r c v ≡ address r' c' v
    → (r ≡ r') × (c ≡ c')
address-injective n r c r' c' v h (hr, hc) (hr', hc') e =
    let same : offset r c v ≡ offset r' c' v =
      some-injective (offset r c v) (offset r' c' v)
        (sym (address_lem n r c v h hr hc).0 ∙ e ∙ (address_lem n r' c' v h hr' hc').0) in
    let row : r ≡ r' = elim (ltb-cases r r') [
      | inl (lt, _) ↦ absurd (omega (arith, rows_apart r r' v.m_stride lt, h.narrow))
      | inr (ge, _) ↦ elim (ltb-cases r' r) [
        | inl (lt, _) ↦ absurd (omega (arith, rows_apart r' r v.m_stride lt, h.narrow))
        | inr (le, _) ↦ omega arith
      ]
    ] in
    let scaled : r * v.m_stride ≡ r' * v.m_stride = ap (λ k. k * v.m_stride) row in
    (row, omega arith)

-- In a valid view, elements within its bounds that differ in row or column are at different
-- addresses.
pub distinct_addresses :
    (n r c r' c' : ℕ) (v : MatrixView)
    → IsValid n v
    → (r < v.m_rows) × (c < v.m_cols)
    → (r' < v.m_rows) × (c' < v.m_cols)
    → (r ≢ r') ⊎ (c ≢ c')
    → address r c v ≢ address r' c' v
distinct_addresses n r c r' c' v h a b (inl d) e = d (address-injective n r c r' c' v h a b e).0
distinct_addresses n r c r' c' v h a b (inr d) e = d (address-injective n r c r' c' v h a b e).1

-- A matrix whose elements are all there.
pub record HasShape {ℓ} {T : Type ℓ} (m : Matrix T) : Type 0 where
  pub word : length m.m_data < word_mod
  pub word_rows : m.m_rows < word_mod
  pub word_cols : m.m_cols < word_mod
  pub count : length m.m_data ≡ m.m_rows * m.m_cols

-- The view of a whole matrix is valid, and its elements are those of the matrix.
pub view_of_lem {ℓ} :
    {T : Type ℓ} (m : Matrix T) (row col : ℕ)
    → HasShape m
    → row < m.m_rows
    → col < m.m_cols
    → (w : MatrixView) × (a : ℕ) × (x : T) × (view_of m ≡ some w)
      × IsValid (length m.m_data) w
      × (address row col w ≡ some a)
      × (get_elem? m.m_data a ≡ some x)
      × (element row col m ≡ some x)
unfolding view_of view element
view_of_lem m row col h r c =
    let w : MatrixView = record {
      m_rows = m.m_rows;
      m_cols = m.m_cols;
      m_stride = m.m_cols;
      m_data = 0;
    } in
    let valid : IsValid (length m.m_data) w = record {
      word = h.word;
      word_rows = h.word_rows;
      word_cols = h.word_cols;
      narrow = omega arith;
      inside = λ i hi. omega (arith, h.count, rows_apart i m.m_rows m.m_cols hi);
    } in
    let (found, below) = address_lem (length m.m_data) row col w valid r c in
    let (x, there) = get_elem?-eq-some m.m_data (offset row col w) below in
    let place : add64 (mul64 row m.m_cols) col ≡ offset row col w =
      omega (arith, valid.inside row r, h.word) in
    (
      w,
      offset row col w,
      x,
      rw (le→leb m.m_cols m.m_cols (omega arith)),
      valid,
      found,
      there,
      rw (place, there),
    )

-- The conversion of a view whose stride covers its columns is the same view, and that of a default
-- one too.
as_const_lem :
    (v : MatrixView)
    → v.m_cols ≤ v.m_stride
    → (as_const v ≡ some v) × (as_const empty_view ≡ some empty_view)
unfolding as_const view empty_view
as_const_lem v h = (rw (le→leb v.m_cols v.m_stride h) refl, refl)
