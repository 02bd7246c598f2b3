-- ===== src/MatrixView/Reshape.antt =====
-- `reshape` keeps the elements in row-major order.
use cpp_playground.Prelude.{
  ℕ, ◌+◌, ◌<◌, word_mod, ◌*◌, ◌≡◌, some, ◌≤◌, arith, sym, ◌∙◌, ap, inl, refl, inr, ◌⊎◌, threw,
  length_error, returned, ◌≢◌, logic_error, mul64, ==-cases, ◌-◌, suc,
}
use native.Mathlib.Nat.{suc-mul}
use cpp_playground.MatrixView.{MatrixView, address, reshape, is_contiguous}
use cpp_playground.MatrixView.Bounds.{IsValid, address_lem, rows_apart}

-- `w` is a valid view where elements at the same place in row-major order are those of `v`.
pub record IsReshaped (n : ℕ) (v : MatrixView) (nr nc : ℕ) (w : MatrixView) : Type 0 where
  pub valid : IsValid n w
  pub rows : w.m_rows ≡ nr
  pub cols : w.m_cols ≡ nc
  pub order :
      (i j row col : ℕ)
      → (i < nr) × (j < nc)
      → (row < v.m_rows) × (col < v.m_cols)
      → i * nc + j ≡ row * v.m_cols + col
      → address i j w ≡ address row col v

reshaped :
    (n nr nc : ℕ) (v : MatrixView)
    → IsValid n v
    → 0 < v.m_rows
    → nr < word_mod
    → nc < word_mod
    → v.m_stride ≡ v.m_cols
    → nr * nc ≡ v.m_rows * v.m_cols
    → IsReshaped n v nr nc (record v { m_rows = nr; m_cols = nc; m_stride = nc })
reshaped n nr nc v h some_row wr wc tight same = record {
  valid = valid;
  rows = refl;
  cols = refl;
  order = λ i j row col a b k.
      (address_lem n i j w valid a.0 a.1).0
      ∙ ap some (omega (arith, ap (λ s. row * s) tight))
      ∙ sym (address_lem n row col v h b.0 b.1).0;
}
  where
    w : MatrixView
    w = record v { m_rows = nr; m_cols = nc; m_stride = nc }

    all : v.m_data + v.m_rows * v.m_cols ≤ n
    all =
        let k : ℕ = v.m_rows - 1 in
        let e : v.m_rows ≡ suc k = omega arith in
        let whole : v.m_rows * v.m_cols ≡ k * v.m_cols + v.m_cols =
          ap (λ r. r * v.m_cols) e ∙ suc-mul k v.m_cols in
        omega (arith, h.inside k (omega arith), ap (λ s. k * s) tight, whole)

    valid : IsValid n w
    valid = record {
      word = h.word;
      word_rows = wr;
      word_cols = wc;
      narrow = omega arith;
      inside = λ i hi. omega (arith, rows_apart i nr nc hi, all);
    }

-- On a valid view with rows, for numbers that a `std::size_t` holds, `reshape` throws and changes
-- nothing exactly if there is a gap between the rows or the number of elements changes; else it
-- leaves a valid view where elements at the same place in row-major order are the same.
pub reshape_lem :
    (n nr nc : ℕ) (v : MatrixView)
    → IsValid n v
    → 0 < v.m_rows
    → (nr < word_mod) × (nc < word_mod)
    → (nr * nc < word_mod) × (v.m_rows * v.m_cols < word_mod)
    → ((v.m_stride ≢ v.m_cols) × (reshape nr nc v ≡ threw logic_error v))
      ⊎ ((nr * nc ≢ v.m_rows * v.m_cols) × (reshape nr nc v ≡ threw length_error v))
      ⊎ ((w : MatrixView) × (reshape nr nc v ≡ returned tt w) × IsReshaped n v nr nc w)
unfolding reshape is_contiguous
reshape_lem n nr nc v h some_row (wr, wc) (w1, w2) =
    let p : mul64 nr nc ≡ nr * nc = omega arith in
    let q : mul64 v.m_rows v.m_cols ≡ v.m_rows * v.m_cols = omega arith in
    elim (==-cases v.m_stride v.m_cols) [
      | inr (gap, t) ↦ inl (gap, rw t)
      | inl (tight, t) ↦ elim (==-cases (nr * nc) (v.m_rows * v.m_cols)) [
        | inr (other, u) ↦ inr (inl (other, rw (t, p, q, u)))
        | inl (same, u) ↦ inr (
            inr (
              record v { m_rows = nr; m_cols = nc; m_stride = nc },
              rw (t, p, q, u),
              reshaped n nr nc v h some_row wr wc tight same,
            ))
      ]
    ]
