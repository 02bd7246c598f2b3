-- ===== src/MatrixView/Strided/Parts.antt =====
-- What `subview` shows of a view with strides, and when it throws.
use cpp_playground.Prelude.{
  refl, ℕ, ◌+◌, ◌≡◌, ◌<◌, ◌≤◌, arith, word_mod, ◌∙◌, ◌⊎◌, ap, threw, out_of_range, some, returned,
  sym, add64, ltb-cases, inl, inr,
}
use native.Mathlib.Nat.{add-mul}
use cpp_playground.MatrixView.Strided.{
  StridedMatrixView, strided_index, strided_address, strided_subview,
}
use cpp_playground.MatrixView.Strided.Views.{IsValid, strided_address_lem, place}

-- `w` is a valid view that shows part of another: element (0, 0) is the other's (row, col).
pub record IsPart (n : ℕ) (v : StridedMatrixView) (row col num_rows num_cols : ℕ)
    (w : StridedMatrixView) : Type 0 where
  pub valid : IsValid n w
  pub rows : w.m_rows ≡ num_rows
  pub cols : w.m_cols ≡ num_cols
  pub shows :
      (i j : ℕ)
      → i < num_rows
      → j < num_cols
      → strided_address i j w ≡ strided_address (row + i) (col + j) v

abbrev part : (row col num_rows num_cols : ℕ) → StridedMatrixView → StridedMatrixView
part row col num_rows num_cols v = record v {
  m_data = v.m_data + strided_index row col v;
  m_rows = num_rows;
  m_cols = num_cols;
}

part-IsPart :
    (n sr sc nr nc : ℕ) (v : StridedMatrixView)
    → IsValid n v
    → sr + nr ≤ v.m_rows
    → sc + nc ≤ v.m_cols
    → IsPart n v sr sc nr nc (part sr sc nr nc v)
unfolding strided_index
part-IsPart n sr sc nr nc v h fits_rows fits_cols = record {
  valid = valid;
  rows = refl;
  cols = refl;
  shows = λ i j hi hj.
      (strided_address_lem n i j (part sr sc nr nc v) valid hi hj).0
      ∙ ap some (same i j hi hj)
      ∙ sym (strided_address_lem n (sr + i) (sc + j) v h (omega arith) (omega arith)).0;
}
  where
    same : (i j : ℕ) → i < nr → j < nc → place i j (part sr sc nr nc v) ≡ place (sr + i) (sc + j) v
    same i j hi hj =
        let inside = h.inside sr sc (omega arith) (omega arith) in
        omega (arith, h.word, inside, add-mul sr i v.m_row_stride, add-mul sc j v.m_col_stride)

    valid : IsValid n (part sr sc nr nc v)
    valid = record {
      word = h.word;
      word_rows = omega (arith, h.word_rows);
      word_cols = omega (arith, h.word_cols);
      inside =
          λ i j hi hj. rw (same i j hi hj) (h.inside (sr + i) (sc + j) (omega arith) (omega arith));
    }

-- On a valid view, if no end of the part passes the greatest `std::size_t`, `subview` throws exactly
-- if the part is not within the bounds; else it returns a valid view that shows the part.
pub strided_subview_lem :
    (n sr sc nr nc : ℕ) (v : StridedMatrixView)
    → IsValid n v
    → sr + nr < word_mod
    → sc + nc < word_mod
    → (((v.m_rows < sr + nr) ⊎ (v.m_cols < sc + nc))
        × (strided_subview sr sc nr nc v ≡ threw out_of_range v))
      ⊎ ((w : StridedMatrixView) × (strided_subview sr sc nr nc v ≡ returned w v)
          × IsPart n v sr sc nr nc w)
unfolding strided_subview
strided_subview_lem n sr sc nr nc v h wr wc =
    let er : add64 sr nr ≡ sr + nr = omega arith in
    let ec : add64 sc nc ≡ sc + nc = omega arith in
    elim (ltb-cases v.m_rows (sr + nr)) [
      | inl (out, t) ↦ inl (inl out, rw (er, t))
      | inr (fits, t) ↦ elim (ltb-cases v.m_cols (sc + nc)) [
        | inl (out, u) ↦ inl (inr out, rw (er, ec, t, u))
        | inr (fits', u) ↦
            inr (part sr sc nr nc v, rw (er, ec, t, u), part-IsPart n sr sc nr nc v h fits fits')
      ]
    ]
