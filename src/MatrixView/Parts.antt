-- ===== src/MatrixView/Parts.antt =====
-- `subview` and `crop`: what they show, and when they throw.
use cpp_playground.Prelude.{
  ℕ, ◌+◌, ◌<◌, word_mod, ◌*◌, ◌≡◌, some, ◌≤◌, arith, sym, ◌∙◌, ap, ltb-cases, inl, refl, inr, ◌⊎◌,
  threw, length_error, out_of_range, returned, add64, le→leb, ap₂,
}
use native.Mathlib.Nat.{add-mul}
use cpp_playground.MatrixView.{MatrixView, index, address, subview, crop, view}
use cpp_playground.MatrixView.Bounds.{IsValid, offset, address_lem}

-- `w` is a valid view that shows part of another: element (0, 0) is the other's (row, col).
pub record IsPart (n : ℕ) (v : MatrixView) (row col num_rows num_cols : ℕ) (w : MatrixView)
    : Type 0 where
  pub valid : IsValid n w
  pub rows : w.m_rows ≡ num_rows
  pub cols : w.m_cols ≡ num_cols
  pub shows :
      (i j : ℕ) → i < num_rows → j < num_cols → address i j w ≡ address (row + i) (col + j) v

-- A part within the bounds of a valid view.
part_lem :
    (n sr sc nr nc : ℕ) (v : MatrixView)
    → IsValid n v
    → sr + nr ≤ v.m_rows
    → sc + nc ≤ v.m_cols
    → IsPart n v sr sc nr nc (record {
      m_rows = nr;
      m_cols = nc;
      m_stride = v.m_stride;
      m_data = v.m_data + index sr sc v;
    })
unfolding index
part_lem n sr sc nr nc v h fits_rows fits_cols = record {
  valid = valid;
  rows = refl;
  cols = refl;
  shows = λ i j hi hj.
      (address_lem n i j w valid hi hj).0
      ∙ ap some (same i j hi hj)
      ∙ sym (address_lem n (sr + i) (sc + j) v h (omega arith) (omega arith)).0;
}
  where
    w : MatrixView
    w = record {
      m_rows = nr;
      m_cols = nc;
      m_stride = v.m_stride;
      m_data = v.m_data + index sr sc v;
    }

    start : (i : ℕ) → i < nr → index sr sc v ≡ sr * v.m_stride + sc
    start i hi = omega (arith, h.word, h.inside sr (omega arith))

    same : (i j : ℕ) → i < nr → j < nc → offset i j w ≡ offset (sr + i) (sc + j) v
    same i j hi hj = omega (arith, start i hi, add-mul sr i v.m_stride)

    valid : IsValid n w
    valid = record {
      word = h.word;
      word_rows = omega (arith, h.word_rows);
      word_cols = omega (arith, h.word_cols);
      narrow = omega (arith, h.narrow);
      inside = λ i hi.
          omega (arith, start i hi, add-mul sr i v.m_stride, h.inside (sr + i) (omega arith));
    }

-- On a valid view, if no end of the part passes the greatest `std::size_t`, `subview` throws exactly
-- if the part is not within the bounds; else it returns a valid view that shows the part.
pub subview_lem :
    (n sr sc nr nc : ℕ) (v : MatrixView)
    → IsValid n v
    → sr + nr < word_mod
    → sc + nc < word_mod
    → (((v.m_rows < sr + nr) ⊎ (v.m_cols < sc + nc))
        × (subview sr sc nr nc v ≡ threw out_of_range v))
      ⊎ ((w : MatrixView) × (subview sr sc nr nc v ≡ returned w v) × IsPart n v sr sc nr nc w)
unfolding subview view
subview_lem n sr sc nr nc v h wr wc =
    let er : add64 sr nr ≡ sr + nr = omega arith in
    let ec : add64 sc nc ≡ sc + nc = omega arith in
    elim (ltb-cases v.m_rows (sr + nr)) [
      | inl (out, t) ↦ inl (inl out, rw (er, t))
      | inr (fits, t) ↦ elim (ltb-cases v.m_cols (sc + nc)) [
        | inl (out, u) ↦ inl (inr out, rw (er, ec, t, u))
        | inr (fits', u) ↦ inr (
          record {
            m_rows = nr;
            m_cols = nc;
            m_stride = v.m_stride;
            m_data = v.m_data + index sr sc v;
          },
          rw (er, ec, t, u, le→leb nc v.m_stride (omega (arith, h.narrow))),
          part_lem n sr sc nr nc v h fits fits',
        )
      ]
    ]

cropped-IsValid :
    (n nr nc : ℕ) (v : MatrixView)
    → IsValid n v
    → nr ≤ v.m_rows
    → nc ≤ v.m_cols
    → IsValid n (record v { m_rows = nr; m_cols = nc })
cropped-IsValid n nr nc v h fits_rows fits_cols = record {
  word = h.word;
  word_rows = omega (arith, h.word_rows);
  word_cols = omega (arith, h.word_cols);
  narrow = omega (arith, h.narrow);
  inside = λ i hi. omega (arith, h.inside i (omega arith));
}

-- On a valid view, `crop` throws and changes nothing exactly if it would grow; else it leaves a
-- valid view of the rows and columns before the given ones.
pub crop_lem :
    (n nr nc : ℕ) (v : MatrixView)
    → IsValid n v
    → (((v.m_rows < nr) ⊎ (v.m_cols < nc)) × (crop nr nc v ≡ threw length_error v))
      ⊎ ((w : MatrixView) × (crop nr nc v ≡ returned tt w) × IsPart n v 0 0 nr nc w)
unfolding crop
crop_lem n nr nc v h = elim (ltb-cases v.m_rows nr) [
  | inl (out, t) ↦ inl (inl out, rw t)
  | inr (fits, t) ↦ elim (ltb-cases v.m_cols nc) [
    | inl (out, u) ↦ inl (inr out, rw (t, u))
    | inr (fits', u) ↦ inr (
      record v { m_rows = nr; m_cols = nc },
      rw (t, u),
      record {
        valid = cropped-IsValid n nr nc v h fits fits';
        rows = refl;
        cols = refl;
        shows = λ i j hi hj.
            (address_lem n i j (record v { m_rows = nr; m_cols = nc })
              (cropped-IsValid n nr nc v h fits fits') hi hj).0
            ∙ sym (address_lem n i j v h (omega arith) (omega arith)).0
            ∙ ap₂ (λ a b. address a b v) (omega arith) (omega arith);
      },
    )
  ]
]
