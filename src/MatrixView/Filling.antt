-- ===== src/MatrixView/Filling.antt =====
-- src/matrix_view.cpp: `main`, with the loops that fill its matrix. `next` is `value += 1.0`.
use native.Mathlib.Nat.{suc-mul, mul-le-mul_right, zero-add}
use cpp_playground.Prelude.{
  [], ◌∷◌, refl, zero, suc, none, some, Option, ℕ, List, ◌*◌, ◌+◌, ◌≡◌, arith, length, set, ◌≤◌, ap,
  sym, ◌<◌, ◌∙◌, length-set, word_mod, add64, mul64, lt→ltb, ap₂,
}
use cpp_playground.MatrixView.{Matrix, assign}

module _ {ℓ} {T : Type ℓ} (next : T → T) where
  -- The inner loop, from column `col` on, with the value that it writes first.
  pub fill_columns : (rounds col row : ℕ) → T → Matrix T → Option (T × Matrix T)
  fill_columns zero col row x m = some (x, m)
  fill_columns (suc rounds) col row x m = elim (assign row col x m) [
    | none ↦ none
    | some m' ↦ fill_columns rounds (suc col) row (next x) m'
  ]

  pub fill_rows : (rounds row : ℕ) → T → Matrix T → Option (T × Matrix T)
  unfolding fill_columns
  fill_rows zero row x m = some (x, m)
  fill_rows (suc rounds) row x m = elim (fill_columns m.m_cols 0 row x m) [
    | none ↦ none
    | some (x', m') ↦ fill_rows rounds (suc row) x' m'
  ]

  unfoldable pub fill : T → Matrix T → Option (T × Matrix T)
  unfolding fill_rows
  fill x m = fill_rows m.m_rows 0 x m

  -- `n` values, each the next one of the one before.
  abbrev pub counting : ℕ → T → List T
  counting zero x = []
  counting (suc n) x = x ∷ counting n (next x)

  abbrev pub next_after : ℕ → T → T
  next_after zero x = x
  next_after (suc n) x = next_after n (next x)

  -- `n` values written from index `k` on.
  abbrev written : (n k : ℕ) → T → List T → List T
  written zero k x xs = xs
  written (suc n) k x xs = written n (suc k) (next x) (set xs k x)

  length-written : (n k : ℕ) (x : T) (xs : List T) → length (written n k x xs) ≡ length xs
  length-written zero k x xs = refl
  length-written (suc n) k x xs = length-written n (suc k) (next x) (set xs k x) ∙ length-set xs k x

  written_twice :
      (n l k : ℕ) (x : T) (xs : List T)
      → written l (k + n) (next_after n x) (written n k x xs) ≡ written (n + l) k x xs
  written_twice zero l k x xs =
      let e : k + 0 ≡ k = omega arith in
      let e' : 0 + l ≡ l = omega arith in
      ap (λ j. written l j x xs) e ∙ sym (ap (λ j. written j k x xs) e')
  written_twice (suc n) l k x xs =
      let e : k + suc n ≡ suc k + n = omega arith in
      let e' : suc n + l ≡ suc (n + l) = omega arith in
      ap (λ j. written l j (next_after n (next x)) (written n (suc k) (next x) (set xs k x))) e
      ∙ written_twice n l (suc k) (next x) (set xs k x)
      ∙ sym (ap (λ j. written j k x xs) e')

  next_after_twice : (n l : ℕ) (x : T) → next_after l (next_after n x) ≡ next_after (n + l) x
  next_after_twice zero l x = let e : 0 + l ≡ l = omega arith in sym (ap (λ j. next_after j x) e)
  next_after_twice (suc n) l x =
      let e : suc n + l ≡ suc (n + l) = omega arith in
      next_after_twice n l (next x) ∙ sym (ap (λ j. next_after j x) e)

  written-cons :
      (n k : ℕ) (x y : T) (ys : List T) → written n (suc k) x (y ∷ ys) ≡ y ∷ written n k x ys
  written-cons zero k x y ys = refl
  written-cons (suc n) k x y ys = written-cons n (suc k) (next x) y (set ys k x)

  written_all : (n : ℕ) (x : T) (xs : List T) → length xs ≡ n → written n 0 x xs ≡ counting n x
  written_all zero x [] e = refl
  written_all zero x (y ∷ ys) e = absurd (omega (arith, e))
  written_all (suc n) x [] e = absurd (omega (arith, e))
  written_all (suc n) x (y ∷ ys) e =
      written-cons n 0 (next x) x ys
      ∙ ap (λ zs. x ∷ zs) (written_all n (next x) ys (omega (arith, e)))

  assign_lem :
      (row col : ℕ) (x : T) (m : Matrix T)
      → row * m.m_cols + col < length m.m_data
      → length m.m_data < word_mod
      → assign row col x m ≡ some (record m { m_data = set m.m_data (row * m.m_cols + col) x })
  unfolding assign
  assign_lem row col x m inside word =
      let small : add64 (mul64 row m.m_cols) col ≡ row * m.m_cols + col = omega arith in
      rw (small, lt→ltb (row * m.m_cols + col) (length m.m_data) inside) refl

  fill_columns_lem :
      (rounds col row : ℕ) (x : T) (m : Matrix T)
      → row * m.m_cols + (col + rounds) ≤ length m.m_data
      → length m.m_data < word_mod
      → fill_columns rounds col row x m
        ≡ some (
          next_after rounds x,
          record m { m_data = written rounds (row * m.m_cols + col) x m.m_data },
        )
  unfolding fill_columns
  fill_columns_lem zero col row x m fits word = refl
  fill_columns_lem (suc rounds) col row x m fits word =
      let k = row * m.m_cols + col in
      let m' = record m { m_data = set m.m_data k x } in
      let count = length-set m.m_data k x in
      let found = assign_lem row col x m (omega arith) word in
      let after : row * m.m_cols + suc col ≡ suc k = omega arith in
      rw (fill_columns, found)
        (fill_columns_lem rounds (suc col) row (next x) m' (omega (arith, count))
            (omega (arith, count))
          ∙ ap
              (λ j. some (
                next_after rounds (next x),
                record m { m_data = written rounds j (next x) (set m.m_data k x) },
              ))
              after)

  -- What `n` writes from index `k` on leave.
  abbrev left : (n k : ℕ) → T → Matrix T → T × Matrix T
  left n k x m = (next_after n x, record m { m_data = written n k x m.m_data })

  left_twice :
      (n l k : ℕ) (x : T) (m : Matrix T)
      → left l (k + n) (next_after n x) (record m { m_data = written n k x m.m_data })
        ≡ left (n + l) k x m
  left_twice n l k x m =
      ap₂ (λ y ys. (y, record m { m_data = ys })) (next_after_twice n l x)
        (written_twice n l k x m.m_data)

  fill_rows_lem :
      (rounds row : ℕ) (x : T) (m : Matrix T)
      → (row + rounds) * m.m_cols ≤ length m.m_data
      → length m.m_data < word_mod
      → fill_rows rounds row x m ≡ some (left (rounds * m.m_cols) (row * m.m_cols) x m)
  unfolding fill_rows
  fill_rows_lem zero row x m fits word =
      let none_left : 0 * m.m_cols ≡ 0 = omega arith in
      sym (ap (λ j. some (left j (row * m.m_cols) x m)) none_left)
  fill_rows_lem (suc rounds) row x m fits word =
      let k = row * m.m_cols in
      let start : k + 0 ≡ k = omega arith in
      let next_row : suc row * m.m_cols ≡ k + m.m_cols = omega (arith, suc-mul row m.m_cols) in
      let more : suc rounds * m.m_cols ≡ m.m_cols + rounds * m.m_cols =
        omega (arith, suc-mul rounds m.m_cols) in
      let same : (suc row + rounds) * m.m_cols ≡ (row + suc rounds) * m.m_cols =
        ap (λ r. r * m.m_cols) (omega arith) in
      let inside : suc row * m.m_cols ≤ (suc row + rounds) * m.m_cols =
        mul-le-mul_right m.m_cols (omega arith) in
      let first =
        fill_columns_lem m.m_cols 0 row x m (omega (arith, next_row, inside, same, fits)) word
        ∙ ap (λ j. some (left m.m_cols j x m)) start in
      let (x', m') = left m.m_cols k x m in
      let count = length-written m.m_cols k x m.m_data in
      rw (fill_rows, first)
        (fill_rows_lem rounds (suc row) x' m' (omega (arith, count, same, fits))
            (omega (arith, count, word))
          ∙ ap (λ j. some (left (rounds * m.m_cols) j x' m')) next_row
          ∙ ap some (left_twice m.m_cols (rounds * m.m_cols) k x m)
          ∙ sym (ap (λ j. some (left j k x m)) more))

  -- The loops of `main`, over a matrix that has an element for each row and column, fewer than 2^64
  -- in all: every assignment meets an element, and at the end the elements, in the order in which
  -- they are stored, are the first value and those that each follow the one before.
  pub fill_lem :
      (x : T) (m : Matrix T)
      → length m.m_data ≡ m.m_rows * m.m_cols
      → length m.m_data < word_mod
      → fill x m
        ≡ some (
          next_after (m.m_rows * m.m_cols) x,
          record m { m_data = counting (m.m_rows * m.m_cols) x },
        )
  unfolding fill
  fill_lem x m count word =
      let n = m.m_rows * m.m_cols in
      let start : 0 * m.m_cols ≡ 0 = omega arith in
      let fits : (0 + m.m_rows) * m.m_cols ≤ length m.m_data =
        omega (arith, count, ap (λ r. r * m.m_cols) (zero-add m.m_rows)) in
      fill_rows_lem m.m_rows 0 x m fits word
      ∙ ap (λ j. some (left n j x m)) start
      ∙ ap (λ ys. some (next_after n x, record m { m_data = ys })) (written_all n x m.m_data count)
