-- ===== src/MatrixView/Printing.antt =====
-- src/matrix_view.cpp: `operator<<` of a matrix, as the list of what it prints.
use cpp_playground.MatrixView.{Matrix, element}
use native.Mathlib.Nat.{suc-mul, mul-le-mul_right}
use cpp_playground.Prelude.{
  [], ◌∷◌, refl, zero, suc, none, some, List, Option, ℕ, take, ◌*◌, ◌++◌, ◌<◌, drop, length, ◌+◌,
  ◌≡◌, ap, arith, get_elem?, ◌≤◌, word_mod, add64, mul64, ◌∙◌, sym, ap₂,
}

pub data Token {ℓ} (T : Type ℓ) : Type ℓ where
  value : T → Token T
  blank newline : Token T

module _ {ℓ} {T : Type ℓ} where
  -- The rest of a row, from column `col` on; none where an element is not there.
  unfoldable pub print_columns : (rounds col row : ℕ) → Matrix T → Option (List (Token T))
  print_columns zero col row m = some []
  print_columns (suc rounds) col row m =
      let rest = print_columns rounds (suc col) row m in
      elim (element row col m) [
        | none ↦ none
        | some x ↦ elim rest [ none ↦ none | some ts ↦ some (value x ∷ blank ∷ ts) ]
      ]

  unfoldable pub print_rows : (rounds row : ℕ) → Matrix T → Option (List (Token T))
  unfolding print_columns
  print_rows zero row m = some []
  print_rows (suc rounds) row m =
      let rest = print_rows rounds (suc row) m in
      elim (print_columns m.m_cols 0 row m) [
        | none ↦ none
        | some ts ↦ elim rest [ none ↦ none | some us ↦ some (ts ++ newline ∷ us) ]
      ]

  unfoldable pub print : Matrix T → Option (List (Token T))
  unfolding print_rows
  print m = print_rows m.m_rows 0 m

  -- Reading the output: its values, and its lines.
  abbrev pub values : List (Token T) → List T
  values [] = []
  values (value x ∷ ts) = x ∷ values ts
  values (blank ∷ ts) = values ts
  values (newline ∷ ts) = values ts

  abbrev pub lines : List (Token T) → ℕ
  lines [] = 0
  lines (value x ∷ ts) = lines ts
  lines (blank ∷ ts) = lines ts
  lines (newline ∷ ts) = suc (lines ts)

  -- What is printed for rows of `cols` elements, in this order: each element and a blank, and a
  -- newline behind each row.
  abbrev pub row_of : List T → List (Token T)
  row_of [] = []
  row_of (x ∷ xs) = value x ∷ blank ∷ row_of xs

  abbrev pub rendered : (rows cols : ℕ) → List T → List (Token T)
  rendered zero cols xs = []
  rendered (suc rows) cols xs = row_of (take cols xs) ++ newline ∷ rendered rows cols (drop cols xs)

  pub values-append : (ts us : List (Token T)) → values (ts ++ us) ≡ values ts ++ values us
  values-append [] us = refl
  values-append (value x ∷ ts) us = ap (λ xs. x ∷ xs) (values-append ts us)
  values-append (blank ∷ ts) us = values-append ts us
  values-append (newline ∷ ts) us = values-append ts us

  pub lines-append : (ts us : List (Token T)) → lines (ts ++ us) ≡ lines ts + lines us
  lines-append [] us = omega arith
  lines-append (value x ∷ ts) us = lines-append ts us
  lines-append (blank ∷ ts) us = lines-append ts us
  lines-append (newline ∷ ts) us = omega (arith, lines-append ts us)

  -- The elements from index `k` on begin with the one at `k`.
  pub drop-cons :
      (xs : List T) (k : ℕ)
      → k < length xs
      → (x : T) × (get_elem? xs k ≡ some x) × (drop k xs ≡ x ∷ drop (suc k) xs)
  drop-cons [] k h = absurd (omega arith)
  drop-cons (x ∷ xs) zero h = (x, refl, refl)
  drop-cons (x ∷ xs) (suc k) h = drop-cons xs k (omega arith)

  take-append-drop : (n : ℕ) (ys : List T) → take n ys ++ drop n ys ≡ ys
  take-append-drop zero ys = refl
  take-append-drop (suc n) [] = refl
  take-append-drop (suc n) (y ∷ ys) = ap (λ zs. y ∷ zs) (take-append-drop n ys)

  drop-nil : (n : ℕ) → drop {A = T} n [] ≡ []
  drop-nil zero = refl
  drop-nil (suc n) = refl

  pub drop-drop : (n k : ℕ) (xs : List T) → drop (k + n) xs ≡ drop n (drop k xs)
  drop-drop n zero xs = ap (λ j. drop j xs) (omega arith)
  drop-drop n (suc k) [] = drop-nil (suc k + n) ∙ sym (drop-nil n)
  drop-drop n (suc k) (x ∷ xs) =
      let e : suc k + n ≡ suc (k + n) = omega arith in rw e (drop-drop n k xs)

  take-drop-append : (n k : ℕ) (xs : List T) → take n (drop k xs) ++ drop (k + n) xs ≡ drop k xs
  take-drop-append n k xs =
      ap (λ ys. take n (drop k xs) ++ ys) (drop-drop n k xs) ∙ take-append-drop n (drop k xs)

  drop_all : (xs : List T) → drop (length xs) xs ≡ []
  drop_all [] = refl
  drop_all (x ∷ xs) = drop_all xs

  print_columns_lem :
      (rounds col row : ℕ) (m : Matrix T)
      → row * m.m_cols + (col + rounds) ≤ length m.m_data
      → length m.m_data < word_mod
      → (ts : List (Token T)) × (print_columns rounds col row m ≡ some ts)
        × (ts ≡ row_of (take rounds (drop (row * m.m_cols + col) m.m_data)))
        × (values ts ≡ take rounds (drop (row * m.m_cols + col) m.m_data))
        × (lines ts ≡ 0)
  unfolding print_columns element
  print_columns_lem zero col row m fits word = ([], refl, refl, refl, refl)
  print_columns_lem (suc rounds) col row m fits word =
      let k = row * m.m_cols + col in
      let (x, there, from) = drop-cons m.m_data k (omega arith) in
      let (ts, ran, laid, read, none_ended) =
        print_columns_lem rounds (suc col) row m (omega arith) word in
      let small : add64 (mul64 row m.m_cols) col ≡ k = omega arith in
      let found : element row col m ≡ some x = ap (get_elem? m.m_data) small ∙ there in
      let after : row * m.m_cols + suc col ≡ suc k = omega arith in
      (
        value x ∷ blank ∷ ts,
        rw (print_columns, found, ran) refl,
        rw from (
            ap (λ us. value x ∷ blank ∷ us)
              (laid ∙ ap (λ j. row_of (take rounds (drop j m.m_data))) after)),
        rw from (ap (λ ys. x ∷ ys) (read ∙ ap (λ j. take rounds (drop j m.m_data)) after)),
        none_ended,
      )

  print_rows_lem :
      (rounds row : ℕ) (m : Matrix T)
      → row + rounds ≡ m.m_rows
      → length m.m_data ≡ m.m_rows * m.m_cols
      → length m.m_data < word_mod
      → (ts : List (Token T)) × (print_rows rounds row m ≡ some ts)
        × (ts ≡ rendered rounds m.m_cols (drop (row * m.m_cols) m.m_data))
        × (values ts ≡ drop (row * m.m_cols) m.m_data)
        × (lines ts ≡ rounds)
  unfolding print_rows
  print_rows_lem zero row m end count word =
      let last : row * m.m_cols ≡ length m.m_data =
        ap (λ r. r * m.m_cols) (omega (arith, end)) ∙ sym count in
      ([], refl, refl, sym (ap (λ j. drop j m.m_data) last ∙ drop_all m.m_data), refl)
  print_rows_lem (suc rounds) row m end count word =
      let next : suc row * m.m_cols ≡ row * m.m_cols + m.m_cols =
        omega (arith, suc-mul row m.m_cols) in
      let inside : suc row * m.m_cols ≤ m.m_rows * m.m_cols =
        mul-le-mul_right m.m_cols (omega (arith, end)) in
      let (ts, ran, laid, read, none_ended) =
        print_columns_lem m.m_cols 0 row m (omega (arith, next, inside, count)) word in
      let (us, ran', laid', read', ended) =
        print_rows_lem rounds (suc row) m (omega (arith, end)) count word in
      let start : row * m.m_cols + 0 ≡ row * m.m_cols = omega arith in
      (
        ts ++ newline ∷ us,
        rw (print_rows, ran, ran') refl,
        ap₂ (λ xs ys. xs ++ newline ∷ ys)
            (laid ∙ ap (λ j. row_of (take m.m_cols (drop j m.m_data))) start)
            (laid'
              ∙ ap (rendered rounds m.m_cols)
                  (ap (λ j. drop j m.m_data) next ∙ drop-drop m.m_cols (row * m.m_cols) m.m_data)),
        values-append ts (newline ∷ us)
            ∙ ap₂ (λ xs ys. xs ++ ys) (read ∙ ap (λ j. take m.m_cols (drop j m.m_data)) start)
                (read' ∙ ap (λ j. drop j m.m_data) next)
            ∙ take-drop-append m.m_cols (row * m.m_cols) m.m_data,
        omega (arith, lines-append ts (newline ∷ us), none_ended, ended),
      )

  -- Printing a matrix that has an element for each row and column, fewer than 2^64 in all, reads
  -- elements that are there only. It prints, row after row, each element of the row with a blank
  -- behind it, and a newline behind the last element's blank, where the rows are the elements in the
  -- order in which they are stored, cut every `m_cols` elements; reading the values back gives these
  -- elements, and there are `m_rows` newlines.
  pub print-values :
      (m : Matrix T)
      → length m.m_data ≡ m.m_rows * m.m_cols
      → length m.m_data < word_mod
      → (print m ≡ some (rendered m.m_rows m.m_cols m.m_data))
        × (values (rendered m.m_rows m.m_cols m.m_data) ≡ m.m_data)
        × (lines (rendered m.m_rows m.m_cols m.m_data) ≡ m.m_rows)
  unfolding print
  print-values m count word =
      let (ts, ran, laid, read, ended) = print_rows_lem m.m_rows 0 m (omega arith) count word in
      let start : 0 * m.m_cols ≡ 0 = omega arith in
      let same : ts ≡ rendered m.m_rows m.m_cols m.m_data =
        laid ∙ ap (λ j. rendered m.m_rows m.m_cols (drop j m.m_data)) start in
      (
        ran ∙ ap (λ us. some us) same,
        ap values (sym same) ∙ read ∙ ap (λ j. drop j m.m_data) start,
        ap lines (sym same) ∙ ended,
      )
