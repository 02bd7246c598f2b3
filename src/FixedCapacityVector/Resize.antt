-- ===== src/FixedCapacityVector/Resize.antt =====
-- `resize`: its two loops end, and the vector has the requested number of elements, or is full
-- where the request exceeds the capacity.
use cpp_playground.Prelude.{
  ℕ, zero, suc, ◌-◌, ◌≤◌, ◌<◌, List, [], ◌∷◌, ◌++◌, length, take, replicate, ◌≡◌, ap, sym, ◌∙◌,
  arith, word_mod, leb, if◌then◌else◌, lt→ltb, length-snoc, length-append, length-replicate,
  length_error, returned, threw, snoc_view, take-append, take_of_length-le, append-nil,
  >>=-returned, >>=-threw, ltb-cases, ==-cases, leb-cases, inl, inr, snoc_shift, le→leb, ◌>>◌,
  length-take,
}
use cpp_playground.FixedCapacityVector.{pop_back, emplace_back, shrink, extend, resize}
use cpp_playground.FixedCapacityVector.Layout.{of_list}
use cpp_playground.FixedCapacityVector.Elements.{pop_back_lem, emplace_back_full, emplace_back_room}

-- What `resize` makes of the elements.
abbrev pub resized {ℓ} : {T : Type ℓ} → T → ℕ → List T → List T
resized x n xs = take n xs ++ replicate (n - length xs) x

pub length-resized {ℓ} : {T : Type ℓ} (x : T) (n : ℕ) (xs : List T) → length (resized x n xs) ≡ n
length-resized x n xs = omega (
  arith,
  length-append (take n xs) (replicate (n - length xs) x),
  length-take n xs,
  length-replicate (n - length xs) x,
)

replicate_grow {ℓ} :
    {T : Type ℓ} (n : ℕ) (xs : List T) (x : T)
    → length xs < n
    → (xs ++ x ∷ []) ++ replicate (n - length (xs ++ x ∷ [])) x ≡ xs ++ replicate (n - length xs) x
replicate_grow n xs x h =
    let e : n - length xs ≡ suc (n - length (xs ++ x ∷ [])) = omega (arith, length-snoc xs x) in
    rw e (sym (snoc_shift xs x (replicate (n - length (xs ++ x ∷ [])) x)))

module _ {ℓ} {T : Type ℓ} (cap : ℕ) (word : cap < word_mod) where
  -- With more fuel than elements the first loop ends; it keeps the first `n` elements.
  pub shrink_lem :
      (fuel n : ℕ) (xs : List T)
      → length xs < fuel
      → length xs ≤ cap
      → shrink fuel n (of_list cap xs) ≡ returned tt (of_list cap (take n xs))
  unfolding shrink
  shrink_lem zero n xs h fits = absurd (omega arith)
  shrink_lem (suc fuel) n xs h fits = elim (ltb-cases n (length xs)) [
    | inr (le, t) ↦ rw (t, take_of_length-le n xs le)
    | inl (lt, t) ↦
        let (ys, y, e) = snoc_view xs (omega arith) in
        let long : length xs ≡ suc (length ys) = ap length e ∙ length-snoc ys y in
        rw t (
          rw (e, take-append n ys (y ∷ []) (omega arith))
            (>>=-returned pop_back (λ _. shrink fuel n) (pop_back_lem cap ys y (omega arith) word)
              ∙ shrink_lem fuel n ys (omega arith) (omega arith)))
  ]

  -- The second loop fills up to `n` elements.
  pub extend_lem :
      (fuel : ℕ) (x : T) (n : ℕ) (xs : List T)
      → n - length xs < fuel
      → length xs ≤ cap
      → n ≤ cap
      → extend cap fuel x n (of_list cap xs)
        ≡ returned tt (of_list cap (xs ++ replicate (n - length xs) x))
  unfolding extend
  extend_lem zero x n xs h fits le = absurd (omega arith)
  extend_lem (suc fuel) x n xs h fits le = elim (ltb-cases (length xs) n) [
    | inr (ge, t) ↦ let e : n - length xs ≡ 0 = omega arith in rw (t, e, append-nil)
    | inl (lt, t) ↦ rw t (
        >>=-returned (emplace_back cap x) (λ _. extend cap fuel x n)
          (emplace_back_room cap xs x (omega arith) word)
        ∙ extend_lem fuel x n (xs ++ x ∷ []) (omega (arith, length-snoc xs x))
            (omega (arith, length-snoc xs x)) le
        ∙ ap (λ l. returned tt (of_list cap l)) (replicate_grow n xs x lt))
  ]

  -- Beyond the capacity it throws, with the vector full.
  pub extend_overflow :
      (fuel : ℕ) (x : T) (n : ℕ) (xs : List T)
      → cap - length xs < fuel
      → length xs ≤ cap
      → cap < n
      → extend cap fuel x n (of_list cap xs)
        ≡ threw length_error (of_list cap (xs ++ replicate (cap - length xs) x))
  unfolding extend
  extend_overflow zero x n xs h fits gt = absurd (omega arith)
  extend_overflow (suc fuel) x n xs h fits gt = elim (==-cases (length xs) cap) [
    | inl (e, _) ↦
        let z : cap - length xs ≡ 0 = omega arith in
        let same : xs ≡ xs ++ replicate (cap - length xs) x = rw (z, append-nil) in
        rw (lt→ltb (length xs) n (omega arith)) (
          >>=-threw (emplace_back cap x) (λ _. extend cap fuel x n)
            (emplace_back_full cap xs x e word)
          ∙ ap (λ l. threw length_error (of_list cap l)) same)
    | inr (ne, _) ↦ rw (lt→ltb (length xs) n (omega arith)) (
        >>=-returned (emplace_back cap x) (λ _. extend cap fuel x n)
          (emplace_back_room cap xs x (omega arith) word)
        ∙ extend_overflow fuel x n (xs ++ x ∷ []) (omega (arith, length-snoc xs x))
            (omega (arith, length-snoc xs x)) gt
        ∙ ap (λ l. threw length_error (of_list cap l)) (replicate_grow cap xs x (omega arith)))
  ]

  resize_within :
      (x : T) (n : ℕ) (xs : List T)
      → length xs ≤ cap
      → n ≤ cap
      → (do shrink (suc (length xs)) n; extend cap (suc cap) x n) (of_list cap xs)
        ≡ returned tt (of_list cap (resized x n xs))
  resize_within x n xs fits le =
      >>=-returned (shrink (suc (length xs)) n) (λ _. extend cap (suc cap) x n)
        (shrink_lem (suc (length xs)) n xs (omega arith) fits)
      ∙ extend_lem (suc cap) x n (take n xs) (omega arith) (omega (arith, length-take n xs)) le
      ∙ rw missing
    where
      missing : n - length (take n xs) ≡ n - length xs
      missing = omega (arith, length-take n xs)

  resize_beyond :
      (x : T) (n : ℕ) (xs : List T)
      → length xs ≤ cap
      → cap < n
      → (do shrink (suc (length xs)) n; extend cap (suc cap) x n) (of_list cap xs)
        ≡ threw length_error (of_list cap (resized x cap xs))
  resize_beyond x n xs fits gt =
      >>=-returned (shrink (suc (length xs)) n) (λ _. extend cap (suc cap) x n)
        (shrink_lem (suc (length xs)) n xs (omega arith) fits)
      ∙ rw (take_of_length-le n xs (omega arith), take_of_length-le cap xs fits)
          (extend_overflow (suc cap) x n xs (omega arith) fits gt)

  -- On a vector within the capacity, a `std::size_t`, `resize` to at most the capacity drops
  -- elements at the end, or adds value-initialised ones. A larger request throws, but not before
  -- the vector is filled up to the capacity.
  pub resize_lem :
      (x : T) (n : ℕ) (xs : List T)
      → length xs ≤ cap
      → resize cap x n (of_list cap xs) ≡ (
          if leb n cap
          then returned tt (of_list cap (resized x n xs))
          else threw length_error (of_list cap (resized x cap xs)))
  unfolding resize
  resize_lem x n xs fits = elim (==-cases (length xs) n) [
    | inl (e, t) ↦
        let z : n - length xs ≡ 0 = omega arith in
        rw (t, le→leb n cap (omega arith), z, append-nil, take_of_length-le n xs (omega arith))
    | inr (ne, t) ↦ elim (leb-cases n cap) [
      | inl (le, l) ↦ rw (t, l) (resize_within x n xs fits le)
      | inr (gt, l) ↦ rw (t, l) (resize_beyond x n xs fits gt)
    ]
  ]
