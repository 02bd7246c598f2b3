-- ===== src/FixedCapacityVector/Calls.antt =====
-- Any sequence of calls on a vector, against a bounded list.
use cpp_playground.FixedCapacityVector.Elements.{
  subscript-of_list, subscript-none, pop_back-nil, emplace_back_full, push_back_lem,
  emplace_back_room, clear_lem, found_or, pop_back-cons, front_lem, back_lem, at_lem,
}
use cpp_playground.FixedCapacityVector.Layout.{of_list}
use cpp_playground.FixedCapacityVector.Resize.{resized, resize_lem, length-resized}
use cpp_playground.Prelude.{
  ℕ, Exception, Outcome, Option, returned, some, threw, none, List, fault, out_of_range,
  if◌then◌else◌, take, ◌∷◌, length, ◌-◌, ◌==◌, length_error, ◌++◌, [], leb, head?, get_elem?, ◌<◌,
  word_mod, ◌≤◌, ==-cases, ap, ◌≡◌, inl, arith, ◌∙◌, inr, length-snoc, leb-cases, length-take, refl,
}
use mathlib.Core.Option
use cpp_playground.FixedCapacityVector.{
  FixedCapacityVector, push_back, emplace_back, pop_back, clear, resize, front, back, at, subscript,
}

-- A call by a client; the result of `T()` is a parameter of `resize`.
pub data Call {ℓ} (T : Type ℓ) : Type ℓ where
  push : T → Call T
  emplace : T → Call T
  pop : Call T
  erase : Call T
  grow_or_shrink : T → ℕ → Call T
  first : Call T
  last : Call T
  nth unchecked : ℕ → Call T

-- What the client sees.
pub data Reply {ℓ} (T : Type ℓ) : Type ℓ where
  done : Reply T
  element : T → Reply T
  raised : Exception → Reply T

module _ {ℓ} {T : Type ℓ} where
  -- The reply of a call, and the object after it; none if the behaviour is undefined.
  abbrev replied {κ} :
      {A : Type κ}
      → (A → Reply T)
      → Outcome (FixedCapacityVector T) A
      → Option (Reply T × FixedCapacityVector T)
  replied f (returned a v) = some (f a, v)
  replied f (threw e v) = some (raised e, v)
  replied f fault = none

module _ {ℓ} {T : Type ℓ} (cap : ℕ) where
  perform : Call T → FixedCapacityVector T → Option (Reply T × FixedCapacityVector T)
  perform (push x) v = replied (λ _. done) (push_back cap x v)
  perform (emplace x) v = replied element (emplace_back cap x v)
  perform pop v = replied (λ _. done) (pop_back v)
  perform erase v = replied (λ _. done) (clear v)
  perform (grow_or_shrink x n) v = replied (λ _. done) (resize cap x n v)
  perform first v = replied element (front v)
  perform last v = replied element (back v)
  perform (nth i) v = replied element (at i v)
  perform (unchecked i) v = replied element (subscript i v)

  -- The replies to the calls in order; none as soon as a call has undefined behaviour.
  pub run : FixedCapacityVector T → List (Call T) → Option (List (Reply T))
  run v [] = some []
  run v (c ∷ cs) = elim (perform c v) [
    | none ↦ none
    | some (r, v') ↦ Option.map (◌∷◌ r) (run v' cs)
  ]

  -- The specification: a list of at most `cap` elements. Only `operator[]` of an index that is not
  -- there has no result.
  abbrev found : Option T → Reply T
  found none = raised out_of_range
  found (some x) = element x

  abbrev read_back : List T → Option T → Option (Reply T × List T)
  read_back xs none = none
  read_back xs (some x) = some (element x, xs)

  abbrev pub list_step : Call T → List T → Option (Reply T × List T)
  list_step (push x) xs =
      some (if length xs == cap then (raised length_error, xs) else (done, xs ++ x ∷ []))
  list_step (emplace x) xs =
      some (if length xs == cap then (raised length_error, xs) else (element x, xs ++ x ∷ []))
  list_step pop [] = some (raised out_of_range, [])
  list_step pop (x ∷ xs) = some (done, take (length xs) (x ∷ xs))
  list_step erase xs = some (done, [])
  list_step (grow_or_shrink x n) xs =
      some (if leb n cap then (done, resized x n xs) else (raised length_error, resized x cap xs))
  list_step first xs = some (found (head? xs), xs)
  list_step last xs = some (found (get_elem? xs (length xs - 1)), xs)
  list_step (nth i) xs = some (found (get_elem? xs i), xs)
  list_step (unchecked i) xs = read_back xs (get_elem? xs i)

  unfoldable pub list_run : List T → List (Call T) → Option (List (Reply T))
  list_run xs [] = some []
  list_run xs (c ∷ cs) = elim (list_step c xs) [
    | none ↦ none
    | some (r, xs') ↦ Option.map (◌∷◌ r) (list_run xs' cs)
  ]

module _ {ℓ} {T : Type ℓ} (cap : ℕ) (word : cap < word_mod) where
  -- What a call does to a vector that stands for a list: it is undefined for both, or both give
  -- the same reply and stay alike.
  abbrev Alike : Option (Reply T × FixedCapacityVector T) → Option (Reply T × List T) → Type ℓ
  Alike o none = o ≡ none
  Alike o (some (r, xs)) = (o ≡ some (r, of_list cap xs)) × (length xs ≤ cap)

  abbrev Performs : Call T → List T → Type ℓ
  Performs c xs = Alike (perform cap c (of_list cap xs)) (list_step cap c xs)

  perform_push : (x : T) (xs : List T) → length xs ≤ cap → Performs (push x) xs
  unfolding perform
  perform_push x xs fits = elim (==-cases (length xs) cap) [
    | inl (e, t) ↦ (ap (replied (λ _. done)) (push_back_lem cap xs x fits word) ∙ rw t, rw t fits)
    | inr (ne, t) ↦ (
      ap (replied (λ _. done)) (push_back_lem cap xs x fits word) ∙ rw t,
      rw t (omega (arith, length-snoc xs x)),
    )
  ]

  perform_emplace : (x : T) (xs : List T) → length xs ≤ cap → Performs (emplace x) xs
  unfolding perform
  perform_emplace x xs fits = elim (==-cases (length xs) cap) [
    | inl (e, t) ↦ (ap (replied element) (emplace_back_full cap xs x e word) ∙ rw t, rw t fits)
    | inr (ne, t) ↦ (
      ap (replied element) (emplace_back_room cap xs x (omega arith) word) ∙ rw t,
      rw t (omega (arith, length-snoc xs x)),
    )
  ]

  perform_pop : (xs : List T) → length xs ≤ cap → Performs pop xs
  unfolding perform
  perform_pop [] fits = (ap (replied (λ _. done)) (pop_back-nil cap), fits)
  perform_pop (x ∷ xs) fits = (
    ap (replied (λ _. done)) (pop_back-cons cap x xs fits word),
    omega (arith, length-take (length xs) (x ∷ xs)),
  )

  perform_resize :
      (x : T) (n : ℕ) (xs : List T) → length xs ≤ cap → Performs (grow_or_shrink x n) xs
  unfolding perform
  perform_resize x n xs fits = elim (leb-cases n cap) [
    | inl (le, t) ↦ (
      ap (replied (λ _. done)) (resize_lem cap word x n xs fits) ∙ rw t,
      rw t (omega (arith, length-resized x n xs)),
    )
    | inr (gt, t) ↦ (
      ap (replied (λ _. done)) (resize_lem cap word x n xs fits) ∙ rw t,
      rw t (omega (arith, length-resized x cap xs)),
    )
  ]

  replied-found :
      (xs : List T) (o : Option T)
      → replied element (found_or (of_list cap xs) out_of_range o)
        ≡ some (found cap o, of_list cap xs)
  replied-found xs none = refl
  replied-found xs (some x) = refl

  perform-unchecked :
      (i : ℕ) (xs : List T) (o : Option T)
      → get_elem? xs i ≡ o
      → length xs ≤ cap
      → Alike (perform cap (unchecked i) (of_list cap xs)) (read_back cap xs o)
  unfolding perform
  perform-unchecked i xs none e fits = ap (replied element) (subscript-none cap xs i e)
  perform-unchecked i xs (some x) e fits =
      (ap (replied element) (subscript-of_list cap xs i e), fits)

  perform_lem : (c : Call T) (xs : List T) → length xs ≤ cap → Performs c xs
  unfolding perform
  perform_lem (push x) xs fits = perform_push x xs fits
  perform_lem (emplace x) xs fits = perform_emplace x xs fits
  perform_lem pop xs fits = perform_pop xs fits
  perform_lem erase xs fits = (ap (replied (λ _. done)) (clear_lem cap xs fits), omega arith)
  perform_lem (grow_or_shrink x n) xs fits = perform_resize x n xs fits
  perform_lem first xs fits =
      (ap (replied element) (front_lem cap xs) ∙ replied-found xs (head? xs), fits)
  perform_lem last xs fits = (
    ap (replied element) (back_lem cap xs fits word)
        ∙ replied-found xs (get_elem? xs (length xs - 1)),
    fits,
  )
  perform_lem (nth i) xs fits =
      (ap (replied element) (at_lem cap xs i) ∙ replied-found xs (get_elem? xs i), fits)
  perform_lem (unchecked i) xs fits = perform-unchecked i xs (get_elem? xs i) refl fits

  -- The first of some calls, where the others are alike.
  run_one :
      (c : Call T) (cs : List (Call T)) (xs : List T) (o : Option (Reply T × List T))
      → list_step cap c xs ≡ o
      → Alike (perform cap c (of_list cap xs)) o
      → ((ys : List T) → length ys ≤ cap → run cap (of_list cap ys) cs ≡ list_run cap ys cs)
      → run cap (of_list cap xs) (c ∷ cs) ≡ list_run cap xs (c ∷ cs)
  unfolding run list_run
  run_one c cs xs none e performs rest = rw (e, performs, run, list_run) refl
  run_one c cs xs (some (r, xs')) e (performs, fits) rest =
      rw (e, performs, run, list_run) (ap (Option.map (◌∷◌ r)) (rest xs' fits))

  -- From a vector of a list within its capacity, a `std::size_t`, and for every sequence of calls of
  -- push_back, emplace_back, pop_back, clear, resize, front, back, at and operator[]: the replies are
  -- those of the list, bounded by the capacity, and the behaviour is undefined exactly where
  -- operator[] is given an index that is not below the number of elements.
  pub run_refines :
      (cs : List (Call T)) (xs : List T)
      → length xs ≤ cap
      → run cap (of_list cap xs) cs ≡ list_run cap xs cs
  unfolding run list_run
  run_refines [] xs fits = refl
  run_refines (c ∷ cs) xs fits =
      run_one c cs xs (list_step cap c xs) refl (perform_lem c xs fits)
        (λ xs' fits'. run_refines cs xs' fits')
