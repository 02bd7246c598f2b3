-- ===== src/FixedCapacityQueue/Calls.antt =====
-- Any sequence of calls on a queue, against a bounded list, oldest element first.
use cpp_playground.Prelude.{
  ℕ, Option, none, some, Bool, List, Outcome, ◌≡◌, ==-cases, ap, if◌then◌else◌, refl, returned, ◌∷◌,
  [], length, ◌∙◌, inl, ◌==◌, false, inr, true, ◌++◌, ◌<◌, arith,
}
use mathlib.Core.Option
use cpp_playground.FixedCapacityQueue.{
  FixedCapacityQueue, push, emplace, pop, clear, empty, full, size,
}
use cpp_playground.FixedCapacityQueue.Contents.{
  Holds, pop-nil, push-full, popped, pushed, pop-cons, push-room, popped-Holds, pushed-Holds,
  m_capacity-popped, queue_clear_lem,
}

pub data Call {ℓ} (T : Type ℓ) : Type ℓ where
  put : T → Call T
  put_in_place : T → Call T
  get : Call T
  wipe : Call T
  is_empty : Call T
  is_full : Call T
  count : Call T

pub data Reply {ℓ} (T : Type ℓ) : Type ℓ where
  answer : Bool → Reply T
  taken : Option T → Reply T
  number : ℕ → Reply T
  done : Reply T

module _ {ℓ} {T : Type ℓ} where
  -- The reply of a call that returns; none if it throws, which no call does, or faults.
  abbrev replied {κ} :
      {A : Type κ}
      → (A → Reply T)
      → Outcome (FixedCapacityQueue T) A
      → Option (Reply T × FixedCapacityQueue T)
  replied f (returned a q) = some (f a, q)
  replied f _ = none

  perform : Call T → FixedCapacityQueue T → Option (Reply T × FixedCapacityQueue T)
  perform (put x) q = replied answer (push x q)
  perform (put_in_place x) q = replied answer (emplace x q)
  perform get q = replied taken (pop q)
  perform wipe q = replied (λ _. done) (clear q)
  perform is_empty q = some (answer (empty q), q)
  perform is_full q = some (answer (full q), q)
  perform count q = some (number (size q), q)

  pub run : FixedCapacityQueue T → List (Call T) → Option (List (Reply T))
  run q [] = some []
  run q (c ∷ cs) = elim (perform c q) [
    | none ↦ none
    | some (r, q') ↦ Option.map (◌∷◌ r) (run q' cs)
  ]

  -- The specification: a list of at most `cap` elements.
  abbrev append_bounded : ℕ → T → List T → Reply T × List T
  append_bounded cap x xs =
      if length xs == cap then (answer false, xs) else (answer true, xs ++ x ∷ [])

  abbrev pub list_step : ℕ → Call T → List T → Reply T × List T
  list_step cap (put x) xs = append_bounded cap x xs
  list_step cap (put_in_place x) xs = append_bounded cap x xs
  list_step cap get [] = (taken none, [])
  list_step cap get (x ∷ xs) = (taken (some x), xs)
  list_step cap wipe xs = (done, [])
  list_step cap is_empty xs = (answer (length xs == 0), xs)
  list_step cap is_full xs = (answer (length xs == cap), xs)
  list_step cap count xs = (number (length xs), xs)

  pub list_run : ℕ → List T → List (Call T) → List (Reply T)
  list_run cap xs [] = []
  list_run cap xs (c ∷ cs) = let (r, xs') = list_step cap c xs in r ∷ list_run cap xs' cs

  -- What a call does to a queue that holds a list.
  abbrev Performs : Call T → FixedCapacityQueue T → List T → Type ℓ
  Performs c q xs =
      let (r, xs') = list_step q.m_capacity c xs in
      (q' : FixedCapacityQueue T) × (perform c q ≡ some (r, q'))
      × Holds q' xs'
      × (q'.m_capacity ≡ q.m_capacity)

  perform_put :
      (x : T) {q : FixedCapacityQueue T} (xs : List T) → Holds q xs → Performs (put x) q xs
  unfolding perform
  perform_put x {q} xs h = elim (==-cases (length xs) q.m_capacity) [
    | inl (e, t) ↦ (q, rw (push-full x h e, t), rw t h, refl)
    | inr (ne, t) ↦
        let room : length xs < q.m_capacity = omega (arith, h.fits) in
        (pushed q x, rw (push-room x h room, t), rw t (pushed-Holds x h room), refl)
  ]

  emplace-push : (x : T) (q : FixedCapacityQueue T) → emplace x q ≡ push x q
  unfolding emplace push
  emplace-push x q = refl

  perform_lem : (c : Call T) (xs : List T) {q : FixedCapacityQueue T} → Holds q xs → Performs c q xs
  unfolding perform size empty full
  perform_lem (put x) xs h = perform_put x xs h
  perform_lem (put_in_place x) xs {q} h =
      let p = perform_put x xs h in (p.0, ap (replied answer) (emplace-push x q) ∙ p.1, p.2, p.3)
  perform_lem get [] {q} h = (q, rw (pop-nil h), h, refl)
  perform_lem get (x ∷ xs) {q} h = (popped q, rw (pop-cons h), popped-Holds h, m_capacity-popped q)
  perform_lem wipe xs {q} h =
      let (q', e, held, same) = queue_clear_lem xs h in (q', rw e, held, same)
  perform_lem is_empty xs {q} h = (q, rw h.counted, h, refl)
  perform_lem is_full xs {q} h = (q, rw h.counted, h, refl)
  perform_lem count xs {q} h = (q, rw h.counted, h, refl)

  -- From a valid queue that holds a list, no sequence of calls faults or throws, and the replies
  -- are those of the list, bounded by the capacity.
  pub queue_run_refines :
      (cs : List (Call T)) (xs : List T) {q : FixedCapacityQueue T}
      → Holds q xs
      → run q cs ≡ some (list_run q.m_capacity xs cs)
  unfolding run list_run
  queue_run_refines [] xs h = refl
  queue_run_refines (c ∷ cs) xs {q} h =
      let p = perform_lem c xs h in
      let xs' : List T = (list_step q.m_capacity c xs).1 in
      let rest : run p.0 cs ≡ some (list_run q.m_capacity xs' cs) =
        queue_run_refines cs xs' p.2 ∙ ap (λ k. some (list_run k xs' cs)) p.3 in
      rw (p.1, run, rest)
