-- ===== src/FixedCapacityQueue/Ends.antt =====
-- `push` and `pop` on every branch.
use cpp_playground.Prelude.{
  [], ◌∷◌, List, ◌≡◌, returned, head?, not, drop, length, refl, ◌==◌, if◌then◌else◌, ◌++◌, ==-cases,
  inl, inr, ◌<◌, arith,
}
use cpp_playground.FixedCapacityQueue.{FixedCapacityQueue, push, pop}
use cpp_playground.FixedCapacityQueue.Contents.{
  Holds, pop-nil, push-full, popped, pushed, pop-cons, push-room, popped-Holds, pushed-Holds,
  m_capacity-popped,
}

module _ {ℓ} {T : Type ℓ} where
  -- On a valid queue, `push` tells whether there is room, and returns; it appends the value if there
  -- is, and else leaves the elements as they were.
  pub queue_push_lem :
      {q : FixedCapacityQueue T} (x : T) (xs : List T)
      → Holds q xs
      → (q' : FixedCapacityQueue T) × (push x q ≡ returned (not (length xs == q.m_capacity)) q')
        × Holds q' (if length xs == q.m_capacity then xs else xs ++ x ∷ [])
        × (q'.m_capacity ≡ q.m_capacity)
  queue_push_lem {q} x xs h = elim (==-cases (length xs) q.m_capacity) [
    | inl (e, t) ↦ (q, rw (push-full x h e, t), rw t h, refl)
    | inr (ne, t) ↦
        let room : length xs < q.m_capacity = omega (arith, h.fits) in
        (pushed q x, rw (push-room x h room, t), rw t (pushed-Holds x h room), refl)
  ]

  -- On a valid queue, `pop` returns the oldest element, if there is one, and leaves the others in
  -- order.
  pub queue_pop_lem :
      {q : FixedCapacityQueue T} (xs : List T)
      → Holds q xs
      → (q' : FixedCapacityQueue T) × (pop q ≡ returned (head? xs) q')
        × Holds q' (drop 1 xs)
        × (q'.m_capacity ≡ q.m_capacity)
  queue_pop_lem {q} [] h = (q, pop-nil h, h, refl)
  queue_pop_lem {q} (x ∷ xs) h = (popped q, pop-cons h, popped-Holds h, m_capacity-popped q)
