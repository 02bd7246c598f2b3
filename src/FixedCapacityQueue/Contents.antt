-- ===== src/FixedCapacityQueue/Contents.antt =====
-- The elements that a queue holds, oldest first, and what the operations do to them.
use cpp_playground.Prelude.{
  ℕ, zero, suc, ◌-◌, ◌≤◌, ◌<◌, ◌^◌, List, [], ◌∷◌, ◌++◌, length, ◌≡◌, arith, length-set, set, some,
  add64, ◌∙◌, length-snoc, ap, returned, false, none, true, eq→==, ne→==, sym, replicate,
  if◌then◌else◌, >>=-returned, ◌==◌, pure, refl, threw, invalid_argument, length-replicate,
}
use cpp_playground.Storage.{
  window, filled, advance, window-set, set-filled, advance-lt, slot, Slots, next, alive,
  construct_at-slot, window-slot, advance-zero, slot-filled, next-lt, window-rotate, filled_rest,
  read_at-slot, destroy_at-slot, window-replicate, filled-nil,
}
use cpp_playground.FixedCapacityQueue.{
  FixedCapacityQueue, construct, tail_index, push, pop, advance_index, construct_at_tail, clear,
  destruct_all, destruct_element, take_head, destroy_head, empty,
}

-- The queue holds the elements of a list: from the head on, all the way round the ring, the slots
-- hold them in order, and then nothing. The capacity is at most half the range of `std::size_t`,
-- as that of any allocation is.
pub record Holds {ℓ} {T : Type ℓ} (q : FixedCapacityQueue T) (xs : List T) : Type ℓ where
  pub positive : 0 < q.m_capacity
  pub small : q.m_capacity ≤ 2 ^ 63
  pub slots : length q.m_data ≡ q.m_capacity
  pub head : q.m_head_index < q.m_capacity
  pub counted : q.m_size ≡ length xs
  pub fits : length xs ≤ q.m_capacity
  pub elements : window q.m_capacity q.m_data q.m_head_index q.m_capacity ≡ filled q.m_capacity xs

module _ {ℓ} {T : Type ℓ} where
  -- The slot that `push` writes, with no wrap of `std::size_t`.
  tail_index-advance :
      {q : FixedCapacityQueue T} {xs : List T}
      → Holds q xs
      → tail_index q ≡ advance q.m_capacity q.m_head_index (length xs)
  unfolding tail_index
  tail_index-advance {q} {xs} h = ground arith

  -- The queue after a `push` that has room.
  abbrev pub pushed : FixedCapacityQueue T → T → FixedCapacityQueue T
  pushed q x = record q { m_data = set q.m_data (tail_index q) (some x); m_size = add64 q.m_size 1 }

  pub pushed-Holds :
      {q : FixedCapacityQueue T} {xs : List T} (x : T)
      → Holds q xs
      → length xs < q.m_capacity
      → Holds (pushed q x) (xs ++ x ∷ [])
  pushed-Holds {q} {xs} x h room = record {
    positive = h.positive;
    small = h.small;
    slots = length-set q.m_data (tail_index q) (some x) ∙ h.slots;
    head = h.head;
    counted = omega (arith, length-snoc xs x, h.small, h.counted, h.fits);
    fits = omega (arith, length-snoc xs x);
    elements =
        ap (λ i. window q.m_capacity (set q.m_data i (some x)) q.m_head_index q.m_capacity)
          (tail_index-advance h)
        ∙ window-set q.m_capacity q.m_data q.m_head_index (length xs) q.m_capacity (some x) h.slots
            h.head room (omega arith)
        ∙ ap (λ s. set s (length xs) (some x)) h.elements
        ∙ set-filled q.m_capacity xs x room;
  }

  tail_slot-none :
      {q : FixedCapacityQueue T} {xs : List T}
      → Holds q xs
      → length xs < q.m_capacity
      → slot q.m_data (tail_index q) ≡ none
  tail_slot-none {q} {xs} h room =
      ap (slot q.m_data) (tail_index-advance h)
      ∙ sym (
          window-slot q.m_capacity q.m_data q.m_head_index (length xs) q.m_capacity h.head room
            (omega arith))
      ∙ ap (λ s. slot s (length xs)) h.elements
      ∙ slot-filled q.m_capacity xs room

  tail_index-lt :
      {q : FixedCapacityQueue T} {xs : List T} → Holds q xs → tail_index q < q.m_capacity
  tail_index-lt {q} {xs} h =
      rw (tail_index-advance h) (advance-lt q.m_capacity q.m_head_index (length xs) h.head h.fits)

  -- `push` of a queue that is not full returns true and appends the value.
  pub push-room :
      {q : FixedCapacityQueue T} {xs : List T} (x : T)
      → Holds q xs
      → length xs < q.m_capacity
      → push x q ≡ returned true (pushed q x)
  unfolding push
  push-room {q} {xs} x h room = rw (
    ne→== q.m_size q.m_capacity (omega (arith, h.counted)),
    construct_at-slot q.m_data (tail_index q) x (omega (arith, tail_index-lt h, h.slots))
        (tail_slot-none h room),
    construct_at_tail,
  )

  -- `push` of a full queue returns false and changes nothing.
  pub push-full :
      {q : FixedCapacityQueue T} {xs : List T} (x : T)
      → Holds q xs
      → length xs ≡ q.m_capacity
      → push x q ≡ returned false q
  unfolding push
  push-full {q} x h e = rw (eq→== q.m_size q.m_capacity (omega (arith, h.counted)))

  -- The queue after its head is gone.
  abbrev pub popped : FixedCapacityQueue T → FixedCapacityQueue T
  popped q = advance_index (record q { m_data = set q.m_data q.m_head_index none })

  next_index :
      {q : FixedCapacityQueue T} {xs : List T}
      → Holds q xs
      → (popped q).m_head_index ≡ next q.m_capacity q.m_head_index
  unfolding advance_index
  next_index h = ground arith

  head_slot :
      {q : FixedCapacityQueue T} {y : T} {ys : List T}
      → Holds q (y ∷ ys)
      → slot q.m_data q.m_head_index ≡ some y
  head_slot {q} h =
      ap (slot q.m_data) (sym (advance-zero q.m_capacity q.m_head_index h.head))
      ∙ sym (
          window-slot q.m_capacity q.m_data q.m_head_index 0 q.m_capacity h.head h.positive
            (omega arith))
      ∙ ap (λ s. slot s 0) h.elements

  pub popped-Holds :
      {q : FixedCapacityQueue T} {y : T} {ys : List T} → Holds q (y ∷ ys) → Holds (popped q) ys
  unfolding advance_index
  popped-Holds {q} {y} {ys} h = record {
    positive = h.positive;
    small = h.small;
    slots = length-set q.m_data q.m_head_index none ∙ h.slots;
    head = rw (next_index h) (next-lt q.m_capacity q.m_head_index h.head);
    counted = omega (arith, h.counted, h.fits, h.small);
    fits = omega (arith, h.fits);
    elements =
        ap (λ i. window q.m_capacity emptied i q.m_capacity) (next_index h)
        ∙ window-rotate q.m_capacity emptied q.m_head_index h.head first_dead
        ∙ filled_rest q.m_capacity y ys h.fits;
  }
    where
      emptied : Slots T
      emptied = set q.m_data q.m_head_index none

      first_dead :
          window q.m_capacity emptied q.m_head_index q.m_capacity
          ≡ none ∷ (alive ys ++ replicate (q.m_capacity - suc (length ys)) none)
      first_dead =
          ap (λ i. window q.m_capacity (set q.m_data i none) q.m_head_index q.m_capacity)
            (sym (advance-zero q.m_capacity q.m_head_index h.head))
          ∙ window-set q.m_capacity q.m_data q.m_head_index 0 q.m_capacity none h.slots h.head
              h.positive (omega arith)
          ∙ ap (λ s. set s 0 none) h.elements

  destruct_element-cons :
      {q : FixedCapacityQueue T} {y : T} {ys : List T}
      → Holds q (y ∷ ys)
      → destruct_element q ≡ returned tt (popped q)
  unfolding destruct_element
  destruct_element-cons {q} h = rw (
    ne→== q.m_size 0 (omega (arith, h.counted)),
    destroy_at-slot q.m_data q.m_head_index (head_slot h),
    destroy_head,
  )

  -- `pop` of a queue that is not empty returns the oldest element.
  pub pop-cons :
      {q : FixedCapacityQueue T} {y : T} {ys : List T}
      → Holds q (y ∷ ys)
      → pop q ≡ returned (some y) (popped q)
  unfolding pop
  pop-cons {q} {y} h =
      rw
        (
          ne→== q.m_size 0 (omega (arith, h.counted)),
          read_at-slot q.m_data q.m_head_index,
          head_slot h,
          take_head,
        )
        (>>=-returned destruct_element (λ _. pure (some y)) (destruct_element-cons h))

  -- `pop` of an empty queue returns no element and changes nothing.
  pub pop-nil : {q : FixedCapacityQueue T} → Holds q [] → pop q ≡ returned none q
  unfolding pop
  pop-nil {q} h = rw (eq→== q.m_size 0 h.counted)

  pub m_capacity-popped : (q : FixedCapacityQueue T) → (popped q).m_capacity ≡ q.m_capacity
  unfolding advance_index
  m_capacity-popped q = refl

  -- The loop of `clear` ends, with no live object left.
  destruct_all_lem :
      (fuel : ℕ) (xs : List T) {q : FixedCapacityQueue T}
      → Holds q xs
      → length xs < fuel
      → (q' : FixedCapacityQueue T) × (destruct_all fuel q ≡ returned tt q')
        × Holds q' []
        × (q'.m_capacity ≡ q.m_capacity)
  unfolding destruct_all advance_index empty
  destruct_all_lem zero xs h lt = absurd (omega arith)
  destruct_all_lem (suc fuel) [] {q} h lt = (q, rw (eq→== q.m_size 0 h.counted), h, refl)
  destruct_all_lem (suc fuel) (y ∷ ys) {q} h lt =
      let (q', run, empty_now, same) = destruct_all_lem fuel ys (popped-Holds h) (omega arith) in
      (
        q',
        rw (ne→== q.m_size 0 (omega (arith, h.counted))) (
            >>=-returned destruct_element (λ _. destruct_all fuel) (destruct_element-cons h) ∙ run),
        empty_now,
        same,
      )

  -- On a valid queue, `clear` returns, and leaves a valid empty queue of the same capacity.
  pub queue_clear_lem :
      {q : FixedCapacityQueue T} (xs : List T)
      → Holds q xs
      → (q' : FixedCapacityQueue T) × (clear q ≡ returned tt q')
        × Holds q' []
        × (q'.m_capacity ≡ q.m_capacity)
  unfolding clear
  queue_clear_lem {q} xs h = destruct_all_lem (suc q.m_size) xs h (omega (arith, h.counted))

  -- For a capacity of at most 2 ^ 63, the constructor makes a valid empty queue of that capacity,
  -- or throws if it is 0.
  pub queue_construct_lem :
      (capacity : ℕ)
      → capacity ≤ 2 ^ 63
      → (q : FixedCapacityQueue T) × (construct capacity
          ≡ (if capacity == 0 then threw invalid_argument q else returned tt q))
        × (0 < capacity → Holds q [])
        × (q.m_capacity ≡ capacity)
  unfolding construct
  queue_construct_lem capacity small = (
    record {
      m_data = replicate capacity none;
      m_capacity = capacity;
      m_head_index = 0;
      m_size = 0;
    },
    refl,
    λ positive. record {
      positive = positive;
      small = small;
      slots = length-replicate capacity none;
      head = positive;
      counted = refl;
      fits = omega arith;
      elements = window-replicate capacity capacity 0 capacity ∙ sym (filled-nil capacity);
    },
    refl,
  )
