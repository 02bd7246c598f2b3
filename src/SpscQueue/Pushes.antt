-- ===== src/SpscQueue/Pushes.antt =====
-- include/cpp_playground/concurrency/lf_spsc_queue.hpp: what `try_push` does to a new queue.
use cpp_playground.Storage.{read_at}
use native.Mathlib.Nat.{mod-eq_of_lt}
use cpp_playground.Prelude.{
  [], ◌∷◌, refl, none, some, inl, inr, ℕ, replicate, ◌+◌, ◌<◌, ◌≡◌, suc, word_mod, if◌then◌else◌,
  zero, ◌==◌, returned, false, fault, ==-cases, add64, length, ◌≢◌, length-replicate, ◌%◌, ◌∙◌,
  arith, Option, ap, ap₂, true, >>=-fault,
}
use cpp_playground.SpscQueue.{
  World, construct, try_push, next_write, construct_at_value, store_write,
}

nothing_there : (n i : ℕ) → read_at {T = ℕ} (replicate n none) i ≡ none
unfolding read_at
nothing_there zero i = refl
nothing_there (suc n) zero = refl
nothing_there (suc n) (suc i) = nothing_there n i

size_lem :
    (capacity : ℕ)
    → capacity + 1 < word_mod
    → length (construct capacity).queue.m_ring_buffer ≡ capacity + 1
unfolding construct
size_lem capacity word =
    let slot : Option ℕ = none in length-replicate (add64 capacity 1) slot ∙ omega (arith, word)

next_write-construct :
    (capacity size : ℕ)
    → length (construct capacity).queue.m_ring_buffer ≡ size
    → next_write (construct capacity).queue ≡ 1 % size
unfolding next_write construct
next_write-construct capacity size e =
    let one : add64 0 1 ≡ 1 = omega arith in ap₂ (λ a b. a % b) one e

next_write_none :
    (capacity : ℕ)
    → capacity + 1 < word_mod
    → capacity ≡ 0
    → next_write (construct capacity).queue ≡ 0
next_write_none capacity word none_held =
    next_write-construct capacity 1 (size_lem capacity word ∙ omega (arith, none_held))

next_write_some :
    (capacity : ℕ)
    → capacity + 1 < word_mod
    → capacity ≢ 0
    → next_write (construct capacity).queue ≡ 1
next_write_some capacity word some_held =
    next_write-construct capacity (capacity + 1) (size_lem capacity word)
    ∙ mod-eq_of_lt (omega (arith, some_held))

construct_at_nothing : (capacity value : ℕ) → construct_at_value value (construct capacity) ≡ fault
unfolding construct_at_value construct
construct_at_nothing capacity value =
    ap
      (λ r. elim r [
        | none ↦ fault
        | some address ↦
            returned tt (record (construct capacity) { constructed = (address, value) ∷ [] })
      ])
      (nothing_there (add64 capacity 1) 0)

try_push_full :
    (value : ℕ) (w : World)
    → (next_write w.queue == w.queue.m_read_index) ≡ true
    → try_push value w ≡ returned false w
unfolding try_push
try_push_full value w full = rw full refl

try_push_fault :
    (value : ℕ) (w : World)
    → (next_write w.queue == w.queue.m_read_index) ≡ false
    → construct_at_value value w ≡ fault
    → try_push value w ≡ fault
unfolding try_push
try_push_fault value w room nowhere =
    let stuck =
      >>=-fault (construct_at_value value) (λ _. store_write (next_write w.queue)) nowhere in
    rw room stuck

read_index : (capacity : ℕ) → (construct capacity).queue.m_read_index ≡ 0
unfolding construct
read_index capacity = refl

-- A new queue for pointers, of a capacity that leaves room for one slot more in a `std::size_t`:
-- with capacity 0, `try_push` returns false and changes nothing; with any other capacity, its
-- behaviour is undefined, whatever it is given.
pub try_push_lem :
    (capacity value : ℕ)
    → capacity + 1 < word_mod
    → try_push value (construct capacity)
      ≡ (if capacity == 0 then returned false (construct capacity) else fault)
try_push_lem capacity value word = elim (==-cases capacity 0) [
  | inl (none_held, t) ↦
      let full =
        ap₂ (λ a b. a == b) (next_write_none capacity word none_held) (read_index capacity) in
      try_push_full value (construct capacity) full ∙ rw t refl
  | inr (some_held, t) ↦
      let room =
        ap₂ (λ a b. a == b) (next_write_some capacity word some_held) (read_index capacity) in
      try_push_fault value (construct capacity) room (construct_at_nothing capacity value)
      ∙ rw t refl
]
