-- ===== src/SpscQueue.antt =====
-- include/cpp_playground/concurrency/lf_spsc_queue.hpp: the constructor and `try_push`, for a type of
-- pointers. The placement new of the source takes the value of a slot for the address, so that
-- `try_push` compiles only for a type that converts to `void *`. `try_pop` passes the value of a slot
-- to `std::launder`, takes the result for a `T *`, and compiles for no `T`.
pub mod Pushes
mod Tests
use cpp_playground.Prelude.{
  [], ◌∷◌, none, some, List, ℕ, Action, add64, replicate, Bool, fault, ◌%◌, if◌then◌else◌, length,
  returned, true, ◌==◌, false, ◌>>◌,
}
use cpp_playground.Storage.{Slots, read_at}

-- A pointer is an address. A slot holds a value, or its `dummy`.
pub record SpscQueue : Type 0 where
  pub m_ring_buffer : Slots ℕ
  pub m_read_index : ℕ
  pub m_write_index : ℕ

-- The queue, and the pointers that were constructed elsewhere, each with its address.
pub record World : Type 0 where
  pub queue : SpscQueue
  pub constructed : List (ℕ × ℕ)

-- One slot more than the capacity, each with its `dummy`.
pub construct : ℕ → World
construct capacity = record {
  queue = record {
    m_ring_buffer = replicate (add64 capacity 1) none;
    m_read_index = 0;
    m_write_index = 0;
  };
  constructed = [];
}

-- `(m_write_index + 1) % m_ring_buffer.size()`
pub next_write : SpscQueue → ℕ
next_write q = add64 q.m_write_index 1 % length q.m_ring_buffer

-- `new (m_ring_buffer[write].value) T(std::move(value))`: the address is the pointer in the slot, and
-- to read it where there is only the `dummy` is undefined.
pub construct_at_value : ℕ → Action World (Unit {0})
construct_at_value value w = elim (read_at w.queue.m_ring_buffer w.queue.m_write_index) [
  | none ↦ fault
  | some address ↦ returned tt (record w { constructed = (address, value) ∷ w.constructed })
]

pub store_write : ℕ → Action World Bool
store_write next w =
    let q = w.queue in returned true (record w { queue = record q { m_write_index = next } })

pub try_push : ℕ → Action World Bool
unfolding next_write construct_at_value store_write
try_push value w =
    let next = next_write w.queue in
    if next == w.queue.m_read_index
    then returned false w
    else (do construct_at_value value; store_write next) w
