-- ===== src/MemoryPool.antt =====
-- include/cpp_playground/memory/pool_allocator.hpp: a pool of slots, the free ones in a linked list.
-- A slot is a union: an object, or the pointer `next`. A pointer to a slot is its index.
pub mod FreeList
mod Tests
use cpp_playground.Prelude.{
  ℕ, zero, suc, ◌+◌, Option, none, some, List, [], ◌∷◌, set, get_elem?, Action, Outcome, returned,
  threw, fault, ltb, if◌then◌else◌, bad_alloc, ◌>>◌, pure,
}

-- The member of the union that is alive.
pub data Slot {ℓ} (T : Type ℓ) : Type ℓ where
  object : T → Slot T
  next : Option ℕ → Slot T

pub record MemoryPool {ℓ} (T : Type ℓ) : Type ℓ where
  pub m_capacity : ℕ
  pub m_slots : List (Slot T)
  pub m_next_free : Option ℕ

module _ {ℓ} {T : Type ℓ} where
  -- The slots from the `i`-th on, after the loop of the constructor.
  pub linked_slots : (rounds i capacity : ℕ) → List (Slot T)
  linked_slots zero i capacity = []
  linked_slots (suc rounds) i capacity =
      next (if ltb (i + 1) capacity then some (i + 1) else none)
      ∷ linked_slots rounds (suc i) capacity

  pub construct : ℕ → MemoryPool T
  unfolding linked_slots
  construct capacity = record {
    m_capacity = capacity;
    m_slots = linked_slots capacity 0 capacity;
    m_next_free = if ltb 0 capacity then some 0 else none;
  }

  -- `slot->next`: undefined behaviour unless `next` is alive.
  pub read_next : ℕ → Action (MemoryPool T) (Option ℕ)
  read_next i pool = elim (get_elem? pool.m_slots i) [
    | none ↦ fault
    | some (object x) ↦ fault
    | some (next p) ↦ returned p pool
  ]

  -- `new (&(slot->storage)) T(...)`, which ends the life of `next`.
  pub construct_object : ℕ → T → Action (MemoryPool T) (Unit {0})
  construct_object i x pool = elim (get_elem? pool.m_slots i) [
    | none ↦ fault
    | some _ ↦ returned tt (record pool { m_slots = set pool.m_slots i (object x) })
  ]

  -- `m_next_free = m_next_free->next`
  pub take_next : ℕ → Action (MemoryPool T) (Unit {0})
  unfolding read_next
  take_next i pool = elim (read_next i pool) [
    | returned p q ↦ returned tt (record q { m_next_free = p })
    | threw e q ↦ threw e q
    | fault ↦ fault
  ]

  -- `allocate`, given `m_next_free`. `value` is `T(std::forward<Args>(args)...)`.
  pub allocate_at : Option ℕ → T → Action (MemoryPool T) ℕ
  unfolding construct_object take_next
  allocate_at none value pool = threw bad_alloc pool
  allocate_at (some i) value pool = (do construct_object i value; take_next i; pure i) pool

  pub allocate : T → Action (MemoryPool T) ℕ
  unfolding allocate_at
  allocate value pool = allocate_at pool.m_next_free value pool

  -- A null pointer, or a pointer to an object.
  pub deallocate : Option ℕ → Action (MemoryPool T) (Unit {0})
  deallocate none pool = returned tt pool
  deallocate (some i) pool = elim (get_elem? pool.m_slots i) [
    | none ↦ fault
    | some (next p) ↦ fault
    | some (object x) ↦
        returned tt (record pool {
          m_slots = set pool.m_slots i (next pool.m_next_free);
          m_next_free = some i;
        })
  ]
