-- ===== src/MemoryPool/Tests.antt =====
-- The theorems of the pool at concrete inputs.
use cpp_playground.Prelude.{[], ◌∷◌, refl, none, ℕ, ◌≡◌, fault, some}
use cpp_playground.MemoryPool.{MemoryPool, object, next, allocate}
use cpp_playground.MemoryPool.FreeList.{IsChain, link, done, allocate_lem}

-- Slot 0 holds 7, slot 1 is free.
abbrev half : MemoryPool ℕ
half = record { m_capacity = 2; m_slots = object 7 ∷ next none ∷ []; m_next_free = some 1 }

half-IsChain : IsChain half.m_slots half.m_next_free (1 ∷ [])
half-IsChain = link 1 none [] refl done

allocate_lem_example : allocate 8 half ≡ fault
allocate_lem_example = allocate_lem half 8 (1 ∷ []) half-IsChain
