-- ===== src/MemoryPool/FreeList.antt =====
-- The free list: what the constructor and `deallocate` make of it, and why `allocate` cannot take
-- a slot from it.
use cpp_playground.Prelude.{
  [], ◌∷◌, zero, suc, refl, List, Option, ℕ, ◌≡◌, if◌then◌else◌, length, ◌==◌, threw, bad_alloc,
  fault, arith, get_elem?, inl, none, ◌+◌, ◌<◌, eq→==, ltb, some, ◌⊎◌, ap, inr, not_lt→ltb, set,
  lt→ltb, returned, ◌∙◌, ne→==, >>=-returned, ◌>>◌, pure, ◌≢◌, sym, get_elem?-set_ne, >>=-fault,
  Bool, false, true,
}
use cpp_playground.MemoryPool.{
  MemoryPool, Slot, object, next, construct, linked_slots, allocate, allocate_at, deallocate,
  construct_object, take_next, read_next,
}

-- The `rounds` numbers from `i` on.
abbrev pub numbers : (rounds i : ℕ) → List ℕ
numbers zero i = []
numbers (suc rounds) i = i ∷ numbers rounds (suc i)

module _ {ℓ} {T : Type ℓ} where
  -- From a first pointer, the slots `is` are free, and linked in this order.
  pub data IsChain (slots : List (Slot T)) : Option ℕ → List ℕ → Type ℓ where
    done : IsChain slots none []
    link :
        (i : ℕ) (p : Option ℕ) (is : List ℕ)
        → get_elem? slots i ≡ some (next p)
        → IsChain slots p is
        → IsChain slots (some i) (i ∷ is)

  chain_cases :
      (slots : List (Slot T)) (first : Option ℕ) (is : List ℕ)
      → IsChain slots first is
      → ((first ≡ none) × (length is ≡ 0))
        ⊎ ((i : ℕ) × (p : Option ℕ) × (first ≡ some i)
            × (0 < length is)
            × (get_elem? slots i ≡ some (next p)))
  chain_cases slots _ _ done = inl (refl, refl)
  chain_cases slots _ _ (link i p is e c) = inr (i, p, refl, omega arith, e)

  abbrev free : Option (Slot T) → Bool
  free (some (next p)) = true
  free _ = false

  free_or_object : (x : T) (p : Option ℕ) → some (object x) ≢ some (next p)
  free_or_object x p q = let differ : false ≡ true = ap free q in absurd (ground arith)

  set_there :
      (slots : List (Slot T)) (i : ℕ) (s t : Slot T)
      → get_elem? slots i ≡ some s
      → get_elem? (set slots i t) i ≡ some t
  set_there [] i s t h = absurd (ground arith)
  set_there (u ∷ slots) zero s t h = refl
  set_there (u ∷ slots) (suc i) s t h = set_there slots i s t h

  abbrev built_pool : MemoryPool T → ℕ → T → MemoryPool T
  built_pool pool i x = record pool { m_slots = set pool.m_slots i (object x) }

  -- There is no `next` to read in a slot with an object.
  taken :
      (pool : MemoryPool T) (i : ℕ) (x : T)
      → get_elem? pool.m_slots i ≡ some (object x)
      → take_next i pool ≡ fault
  unfolding take_next read_next
  taken pool i x h = rw (h, take_next, read_next)

  -- `allocate` of a pool whose free list is empty throws and changes nothing; if there is a free
  -- slot, its behaviour is undefined: it reads `next` from the slot where it has just constructed
  -- the object.
  pub allocate_lem :
      (pool : MemoryPool T) (x : T) (is : List ℕ)
      → IsChain pool.m_slots pool.m_next_free is
      → allocate x pool ≡ (if length is == 0 then threw bad_alloc pool else fault)
  unfolding allocate allocate_at
  allocate_lem pool x is h = elim (chain_cases pool.m_slots pool.m_next_free is h) [
    | inl (e, l) ↦ rw (eq→== (length is) 0 l) (ap (λ first. allocate_at first x pool) e)
    | inr (i, p, e, l, s) ↦
        let built : construct_object i x pool ≡ returned tt (built_pool pool i x) =
          rw (s, construct_object) in
        let clobbered = set_there pool.m_slots i (next p) (object x) s in
        rw (ne→== (length is) 0 (omega arith)) (
          ap (λ first. allocate_at first x pool) e
          ∙ >>=-returned (construct_object i x) (λ _. take_next i >> pure i) {s = pool} built
          ∙ >>=-fault (take_next i) (λ _. pure i) (taken (built_pool pool i x) i x clobbered))
  ]

  get_elem?-linked_slots :
      (rounds i capacity j : ℕ)
      → j < rounds
      → get_elem? (linked_slots {T = T} rounds i capacity) j
        ≡ some (next (if ltb (i + j + 1) capacity then some (i + j + 1) else none))
  unfolding linked_slots
  get_elem?-linked_slots zero i capacity j h = absurd (omega arith)
  get_elem?-linked_slots (suc rounds) i capacity zero h =
      ap (λ k. some (next (if ltb k capacity then some k else none))) (omega arith)
  get_elem?-linked_slots (suc rounds) i capacity (suc j) h =
      get_elem?-linked_slots rounds (suc i) capacity j (omega arith)
      ∙ ap (λ k. some (next (if ltb k capacity then some k else none))) (omega arith)

  linked_slots-IsChain :
      (rounds i capacity : ℕ)
      → i + rounds ≡ capacity
      → IsChain
          (linked_slots {T = T} capacity 0 capacity)
          (if ltb i capacity then some i else none)
          (numbers rounds i)
  linked_slots-IsChain zero i capacity h = rw (not_lt→ltb i capacity (omega arith)) done
  linked_slots-IsChain (suc rounds) i capacity h = rw (lt→ltb i capacity (omega arith)) (
      link i (if ltb (suc i) capacity then some (suc i) else none) (numbers rounds (suc i))
        (get_elem?-linked_slots capacity 0 capacity i (omega arith)
          ∙ ap (λ k. some (next (if ltb k capacity then some k else none))) (omega arith))
        (linked_slots-IsChain rounds (suc i) capacity (omega arith)))

  -- The constructor makes all slots free, in order.
  pub construct-IsChain :
      (capacity : ℕ)
      → IsChain
          (construct {T = T} capacity).m_slots
          (construct {T = T} capacity).m_next_free
          (numbers capacity 0)
  unfolding construct
  construct-IsChain capacity = linked_slots-IsChain capacity 0 capacity (omega arith)

  -- A slot with an object is not in the free list: changing it keeps the list.
  kept :
      (slots : List (Slot T)) (i : ℕ) (x : T) (t : Slot T) (first : Option ℕ) (is : List ℕ)
      → get_elem? slots i ≡ some (object x)
      → IsChain slots first is
      → IsChain (set slots i t) first is
  kept slots i x t _ _ h done = done
  kept slots i x t _ _ h (link j p is e c) =
      let other : i ≢ j = λ q. free_or_object x p (sym h ∙ ap (get_elem? slots) q ∙ e) in
      link j p is (get_elem?-set_ne slots i j t other ∙ e) (kept slots i x t p is h c)

  -- `deallocate` of a null pointer changes nothing; that of an object puts its slot in front of
  -- the free list.
  pub deallocate_lem :
      (pool : MemoryPool T) (i : ℕ) (x : T) (is : List ℕ)
      → IsChain pool.m_slots pool.m_next_free is
      → get_elem? pool.m_slots i ≡ some (object x)
      → (deallocate none pool ≡ returned tt pool)
        × ((pool' : MemoryPool T) × (deallocate (some i) pool ≡ returned tt pool')
            × IsChain pool'.m_slots pool'.m_next_free (i ∷ is))
  unfolding deallocate
  deallocate_lem pool i x is c h = (
    refl,
    (
      record pool { m_slots = set pool.m_slots i (next pool.m_next_free); m_next_free = some i },
      rw (h, deallocate),
      link i pool.m_next_free is (set_there pool.m_slots i (object x) (next pool.m_next_free) h)
          (kept pool.m_slots i x (next pool.m_next_free) pool.m_next_free is h c),
    ),
  )
