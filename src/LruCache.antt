-- ===== src/LruCache.antt =====
-- include/cpp_playground/containers/lru_cache.hpp: a cache as a `std::list` of entries, most
-- recently used first, and a `std::unordered_map` from keys to list iterators. An iterator is the
-- address of its node: a number that the node keeps wherever it moves in the list.
pub mod Nodes
pub mod Validity
pub mod Shrink
pub mod Recency
pub mod Calls
mod Tests
use cpp_playground.Prelude.{
  ℕ, zero, suc, Option, none, some, List, [], ◌∷◌, Action, if◌then◌else◌, length, fault, returned,
  ◌==◌, ◌>>◌, ltb, ◌>>=◌, pure, head?,
}
use mathlib.Core.Logic.{ite}
use mathlib.Core.Option

-- `ListEntry`, with the address of its node.
pub record ListEntry {ℓ} (K T : Type ℓ) : Type ℓ where
  pub node : ℕ
  pub key : K
  pub value : T

-- `m_fresh` stands for the allocator: the address of the next node. No node has it yet.
pub record LruCache {ℓ} (K T : Type ℓ) : Type ℓ where
  pub m_elements : List (ListEntry K T)
  pub m_lookup : List (K × ℕ)
  pub m_capacity : ℕ
  pub m_fresh : ℕ

-- The operations of `std::list` through an iterator; none where no node has the address.
module _ {ℓ} {K T : Type ℓ} where
  -- `pos->value`
  pub value_at : ℕ → List (ListEntry K T) → Option T
  value_at n [] = none
  value_at n (e ∷ es) = if e.node == n then some e.value else value_at n es

  -- `pos->value = v`
  pub assign_value : ℕ → T → List (ListEntry K T) → Option (List (ListEntry K T))
  assign_value n v [] = none
  assign_value n v (e ∷ es) =
      if e.node == n
      then some (record e { value = v } ∷ es)
      else Option.map (◌∷◌ e) (assign_value n v es)

  -- The node at the address, and the list without it.
  pub unlink : ℕ → List (ListEntry K T) → Option (ListEntry K T × List (ListEntry K T))
  unlink n [] = none
  unlink n (e ∷ es) =
      if e.node == n then some (e, es) else Option.map (λ p. (p.0, e ∷ p.1)) (unlink n es)

  -- `m_elements.splice(m_elements.begin(), m_elements, pos)`
  pub splice_front : ℕ → List (ListEntry K T) → Option (List (ListEntry K T))
  unfolding unlink
  splice_front n es = Option.map (λ p. p.0 ∷ p.1) (unlink n es)

  -- `m_elements.back().key` and `m_elements.pop_back()`
  pub back_key : List (ListEntry K T) → Option K
  back_key [] = none
  back_key (e ∷ []) = some e.key
  back_key (e ∷ f ∷ es) = back_key (f ∷ es)

  pub pop_back : List (ListEntry K T) → List (ListEntry K T)
  pop_back [] = []
  pop_back (e ∷ []) = []
  pop_back (e ∷ f ∷ es) = e ∷ pop_back (f ∷ es)

  pub promote_element : ℕ → Action (LruCache K T) (Unit {0})
  unfolding splice_front
  promote_element pos c = elim (splice_front pos c.m_elements) [
    | none ↦ fault
    | some es ↦ returned tt (record c { m_elements = es })
  ]

  -- `list_pos->value`, as a result.
  pub read_value : ℕ → Action (LruCache K T) T
  unfolding value_at
  read_value pos c = elim (value_at pos c.m_elements) [ none ↦ fault | some v ↦ returned v c ]

  pub write_value : ℕ → T → Action (LruCache K T) (Unit {0})
  unfolding assign_value
  write_value pos v c = elim (assign_value pos v c.m_elements) [
    | none ↦ fault
    | some es ↦ returned tt (record c { m_elements = es })
  ]

  -- `return m_elements.front().value`, undefined for an empty list.
  pub front_value : Action (LruCache K T) T
  front_value c = elim (head? c.m_elements) [ none ↦ fault | some e ↦ returned e.value c ]

  pub size : LruCache K T → ℕ
  size c = length c.m_elements

-- The operations of `std::unordered_map`, over keys with a decidable equality.
module _ {ℓ} {K : Type ℓ} (dec : Discrete K) where
  pub find : K → List (K × ℕ) → Option ℕ
  find k [] = none
  find k ((j, n) ∷ m) = ite (dec j k) (some n) (find k m)

  -- `emplace` leaves a key that is there as it is.
  pub emplace : K → ℕ → List (K × ℕ) → List (K × ℕ)
  unfolding find
  emplace k n m = elim (find k m) [ none ↦ (k, n) ∷ m | some _ ↦ m ]

  pub erase : K → List (K × ℕ) → List (K × ℕ)
  erase k [] = []
  erase k ((j, n) ∷ m) = ite (dec j k) (erase k m) ((j, n) ∷ erase k m)

module _ {ℓ} {K T : Type ℓ} (dec : Discrete K) where
  -- The body of the loop of `shrink_to_fit`.
  pub evict : Action (LruCache K T) (Unit {0})
  unfolding erase pop_back back_key
  evict c = elim (back_key c.m_elements) [
    | none ↦ fault
    | some k ↦
        returned tt
          (record c { m_lookup = erase dec k c.m_lookup; m_elements = pop_back c.m_elements })
  ]

  -- `while (m_elements.size() > m_capacity)`, with fuel.
  pub shrink_loop : ℕ → Action (LruCache K T) (Unit {0})
  unfolding evict
  shrink_loop zero c = fault
  shrink_loop (suc fuel) c =
      let again = (do evict; shrink_loop fuel) c in
      if ltb c.m_capacity (length c.m_elements) then again else returned tt c

  -- The fuel is one more than the entries there are.
  pub shrink_to_fit : Action (LruCache K T) (Unit {0})
  unfolding shrink_loop
  shrink_to_fit c = shrink_loop (suc (length c.m_elements)) c

  -- `emplace_front`, and the entry of the map.
  pub add_front : K → T → Action (LruCache K T) (Unit {0})
  unfolding emplace
  add_front k v c = returned tt (record c {
    m_elements = record { node = c.m_fresh; key = k; value = v } ∷ c.m_elements;
    m_lookup = emplace dec k c.m_fresh c.m_lookup;
    m_fresh = suc c.m_fresh;
  })

  pub insert : K → T → Action (LruCache K T) T
  insert key value c = elim (find dec key c.m_lookup) [
    | none ↦ (do add_front key value; shrink_to_fit; front_value) c
    | some pos ↦ (do write_value pos value; promote_element pos; read_value pos) c
  ]

  pub get : K → Action (LruCache K T) (Option T)
  get key c = elim (find dec key c.m_lookup) [
    | none ↦ returned none c
    | some pos ↦ (do promote_element pos; v ← read_value pos; pure (some v)) c
  ]

-- The constructor. The capacity is a hint for the map's buckets too.
pub construct {ℓ} : {K T : Type ℓ} → ℕ → LruCache K T
construct capacity = record { m_elements = []; m_lookup = []; m_capacity = capacity; m_fresh = 0 }
