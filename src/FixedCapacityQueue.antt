-- ===== src/FixedCapacityQueue.antt =====
-- include/cpp_playground/containers/fixed_capacity_queue.hpp: a queue in a ring of slots that is
-- allocated once. A slot is a union, which holds a live `T` or none.
pub mod Contents
pub mod Ends
pub mod Calls
mod Tests
use cpp_playground.Prelude.{
  ℕ, zero, suc, Action, Bool, Outcome, add64, Option, fault, if◌then◌else◌, replicate, ◌==◌, leb,
  none, returned, sub64, ◌>>◌, false, some, threw, invalid_argument, pure, true,
}
use cpp_playground.Storage.{Slots, construct_at, destroy_at, read_at}

pub record FixedCapacityQueue {ℓ} (T : Type ℓ) : Type ℓ where
  pub m_data : Slots T
  pub m_capacity : ℕ
  pub m_head_index : ℕ
  pub m_size : ℕ

module _ {ℓ} {T : Type ℓ} where
  pub empty : FixedCapacityQueue T → Bool
  empty q = q.m_size == 0

  pub full : FixedCapacityQueue T → Bool
  full q = q.m_size == q.m_capacity

  -- The constructor, which checks the capacity after it has allocated the slots.
  pub construct : ℕ → Outcome (FixedCapacityQueue T) (Unit {0})
  construct capacity =
      let q : FixedCapacityQueue T = record {
        m_data = replicate capacity none;
        m_capacity = capacity;
        m_head_index = 0;
        m_size = 0;
      } in
      if capacity == 0 then threw invalid_argument q else returned tt q

  pub tail_index : FixedCapacityQueue T → ℕ
  tail_index q =
      let write_index = add64 q.m_head_index q.m_size in
      if leb q.m_capacity write_index then sub64 write_index q.m_capacity else write_index

  -- `advance_index(m_head_index)`, the only call. It also takes one off the size.
  pub advance_index : FixedCapacityQueue T → FixedCapacityQueue T
  advance_index q =
      let index = add64 q.m_head_index 1 in
      record q {
        m_head_index = if index == q.m_capacity then 0 else index;
        m_size = sub64 q.m_size 1;
      }

  -- `std::construct_at(&m_data[tail_index()].value, ...); ++m_size; return true;`
  pub construct_at_tail : T → Action (FixedCapacityQueue T) Bool
  unfolding tail_index
  construct_at_tail value q = elim (construct_at q.m_data (tail_index q) value) [
    | none ↦ fault
    | some s ↦ returned true (record q { m_data = s; m_size = add64 q.m_size 1 })
  ]

  -- `value` is `T(std::forward<Args>(args)...)`.
  pub construct_element : T → Action (FixedCapacityQueue T) Bool
  unfolding full construct_at_tail
  construct_element value q = if full q then returned false q else construct_at_tail value q

  pub emplace : T → Action (FixedCapacityQueue T) Bool
  unfolding construct_element
  emplace value = construct_element value

  -- Both overloads of `push`.
  pub push : T → Action (FixedCapacityQueue T) Bool
  unfolding construct_element
  push value = construct_element value

  -- What `destruct_element` does behind its assertion.
  pub destroy_head : Action (FixedCapacityQueue T) (Unit {0})
  unfolding advance_index
  destroy_head q = elim (destroy_at q.m_data q.m_head_index) [
    | none ↦ fault
    | some s ↦ returned tt (advance_index (record q { m_data = s }))
  ]

  -- A failed assertion ends the program; it counts as a fault.
  pub destruct_element : Action (FixedCapacityQueue T) (Unit {0})
  unfolding empty destroy_head
  destruct_element q = if empty q then fault else destroy_head q

  -- `while (!empty()) destruct_element();` with fuel.
  pub destruct_all : ℕ → Action (FixedCapacityQueue T) (Unit {0})
  destruct_all zero q = fault
  destruct_all (suc fuel) q =
      let again = (do destruct_element; destruct_all fuel) q in
      if empty q then returned tt q else again

  -- The fuel is one more than the elements there are. The destructor is `clear` too.
  pub clear : Action (FixedCapacityQueue T) (Unit {0})
  clear q = destruct_all (suc q.m_size) q

  -- `pop` of a queue that is not empty: move the head out, destroy it, return what was moved.
  pub take_head : Action (FixedCapacityQueue T) (Option T)
  unfolding destruct_element
  take_head q = elim (read_at q.m_data q.m_head_index) [
    | none ↦ fault
    | some value ↦ (do destruct_element; pure (some value)) q
  ]

  pub pop : Action (FixedCapacityQueue T) (Option T)
  unfolding empty take_head
  pop q = if empty q then returned none q else take_head q

  pub size : FixedCapacityQueue T → ℕ
  size q = q.m_size

  pub capacity : FixedCapacityQueue T → ℕ
  capacity q = q.m_capacity
