-- ===== src/FixedCapacityVector/Transfer.antt =====
-- The member functions of `FixedCapacityVector` that take the elements of another vector: copy and
-- move construction and assignment, from the same capacity and from another one.
pub mod Copying
pub mod Moving
use cpp_playground.Prelude.{
  ℕ, zero, suc, Option, none, some, Bool, ltb, ◌==◌, ◌&&◌, if◌then◌else◌, Exception, length_error,
  Outcome, returned, threw, fault, Action, ◌>>=◌, ◌>>◌, pure, ◌≡◌,
}
use cpp_playground.Storage.{read_at}
use cpp_playground.FixedCapacityVector.{
  FixedCapacityVector, construct_element, destroy_element, subscript, increment_size,
  destroy_elements, clear, construct,
}

-- `*this` and `other` while elements move from one to the other.
pub record Transfer {ℓ} (T : Type ℓ) : Type ℓ where
  pub target : FixedCapacityVector T
  pub source : FixedCapacityVector T

-- The vectors of one type, by address.
abbrev pub Vectors {ℓ} : Type ℓ → Type ℓ
Vectors T = ℕ → FixedCapacityVector T

abbrev pub store {ℓ} : {T : Type ℓ} → Vectors T → ℕ → FixedCapacityVector T → Vectors T
store vectors p v q = if p == q then v else vectors q

module _ {ℓ} {T : Type ℓ} where
  -- What a step on `*this`, or on `other`, does to the two.
  pub on_target {κ} : {A : Type κ} → Action (FixedCapacityVector T) A → Action (Transfer T) A
  on_target step t = elim (step t.target) [
    | returned a v ↦ returned a (record t { target = v })
    | threw e v ↦ threw e (record t { target = v })
    | fault ↦ fault
  ]

  pub on_source {κ} : {A : Type κ} → Action (FixedCapacityVector T) A → Action (Transfer T) A
  on_source step t = elim (step t.source) [
    | returned a v ↦ returned a (record t { source = v })
    | threw e v ↦ threw e (record t { source = v })
    | fault ↦ fault
  ]

  -- `for (; i < other.m_size; ++i) { new (data() + i) T(other.data()[i]); ++m_size; }` with
  -- `rounds` rounds left.
  pub copy_elements :
      (rounds i : ℕ) → FixedCapacityVector T → Action (FixedCapacityVector T) (Unit {0})
  unfolding construct_element increment_size
  copy_elements zero i other v = returned tt v
  copy_elements (suc rounds) i other v = elim (read_at other.m_buffer i) [
    | none ↦ fault
    | some x ↦ (do construct_element i x; increment_size; copy_elements rounds (suc i) other) v
  ]

  -- The loop of the move operations, which also destroys each element of `other`.
  pub move_elements : (rounds i : ℕ) → Action (Transfer T) (Unit {0})
  unfolding on_target on_source construct_element increment_size subscript destroy_element
  move_elements zero i t = returned tt t
  move_elements (suc rounds) i t =
      (do
        x ← on_source (subscript i)
        on_target (construct_element i x)
        on_target increment_size
        on_source (destroy_element i)
        move_elements rounds (suc i))
        t

  -- `other.m_size = 0`
  pub reset_source_size : Action (Transfer T) (Unit {0})
  reset_source_size t = returned tt (record t { source = record (t.source) { m_size = 0 } })

  -- The loop over all elements of `other`, and the reset of its size.
  pub move_all : Action (Transfer T) (Unit {0})
  unfolding reset_source_size
  move_all t = (do move_elements t.source.m_size 0; reset_source_size) t

  -- The part of copy assignment behind its checks.
  pub replace_by_copy : FixedCapacityVector T → Action (FixedCapacityVector T) (Unit {0})
  unfolding destroy_elements
  replace_by_copy other = do destroy_elements; copy_elements other.m_size 0 other

  -- The part of move assignment behind its checks.
  pub replace_by_move : Action (Transfer T) (Unit {0})
  unfolding on_target clear move_all
  replace_by_move = do on_target clear; move_all

  -- What an operation on the vector at `this`, or on two, leaves in the store.
  abbrev write_back :
      Vectors T → ℕ → Outcome (FixedCapacityVector T) (Unit {0}) → Outcome (Vectors T) (Unit {0})
  write_back vectors this (returned a v) = returned a (store vectors this v)
  write_back vectors this (threw e v) = threw e (store vectors this v)
  write_back vectors this fault = fault

  abbrev write_back_both :
      Vectors T
      → (this other : ℕ) → Outcome (Transfer T) (Unit {0})
      → Outcome (Vectors T) (Unit {0})
  write_back_both vectors this other (returned a t) =
      returned a (store (store vectors this t.target) other t.source)
  write_back_both vectors this other (threw e t) =
      threw e (store (store vectors this t.target) other t.source)
  write_back_both vectors this other fault = fault

  -- Copy assignment at the same capacity, with the test for self-assignment.
  pub copy_assign : (this other : ℕ) → Action (Vectors T) (Unit {0})
  copy_assign this other vectors =
      if this == other
      then returned tt vectors
      else write_back vectors this (replace_by_copy (vectors other) (vectors this))

  -- Move assignment at the same capacity.
  pub move_assign : (this other : ℕ) → Action (Vectors T) (Unit {0})
  move_assign this other vectors =
      if this == other
      then returned tt vectors
      else write_back_both vectors this other
          (replace_by_move (record { target = vectors this; source = vectors other }))

-- A step on one of the two that returns, as a step on both.
module _ {ℓ κ} {T : Type ℓ} {A : Type κ} where
  pub on_target-returned :
      (step : Action (FixedCapacityVector T) A) (t : Transfer T) {a : A} {v : FixedCapacityVector T}
      → step t.target ≡ returned a v
      → on_target step t ≡ returned a (record t { target = v })
  unfolding on_target
  on_target-returned step t e = rw (e, on_target)

  pub on_source-returned :
      (step : Action (FixedCapacityVector T) A) (t : Transfer T) {a : A} {v : FixedCapacityVector T}
      → step t.source ≡ returned a v
      → on_source step t ≡ returned a (record t { source = v })
  unfolding on_source
  on_source-returned step t e = rw (e, on_source)

module _ {ℓ} {T : Type ℓ} (capacity_value : ℕ) where
  pub copy_construct : FixedCapacityVector T → Outcome (FixedCapacityVector T) (Unit {0})
  unfolding construct
  copy_construct other = copy_elements other.m_size 0 other (construct capacity_value)

  -- From a vector of another capacity.
  pub copy_construct_from : FixedCapacityVector T → Outcome (FixedCapacityVector T) (Unit {0})
  unfolding construct
  copy_construct_from other =
      if ltb capacity_value other.m_size
      then threw length_error (construct capacity_value)
      else copy_elements other.m_size 0 other (construct capacity_value)

  pub move_construct : FixedCapacityVector T → Outcome (Transfer T) (Unit {0})
  unfolding construct move_all
  move_construct other = move_all (record { target = construct capacity_value; source = other })

  pub move_construct_from : FixedCapacityVector T → Outcome (Transfer T) (Unit {0})
  unfolding construct move_all
  move_construct_from other =
      if ltb capacity_value other.m_size
      then threw length_error (record { target = construct capacity_value; source = other })
      else move_all (record { target = construct capacity_value; source = other })

  -- Vectors of two capacities are never one object. The size is tested only where `if constexpr`
  -- keeps the test.
  pub copy_assign_from :
      (other_capacity : ℕ) → FixedCapacityVector T → Action (FixedCapacityVector T) (Unit {0})
  unfolding replace_by_copy
  copy_assign_from other_capacity other v =
      if ltb capacity_value other_capacity && ltb capacity_value other.m_size
      then threw length_error v
      else replace_by_copy other v

  pub move_assign_from : (other_capacity : ℕ) → Action (Transfer T) (Unit {0})
  unfolding replace_by_move
  move_assign_from other_capacity t =
      if ltb capacity_value other_capacity && ltb capacity_value t.source.m_size
      then threw length_error t
      else replace_by_move t
