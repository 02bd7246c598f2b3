-- ===== src/FixedCapacityVector.antt =====
-- include/cpp_playground/containers/fixed_capacity_vector.hpp: the object of a
-- `FixedCapacityVector<T, capacity_value>` and its member functions that stay within one object.
-- `m_buffer` is raw storage: a slot holds a live object or none.
pub mod Transfer
pub mod Layout
pub mod Elements
pub mod Init
pub mod Resize
pub mod Iteration
pub mod Calls
mod Tests
use cpp_playground.Prelude.{
  ℕ, zero, suc, ◌-◌, Option, none, some, Bool, List, [], ◌∷◌, length, replicate, ltb, leb, ◌==◌,
  if◌then◌else◌, add64, sub64, Exception, length_error, out_of_range, Outcome, returned, threw,
  fault, Action, ◌>>=◌, ◌>>◌, pure,
}
use cpp_playground.Storage.{Slots, construct_at, destroy_at, read_at, destroy}

pub record FixedCapacityVector {ℓ} (T : Type ℓ) : Type ℓ where
  pub m_size : ℕ
  pub m_buffer : Slots T

module _ {ℓ} {T : Type ℓ} where
  -- `new (data() + i) T(x)`
  pub construct_element : ℕ → T → Action (FixedCapacityVector T) (Unit {0})
  construct_element i x v = elim (construct_at v.m_buffer i x) [
    | none ↦ fault
    | some b ↦ returned tt (record v { m_buffer = b })
  ]

  -- `std::destroy_at(data() + i)`
  pub destroy_element : ℕ → Action (FixedCapacityVector T) (Unit {0})
  destroy_element i v = elim (destroy_at v.m_buffer i) [
    | none ↦ fault
    | some b ↦ returned tt (record v { m_buffer = b })
  ]

  -- `operator[]`: no check, so an index without a live object is undefined behaviour.
  pub subscript : ℕ → Action (FixedCapacityVector T) T
  subscript i v = elim (read_at v.m_buffer i) [ none ↦ fault | some x ↦ returned x v ]

  -- `++m_size`
  pub increment_size : Action (FixedCapacityVector T) (Unit {0})
  increment_size v = returned tt (record v { m_size = add64 v.m_size 1 })

  -- `--m_size`
  pub decrement_size : Action (FixedCapacityVector T) (Unit {0})
  decrement_size v = returned tt (record v { m_size = sub64 v.m_size 1 })

  -- `std::destroy(data(), data() + m_size); m_size = 0;`
  pub destroy_elements : Action (FixedCapacityVector T) (Unit {0})
  destroy_elements v = elim (destroy v.m_size 0 v.m_buffer) [
    | none ↦ fault
    | some b ↦ returned tt (record v { m_size = 0; m_buffer = b })
  ]

  pub empty : FixedCapacityVector T → Bool
  empty v = v.m_size == 0

  pub front : Action (FixedCapacityVector T) T
  unfolding empty subscript
  front v = if empty v then threw out_of_range v else subscript 0 v

  pub back : Action (FixedCapacityVector T) T
  unfolding empty subscript
  back v = if empty v then threw out_of_range v else subscript (sub64 v.m_size 1) v

  pub at : ℕ → Action (FixedCapacityVector T) T
  unfolding subscript
  at index v = if leb v.m_size index then threw out_of_range v else subscript index v

  pub clear : Action (FixedCapacityVector T) (Unit {0})
  unfolding empty destroy_elements
  clear v = if empty v then returned tt v else destroy_elements v

  -- The destructor.
  pub destruct : Action (FixedCapacityVector T) (Unit {0})
  unfolding clear
  destruct = clear

  -- The destruction in `pop_back`, after `--m_size`.
  pub destroy_at_size : Action (FixedCapacityVector T) (Unit {0})
  unfolding destroy_element
  destroy_at_size v = destroy_element v.m_size v

  pub pop_back : Action (FixedCapacityVector T) (Unit {0})
  unfolding empty decrement_size destroy_at_size
  pop_back v = if empty v then threw out_of_range v else (do decrement_size; destroy_at_size) v

  -- Iterators are pointers into the storage: the index that they point to.
  pub begin : FixedCapacityVector T → ℕ
  begin v = 0

  pub end : FixedCapacityVector T → ℕ
  unfolding begin
  end v = add64 (begin v) v.m_size

  -- A `std::reverse_iterator` keeps the iterator behind the element that it stands for.
  pub rbegin : FixedCapacityVector T → ℕ
  unfolding end
  rbegin v = end v

  pub rend : FixedCapacityVector T → ℕ
  unfolding begin
  rend v = begin v

  -- `while (m_size > new_size) pop_back();` with fuel.
  pub shrink : ℕ → ℕ → Action (FixedCapacityVector T) (Unit {0})
  shrink zero new_size v = fault
  shrink (suc fuel) new_size v =
      let again = (do pop_back; shrink fuel new_size) v in
      if ltb new_size v.m_size then again else returned tt v

module _ {ℓ} {T : Type ℓ} (capacity_value : ℕ) where
  pub full : FixedCapacityVector T → Bool
  full v = v.m_size == capacity_value

  -- The default constructor.
  pub construct : FixedCapacityVector T
  construct = record { m_size = 0; m_buffer = replicate capacity_value none }

  -- Both overloads: by copy, and by move of the value.
  pub push_back : T → Action (FixedCapacityVector T) (Unit {0})
  unfolding full construct_element increment_size
  push_back value v =
      if full v
      then threw length_error v
      else (do construct_element v.m_size value; increment_size) v

  -- `data()[m_size - 1]`, the reference that `emplace_back` returns.
  pub last_element : Action (FixedCapacityVector T) T
  unfolding subscript
  last_element v = subscript (sub64 v.m_size 1) v

  -- `value` is `T(std::forward<Args>(args)...)`.
  pub emplace_back : T → Action (FixedCapacityVector T) T
  unfolding full construct_element increment_size last_element
  emplace_back value v =
      if full v
      then threw length_error v
      else (do construct_element v.m_size value; increment_size; last_element) v

  -- `while (m_size < new_size) emplace_back();` with fuel; `value` is `T()`.
  pub extend : ℕ → T → ℕ → Action (FixedCapacityVector T) (Unit {0})
  extend zero value new_size v = fault
  extend (suc fuel) value new_size v =
      let again = (do _ ← emplace_back value; extend fuel value new_size) v in
      if ltb v.m_size new_size then again else returned tt v

  -- The fuel of the first loop is one more than the elements there are, that of the second one
  -- more than the slots.
  pub resize : T → ℕ → Action (FixedCapacityVector T) (Unit {0})
  resize value new_size v =
      if v.m_size == new_size
      then returned tt v
      else (do shrink (suc v.m_size) new_size; extend (suc capacity_value) value new_size) v

  -- The loop of the initializer list constructor.
  pub append_items : List T → Action (FixedCapacityVector T) (Unit {0})
  unfolding construct_element increment_size
  append_items [] v = returned tt v
  append_items (item ∷ init) v =
      (do construct_element v.m_size item; increment_size; append_items init) v

  pub construct_init : List T → Outcome (FixedCapacityVector T) (Unit {0})
  unfolding construct append_items
  construct_init init =
      if ltb capacity_value (length init)
      then threw length_error construct
      else append_items init construct
