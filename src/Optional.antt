-- ===== src/Optional.antt =====
-- include/cpp_playground/utility/optional.hpp: a union, with a flag that tells whether its member
-- `value` is alive. `moved x` is what a move leaves of `x`. The move assignment makes a
-- `T(std::move(other.m_storage))`, and compiles only for a `T` that has a constructor from the union:
-- `from_storage` is this constructor, which gives the new value, and what it leaves in the union.
pub mod Assignment
mod Tests
use cpp_playground.Prelude.{
  ℕ, Bool, true, false, Option, none, some, Action, Outcome, returned, threw, fault, ◌==◌, ◌&&◌,
  if◌then◌else◌, bad_optional_access, ◌>>◌,
}

-- `m_storage`: the value that is alive, or none.
pub record Optional {ℓ} (T : Type ℓ) : Type ℓ where
  pub m_storage : Option T
  pub m_has_value : Bool

-- `*this` and `other`.
pub record Pair {ℓ} (T : Type ℓ) : Type ℓ where
  pub this : Optional T
  pub other : Optional T

module _ {ℓ} {T : Type ℓ} where
  pub has_value : Optional T → Bool
  has_value o = o.m_has_value

  -- `new (&m_storage.value) T(x)`, over nothing that is alive.
  pub construct_value : T → Action (Optional T) (Unit {0})
  construct_value x o = elim o.m_storage [
    | none ↦ returned tt (record o { m_storage = some x })
    | some y ↦ fault
  ]

  -- `m_storage.value.~T()`
  pub destroy_value : Action (Optional T) (Unit {0})
  destroy_value o = elim o.m_storage [
    | none ↦ fault
    | some y ↦ returned tt (record o { m_storage = none })
  ]

  -- `m_storage.value`, read.
  pub read_value : Optional T → Option T
  read_value o = o.m_storage

  pub set_flag : Bool → Action (Optional T) (Unit {0})
  set_flag b o = returned tt (record o { m_has_value = b })

  pub construct_empty : Optional T
  construct_empty = record { m_storage = none; m_has_value = false }

  -- The constructors from a value, and in place.
  pub construct_from : T → Outcome (Optional T) (Unit {0})
  unfolding construct_value set_flag construct_empty
  construct_from x = (do construct_value x; set_flag true) construct_empty

  pub copy_construct : Optional T → Outcome (Optional T) (Unit {0})
  unfolding construct_from has_value read_value
  copy_construct other =
      if has_value other
      then elim (read_value other) [ none ↦ fault | some x ↦ construct_from x ]
      else returned tt construct_empty

  pub destruct : Action (Optional T) (Unit {0})
  unfolding destroy_value
  destruct o = if o.m_has_value then destroy_value o else returned tt o

  pub value : Action (Optional T) T
  unfolding has_value read_value
  value o =
      if has_value o
      then elim (read_value o) [ none ↦ fault | some x ↦ returned x o ]
      else threw bad_optional_access o

  -- `m_storage.value = x`
  pub assign_value : T → Action (Optional T) (Unit {0})
  assign_value x o = elim o.m_storage [
    | none ↦ fault
    | some y ↦ returned tt (record o { m_storage = some x })
  ]

  -- The assignment behind the test for self-assignment, without the case of two values.
  pub reset : Action (Optional T) (Unit {0})
  unfolding destroy_value set_flag
  reset = do destroy_value; set_flag false

  pub fill : T → Action (Optional T) (Unit {0})
  unfolding construct_value set_flag
  fill x = do construct_value x; set_flag true

  -- Copy assignment. `nothrow` is `std::is_nothrow_copy_assignable_v<T>`: without it, the branch of
  -- two values is empty.
  pub copy_value : (nothrow : Bool) → Optional T → Action (Optional T) (Unit {0})
  unfolding reset fill assign_value read_value
  copy_value nothrow other o =
      if o.m_has_value && other.m_has_value
      then (if nothrow
          then elim (read_value other) [ none ↦ fault | some x ↦ assign_value x o ]
          else returned tt o)
      else if o.m_has_value
      then reset o
      else if other.m_has_value
      then elim (read_value other) [ none ↦ fault | some x ↦ fill x o ]
      else returned tt o

  abbrev pub write : (ℕ → Optional T) → ℕ → Optional T → ℕ → Optional T
  write objects p o q = if p == q then o else objects q

  pub copy_assign : (nothrow : Bool) (this other : ℕ) → Action (ℕ → Optional T) (Unit {0})
  unfolding copy_value
  copy_assign nothrow this other objects =
      if this == other
      then returned tt objects
      else elim (copy_value nothrow (objects other) (objects this)) [
        | returned a o ↦ returned a (write objects this o)
        | threw e o ↦ threw e (write objects this o)
        | fault ↦ fault
      ]

module _ {ℓ} {T : Type ℓ} (moved : T → T) (from_storage : Option T → T × Option T) where
  pub move_construct : Optional T → Outcome (Pair T) (Unit {0})
  unfolding construct_from has_value read_value construct_empty
  move_construct other =
      if has_value other
      then elim (read_value other) [
        | none ↦ fault
        | some x ↦ elim (construct_from x) [
          | returned a o ↦
              returned a (record { this = o; other = record other { m_storage = some (moved x) } })
          | threw e o ↦ threw e (record { this = o; other = other })
          | fault ↦ fault
        ]
      ]
      else returned tt (record { this = construct_empty; other = other })

  -- Move assignment to another object.
  pub move_value : Action (Pair T) (Unit {0})
  unfolding reset fill assign_value read_value
  move_value p =
      if p.this.m_has_value && p.other.m_has_value
      then elim (read_value p.other) [
        | none ↦ fault
        | some x ↦ elim (assign_value x p.this) [
          | returned a o ↦
              returned a
                (record { this = o; other = record (p.other) { m_storage = some (moved x) } })
          | threw e o ↦ threw e (record p { this = o })
          | fault ↦ fault
        ]
      ]
      else if p.this.m_has_value
      then elim (reset p.this) [
        | returned a o ↦ returned a (record p { this = o })
        | threw e o ↦ threw e (record p { this = o })
        | fault ↦ fault
      ]
      else if p.other.m_has_value
      then (let (x, left) = from_storage p.other.m_storage in
          elim (fill x p.this) [
            | returned a o ↦
                returned a (record { this = o; other = record (p.other) { m_storage = left } })
            | threw e o ↦ threw e (record p { this = o })
            | fault ↦ fault
          ])
      else returned tt p

  -- What the assignment leaves at the two addresses.
  pub store_both :
      (this other : ℕ) (objects : ℕ → Optional T)
      → Outcome (Pair T) (Unit {0})
      → Outcome (ℕ → Optional T) (Unit {0})
  store_both this other objects (returned a p) =
      returned a (write (write objects this p.this) other p.other)
  store_both this other objects (threw e p) =
      threw e (write (write objects this p.this) other p.other)
  store_both this other objects fault = fault

  pub move_assign : (this other : ℕ) → Action (ℕ → Optional T) (Unit {0})
  unfolding move_value store_both
  move_assign this other objects =
      if this == other
      then returned tt objects
      else store_both this other objects
          (move_value (record { this = objects this; other = objects other }))
