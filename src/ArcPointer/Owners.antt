-- ===== src/ArcPointer/Owners.antt =====
-- include/cpp_playground/arc_pointer.hpp: how many pointers own a control block, how many
-- references it counts, and how much the objects weigh that are adopted and those that are deleted.
use cpp_playground.ArcPointer.{ControlBlock, ArcPointer, Heap}
use cpp_playground.Prelude.{
  [], ◌∷◌, refl, none, some, List, Option, ℕ, if◌then◌else◌, ◌+◌, ◌≡◌, ◌≤◌, arith, length, ◌<◌,
  ◌==◌, eq→==, total, total-set, object_at,
}

-- 1 if the pointer to a control block is the address.
abbrev pub is_at : ℕ → Option ℕ → ℕ
is_at b none = 0
is_at b (some c) = if c == b then 1 else 0

abbrev pub owns : ℕ → Option ArcPointer → ℕ
owns b none = 0
owns b (some p) = is_at b p.m_control_block

abbrev pub owners : List (Option ArcPointer) → ℕ → ℕ
owners ps b = total (owns b) ps

module _ {D : Type 0} where
  abbrev pub count_of : Option (ControlBlock D) → ℕ
  count_of none = 0
  count_of (some c) = c.m_num_shared

  -- The references that the control block at an address counts.
  abbrev pub references : List (Option (ControlBlock D)) → ℕ → ℕ
  references bs b = count_of (object_at bs b)

  abbrev pub object_weight : (D × ℕ → ℕ) → D → Option ℕ → ℕ
  object_weight w d none = 0
  object_weight w d (some p) = w (d, p)

  abbrev pub block_weight : (D × ℕ → ℕ) → Option (ControlBlock D) → ℕ
  block_weight w none = 0
  block_weight w (some c) = object_weight w c.m_deleter c.m_ptr

  -- The objects that are deleted and those that a control block keeps.
  abbrev pub weight : (D × ℕ → ℕ) → Heap D → ℕ
  weight w h = total w h.deleted + total (block_weight w) h.blocks

pub is_at-le : (b : ℕ) (o : Option ℕ) → is_at b o ≤ 1
is_at-le b none = omega arith
is_at-le b (some c) = ground arith

pub owns_le : (b : ℕ) (p : Option ArcPointer) → owns b p ≤ 1
owns_le b none = omega arith
owns_le b (some p) = ground arith

pub owners-le : (ps : List (Option ArcPointer)) (b : ℕ) → owners ps b ≤ length ps
owners-le [] b = omega arith
owners-le (p ∷ ps) b = omega (arith, owners-le ps b, owns_le b p)

-- A pointer with a control block counts as an owner of it.
pub owners-positive :
    (ps : List (Option ArcPointer)) (i b : ℕ) (p : ArcPointer)
    → object_at ps i ≡ some p
    → p.m_control_block ≡ some b
    → 0 < owners ps b
owners-positive ps i b p e at =
    let one : owns b (some p) ≡ 1 = rw (at, eq→== b b refl) refl in
    omega (arith, total-set (owns b) ps i p none e)
