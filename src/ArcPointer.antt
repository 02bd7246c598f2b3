-- ===== src/ArcPointer.antt =====
-- include/cpp_playground/arc_pointer.hpp: a shared pointer with a counted control block. The heap
-- holds the control blocks and the `ArcPointer` objects; an address is an index, and a place where
-- nothing is alive holds `none`. `D` is the type of the deleters.
pub mod Threads
pub mod Owners
pub mod Counted
pub mod Steps
pub mod Sharing
pub mod Assignment
pub mod Calls
mod Tests
use cpp_playground.Prelude.{
  [], ◌∷◌, refl, zero, suc, none, some, Action, List, Option, ℕ, Bool, expect, fault, get_or,
  if◌then◌else◌, pure, returned, ◌>>=◌, ◌>>◌, length, set, sub64, true, ◌==◌, add64, false, ◌++◌,
  object_at,
}

-- `ControlBlock`, with the members of its base.
pub record ControlBlock (D : Type 0) : Type 0 where
  pub m_ptr : Option ℕ
  pub m_num_shared : ℕ
  pub m_deleter : D

pub record ArcPointer : Type 0 where
  pub m_control_block : Option ℕ
  pub m_ptr : Option ℕ

-- `deleted` lists the calls of the deleters, the last one first.
pub record Heap (D : Type 0) : Type 0 where
  pub blocks : List (Option (ControlBlock D))
  pub pointers : List (Option ArcPointer)
  pub deleted : List (D × ℕ)

abbrev pub same_block : Option ℕ → Option ℕ → Bool
same_block none none = true
same_block (some b) (some c) = b == c
same_block _ _ = false

-- A member function at an address, as an action without a result.
pub data Command (D : Type 0) : Type 0 where
  constructing : Option ℕ → D → Command D
  copying moving destroying : ℕ → Command D
  copy_assigning move_assigning : ℕ → ℕ → Command D

module _ {D : Type 0} where
  pub add_ref : ℕ → Action (Heap D) (Unit {0})
  add_ref b h = elim (object_at h.blocks b) [
    | none ↦ fault
    | some c ↦ returned tt (record h {
      blocks = set h.blocks b (some (record c { m_num_shared = add64 c.m_num_shared 1 }));
    })
  ]

  -- `destroy_object`, unless the pointer is null.
  pub destroy_object : ControlBlock D → Heap D → Heap D
  destroy_object c h = elim c.m_ptr [
    | none ↦ h
    | some p ↦ record h { deleted = (c.m_deleter, p) ∷ h.deleted }
  ]

  pub release_ref : ℕ → Action (Heap D) (Unit {0})
  unfolding destroy_object
  release_ref b h = elim (object_at h.blocks b) [
    | none ↦ fault
    | some c ↦
        let n = sub64 c.m_num_shared 1 in
        if n == 0
        then returned tt (record (destroy_object c h) { blocks = set h.blocks b none })
        else returned tt
            (record h { blocks = set h.blocks b (some (record c { m_num_shared = n })) })
  ]

  -- The members of the `ArcPointer` at an address.
  pub read_pointer : ℕ → Action (Heap D) ArcPointer
  read_pointer i h = expect (object_at h.pointers i) h

  pub write_pointer : ℕ → (ArcPointer → ArcPointer) → Action (Heap D) (Unit {0})
  write_pointer i f h = elim (object_at h.pointers i) [
    | none ↦ fault
    | some p ↦ returned tt (record h { pointers = set h.pointers i (some (f p)) })
  ]

  -- A new `ArcPointer`, and its address.
  pub place_pointer : ArcPointer → Action (Heap D) ℕ
  place_pointer p h =
      returned (length h.pointers) (record h { pointers = h.pointers ++ some p ∷ [] })

  pub place_block : ControlBlock D → Action (Heap D) ℕ
  place_block c h = returned (length h.blocks) (record h { blocks = h.blocks ++ some c ∷ [] })

  -- The constructors: the default one has a null pointer.
  pub construct : Option ℕ → D → Action (Heap D) ℕ
  unfolding place_block place_pointer
  construct ptr deleter = do
    b ← place_block (record { m_ptr = ptr; m_num_shared = 1; m_deleter = deleter })
    place_pointer (record { m_control_block = some b; m_ptr = ptr })

  -- `m_control_block->...`: a null pointer has no members.
  pub block_of : ArcPointer → Action (Heap D) ℕ
  block_of p = expect p.m_control_block

  pub copy_construct : ℕ → Action (Heap D) ℕ
  unfolding read_pointer block_of add_ref place_pointer
  copy_construct other = do p ← read_pointer other; b ← block_of p; add_ref b; place_pointer p

  pub move_construct : ℕ → Action (Heap D) ℕ
  unfolding read_pointer write_pointer place_pointer
  move_construct other = do
    p ← read_pointer other
    write_pointer other (λ q. record { m_control_block = none; m_ptr = none })
    place_pointer p

  -- `copy_assign`, given the members of `other` and of `*this`.
  pub share_block : ℕ → ArcPointer → ArcPointer → Action (Heap D) (Unit {0})
  unfolding block_of add_ref release_ref write_pointer
  share_block this p q = if same_block p.m_control_block q.m_control_block then pure tt else (do
    b ← block_of p
    add_ref b
    c ← block_of q
    release_ref c
    write_pointer this (λ _. p))

  pub copy_assign : ℕ → ℕ → Action (Heap D) (Unit {0})
  unfolding read_pointer share_block
  copy_assign this other =
      if this == other
      then pure tt
      else (do p ← read_pointer other; q ← read_pointer this; share_block this p q)

  pub move_assign : ℕ → ℕ → Action (Heap D) (Unit {0})
  unfolding read_pointer block_of release_ref write_pointer
  move_assign this other = do
    q ← read_pointer this
    c ← block_of q
    release_ref c
    p ← read_pointer other
    write_pointer this (λ _. p)
    write_pointer other (λ r. record r { m_control_block = none })

  -- The destructor, after which nothing is alive at the address.
  pub end_pointer : ℕ → Action (Heap D) (Unit {0})
  end_pointer i h = returned tt (record h { pointers = set h.pointers i none })

  pub release_block : Option ℕ → Action (Heap D) (Unit {0})
  unfolding release_ref
  release_block none = pure tt
  release_block (some b) = release_ref b

  pub destruct : ℕ → Action (Heap D) (Unit {0})
  unfolding read_pointer release_block end_pointer
  destruct i = do p ← read_pointer i; release_block p.m_control_block; end_pointer i

  pub get : ℕ → Action (Heap D) (Option ℕ)
  unfolding read_pointer
  get i = do p ← read_pointer i; pure p.m_ptr

  pub perform : Command D → Action (Heap D) (Unit {0})
  unfolding construct copy_construct move_construct copy_assign move_assign destruct
  perform (constructing ptr deleter) = do _ ← construct ptr deleter; pure tt
  perform (copying other) = do _ ← copy_construct other; pure tt
  perform (moving other) = do _ ← move_construct other; pure tt
  perform (copy_assigning this other) = copy_assign this other
  perform (move_assigning this other) = move_assign this other
  perform (destroying this) = destruct this

  pub run : List (Command D) → Action (Heap D) (Unit {0})
  unfolding perform
  run [] = pure tt
  run (c ∷ cs) = do perform c; run cs

abbrev pub empty_heap : {D : Type 0} → Heap D
empty_heap = record { blocks = []; pointers = []; deleted = [] }
