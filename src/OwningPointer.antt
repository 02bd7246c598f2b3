-- ===== src/OwningPointer.antt =====
-- include/cpp_playground/memory/owning_pointer.hpp: a pointer with unique ownership, with the
-- deleters of deleter.hpp as values of a type `D`. The `OwningPointer` objects stand at addresses.
pub mod Ownership
pub mod Assignment
mod Tests
use cpp_playground.Prelude.{
  [], ◌∷◌, refl, zero, suc, none, some, Action, List, Option, ℕ, expect, if◌then◌else◌, object_at,
  pure, returned, ◌>>=◌, fault, length, set, ◌==◌, ◌>>◌, ◌++◌,
}

pub record OwningPointer (D : Type 0) : Type 0 where
  pub m_deleter : D
  pub m_ptr : Option ℕ

-- `deleted` lists the calls of the deleters and `released` the raw pointers that `release`
-- returned, the last one first.
pub record World (D : Type 0) : Type 0 where
  pub pointers : List (Option (OwningPointer D))
  pub deleted : List (D × ℕ)
  pub released : List ℕ

-- A member function at an address.
pub data Command (D : Type 0) : Type 0 where
  constructing : Option ℕ → D → Command D
  moving destroying assigning_null releasing : ℕ → Command D
  move_assigning : ℕ → ℕ → Command D

module _ {D : Type 0} where
  pub read_pointer : ℕ → Action (World D) (OwningPointer D)
  read_pointer i s = expect (object_at s.pointers i) s

  pub write_pointer : ℕ → OwningPointer D → Action (World D) (Unit {0})
  write_pointer i p s = elim (object_at s.pointers i) [
    | none ↦ fault
    | some q ↦ returned tt (record s { pointers = set s.pointers i (some p) })
  ]

  pub place_pointer : OwningPointer D → Action (World D) ℕ
  place_pointer p s =
      returned (length s.pointers) (record s { pointers = s.pointers ++ some p ∷ [] })

  -- `if (m_ptr != nullptr) m_deleter(m_ptr)`
  pub delete_object : D → Option ℕ → Action (World D) (Unit {0})
  delete_object deleter none s = returned tt s
  delete_object deleter (some ptr) s =
      returned tt (record s { deleted = (deleter, ptr) ∷ s.deleted })

  -- The five constructors: without a pointer it is null, and without a deleter it is `D{}`.
  pub construct : Option ℕ → D → Action (World D) ℕ
  unfolding place_pointer
  construct ptr deleter = place_pointer (record { m_deleter = deleter; m_ptr = ptr })

  -- After the destructor nothing is alive at the address.
  pub end_pointer : ℕ → Action (World D) (Unit {0})
  end_pointer i s = returned tt (record s { pointers = set s.pointers i none })

  pub destruct : ℕ → Action (World D) (Unit {0})
  unfolding read_pointer delete_object end_pointer
  destruct this = do p ← read_pointer this; delete_object p.m_deleter p.m_ptr; end_pointer this

  pub assign_null : ℕ → Action (World D) (Unit {0})
  unfolding read_pointer write_pointer delete_object
  assign_null this = do
    p ← read_pointer this
    delete_object p.m_deleter p.m_ptr
    write_pointer this (record p { m_ptr = none })

  pub get : ℕ → Action (World D) (Option ℕ)
  unfolding read_pointer
  get this = do p ← read_pointer this; pure p.m_ptr

  pub deleter : ℕ → Action (World D) D
  unfolding read_pointer
  deleter this = do p ← read_pointer this; pure p.m_deleter

  -- The address of `*m_ptr`: a null pointer has none.
  pub dereference : ℕ → Action (World D) ℕ
  unfolding read_pointer
  dereference this = do p ← read_pointer this; expect p.m_ptr

  -- A raw pointer that the caller gets.
  pub hand_over : Option ℕ → Action (World D) (Unit {0})
  hand_over none s = returned tt s
  hand_over (some ptr) s = returned tt (record s { released = ptr ∷ s.released })

  pub release : ℕ → Action (World D) (Option ℕ)
  unfolding read_pointer write_pointer hand_over
  release this = do
    p ← read_pointer this
    write_pointer this (record p { m_ptr = none })
    hand_over p.m_ptr
    pure p.m_ptr

-- `moved` is the value that `std::move` leaves in a deleter.
module _ {D : Type 0} (moved : D → D) where
  pub move_construct : ℕ → Action (World D) ℕ
  unfolding read_pointer write_pointer place_pointer
  move_construct other = do
    p ← read_pointer other
    write_pointer other (record { m_deleter = moved p.m_deleter; m_ptr = none })
    place_pointer p

  -- The move assignment of another object: the deleter is moved first, then it deletes the old
  -- object.
  pub move_from : ℕ → ℕ → Action (World D) (Unit {0})
  unfolding read_pointer write_pointer delete_object
  move_from this other = do
    q ← read_pointer this
    p ← read_pointer other
    write_pointer this (record q { m_deleter = p.m_deleter })
    write_pointer other (record p { m_deleter = moved p.m_deleter })
    delete_object p.m_deleter q.m_ptr
    write_pointer this (record { m_deleter = p.m_deleter; m_ptr = p.m_ptr })
    write_pointer other (record { m_deleter = moved p.m_deleter; m_ptr = none })

  pub move_assign : ℕ → ℕ → Action (World D) (Unit {0})
  unfolding move_from
  move_assign this other = if this == other then pure tt else move_from this other

  pub perform : Command D → Action (World D) (Unit {0})
  unfolding construct move_construct destruct move_assign assign_null release
  perform (constructing ptr deleter) = do _ ← construct ptr deleter; pure tt
  perform (moving other) = do _ ← move_construct other; pure tt
  perform (destroying this) = destruct this
  perform (assigning_null this) = assign_null this
  perform (releasing this) = do _ ← release this; pure tt
  perform (move_assigning this other) = move_assign this other

  pub run : List (Command D) → Action (World D) (Unit {0})
  unfolding perform
  run [] = pure tt
  run (c ∷ cs) = do perform c; run cs

abbrev pub empty_world : {D : Type 0} → World D
empty_world = record { pointers = []; deleted = []; released = [] }
