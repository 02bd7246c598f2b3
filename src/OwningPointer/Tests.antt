-- ===== src/OwningPointer/Tests.antt =====
-- include/cpp_playground/memory/owning_pointer.hpp, at concrete objects. A deleter is a number, 0
-- when it was moved from.
use cpp_playground.OwningPointer.{
  World, Command, constructing, moving, destroying, assigning_null, releasing, move_assigning, get,
  deleter, dereference, move_assign, perform, run, empty_world,
}
use cpp_playground.OwningPointer.Ownership.{weight, adopted}
use cpp_playground.OwningPointer.Assignment.{
  AllReady, after, owning_run_lem, owning_move_assign_lem,
}
use cpp_playground.Prelude.{
  [], ◌∷◌, refl, none, some, List, ℕ, ◌≡◌, returned, fault, object_at, total, ◌+◌, ◌≢◌, arith,
}

abbrev moved : ℕ → ℕ
moved d = 0

-- Five objects: the first is replaced, the second moved twice and then deleted, the third
-- released, the fourth reset, and the last one still owned.
abbrev calls : List (Command ℕ)
calls =
    constructing (some 100) 1
    ∷ constructing (some 200) 2
    ∷ move_assigning 0 1
    ∷ moving 0
    ∷ destroying 2
    ∷ constructing (some 300) 3
    ∷ releasing 3
    ∷ constructing (some 400) 4
    ∷ assigning_null 4
    ∷ constructing (some 500) 5
    ∷ []

abbrev final : World ℕ
final = record {
  pointers =
      some (record { m_deleter = 0; m_ptr = none })
      ∷ some (record { m_deleter = 0; m_ptr = none })
      ∷ none
      ∷ some (record { m_deleter = 3; m_ptr = none })
      ∷ some (record { m_deleter = 4; m_ptr = none })
      ∷ some (record { m_deleter = 5; m_ptr = some 500 })
      ∷ [];
  deleted = (4, 400) ∷ (2, 200) ∷ (2, 100) ∷ [];
  released = 300 ∷ [];
}

final_lem : run moved calls empty_world ≡ returned tt final
unfolding run
final_lem = refl

observers_lem :
    (get 5 final ≡ returned (some 500) final)
    × (dereference 5 final ≡ returned 500 final)
    × (dereference 4 final ≡ fault)
    × (deleter 4 final ≡ returned 4 final)
unfolding get dereference deleter
observers_lem = (refl, refl, refl, refl)

calls_ready : AllReady moved empty_world calls
unfolding AllReady after perform
calls_ready = (
  tt,
  (
    tt,
    (
      ((_, refl), (_, refl)),
      ((_, refl), ((_, refl), (tt, ((_, refl), (tt, ((_, refl), (tt, tt))))))),
    ),
  ),
)

owning_run_lem_example :
    (s' : World ℕ) × (run moved calls empty_world ≡ returned tt s')
    × ((v : ℕ → ℕ) → weight v s' ≡ total (adopted v) calls + weight {D = ℕ} v empty_world)
owning_run_lem_example = owning_run_lem moved calls empty_world calls_ready

abbrev two : World ℕ
two = record {
  pointers =
      some (record { m_deleter = 1; m_ptr = some 100 })
      ∷ some (record { m_deleter = 2; m_ptr = some 200 })
      ∷ [];
  deleted = [];
  released = [];
}

owning_move_assign_lem_example :
    (move_assign moved 0 0 two ≡ returned tt two)
    × ((s' : World ℕ) × (move_assign moved 0 1 two ≡ returned tt s')
        × (object_at s'.pointers 0 ≡ some (record { m_deleter = 2; m_ptr = some 200 }))
        × (object_at s'.pointers 1 ≡ some (record { m_deleter = 0; m_ptr = none }))
        × ((k : ℕ) → 0 ≢ k → 1 ≢ k → object_at s'.pointers k ≡ object_at two.pointers k)
        × (s'.deleted ≡ (2, 100) ∷ []))
owning_move_assign_lem_example =
    owning_move_assign_lem moved two 0 1 (record { m_deleter = 2; m_ptr = some 200 })
      (record { m_deleter = 1; m_ptr = some 100 }) refl refl (omega arith)
