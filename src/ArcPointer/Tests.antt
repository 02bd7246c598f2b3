-- ===== src/ArcPointer/Tests.antt =====
-- include/cpp_playground/arc_pointer.hpp, at concrete heaps. A deleter is a number.
use cpp_playground.ArcPointer.{
  ControlBlock, ArcPointer, Heap, Command, constructing, copying, moving, destroying,
  copy_assigning, move_assigning, copy_construct, copy_assign, move_assign, perform, run,
  empty_heap, construct, move_construct, destruct,
}
use cpp_playground.ArcPointer.Owners.{references, owners, count_of, weight}
use cpp_playground.ArcPointer.Counted.{Counted}
use cpp_playground.ArcPointer.Steps.{adopted}
use cpp_playground.ArcPointer.Calls.{AllReady, arc_run_lem, arc_deletes, moved_from_faults, after}
use mathlib.Core.Path.{subst}
use cpp_playground.Prelude.{
  [], ◌∷◌, refl, zero, suc, none, some, List, ℕ, ◌++◌, returned, ◌≡◌, threw, ◌+◌, arith, fault, ◌<◌,
  total, object_at,
}

-- Two objects: the first shared and then replaced, the second moved.
abbrev calls : List (Command ℕ)
calls =
    constructing (some 100) 7
    ∷ copying 0
    ∷ constructing (some 200) 8
    ∷ copy_assigning 1 2
    ∷ moving 2
    ∷ move_assigning 0 3
    ∷ []

abbrev ending : List (Command ℕ)
ending = destroying 0 ∷ destroying 1 ∷ destroying 2 ∷ destroying 3 ∷ []

calls_ready : AllReady empty_heap (calls ++ ending)
unfolding AllReady after perform construct copy_construct move_construct copy_assign move_assign
    destruct
calls_ready = (
  tt,
  (
    (_, _, refl, refl),
    (
      tt,
      (
        ((_, _, refl, refl), (_, _, refl, refl)),
        (
          (_, refl),
          (((_, _, refl, refl), (_, refl)), ((_, refl), ((_, refl), ((_, refl), ((_, refl), tt))))),
        ),
      ),
    ),
  ),
)

deleted_after : List (Command ℕ) → List (ℕ × ℕ)
unfolding run
deleted_after cs = elim (run cs empty_heap) [
  | returned a h ↦ h.deleted
  | threw e h ↦ []
  | fault ↦ []
]

deleted_lem : deleted_after (calls ++ ending) ≡ (8, 200) ∷ (7, 100) ∷ []
unfolding deleted_after run
deleted_lem = refl

arc_run_lem_example :
    (h' : Heap ℕ) × (run (calls ++ ending) empty_heap ≡ returned tt h')
    × Counted h'
    × ((w : ℕ × ℕ → ℕ) → weight w h' ≡ total (adopted w) (calls ++ ending) + weight w empty_heap)
arc_run_lem_example =
    arc_run_lem (calls ++ ending) empty_heap
      (record { owned = λ b. refl; shared = λ b c e. absurd (ground arith) }) (omega arith)
      calls_ready

abbrev emptied : Heap ℕ
emptied = record {
  blocks = none ∷ none ∷ [];
  pointers = none ∷ none ∷ none ∷ none ∷ [];
  deleted = (8, 200) ∷ (7, 100) ∷ [];
}

emptied_pointers : (i : ℕ) → object_at emptied.pointers i ≡ none
emptied_pointers zero = refl
emptied_pointers (suc zero) = refl
emptied_pointers (suc (suc zero)) = refl
emptied_pointers (suc (suc (suc zero))) = refl
emptied_pointers (suc (suc (suc (suc i)))) = refl

emptied_lem : run (calls ++ ending) empty_heap ≡ returned tt emptied
unfolding run
emptied_lem = refl

arc_deletes_example :
    ((b : ℕ) → object_at emptied.blocks b ≡ none)
    × ((w : ℕ × ℕ → ℕ) → total w emptied.deleted ≡ total (adopted w) (calls ++ ending))
arc_deletes_example =
    arc_deletes (calls ++ ending) emptied (omega arith) calls_ready emptied_lem emptied_pointers

abbrev moved_block : ControlBlock ℕ
moved_block = record { m_ptr = some 100; m_num_shared = 1; m_deleter = 7 }

abbrev left : ArcPointer
left = record { m_control_block = none; m_ptr = none }

abbrev right : ArcPointer
right = record { m_control_block = some 0; m_ptr = some 100 }

-- After a move: the left pointer is empty, the right one owns the object.
abbrev moved : Heap ℕ
moved = record {
  blocks = some moved_block ∷ [];
  pointers = some left ∷ some right ∷ [];
  deleted = [];
}

moved_owned : (b : ℕ) → references moved.blocks b ≡ owners moved.pointers b
moved_owned zero = refl
moved_owned (suc b) = ground arith

moved_shared : (b : ℕ) (c : ControlBlock ℕ) → object_at moved.blocks b ≡ some c → 0 < c.m_num_shared
moved_shared zero c e = subst (λ o. 0 < count_of o) e (omega arith)
moved_shared (suc b) c e = absurd (ground arith)

moved-Counted : Counted moved
moved-Counted = record { owned = moved_owned; shared = moved_shared }

moved_from_faults_example :
    (copy_construct 0 moved ≡ fault)
    × (copy_assign 1 0 moved ≡ fault)
    × (copy_assign 0 1 moved ≡ fault)
    × (move_assign 0 1 moved ≡ fault)
moved_from_faults_example =
    moved_from_faults moved 0 1 0 left right refl refl refl refl (omega arith) moved-Counted
