-- ===== src/ArcPointer/Threads/Tests.antt =====
-- include/cpp_playground/arc_pointer.hpp, at a concrete order of the steps of two threads.
use cpp_playground.Prelude.{[], ◌∷◌, refl, some, List, ◌≡◌, total, ◌<◌, arith}
use cpp_playground.ArcPointer.Threads.{
  outside, Shared, Turn, copying, dropping, finishing, giving, start, run, objects,
}
use cpp_playground.ArcPointer.Threads.Sharing.{held_by}
use cpp_playground.ArcPointer.Threads.Release.{concurrent_release_lem, AllOutside}

-- Both threads release their pointers before the second one destroys the object.
abbrev turns : List Turn
turns =
    copying 0
    ∷ giving 0 1
    ∷ dropping 0
    ∷ dropping 1
    ∷ finishing 0
    ∷ dropping 0
    ∷ finishing 1
    ∷ finishing 1
    ∷ []

abbrev final : Shared
final = record {
  m_ptr = some 100;
  m_num_shared = 0;
  destroyed = 1;
  deleted = 1;
  threads =
      some (record { held = 0; point = outside })
      ∷ some (record { held = 0; point = outside })
      ∷ [];
}

final_lem : run turns (start (some 100) 1) ≡ some final
unfolding run start
final_lem = refl

concurrent_release_lem_example :
    (s : Shared) × (run turns (start (some 100) 1) ≡ some s)
    × (s.m_num_shared ≡ total held_by s.threads)
    × (0 < total held_by s.threads → (s.destroyed ≡ 0) × (s.deleted ≡ 0))
    × (total held_by s.threads ≡ 0 → AllOutside s → (s.destroyed ≡ 1) × (s.deleted ≡ 1))
unfolding objects
concurrent_release_lem_example = concurrent_release_lem (some 100) 1 turns (omega arith)
