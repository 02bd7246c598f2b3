-- ===== src/LifetimeTracker/Tests.antt =====
-- include/cpp_playground/testing/thread_local_lifetime_tracker.hpp, at concrete calls.
use cpp_playground.LifetimeTracker.{
  Counters, zeros, Call, resetting, default_constructing, copy_constructing, move_constructing,
  destroying, copy_assigning, run_all,
}
use cpp_playground.LifetimeTracker.Counts.{run_all-Counting}
use cpp_playground.LifetimeTracker.Kinds.{Counting}
use cpp_playground.Prelude.{[], ◌∷◌, refl, List, ◌≡◌, ℕ, arith, returned}

-- Two threads; the first one resets after its first object.
abbrev calls : List (ℕ × Call)
calls =
    (0, default_constructing)
    ∷ (1, default_constructing)
    ∷ (0, resetting)
    ∷ (0, copy_constructing)
    ∷ (1, copy_assigning 5 5)
    ∷ (0, move_constructing)
    ∷ (0, copy_assigning 5 6)
    ∷ (1, destroying)
    ∷ (0, destroying)
    ∷ []

abbrev expected : Counters
expected = record {
  m_num_constructions = 2;
  m_num_destructions = 1;
  m_num_default_constructions = 0;
  m_num_copy_constructions = 1;
  m_num_move_constructions = 1;
  m_num_copy_assignments = 1;
  m_num_move_assignments = 0;
}

expected_lem :
    (locals : ℕ → Counters) × (run_all calls (λ _. zeros) ≡ returned tt locals)
    × (locals 0 ≡ expected)
unfolding run_all
expected_lem = (_, refl, refl)

-- One destruction after a construction, as in the test of `release` in
-- tests/memory/test_owning_pointer.cpp.
released_lem :
    (locals : ℕ → Counters) × (run_all
        ((0, resetting) ∷ (0, default_constructing) ∷ (0, destroying) ∷ [])
        (λ _. zeros)
      ≡ returned tt locals)
    × ((locals 0).m_num_destructions ≡ 1)
unfolding run_all
released_lem = (_, refl, refl)

run_all-Counting_example :
    (locals : ℕ → Counters) × (run_all calls (λ _. zeros) ≡ returned tt locals)
    × Counting
        (destroying ∷ copy_assigning 5 6 ∷ move_constructing ∷ copy_constructing ∷ [])
        (locals 0)
run_all-Counting_example = run_all-Counting calls 0 (omega arith)
