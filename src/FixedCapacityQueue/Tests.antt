-- ===== src/FixedCapacityQueue/Tests.antt =====
-- Runs of the queue code on small inputs, and the theorems at concrete inputs.
use cpp_playground.Storage.{construct_at, destroy_at, read_at}
use cpp_playground.Prelude.{ℕ, List, [], ◌∷◌, ◌≡◌, refl, arith, returned, some, none, true}
use cpp_playground.FixedCapacityQueue.{FixedCapacityQueue, push, pop}
use cpp_playground.FixedCapacityQueue.Contents.{Holds}
use cpp_playground.FixedCapacityQueue.Calls.{
  Call, put, get, wipe, count, is_full, run, list_run, queue_run_refines,
}

-- 8, then 9, round the end of the slots.
abbrev wrapped : FixedCapacityQueue ℕ
wrapped = record {
  m_data = some 9 ∷ none ∷ some 8 ∷ [];
  m_capacity = 3;
  m_head_index = 2;
  m_size = 2;
}

abbrev two : List ℕ
two = 8 ∷ 9 ∷ []

wrapped-Holds : Holds wrapped two
wrapped-Holds = record {
  positive = omega arith;
  small = omega arith;
  slots = refl;
  head = omega arith;
  counted = refl;
  fits = omega arith;
  elements = refl;
}

push_then_pop :
    (push 7 wrapped
      ≡ returned true (record wrapped { m_data = some 9 ∷ some 7 ∷ some 8 ∷ []; m_size = 3 }))
    × (pop wrapped
        ≡ returned (some 8) (record {
          m_data = some 9 ∷ none ∷ none ∷ [];
          m_capacity = 3;
          m_head_index = 0;
          m_size = 1;
        }))
unfolding push pop construct_at destroy_at read_at
push_then_pop = (refl, refl)

abbrev calls : List (Call ℕ)
calls = put 7 ∷ is_full ∷ put 6 ∷ get ∷ get ∷ count ∷ wipe ∷ get ∷ []

queue_run_refines_example : run wrapped calls ≡ some (list_run 3 two calls)
queue_run_refines_example = queue_run_refines calls two wrapped-Holds
