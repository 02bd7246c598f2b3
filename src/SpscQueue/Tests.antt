-- ===== src/SpscQueue/Tests.antt =====
-- include/cpp_playground/concurrency/lf_spsc_queue.hpp, at concrete inputs.
use cpp_playground.Prelude.{[], ◌∷◌, refl, some, ◌≡◌, fault, arith, returned, true}
use cpp_playground.SpscQueue.{World, construct, try_push}
use cpp_playground.SpscQueue.Pushes.{try_push_lem}

-- Where a slot held a pointer, the push would write through it, and leave the slot as it was.
abbrev pointing : World
pointing = record {
  queue = record { m_ring_buffer = some 7 ∷ some 8 ∷ []; m_read_index = 0; m_write_index = 0 };
  constructed = [];
}

pointing_lem :
    try_push 5 pointing
    ≡ returned true (record pointing {
      queue = record (pointing.queue) { m_write_index = 1 };
      constructed = (7, 5) ∷ [];
    })
unfolding try_push cpp_playground.Storage.read_at
pointing_lem = refl

try_push_lem_example : try_push 5 (construct 3) ≡ fault
try_push_lem_example = try_push_lem 3 5 (omega arith)
