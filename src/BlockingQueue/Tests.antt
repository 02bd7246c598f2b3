-- ===== src/BlockingQueue/Tests.antt =====
-- include/cpp_playground/concurrency/mpsc_blocking_queue.hpp, at concrete schedules.
use cpp_playground.BlockingQueue.{
  pushing, popping, waiting, idle, inside, System, Event, silent, accepted, received, Turn,
  starting, stepping, waking, may_proceed, run, construct,
}
use cpp_playground.BlockingQueue.Schedules.{
  all_accepted, all_received, settled, blocking_run_lem, no_lost_wakeup,
}
use cpp_playground.Prelude.{
  [], ◌∷◌, refl, zero, suc, none, some, List, ℕ, ◌++◌, object_at, replicate, ◌≡◌, false, length,
  true, ◌≤◌,
}

-- One step of a thread without a choice.
abbrev go : ℕ → Turn ℕ
go i = stepping i 0

-- A popper sleeps, a pusher fills the queue and wakes it, a second pusher sleeps on the full
-- queue, wakes up for nothing and sleeps again, and the popper takes the value.
abbrev first_part : List (Turn ℕ)
first_part =
    starting 0 popping
    ∷ go 0
    ∷ go 0
    ∷ starting 1 (pushing 7)
    ∷ go 1
    ∷ go 1
    ∷ go 1
    ∷ starting 2 (pushing 8)
    ∷ go 2
    ∷ go 2
    ∷ waking 2
    ∷ go 2
    ∷ go 2
    ∷ stepping 1 0
    ∷ go 0
    ∷ go 0
    ∷ go 0
    ∷ stepping 0 2
    ∷ []

abbrev second_part : List (Turn ℕ)
second_part = go 2 ∷ go 2 ∷ go 2 ∷ go 2 ∷ starting 0 (pushing 9) ∷ go 0 ∷ go 0 ∷ []

abbrev final : System ℕ
final = record {
  m_queue = 8 ∷ [];
  m_mutex = none;
  m_capacity = 1;
  threads = some (inside (pushing 9) waiting) ∷ some idle ∷ some idle ∷ [];
}

abbrev no_event : ℕ → List (Event ℕ)
no_event n = replicate n silent

abbrev seen : List (Event ℕ)
seen = no_event 6 ++ accepted 7 ∷ no_event 9 ++ received 7 ∷ no_event 3 ++ accepted 8 ∷ no_event 4

seen_lem : run (first_part ++ second_part) (construct 3 1) ≡ some (seen, final)
unfolding run construct
seen_lem = refl

blocking_run_lem_example :
    (es : List (Event ℕ)) × (s : System ℕ) × (run (first_part ++ second_part) (construct 3 1)
      ≡ some (es, s))
    × (all_accepted es ≡ all_received es ++ s.m_queue)
    × (length s.m_queue ≤ 1)
blocking_run_lem_example = blocking_run_lem 3 1 (first_part ++ second_part)

final_settled : (i : ℕ) → settled (object_at final.threads i) ≡ true
final_settled zero = refl
final_settled (suc zero) = refl
final_settled (suc (suc zero)) = refl
final_settled (suc (suc (suc i))) = refl

no_lost_wakeup_example : may_proceed {T = ℕ} (pushing 9) (8 ∷ []) 1 ≡ false
no_lost_wakeup_example =
    no_lost_wakeup 3 1 (first_part ++ second_part) seen final 0 (pushing 9) seen_lem final_settled
      refl
