-- ===== src/ThreadRacer/Tests.antt =====
-- src/thread_racer.cpp, at concrete schedules.
use cpp_playground.ThreadRacer.{arriving, sleeping, racing, System, Turn, stepping, start, run}
use cpp_playground.ThreadRacer.Scoreboard.Report.{race_loop_lem}
use cpp_playground.ThreadRacer.Scoreboard.Sorting.{sort_by_time}
use cpp_playground.ThreadRacer.Scoreboard.{race_loop, report}
use cpp_playground.ThreadRacer.Barrier.{race_start}
use cpp_playground.ThreadRacer.LostWakeup.{lost_wakeup, late_schedule}
use cpp_playground.Prelude.{
  [], ◌∷◌, refl, zero, suc, none, some, List, object_at, ℕ, ◌≡◌, ◌≢◌, arith,
}

abbrev go : ℕ → Turn
go i = stepping i

-- The first thread sleeps before the second one arrives and notifies it.
abbrev good : List Turn
good = go 0 ∷ go 0 ∷ go 0 ∷ go 0 ∷ go 1 ∷ go 1 ∷ go 0 ∷ go 0 ∷ []

-- The second thread arrives and notifies between the test and the wait of the first one.
abbrev bad : List Turn
bad = go 0 ∷ go 0 ∷ go 0 ∷ go 1 ∷ go 1 ∷ go 0 ∷ []

abbrev raced : System
raced = record {
  num_threads = 2;
  num_threads_ready = 2;
  mutex = none;
  threads = some racing ∷ some racing ∷ [];
}

abbrev lost : System
lost = record {
  num_threads = 2;
  num_threads_ready = 2;
  mutex = none;
  threads = some sleeping ∷ some racing ∷ [];
}

good_lem : run good (start 2) ≡ raced
unfolding run start
good_lem = refl

bad_lem : run bad (start 2) ≡ lost
unfolding run start
bad_lem = refl

race_start_racing : object_at (run bad (start 2)).threads 1 ≡ some racing
unfolding run start
race_start_racing = refl

race_start_example :
    ((run bad (start 2)).num_threads_ready ≡ 2)
    × (object_at (run bad (start 2)).threads 0 ≢ some arriving)
race_start_example = race_start 2 bad 1 0 (omega arith) race_start_racing

-- Two other threads, and some steps afterwards.
lost_wakeup_example :
    ((run (late_schedule 1) (start 3)).num_threads_ready ≡ 3)
    × (object_at
          (run (go 0 ∷ go 1 ∷ go 1 ∷ go 0 ∷ go 2 ∷ []) (run (late_schedule 1) (start 3))).threads
          0
        ≢ some racing)
lost_wakeup_example = lost_wakeup 1 (0 ∷ 1 ∷ 1 ∷ 0 ∷ 2 ∷ []) (omega arith)

-- Three threads: the second is the fastest, the third starts first.
abbrev clock : ℕ → ℕ × ℕ
clock zero = (1000, 1900)
clock (suc zero) = (1200, 1700)
clock (suc (suc i)) = (900, 1500)

report_three :
    report sort_by_time 3 clock
    ≡ some (
      record { position = 1; thread_id = 1; time = 500 }
          ∷ record { position = 2; thread_id = 2; time = 600 }
          ∷ record { position = 3; thread_id = 0; time = 900 }
          ∷ [],
      record { thread_id = 1; delay = 300 }
          ∷ record { thread_id = 2; delay = 0 }
          ∷ record { thread_id = 0; delay = 100 }
          ∷ [],
    )
unfolding report
report_three = refl

race_to_ten : race_loop 11 10 0 ≡ some 10
race_to_ten = race_loop_lem 10 10 0 (omega arith) (omega arith)
