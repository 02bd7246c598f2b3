-- ===== src/ThreadRacer.antt =====
-- src/thread_racer.cpp: the barrier at which the threads wait for each other before they race. A
-- schedule picks the thread that takes the next step.
pub mod Start
pub mod Barrier
pub mod Missed
pub mod Arrivals
pub mod LostWakeup
pub mod Scoreboard
mod Tests
use cpp_playground.Prelude.{
  [], ◌∷◌, refl, zero, suc, none, some, List, Option, object_at, ℕ, add64, replicate, set,
  if◌then◌else◌, ◌==◌, map,
}

-- Where a thread is in `thread_func`: before `++num_threads_ready`, before `notify_all`, before it
-- has the mutex, before the test of the predicate, between the test and the wait, in the wait, or
-- behind the barrier.
pub data Racer : Type 0 where
  arriving notifying locking testing blocking sleeping racing : Racer

pub record System : Type 0 where
  pub num_threads : ℕ
  pub num_threads_ready : ℕ
  pub mutex : Option ℕ
  pub threads : List (Option Racer)

-- A thread takes a step, or wakes up without a notification.
pub data Turn : Type 0 where
  stepping waking : ℕ → Turn

pub start : ℕ → System
start num_threads = record {
  num_threads = num_threads;
  num_threads_ready = 0;
  mutex = none;
  threads = replicate num_threads (some arriving);
}

pub move_to : ℕ → Racer → System → System
move_to i r s = record s { threads = set s.threads i (some r) }

pub woken : Option Racer → Option Racer
woken (some sleeping) = some locking
woken r = r

-- The next step of a thread. The increment is atomic, and does not take the mutex.
pub advance : ℕ → Racer → System → System
unfolding move_to woken
advance i arriving s =
    let ready = add64 s.num_threads_ready 1 in
    let next = if ready == s.num_threads then notifying else locking in
    record (move_to i next s) { num_threads_ready = ready }
advance i notifying s =
    let notified = record s { threads = map woken s.threads } in move_to i racing notified
advance i locking s = elim s.mutex [
  | none ↦ record (move_to i testing s) { mutex = some i }
  | some _ ↦ s
]
advance i testing s =
    if s.num_threads_ready == s.num_threads
    then record (move_to i racing s) { mutex = none }
    else move_to i blocking s
advance i blocking s = record (move_to i sleeping s) { mutex = none }
advance i sleeping s = s
advance i racing s = s

pub step : Turn → System → System
unfolding advance woken
step (stepping i) s = elim (object_at s.threads i) [ none ↦ s | some r ↦ advance i r s ]
step (waking i) s = record s { threads = set s.threads i (woken (object_at s.threads i)) }

pub run : List Turn → System → System
unfolding step
run [] s = s
run (t ∷ ts) s = run ts (step t s)
