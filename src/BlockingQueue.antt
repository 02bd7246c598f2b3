-- ===== src/BlockingQueue.antt =====
-- include/cpp_playground/concurrency/mpsc_blocking_queue.hpp: a queue of bounded size that any
-- threads share, with a mutex and two condition variables. A schedule picks the thread that takes
-- the next step, the waiter that a notification wakes, and spurious wake-ups.
pub mod Waiting
pub mod Monitor
pub mod Steps
pub mod Notify
pub mod Schedules
mod Tests
use cpp_playground.Prelude.{
  [], ◌∷◌, refl, zero, suc, none, some, List, Option, ℕ, Bool, if◌then◌else◌, object_at, replicate,
  set, ◌++◌, ltb, total, length, ◌==◌, not,
}

-- `emplace`, with the value that goes into the queue, and `pop`. `push` has the statements of
-- `emplace`, but for a `std::forward` that does not compile.
pub data Operation {ℓ} (T : Type ℓ) : Type ℓ where
  pushing : T → Operation T
  popping : Operation T

-- Where a call is: it waits for the mutex, tests the predicate of `wait`, sleeps on its condition
-- variable, changes the queue, or has unlocked and is about to notify.
pub data Point : Type 0 where
  locking testing waiting acting notifying : Point

pub data Thread {ℓ} (T : Type ℓ) : Type ℓ where
  idle : Thread T
  inside : Operation T → Point → Thread T

-- `threads` has a thread at each index below its length.
pub record System {ℓ} (T : Type ℓ) : Type ℓ where
  pub m_queue : List T
  pub m_mutex : Option ℕ
  pub m_capacity : ℕ
  pub threads : List (Option (Thread T))

-- What a step does to the queue.
pub data Event {ℓ} (T : Type ℓ) : Type ℓ where
  silent : Event T
  accepted received : T → Event T

-- A thread starts a call; thread `i` takes a step, in which a notification wakes thread `j`; thread
-- `i` wakes up without a notification.
pub data Turn {ℓ} (T : Type ℓ) : Type ℓ where
  starting : (i : ℕ) → Operation T → Turn T
  stepping : (i j : ℕ) → Turn T
  waking : (i : ℕ) → Turn T

module _ {ℓ} {T : Type ℓ} where
  pub construct : (threads capacity : ℕ) → System T
  construct threads capacity = record {
    m_queue = [];
    m_mutex = none;
    m_capacity = capacity;
    threads = replicate threads (some idle);
  }

  -- The predicates of the two calls of `wait`.
  pub may_proceed : Operation T → List T → ℕ → Bool
  may_proceed (pushing value) queue capacity = ltb (length queue) capacity
  may_proceed popping queue capacity = not (length queue == 0)

  -- The change of the queue: `front` and `pop` of an empty one are undefined.
  pub change : Operation T → List T → Option (Event T × List T)
  change (pushing value) queue = some (accepted value, queue ++ value ∷ [])
  change popping [] = none
  change popping (value ∷ queue) = some (received value, queue)

  -- 1 for a thread that sleeps on `m_cv_pop`, and on `m_cv_push`.
  abbrev pub sleeping_popper : Option (Thread T) → ℕ
  sleeping_popper (some (inside popping waiting)) = 1
  sleeping_popper _ = 0

  abbrev pub sleeping_pusher : Option (Thread T) → ℕ
  sleeping_pusher (some (inside (pushing value) waiting)) = 1
  sleeping_pusher _ = 0

  -- 1 for a thread that sleeps on the condition variable which the operation notifies.
  abbrev pub hears : Operation T → Option (Thread T) → ℕ
  hears (pushing value) = sleeping_popper
  hears popping = sleeping_pusher

  pub set_thread : ℕ → Thread T → System T → System T
  set_thread i t s = record s { threads = set s.threads i (some t) }

  pub wake : ℕ → System T → System T
  unfolding set_thread
  wake j s = elim (object_at s.threads j) [
    | some (inside op waiting) ↦ set_thread j (inside op locking) s
    | _ ↦ s
  ]

  -- The next step of a thread inside a call: a step that has to wait changes nothing.
  pub advance : (i j : ℕ) → Operation T → Point → System T → Option (Event T × System T)
  unfolding may_proceed change set_thread wake
  advance i j op locking s = elim s.m_mutex [
    | none ↦ some (silent, record (set_thread i (inside op testing) s) { m_mutex = some i })
    | some _ ↦ some (silent, s)
  ]
  advance i j op testing s =
      if may_proceed op s.m_queue s.m_capacity
      then some (silent, set_thread i (inside op acting) s)
      else some (silent, record (set_thread i (inside op waiting) s) { m_mutex = none })
  advance i j op waiting s = some (silent, s)
  advance i j op acting s = elim (change op s.m_queue) [
    | none ↦ none
    | some (e, queue) ↦
        some (e, record (set_thread i (inside op notifying) s) { m_queue = queue; m_mutex = none })
  ]
  advance i j op notifying s =
      if total (hears op) s.threads == 0
      then some (silent, set_thread i idle s)
      else if hears op (object_at s.threads j) == 0
      then some (silent, s)
      else some (silent, set_thread i idle (wake j s))

  pub step : Turn T → System T → Option (Event T × System T)
  unfolding advance set_thread wake
  step (starting i op) s = elim (object_at s.threads i) [
    | some idle ↦ some (silent, set_thread i (inside op locking) s)
    | _ ↦ some (silent, s)
  ]
  step (stepping i j) s = elim (object_at s.threads i) [
    | some (inside op point) ↦ advance i j op point s
    | _ ↦ some (silent, s)
  ]
  step (waking i) s = some (silent, wake i s)

  pub run : List (Turn T) → System T → Option (List (Event T) × System T)
  unfolding step
  run [] s = some ([], s)
  run (t ∷ ts) s = elim (step t s) [
    | none ↦ none
    | some (e, s') ↦ elim (run ts s') [ none ↦ none | some (es, s'') ↦ some (e ∷ es, s'') ]
  ]
