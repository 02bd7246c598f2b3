-- ===== src/ThreadRacer/LostWakeup.antt =====
-- src/thread_racer.cpp: the schedule in which the last thread to arrive notifies between the test
-- and the wait of the first one.
use cpp_playground.ThreadRacer.Arrivals.{Arrived, arrive_lem, last-Missed, arrive-Arrived}
use cpp_playground.ThreadRacer.Missed.{Missed, run-Missed, may_notify, waits}
use cpp_playground.ThreadRacer.{
  arriving, locking, blocking, racing, System, Turn, stepping, start, advance, step, run, move_to,
}
use cpp_playground.Prelude.{
  [], ◌∷◌, refl, zero, suc, none, some, inl, inr, List, object_at, ℕ, map, ◌<◌, ◌≡◌, false, sym,
  true, ◌+◌, ◌≤◌, ap, word_mod, arith, ◌∙◌, ◌==◌, ne→==, ◌⊎◌, ◌≢◌, replicate,
}
use mathlib.Core.Path.{subst}

-- The threads from `i` on arrive, `others` of them before the last one, which notifies.
abbrev pub arrivals : (i others : ℕ) → List Turn
arrivals i zero = stepping i ∷ stepping i ∷ []
arrivals i (suc others) = stepping i ∷ arrivals (suc i) others

-- The first thread arrives, takes the mutex and tests the predicate; then the others arrive.
abbrev pub late_schedule : ℕ → List Turn
late_schedule others = stepping 0 ∷ stepping 0 ∷ stepping 0 ∷ arrivals 1 others

arrivals-Missed :
    (others n i : ℕ) (s : System)
    → suc (i + others) ≡ n
    → 1 ≤ i
    → n < word_mod
    → Arrived n i s
    → Missed (run (arrivals i others) s) × ((run (arrivals i others) s).num_threads_ready ≡ n)
unfolding run
arrivals-Missed zero n i s count later word h = last-Missed n i s (omega arith) later word h
arrivals-Missed (suc others) n i s count later word h =
    arrivals-Missed others n (suc i) (step (stepping i) s) (omega arith) (omega arith) word
      (arrive-Arrived n i s (omega arith) later word h)

-- The first thread has tested the predicate, with no other thread there.
abbrev tested : ℕ → System
tested others = record {
  num_threads = suc (suc others);
  num_threads_ready = 1;
  mutex = some 0;
  threads = some blocking ∷ replicate (suc others) (some arriving);
}

abbrev first_arrived : ℕ → System
first_arrived others = record {
  num_threads = suc (suc others);
  num_threads_ready = 1;
  mutex = none;
  threads = some locking ∷ replicate (suc others) (some arriving);
}

test_lem : (others : ℕ) → run (stepping 0 ∷ stepping 0 ∷ []) (first_arrived others) ≡ tested others
unfolding run step advance move_to
test_lem others =
    let more : (1 == suc (suc others)) ≡ false =
      ne→== 1 (suc (suc others)) (λ q. absurd (omega arith)) in
    rw more refl

tested_lem :
    (others : ℕ)
    → suc (suc others) < word_mod
    → run (stepping 0 ∷ stepping 0 ∷ stepping 0 ∷ []) (start (suc (suc others))) ≡ tested others
unfolding run start
tested_lem others word =
    ap (run (stepping 0 ∷ stepping 0 ∷ []))
      (arrive_lem 0 (start (suc (suc others))) refl (omega arith) word)
    ∙ test_lem others

object_at-replicate :
    (n j : ℕ)
    → ((j < n) × (object_at (replicate n (some arriving)) j ≡ some arriving))
      ⊎ ((n ≤ j) × (object_at (replicate n (some arriving)) j ≡ none))
object_at-replicate zero j = inr (omega arith, refl)
object_at-replicate (suc n) zero = inl (omega arith, refl)
object_at-replicate (suc n) (suc j) = elim (object_at-replicate n j) [
  | inl (below, there) ↦ inl (omega arith, there)
  | inr (out, nothing) ↦ inr (omega arith, nothing)
]

tested-Arrived : (others : ℕ) → Arrived (suc (suc others)) 1 (tested others)
tested-Arrived others = record {
  all = refl;
  ready = refl;
  first = refl;
  come = come;
  coming = coming;
  beyond = beyond;
}
  where
    come : (j : ℕ) → j < 1 → may_notify (object_at (tested others).threads j) ≡ false
    come zero h = refl
    come (suc j) h = absurd (omega arith)

    coming :
        (j : ℕ) → 1 ≤ j → j < suc (suc others) → object_at (tested others).threads j ≡ some arriving
    coming zero from below = absurd (omega arith)
    coming (suc j) from below = elim (object_at-replicate (suc others) j) [
      | inl (inside, there) ↦ there
      | inr (out, nothing) ↦ absurd (omega arith)
    ]

    beyond :
        (j : ℕ) → suc (suc others) ≤ j → may_notify (object_at (tested others).threads j) ≡ false
    beyond zero out = refl
    beyond (suc j) out = elim (object_at-replicate (suc others) j) [
      | inl (inside, there) ↦ absurd (omega arith)
      | inr (out', nothing) ↦ ap may_notify nothing
    ]

late-Missed :
    (others : ℕ)
    → suc (suc others) < word_mod
    → Missed (run (late_schedule others) (start (suc (suc others))))
      × ((run (late_schedule others) (start (suc (suc others)))).num_threads_ready
          ≡ suc (suc others))
unfolding run
late-Missed others word =
    subst
      (λ s.
        Missed (run (arrivals 1 others) s)
        × ((run (arrivals 1 others) s).num_threads_ready ≡ suc (suc others)))
      (sym (tested_lem others word))
      (arrivals-Missed others (suc (suc others)) 1 (tested others) (omega arith) (omega arith) word
        (tested-Arrived others))

-- For two threads or more, fewer than 2^64: in the schedule in which the first thread arrives, takes
-- the mutex and finds that not all threads are there, and then the others arrive, the last of which
-- notifies before the first one waits, the count is that of all threads at the end, but whatever
-- steps of any threads follow, without a spurious wake-up, the first thread is never behind the
-- barrier.
pub lost_wakeup :
    (others : ℕ) (steps : List ℕ)
    → others + 2 < word_mod
    → ((run (late_schedule others) (start (suc (suc others)))).num_threads_ready ≡ others + 2)
      × (object_at
            (run
              (map stepping steps)
              (run (late_schedule others) (start (suc (suc others))))).threads
            0
          ≢ some racing)
lost_wakeup others steps word =
    let s = run (late_schedule others) (start (suc (suc others))) in
    let (missed, count) = late-Missed others (omega arith) in
    let still = run-Missed steps s missed in
    (
      omega (arith, count),
      λ raced. let no : true ≡ false = sym still.waiting ∙ ap waits raced in absurd (ground arith),
    )
