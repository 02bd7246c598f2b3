-- ===== src/ThreadRacer/Barrier.antt =====
-- src/thread_racer.cpp: no thread races before all have arrived.
use cpp_playground.ThreadRacer.{arriving, racing, Turn, start, run}
use cpp_playground.ThreadRacer.Start.{is_arriving, has_started, Sound, run-Kept}
use cpp_playground.Prelude.{
  refl, zero, suc, none, some, ℕ, object_at, total, ◌≡◌, ◌<◌, arith, total-set, List, word_mod, ◌∙◌,
  replicate, ◌≢◌,
}

all_arriving : (n : ℕ) → total is_arriving (replicate n (some arriving)) ≡ n
all_arriving zero = refl
all_arriving (suc n) = omega (arith, all_arriving n)

none_started : (n : ℕ) → total has_started (replicate n (some arriving)) ≡ 0
none_started zero = refl
none_started (suc n) = omega (arith, none_started n)

start-Sound : (n : ℕ) → Sound (start n)
unfolding start
start-Sound n = record {
  counted = omega (arith, all_arriving n);
  started = λ h. absurd (omega (arith, none_started n));
}

-- For fewer than 2^64 threads and every schedule, with spurious wake-ups: when a thread is behind
-- the barrier, the count is that of all threads, and no thread has yet to arrive.
pub race_start :
    (n : ℕ) (ts : List Turn) (i k : ℕ)
    → n < word_mod
    → object_at (run ts (start n)).threads i ≡ some racing
    → ((run ts (start n)).num_threads_ready ≡ n)
      × (object_at (run ts (start n)).threads k ≢ some arriving)
unfolding start
race_start n ts i k word e =
    let s = run ts (start n) in
    let (sound, same) = run-Kept ts (start n) word (start-Sound n) in
    let starter = total-set has_started s.threads i racing none e in
    let all : s.num_threads_ready ≡ n = sound.started (omega (arith, starter)) ∙ same in
    (
      all,
      λ late.
          let arrival = total-set is_arriving s.threads k arriving none late in
          absurd (omega (arith, arrival, sound.counted, all, same)),
    )
