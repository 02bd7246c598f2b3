-- ===== src/ThreadRacer/Scoreboard/Report.antt =====
-- src/thread_racer.cpp: what the printed results say.
use cpp_playground.Prelude.{
  [], ◌∷◌, zero, suc, some, List, ℕ, total, ◌≡◌, arith, All, if◌then◌else◌, ◌+◌, ◌-◌, ltb, word_mod,
  ◌<◌, add64, ap, lt→ltb, not_lt→ltb,
}
use cpp_playground.ThreadRacer.Scoreboard.{Result, Score, Delay, Ascending, race_loop}

-- `std::ranges::sort` permutes its argument, so that any weight of the results has the same sum, and
-- leaves it in order.
pub record IsSort (sort : List Result → List Result) : Type 0 where
  pub same_items :
      (weight : Result → ℕ) (rs : List Result) → total weight (sort rs) ≡ total weight rs
  pub ascending : (rs : List Result) → Ascending (sort rs)

-- The positions `k + 1`, `k + 2` and so on.
abbrev pub positions_from : (n k : ℕ) → List ℕ
positions_from zero k = []
positions_from (suc n) k = suc k ∷ positions_from n (suc k)

-- What stands on the scoreboard for a result.
abbrev pub shown : Score → ℕ × ℕ
shown s = (s.thread_id, s.time)

abbrev pub placed : Result → ℕ × ℕ
placed r = (r.thread_id, r.time)

-- A result whose start time does not fit in 64 bits.
too_late : Result → ℕ
too_late r = if ltb r.start_time word_mod then 0 else 1

abbrev InTime : List Result → Type 0
InTime = All (λ r. r.start_time < word_mod)

-- How long after `first` a thread started.
abbrev pub delay_since : ℕ → Result → Delay
delay_since first r = record { thread_id = r.thread_id; delay = r.start_time - first }

-- With any goal below 2^64, the race of a thread ends: with fuel for one round more than the goal,
-- the counter is the goal at the end.
pub race_loop_lem :
    (rounds goal counter : ℕ)
    → counter + rounds ≡ goal
    → goal < word_mod
    → race_loop (suc rounds) goal counter ≡ some goal
unfolding race_loop
race_loop_lem zero goal counter e small =
    rw (not_lt→ltb counter goal (omega (arith, e))) (ap some (omega (arith, e)))
race_loop_lem (suc rounds) goal counter e small =
    let next : add64 counter 1 ≡ suc counter = omega (arith, e, small) in
    rw (lt→ltb counter goal (omega (arith, e)), next)
      (race_loop_lem rounds goal (suc counter) (omega (arith, e)) small)
