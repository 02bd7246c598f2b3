-- ===== src/ThreadRacer/Scoreboard.antt =====
-- src/thread_racer.cpp: the race of a thread, and what `main` prints of the results. The clock is
-- the nanoseconds since it began; `sort` is `std::ranges::sort` by time.
pub mod Times
pub mod Report
pub mod Sorting
use cpp_playground.Prelude.{
  [], ◌∷◌, refl, zero, suc, none, some, inl, inr, List, ℕ, Option, add64, if◌then◌else◌, map, sub64,
  ◌≤◌, get_elem?, ltb,
}

pub record Result : Type 0 where
  pub thread_id : ℕ
  pub time : ℕ
  pub start_time : ℕ

-- `#{position}: thread {thread_id}: {time} ns`
pub record Score : Type 0 where
  pub position : ℕ
  pub thread_id : ℕ
  pub time : ℕ

-- `thread {thread_id}: {delay} ns`
pub record Delay : Type 0 where
  pub thread_id : ℕ
  pub delay : ℕ

-- The loop of a thread, with fuel.
pub race_loop : (fuel goal counter : ℕ) → Option ℕ
race_loop zero goal counter = none
race_loop (suc fuel) goal counter =
    let again = race_loop fuel goal (add64 counter 1) in
    if ltb counter goal then again else some counter

-- What a thread promises, which read the clock at `start` and at `stop`.
pub result_of : (thread_id start stop : ℕ) → Result
result_of thread_id start stop = record {
  thread_id = thread_id;
  time = sub64 stop start;
  start_time = start;
}

-- The results of the threads from `i` on, in the order of the futures.
pub get_results : (rounds i : ℕ) → (ℕ → ℕ × ℕ) → List Result
unfolding result_of
get_results zero i clock = []
get_results (suc rounds) i clock =
    result_of i (clock i).0 (clock i).1 ∷ get_results rounds (suc i) clock

pub scores : (position : ℕ) → List Result → List Score
scores position [] = []
scores position (r ∷ rs) =
    let next = add64 position 1 in
    record { position = next; thread_id = r.thread_id; time = r.time } ∷ scores next rs

-- `std::ranges::min_element`, its start time.
pub earliest : ℕ → List Result → ℕ
earliest first [] = first
earliest first (r ∷ rs) = earliest (if ltb r.start_time first then r.start_time else first) rs

-- There is no element to read among none.
pub first_start_time : List Result → Option ℕ
unfolding earliest
first_start_time [] = none
first_start_time (r ∷ rs) = some (earliest r.start_time rs)

pub start_delays : (first : ℕ) → List Result → List ℕ
start_delays first rs = map (λ r. sub64 r.start_time first) rs

-- The last loop, from index `i` on; none where it reads behind the end.
pub delays : (rounds i : ℕ) → List Result → List ℕ → Option (List Delay)
delays zero i rs ds = some []
delays (suc rounds) i rs ds =
    let rest = delays rounds (suc i) rs ds in
    elim (get_elem? rs i) [
      | none ↦ none
      | some r ↦ elim (get_elem? ds i) [
        | none ↦ none
        | some d ↦ elim rest [
          | none ↦ none
          | some ls ↦ some (record { thread_id = r.thread_id; delay = d } ∷ ls)
        ]
      ]
    ]

-- `main`, once every thread has raced.
unfoldable pub report :
    (List Result → List Result) → (num_threads : ℕ) → (ℕ → ℕ × ℕ) → Option (List Score × List Delay)
unfolding get_results scores first_start_time start_delays delays
report sort num_threads clock =
    let results = sort (get_results num_threads 0 clock) in
    elim (first_start_time results) [
      | none ↦ none
      | some first ↦ elim (delays num_threads 0 results (start_delays first results)) [
        | none ↦ none
        | some ls ↦ some (scores 0 results, ls)
      ]
    ]

-- In the order of their times.
pub data Ascending : List Result → Type 0 where
  none_left : Ascending []
  one_left : (r : Result) → Ascending (r ∷ [])
  follows :
      (q r : Result) (rs : List Result)
      → q.time ≤ r.time
      → Ascending (r ∷ rs)
      → Ascending (q ∷ r ∷ rs)
