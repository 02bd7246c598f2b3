-- ===== src/LifetimeTracker.antt =====
-- include/cpp_playground/testing/thread_local_lifetime_tracker.hpp: the counters of a thread, and
-- the calls of all threads.
pub mod Kinds
pub mod Counts
pub mod Bounds
mod Tests
use cpp_playground.Prelude.{
  [], ◌∷◌, refl, zero, suc, none, some, List, ℕ, ◌+◌, if◌then◌else◌, ◌==◌, Action, Outcome, ◌^◌,
  ltb, returned, ◌>>◌, fault, threw,
}

-- The thread-local variables of one thread.
pub record Counters : Type 0 where
  pub m_num_constructions : ℕ
  pub m_num_destructions : ℕ
  pub m_num_default_constructions : ℕ
  pub m_num_copy_constructions : ℕ
  pub m_num_move_constructions : ℕ
  pub m_num_copy_assignments : ℕ
  pub m_num_move_assignments : ℕ

abbrev pub zeros : Counters
zeros = record {
  m_num_constructions = 0;
  m_num_destructions = 0;
  m_num_default_constructions = 0;
  m_num_copy_constructions = 0;
  m_num_move_constructions = 0;
  m_num_copy_assignments = 0;
  m_num_move_assignments = 0;
}

pub reset : Counters → Counters
reset c = zeros

-- A counter is an `int64_t`, which only ever counts up from 0.
abbrev pub limit : ℕ
limit = 2 ^ 63

-- `++n`, and what the counters are then: past the greatest `int64_t`, the behaviour is undefined.
pub increment : ℕ → (ℕ → Counters) → Outcome Counters (Unit {0})
increment n store = if ltb (n + 1) limit then returned tt (store (n + 1)) else fault

pub count_construction : Action Counters (Unit {0})
unfolding increment
count_construction c = increment c.m_num_constructions (λ n. record c { m_num_constructions = n })

pub default_construct : Action Counters (Unit {0})
unfolding increment count_construction
default_construct = do
  (λ c. increment c.m_num_default_constructions (λ n. record c { m_num_default_constructions = n }))
  count_construction

pub copy_construct : Action Counters (Unit {0})
unfolding increment count_construction
copy_construct = do
  (λ c. increment c.m_num_copy_constructions (λ n. record c { m_num_copy_constructions = n }))
  count_construction

pub move_construct : Action Counters (Unit {0})
unfolding increment count_construction
move_construct = do
  (λ c. increment c.m_num_move_constructions (λ n. record c { m_num_move_constructions = n }))
  count_construction

pub destruct : Action Counters (Unit {0})
unfolding increment
destruct c = increment c.m_num_destructions (λ n. record c { m_num_destructions = n })

-- The addresses of `*this` and of `other` decide.
pub copy_assign : (this other : ℕ) → Action Counters (Unit {0})
unfolding increment
copy_assign this other c =
    if this == other
    then returned tt c
    else increment c.m_num_copy_assignments (λ n. record c { m_num_copy_assignments = n })

pub move_assign : (this other : ℕ) → Action Counters (Unit {0})
unfolding increment
move_assign this other c =
    if this == other
    then returned tt c
    else increment c.m_num_move_assignments (λ n. record c { m_num_move_assignments = n })

-- A member function; the fixture's constructor and destructor reset.
pub data Call : Type 0 where
  resetting default_constructing copy_constructing move_constructing destroying : Call
  copy_assigning move_assigning : (this other : ℕ) → Call

pub perform : Call → Action Counters (Unit {0})
unfolding reset default_construct copy_construct move_construct destruct copy_assign move_assign
perform resetting c = returned tt (reset c)
perform default_constructing c = default_construct c
perform copy_constructing c = copy_construct c
perform move_constructing c = move_construct c
perform destroying c = destruct c
perform (copy_assigning this other) c = copy_assign this other c
perform (move_assigning this other) c = move_assign this other c

abbrev pub store_at : ℕ → (ℕ → Counters) → Counters → ℕ → Counters
store_at t locals c u = if t == u then c else locals u

-- A call in thread `t` works on the counters of this thread.
pub perform_in : ℕ → Call → Action (ℕ → Counters) (Unit {0})
unfolding perform
perform_in t call locals = elim (perform call (locals t)) [
  | returned a c ↦ returned a (store_at t locals c)
  | threw e c ↦ threw e (store_at t locals c)
  | fault ↦ fault
]

pub run_all : List (ℕ × Call) → Action (ℕ → Counters) (Unit {0})
unfolding perform_in
run_all [] locals = returned tt locals
run_all ((t, call) ∷ calls) locals = (do perform_in t call; run_all calls) locals
