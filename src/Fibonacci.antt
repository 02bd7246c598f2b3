-- ===== src/Fibonacci.antt =====
-- src/coroutines_fibonacci.cpp: the greatest Fibonacci number of an unsigned integral type, and the
-- coroutine that yields all of them. The type is given by its greatest value, `max`; its arithmetic
-- wraps at `suc max`.
pub mod Limit
pub mod Numbers
pub mod Signed
mod Tests
use cpp_playground.Prelude.{
  ℕ, zero, suc, ◌+◌, ◌-◌, ◌%◌, Option, none, some, List, [], ◌∷◌, ltb, ◌==◌, if◌then◌else◌, ◌^◌,
}
use mathlib.Core.Option

-- The loop of `fibonacci_limit`, with fuel. The assignment `next += std::exchange(current, next)`
-- makes `next` the sum and `current` the old `next`.
pub limit_loop : (fuel max current next : ℕ) → Option ℕ
limit_loop zero max current next = none
limit_loop (suc fuel) max current next =
    let again = limit_loop fuel max next ((next + current) % suc max) in
    if ltb (max - next) current then some next else again

-- The fuel exceeds any number of rounds: each makes the sum of the two variables greater.
pub fibonacci_limit : ℕ → Option ℕ
unfolding limit_loop
fibonacci_limit max = limit_loop (max + max + 2) max 0 1

-- The loop of `fibonacci_numbers`: the values yielded, up to the `co_return`.
pub numbers_loop : (fuel max limit current next : ℕ) → Option (List ℕ)
numbers_loop zero max limit current next = none
numbers_loop (suc fuel) max limit current next =
    let again = numbers_loop fuel max limit next ((next + current) % suc max) in
    if current == limit then some (current ∷ []) else Option.map (◌∷◌ current) again

pub fibonacci_numbers : ℕ → Option (List ℕ)
unfolding fibonacci_limit numbers_loop
fibonacci_numbers max = elim (fibonacci_limit max) [
  | none ↦ none
  | some limit ↦ numbers_loop (max + max + 2) max limit 0 1
]

-- What `main` prints, with `uint64_t`.
pub main : Option (List ℕ)
unfolding fibonacci_numbers
main = fibonacci_numbers (2 ^ 64 - 1)

-- How a coroutine of a signed type ends: a sum that exceeds `max` is undefined behaviour.
pub data Ending : Type 0 where
  returning overflowing : Ending

abbrev pub yielding : ℕ → Option (List ℕ × Ending) → Option (List ℕ × Ending)
yielding current none = none
yielding current (some (ys, ending)) = some (current ∷ ys, ending)

-- The loop of `fibonacci_numbers` for a signed type that is not promoted: the values yielded, and the
-- ending.
pub signed_loop : (fuel max limit current next : ℕ) → Option (List ℕ × Ending)
signed_loop zero max limit current next = none
signed_loop (suc fuel) max limit current next =
    let again = signed_loop fuel max limit next (next + current) in
    if current == limit
    then some (current ∷ [], returning)
    else if ltb max (next + current)
    then some (current ∷ [], overflowing)
    else yielding current again

-- The loop of `fibonacci_limit` adds below `max` only, whatever the type.
pub fibonacci_numbers_signed : ℕ → Option (List ℕ × Ending)
unfolding fibonacci_limit signed_loop
fibonacci_numbers_signed max = elim (fibonacci_limit max) [
  | none ↦ none
  | some limit ↦ signed_loop (max + max + 2) max limit 0 1
]
