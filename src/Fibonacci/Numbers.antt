-- ===== src/Fibonacci/Numbers.antt =====
-- `fibonacci_numbers` against the sequence itself.
use cpp_playground.Prelude.{
  ℕ, zero, suc, ◌+◌, ◌%◌, ◌≤◌, ◌<◌, some, ◌≡◌, refl, arith, List, [], ◌∷◌, eq→==, ◌==◌, false,
  ne→==, ◌∙◌, sym, ◌^◌, ◌-◌,
}
use cpp_playground.Fibonacci.{numbers_loop, fibonacci_numbers, main}
use cpp_playground.Fibonacci.Limit.{
  fib, IsLimit, fibonacci_limit_lem, fib_strict, le-fib, fib_mono, fib_step,
}
use native.Mathlib.Nat.{mod-eq_of_lt}

-- `count` Fibonacci numbers from index `k` on.
unfoldable pub fibs : (k count : ℕ) → List ℕ
fibs k zero = []
fibs k (suc count) = fib k ∷ fibs (suc k) count

numbers_loop_last :
    (fuel max n next : ℕ) → numbers_loop (suc fuel) max (fib n) (fib n) next ≡ some (fib n ∷ [])
unfolding numbers_loop
numbers_loop_last fuel max n next = rw (eq→== (fib n) (fib n) refl)

-- The variable `next` may wrap in the last round, where it is not read again.
numbers_loop_lem :
    (rounds fuel max n k : ℕ)
    → k + rounds ≡ n
    → rounds < fuel
    → 3 ≤ n
    → fib n ≤ max
    → numbers_loop fuel max (fib n) (fib k) (fib (suc k)) ≡ some (fibs k (suc rounds))
unfolding numbers_loop fibs
numbers_loop_lem rounds zero max n k e h three fits = absurd (omega arith)
numbers_loop_lem zero (suc fuel) max n k e h three fits =
    let same : k ≡ n = omega arith in rw same (numbers_loop_last fuel max n (fib (suc n)))
numbers_loop_lem (suc zero) (suc zero) max n k e h three fits = absurd (omega arith)
numbers_loop_lem (suc zero) (suc (suc fuel)) max n k e h three fits =
    let same : suc k ≡ n = omega arith in
    let ne : (fib k == fib n) ≡ false =
      ne→== (fib k) (fib n) (omega (arith, fib_strict k n (omega arith) three)) in
    rw (ne, same, numbers_loop_last fuel max n ((fib n + fib k) % suc max))
numbers_loop_lem (suc (suc rounds)) (suc fuel) max n k e h three fits =
    let ne : (fib k == fib n) ≡ false =
      ne→== (fib k) (fib n) (omega (arith, fib_strict k n (omega arith) three)) in
    let small : fib (suc (suc k)) ≤ max = omega (arith, fib_mono (suc (suc k)) n (omega arith)) in
    let sum : (fib (suc k) + fib k) % suc max ≡ fib (suc (suc k)) =
      mod-eq_of_lt (omega (arith, fib_step k)) ∙ sym (fib_step k) in
    let rest : numbers_loop fuel max (fib n) (fib (suc k)) (fib (suc (suc k)))
        ≡ some (fibs (suc k) (suc (suc rounds))) =
      numbers_loop_lem (suc rounds) fuel max n (suc k) (omega arith) (omega arith) three fits in
    rw (ne, sum, rest)

pub index-ge-three : (max n : ℕ) → 2 ≤ max → IsLimit max n → 3 ≤ n
unfolding fib
index-ge-three max zero h l = absurd (omega arith)
index-ge-three max (suc zero) h l = absurd (omega arith)
index-ge-three max (suc (suc zero)) h l = absurd (omega arith)
index-ge-three max (suc (suc (suc n))) h l = omega arith

-- For an unsigned type, whose sums wrap, with greatest value at least 2, the coroutine ends, and
-- yields exactly the Fibonacci numbers of the type, in order.
pub fibonacci_numbers_lem :
    (max : ℕ) → 2 ≤ max → (n : ℕ) × (fibonacci_numbers max ≡ some (fibs 0 (suc n))) × IsLimit max n
unfolding fibonacci_numbers fib
fibonacci_numbers_lem max h =
    let (n, e, l) = fibonacci_limit_lem max (omega arith) in
    let three : 3 ≤ n = index-ge-three max n h l in
    let all =
      numbers_loop_lem n (max + max + 2) max n 0 (omega arith) (omega (arith, le-fib n, l.fits))
        three l.fits in
    (n, rw (e, fibonacci_numbers) all, l)

-- The program prints every Fibonacci number that a `uint64_t` holds, in order.
main_lem : (n : ℕ) × (main ≡ some (fibs 0 (suc n))) × IsLimit (2 ^ 64 - 1) n
unfolding main
main_lem = fibonacci_numbers_lem (2 ^ 64 - 1) (omega arith)
