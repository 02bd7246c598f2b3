-- ===== src/Fibonacci/Signed.antt =====
-- `fibonacci_numbers` of a signed type.
use cpp_playground.Prelude.{
  refl, zero, suc, some, ℕ, ◌≤◌, ◌≡◌, arith, ◌-◌, ◌+◌, ◌∙◌, ap, ◌<◌, ◌==◌, false, ne→==, lt→ltb,
  not_lt→ltb, sym,
}
use cpp_playground.Fibonacci.{overflowing, fibonacci_numbers_signed, signed_loop, yielding}
use cpp_playground.Fibonacci.Limit.{
  fib, IsLimit, fibonacci_limit_lem, le-fib, fib_strict, fib_step, fib_mono,
}
use cpp_playground.Fibonacci.Numbers.{fibs, index-ge-three}

signed_loop_lem :
    (rounds fuel max n k : ℕ)
    → k + suc rounds ≡ n
    → rounds < fuel
    → 3 ≤ n
    → IsLimit max n
    → signed_loop fuel max (fib n) (fib k) (fib (suc k)) ≡ some (fibs k (suc rounds), overflowing)
unfolding signed_loop fibs
signed_loop_lem rounds zero max n k e h three l = absurd (omega (arith, h))
signed_loop_lem zero (suc fuel) max n k e h three l =
    let ne : (fib k == fib n) ≡ false =
      ne→== (fib k) (fib n) (omega (arith, fib_strict k n (omega (arith, e)) three)) in
    let last : suc n ≡ suc (suc k) = omega (arith, e) in
    let above : max < fib (suc k) + fib k = omega (arith, l.last, ap fib last, fib_step k) in
    rw (ne, lt→ltb max (fib (suc k) + fib k) above) refl
signed_loop_lem (suc rounds) (suc fuel) max n k e h three l =
    let ne : (fib k == fib n) ≡ false =
      ne→== (fib k) (fib n) (omega (arith, fib_strict k n (omega (arith, e)) three)) in
    let below : fib (suc k) + fib k ≤ max =
      omega (arith, l.fits, fib_mono (suc (suc k)) n (omega (arith, e)), fib_step k) in
    let rest =
      signed_loop_lem rounds fuel max n (suc k) (omega (arith, e)) (omega (arith, h)) three l in
    rw (ne, not_lt→ltb max (fib (suc k) + fib k) below)
      (ap (yielding (fib k))
        (ap (signed_loop fuel max (fib n) (fib (suc k))) (sym (fib_step k)) ∙ rest))

-- For a signed type that is not promoted, with greatest value at least 2, the coroutine yields the
-- Fibonacci numbers of the type in order, but for the greatest one: before that, the sum for the
-- value after it overflows.
pub fibonacci_numbers_signed_lem :
    (max : ℕ)
    → 2 ≤ max
    → (n : ℕ) × (fibonacci_numbers_signed max ≡ some (fibs 0 n, overflowing)) × IsLimit max n
unfolding fibonacci_numbers_signed fib
fibonacci_numbers_signed_lem max h =
    let (n, e, l) = fibonacci_limit_lem max (omega (arith, h)) in
    let three : 3 ≤ n = index-ge-three max n h l in
    let some_before : suc (n - 1) ≡ n = omega (arith, three) in
    let all =
      signed_loop_lem (n - 1) (max + max + 2) max n 0 (omega (arith, three))
        (omega (arith, le-fib n, l.fits, three)) three l in
    (
      n,
      rw (e, fibonacci_numbers_signed) (all ∙ ap (λ k. some (fibs 0 k, overflowing)) some_before),
      l,
    )
