-- ===== src/Fibonacci/Limit.antt =====
-- `fibonacci_limit` against the sequence itself.
use native.Mathlib.Nat.{mod-eq_of_lt}
use cpp_playground.Prelude.{
  ℕ, zero, suc, ◌+◌, ◌-◌, ◌%◌, ◌≤◌, ◌<◌, some, ◌≡◌, refl, arith, ==-cases, ltb-cases, inl, inr,
}
use cpp_playground.Fibonacci.{limit_loop, fibonacci_limit}

-- The Fibonacci sequence: 0, 1, 1, 2, 3, 5, …
unfoldable pub fib : ℕ → ℕ
fib zero = 0
fib (suc zero) = 1
fib (suc (suc n)) = fib (suc n) + fib n

pub fib_step : (n : ℕ) → fib (suc (suc n)) ≡ fib (suc n) + fib n
unfolding fib
fib_step n = refl

pub fib-pos : (n : ℕ) → 0 < fib (suc n)
unfolding fib
fib-pos zero = omega arith
fib-pos (suc n) = omega (arith, fib-pos n)

pub fib-le-suc : (n : ℕ) → fib n ≤ fib (suc n)
unfolding fib
fib-le-suc zero = omega arith
fib-le-suc (suc n) = omega arith

pub fib_mono : (k n : ℕ) → k ≤ n → fib k ≤ fib n
fib_mono k zero h = let e : k ≡ 0 = omega arith in rw e (omega arith)
fib_mono k (suc n) h = elim (==-cases k (suc n)) [
  | inl (e, _) ↦ rw e (omega arith)
  | inr (ne, _) ↦ omega (arith, fib_mono k n (omega arith), fib-le-suc n)
]

-- From index 3 on, a Fibonacci number exceeds all before it.
pub fib_strict : (k n : ℕ) → k < n → 3 ≤ n → fib k < fib n
unfolding fib
fib_strict k (suc (suc (suc n))) h le =
    omega (arith, fib_mono k (suc (suc n)) (omega arith), fib-pos n)
fib_strict k zero h le = absurd (omega arith)
fib_strict k (suc zero) h le = absurd (omega arith)
fib_strict k (suc (suc zero)) h le = absurd (omega arith)

pub le-fib : (n : ℕ) → n ≤ fib n + 1
unfolding fib
le-fib zero = omega arith
le-fib (suc zero) = omega arith
le-fib (suc (suc zero)) = omega arith
le-fib (suc (suc (suc n))) = omega (arith, le-fib (suc (suc n)), fib-pos n)

-- The greatest Fibonacci number up to `max`, with its index.
pub record IsLimit (max k : ℕ) : Type 0 where
  pub fits : fib k ≤ max
  pub last : max < fib (suc k)

limit_loop_lem :
    (fuel max k : ℕ)
    → fib (suc k) ≤ max
    → max + max < fuel + (fib k + fib (suc k))
    → (n : ℕ) × (limit_loop fuel max (fib k) (fib (suc k)) ≡ some (fib n)) × IsLimit max n
unfolding limit_loop fib
limit_loop_lem zero max k fits enough = absurd (omega (arith, fib-le-suc k))
limit_loop_lem (suc fuel) max k fits enough = elim (ltb-cases (max - fib (suc k)) (fib k)) [
  | inl (lt, t) ↦ (suc k, rw t, record { fits = fits; last = omega arith })
  | inr (ge, t) ↦
      let (n, e, l) = limit_loop_lem fuel max (suc k) (omega arith) (omega (arith, fib-pos k)) in
      let sum : (fib (suc k) + fib k) % suc max ≡ fib (suc k) + fib k =
        mod-eq_of_lt (omega arith) in
      (n, rw (t, sum) e, l)
]

-- For a type with a positive greatest value, `fibonacci_limit` returns, and what it returns is the
-- greatest Fibonacci number of the type.
pub fibonacci_limit_lem :
    (max : ℕ) → 0 < max → (n : ℕ) × (fibonacci_limit max ≡ some (fib n)) × IsLimit max n
unfolding fibonacci_limit fib
fibonacci_limit_lem max pos = limit_loop_lem (max + max + 2) max 0 (omega arith) (omega arith)
