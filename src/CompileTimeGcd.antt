-- ===== src/CompileTimeGcd.antt =====
-- include/cpp_playground/compile_time_gcd.hpp: the greatest common divisor by template recursion.
-- Template arguments are `uint64_t`, or `int64_t` in `compile_time_gcd_signed`.
pub mod Divisors
mod Tests
use cpp_playground.Prelude.{
  ℕ, zero, suc, ◌+◌, ◌%◌, ◌<◌, arith, Option, lt_wf, if◌then◌else◌, ltb, ◌^◌, ◌-◌, some, none,
}
use mathlib.Core.Option
use mathlib.Core.WellFounded.{Acc}

-- A template argument of type `int64_t`: `negsuc n` is -(n + 1).
pub data ℤ : Type 0 where
  pos : ℕ → ℤ
  negsuc : ℕ → ℤ

pub mod-lt-suc : (a b : ℕ) → a % suc b < suc b
mod-lt-suc a b = omega arith

-- The instantiations of the variable template: the specialisation for 0, and the general one.
pub gcd_acc : (a b : ℕ) → Acc ◌<◌ b → ℕ
gcd_acc a zero w = a
gcd_acc a (suc b) (Acc.intro _ smaller) =
    gcd_acc (suc b) (a % suc b) (smaller (a % suc b) (mod-lt-suc a b))

unfoldable pub compile_time_gcd : ℕ → ℕ → ℕ
unfolding gcd_acc lt_wf
compile_time_gcd a b = gcd_acc a b (lt_wf.apply b)

-- `-a` for a negative `a`, cast to `uint64_t`. The negation of the least `int64_t` overflows, which
-- is an error at compile time.
pub negated : ℕ → Option ℕ
negated n = if ltb n (2 ^ 63 - 1) then some (suc n) else none

-- The result, or none where a negation overflows. The branches that `if constexpr` keeps behind a
-- `return` are instantiated too, and change nothing.
pub handle_gcd_signs : ℤ → ℤ → Option ℕ
unfolding negated compile_time_gcd
handle_gcd_signs (negsuc a) (negsuc b) = elim (negated a) [
  | none ↦ none
  | some a' ↦ Option.map (compile_time_gcd a') (negated b)
]
handle_gcd_signs (negsuc a) (pos b) = Option.map (λ a'. compile_time_gcd a' b) (negated a)
handle_gcd_signs (pos a) (negsuc b) = Option.map (compile_time_gcd a) (negated b)
handle_gcd_signs (pos a) (pos b) = some (compile_time_gcd a b)

unfoldable pub compile_time_gcd_signed : ℤ → ℤ → Option ℕ
unfolding handle_gcd_signs
compile_time_gcd_signed a b = handle_gcd_signs a b
