-- ===== src/Fibonacci/Tests.antt =====
-- The Fibonacci code at the types of 8 and of 64 bits.
use cpp_playground.Prelude.{ℕ, [], ◌∷◌, ◌≡◌, refl, arith, some, ◌^◌, ◌-◌, suc}
use cpp_playground.Fibonacci.{
  overflowing, fibonacci_limit, fibonacci_numbers, fibonacci_numbers_signed,
}
use cpp_playground.Fibonacci.Signed.{fibonacci_numbers_signed_lem}
use cpp_playground.Fibonacci.Limit.{IsLimit}
use cpp_playground.Fibonacci.Numbers.{fibs, fibonacci_numbers_lem}

limit_of_uint8 : fibonacci_limit 255 ≡ some 233
unfolding fibonacci_limit
limit_of_uint8 = refl

limit_of_uint64 : fibonacci_limit (2 ^ 64 - 1) ≡ some 12200160415121876738
unfolding fibonacci_limit
limit_of_uint64 = refl

numbers_up_to_ten : fibonacci_numbers 10 ≡ some (0 ∷ 1 ∷ 1 ∷ 2 ∷ 3 ∷ 5 ∷ 8 ∷ [])
unfolding fibonacci_numbers
numbers_up_to_ten = refl

fibonacci_numbers_lem_example :
    (n : ℕ) × (fibonacci_numbers 255 ≡ some (fibs 0 (suc n))) × IsLimit 255 n
fibonacci_numbers_lem_example = fibonacci_numbers_lem 255 (omega arith)

signed_up_to_ten : fibonacci_numbers_signed 10 ≡ some (0 ∷ 1 ∷ 1 ∷ 2 ∷ 3 ∷ 5 ∷ [], overflowing)
unfolding fibonacci_numbers_signed
signed_up_to_ten = refl

fibonacci_numbers_signed_lem_example :
    (n : ℕ) × (fibonacci_numbers_signed (2 ^ 63 - 1) ≡ some (fibs 0 n, overflowing))
    × IsLimit (2 ^ 63 - 1) n
fibonacci_numbers_signed_lem_example = fibonacci_numbers_signed_lem (2 ^ 63 - 1) (omega arith)
