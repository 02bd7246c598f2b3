-- ===== src/CompileTimeGcd/Tests.antt =====
-- The values that tests/test_compile_time_gcd.cpp asks for, and the theorems at concrete inputs.
use cpp_playground.Prelude.{ℕ, ◌≡◌, refl, arith, some, none, ◌^◌, ◌-◌, ◌↔◌}
use Prim.Native.Nat.{◌∣◌}
use cpp_playground.CompileTimeGcd.{pos, negsuc, compile_time_gcd, compile_time_gcd_signed}
use cpp_playground.CompileTimeGcd.Divisors.{compile_time_gcd_signed-divisors}

small_values :
    (compile_time_gcd 48 18 ≡ 6) × (compile_time_gcd 0 7 ≡ 7) × (compile_time_gcd 0 0 ≡ 0)
unfolding compile_time_gcd
small_values = (refl, refl, refl)

-- Both signs at once, and the least `int64_t`, which does not compile.
signs :
    (compile_time_gcd_signed (negsuc 47) (negsuc 17) ≡ some 6)
    × (compile_time_gcd_signed (negsuc (2 ^ 63 - 1)) (pos 2) ≡ none)
unfolding compile_time_gcd_signed
signs = (refl, refl)

compile_time_gcd_signed-divisors_example :
    (g : ℕ) × (compile_time_gcd_signed (negsuc 47) (pos 18) ≡ some g)
    × ((d : ℕ) → (d ∣ g) ↔ ((d ∣ 48) × (d ∣ 18)))
compile_time_gcd_signed-divisors_example =
    compile_time_gcd_signed-divisors (negsuc 47) (pos 18) (omega arith) (omega arith)
