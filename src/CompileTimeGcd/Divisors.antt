-- ===== src/CompileTimeGcd/Divisors.antt =====
-- The result is a greatest common divisor.
use cpp_playground.Prelude.{ℕ, zero, suc, ◌%◌, ◌<◌, ◌≡◌, ◌↔◌, lt_wf, some, ◌^◌, ◌-◌, lt→ltb, refl}
use Prim.Native.Nat.{◌∣◌}
use mathlib.Core.WellFounded.{Acc}
use native.Mathlib.Nat.{dvd-zero, dvd-mod_iff}
use cpp_playground.CompileTimeGcd.{
  pos, negsuc, mod-lt-suc, gcd_acc, compile_time_gcd, compile_time_gcd_signed, handle_gcd_signs, ℤ,
}

-- The common divisors of `a` and `b` are the divisors of the result.
gcd_acc-divisors : (d a b : ℕ) (w : Acc ◌<◌ b) → (d ∣ gcd_acc a b w) ↔ ((d ∣ a) × (d ∣ b))
unfolding gcd_acc
gcd_acc-divisors d a zero w = (λ h. (h, dvd-zero d), λ h. h.0)
gcd_acc-divisors d a (suc b) (Acc.intro _ smaller) =
    let step = gcd_acc-divisors d (suc b) (a % suc b) (smaller (a % suc b) (mod-lt-suc a b)) in
    (
      λ h. let p = step.0 h in ((dvd-mod_iff d p.0).0 p.1, p.0),
      λ h. step.1 (h.1, (dvd-mod_iff d h.1).1 h.0),
    )

-- The common divisors of the arguments are exactly the divisors of the result.
pub compile_time_gcd-divisors : (d a b : ℕ) → (d ∣ compile_time_gcd a b) ↔ ((d ∣ a) × (d ∣ b))
unfolding compile_time_gcd
compile_time_gcd-divisors d a b = gcd_acc-divisors d a b (lt_wf.apply b)

abbrev pub magnitude : ℤ → ℕ
magnitude (pos n) = n
magnitude (negsuc n) = suc n

-- An `int64_t` whose negation is one too: all but the least.
abbrev pub IsNegatable : ℤ → Type 0
IsNegatable (pos n) = n < 2 ^ 63
IsNegatable (negsuc n) = n < 2 ^ 63 - 1

handle_gcd_signs-magnitude :
    (a b : ℤ)
    → IsNegatable a
    → IsNegatable b
    → handle_gcd_signs a b ≡ some (compile_time_gcd (magnitude a) (magnitude b))
unfolding handle_gcd_signs
handle_gcd_signs-magnitude (pos a) (pos b) p q = refl
handle_gcd_signs-magnitude (pos a) (negsuc b) p q = rw (lt→ltb b (2 ^ 63 - 1) q)
handle_gcd_signs-magnitude (negsuc a) (pos b) p q = rw (lt→ltb a (2 ^ 63 - 1) p)
handle_gcd_signs-magnitude (negsuc a) (negsuc b) p q =
    rw (lt→ltb a (2 ^ 63 - 1) p, handle_gcd_signs, lt→ltb b (2 ^ 63 - 1) q)

-- Whatever the signs, if neither argument is the least `int64_t`, there is a result, and its
-- divisors are the common divisors of the magnitudes.
pub compile_time_gcd_signed-divisors :
    (a b : ℤ)
    → IsNegatable a
    → IsNegatable b
    → (g : ℕ) × (compile_time_gcd_signed a b ≡ some g)
      × ((d : ℕ) → (d ∣ g) ↔ ((d ∣ magnitude a) × (d ∣ magnitude b)))
unfolding compile_time_gcd_signed
compile_time_gcd_signed-divisors a b p q = (
  compile_time_gcd (magnitude a) (magnitude b),
  handle_gcd_signs-magnitude a b p q,
  λ d. compile_time_gcd-divisors d (magnitude a) (magnitude b),
)
