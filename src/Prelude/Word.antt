-- ===== src/Prelude/Word.antt =====
-- `std::size_t` and `uint64_t`: 64-bit numbers whose arithmetic wraps.
use Prim.Native.Nat.{ℕ, ◌+◌, ◌-◌, ◌*◌, ◌%◌, ◌^◌}

abbrev pub word_mod : ℕ
word_mod = 2 ^ 64

abbrev pub add64 : ℕ → ℕ → ℕ
add64 a b = (a + b) % word_mod

-- `-` on ℕ stops at 0, so the modulus is added first.
abbrev pub sub64 : ℕ → ℕ → ℕ
sub64 a b = (a + word_mod - b) % word_mod

abbrev pub mul64 : ℕ → ℕ → ℕ
mul64 a b = a * b % word_mod
