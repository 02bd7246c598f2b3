-- ===== src/Storage/Lifetime.antt =====
-- The operations on slots. `none` as a result is a fault: no such slot, a construction over an
-- object that is alive, a destruction or a read where none is alive.
use cpp_playground.Prelude.{ℕ, zero, suc, Option, none, some, List, [], ◌∷◌}
use mathlib.Core.Option

abbrev pub Slots {ℓ} : Type ℓ → Type ℓ
Slots T = List (Option T)

module _ {ℓ} {T : Type ℓ} where
  -- `new (data + i) T(x)`
  unfoldable pub construct_at : Slots T → ℕ → T → Option (Slots T)
  construct_at [] i x = none
  construct_at (none ∷ s) zero x = some (some x ∷ s)
  construct_at (some y ∷ s) zero x = none
  construct_at (y ∷ s) (suc i) x = Option.map (◌∷◌ y) (construct_at s i x)

  -- `std::destroy_at(data + i)`
  unfoldable pub destroy_at : Slots T → ℕ → Option (Slots T)
  destroy_at [] i = none
  destroy_at (none ∷ s) zero = none
  destroy_at (some y ∷ s) zero = some (none ∷ s)
  destroy_at (y ∷ s) (suc i) = Option.map (◌∷◌ y) (destroy_at s i)

  -- `data[i]`, read
  unfoldable pub read_at : Slots T → ℕ → Option T
  read_at [] i = none
  read_at (y ∷ s) zero = y
  read_at (y ∷ s) (suc i) = read_at s i

  -- `std::destroy(data + i, data + i + n)`: front to back
  unfoldable pub destroy : ℕ → ℕ → Slots T → Option (Slots T)
  unfolding destroy_at
  destroy zero i s = some s
  destroy (suc n) i s = elim (destroy_at s i) [ none ↦ none | some s' ↦ destroy n (suc i) s' ]
