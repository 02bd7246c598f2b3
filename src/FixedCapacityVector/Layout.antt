-- ===== src/FixedCapacityVector/Layout.antt =====
-- The vectors that the member functions can leave: as many live elements as `m_size` says, at the
-- front of the storage, and no object behind them.
use cpp_playground.Prelude.{ℕ, ◌≤◌, ◌<◌, List, [], length, ◌≡◌, refl, ap, sym, word_mod}
use cpp_playground.Storage.{filled, filled-nil}
use cpp_playground.FixedCapacityVector.{FixedCapacityVector, construct}

module _ {ℓ} {T : Type ℓ} (capacity_value : ℕ) where
  -- The vector of the elements of a list.
  abbrev pub of_list : List T → FixedCapacityVector T
  of_list xs = record { m_size = length xs; m_buffer = filled capacity_value xs }

  -- The invariant of the class: the object stands for a list that fits the capacity, and the
  -- capacity is a `std::size_t`.
  pub record IsValid (v : FixedCapacityVector T) : Type ℓ where
    pub contents : List T
    pub fits : length contents ≤ capacity_value
    pub stored : v ≡ of_list contents
    pub word : capacity_value < word_mod

  pub of_list-IsValid :
      (xs : List T) → length xs ≤ capacity_value → capacity_value < word_mod → IsValid (of_list xs)
  of_list-IsValid xs h w = record { contents = xs; fits = h; stored = refl; word = w }

  pub construct-of_list : construct capacity_value ≡ of_list []
  unfolding construct
  construct-of_list =
      ap (λ b. record { m_size = 0; m_buffer = b }) (sym (filled-nil capacity_value))
