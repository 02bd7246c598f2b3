-- ===== src/Optional/Tests.antt =====
-- The theorems of the optional values at concrete inputs.
use cpp_playground.Prelude.{
  refl, none, some, true, ℕ, if◌then◌else◌, ◌≡◌, returned, ◌==◌, Option, ◌+◌,
}
use cpp_playground.Optional.{Optional, copy_assign, move_assign, write}
use cpp_playground.Optional.Assignment.{
  of_option, optional_copy_assign_lem, optional_move_assign_lem,
}

abbrev objects : ℕ → Optional ℕ
objects p = if p == 0 then of_option (some 4) else of_option (some 5)

optional_copy_assign_lem_example :
    copy_assign true 0 1 objects ≡ returned tt (write objects 0 (of_option (some 5)))
optional_copy_assign_lem_example =
    optional_copy_assign_lem true 0 1 objects (some 4) (some 5) refl refl

abbrev emptied : ℕ → ℕ
emptied x = 0

-- A `T` with a constructor from the union that doubles the number there, and empties it.
abbrev doubled : Option ℕ → ℕ × Option ℕ
doubled none = (0, none)
doubled (some x) = (x + x, some 0)

abbrev half_empty : ℕ → Optional ℕ
half_empty p = if p == 0 then of_option none else of_option (some 5)

optional_move_assign_lem_example :
    move_assign emptied doubled 0 1 half_empty
    ≡ returned tt (write (write half_empty 0 (of_option (some 10))) 1 (of_option (some 0)))
optional_move_assign_lem_example =
    optional_move_assign_lem emptied doubled 0 1 half_empty none (some 5) refl refl
