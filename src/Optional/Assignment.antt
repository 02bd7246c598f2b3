-- ===== src/Optional/Assignment.antt =====
-- Construction and assignment of optional values, against `Option`.
use cpp_playground.Prelude.{
  refl, Bool, Option, false, ℕ, ◌≡◌, returned, some, if◌then◌else◌, true, none, ◌==◌, ==-cases,
  threw, bad_optional_access, inl, inr, ap₂, ◌∙◌,
}
use cpp_playground.Optional.{
  Optional, Pair, construct_empty, construct_from, copy_construct, destruct, value, copy_value,
  copy_assign, move_value, write, reset, fill, assign_value, construct_value, destroy_value,
  set_flag, read_value, has_value, move_assign,
}

module _ {ℓ} {T : Type ℓ} where
  -- The object that stands for an optional value.
  abbrev pub of_option : Option T → Optional T
  of_option none = record { m_storage = none; m_has_value = false }
  of_option (some x) = record { m_storage = some x; m_has_value = true }

  -- What a copy assignment leaves.
  abbrev pub copied : (nothrow : Bool) (a b : Option T) → Option T
  copied false (some x) (some y) = some x
  copied nothrow a b = b

  copy_value_lem :
      (nothrow : Bool) (a b : Option T)
      → copy_value nothrow (of_option b) (of_option a)
        ≡ returned tt (of_option (copied nothrow a b))
  unfolding copy_value reset fill assign_value construct_value destroy_value set_flag read_value
  copy_value_lem true none none = refl
  copy_value_lem true none (some y) = refl
  copy_value_lem true (some x) none = refl
  copy_value_lem true (some x) (some y) = refl
  copy_value_lem false none none = refl
  copy_value_lem false none (some y) = refl
  copy_value_lem false (some x) none = refl
  copy_value_lem false (some x) (some y) = refl

  -- Copy assignment gives `this` the value of `other`, or none, and leaves all other objects alone,
  -- but for a type whose copy assignment may throw, if both have a value, `this` keeps its own. At
  -- one address it changes nothing.
  pub optional_copy_assign_lem :
      (nothrow : Bool) (this other : ℕ) (objects : ℕ → Optional T) (a b : Option T)
      → objects this ≡ of_option a
      → objects other ≡ of_option b
      → copy_assign nothrow this other objects
        ≡ returned tt
            (if this == other then objects else write objects this (of_option (copied nothrow a b)))
  unfolding copy_assign
  optional_copy_assign_lem nothrow this other objects a b ha hb =
      let e : copy_value nothrow (objects other) (objects this)
          ≡ returned tt (of_option (copied nothrow a b)) =
        ap₂ (λ u w. copy_value nothrow w u) ha hb ∙ copy_value_lem nothrow a b in
      elim (==-cases this other) [ inl (q, t) ↦ rw t | inr (ne, t) ↦ rw (t, e) ]

  -- What an object does in its life: construction, copy, access and destruction, with a value and
  -- without. Destruction ends the life of the value, if there is one.
  pub optional_life :
      (o : Option T)
      → (copy_construct (of_option o) ≡ returned tt (of_option o))
        × (value (of_option o) ≡ elim o [
          | none ↦ threw bad_optional_access (of_option none)
          | some x ↦ returned x (of_option (some x))
        ])
        × ((d : Optional T) × (destruct (of_option o) ≡ returned tt d) × (d.m_storage ≡ none))
  unfolding copy_construct value destruct construct_from construct_empty construct_value
      destroy_value set_flag read_value has_value
  optional_life none = (refl, refl, (of_option none, refl, refl))
  optional_life (some x) =
      (refl, refl, (record { m_storage = none; m_has_value = true }, refl, refl))

module _ {ℓ} {T : Type ℓ} (moved : T → T) (from_storage : Option T → T × Option T) where
  -- What a move assignment leaves.
  abbrev pub moved_to : (a b : Option T) → Pair T
  moved_to (some x) (some y) = record {
    this = of_option (some y);
    other = of_option (some (moved y));
  }
  moved_to none (some y) = record {
    this = of_option (some (from_storage (some y)).0);
    other = record { m_storage = (from_storage (some y)).1; m_has_value = true };
  }
  moved_to a none = record { this = of_option none; other = of_option none }

  optional_move_lem :
      (a b : Option T)
      → move_value moved from_storage (record { this = of_option a; other = of_option b })
        ≡ returned tt (moved_to a b)
  unfolding move_value reset fill assign_value construct_value destroy_value set_flag read_value
  optional_move_lem none none = refl
  optional_move_lem none (some y) = refl
  optional_move_lem (some x) none = refl
  optional_move_lem (some x) (some y) = refl

  -- For a `T` that has a constructor from the union, move assignment at one address changes nothing.
  -- To another object: it takes the value if both have one, and leaves in the other what the move
  -- leaves of its value; it drops its own value if the other has none; where only the other has one,
  -- the new value is what the constructor makes of the other's union, in which is left what the
  -- constructor leaves there, and the other keeps its flag. No other object changes.
  pub optional_move_assign_lem :
      (this other : ℕ) (objects : ℕ → Optional T) (a b : Option T)
      → objects this ≡ of_option a
      → objects other ≡ of_option b
      → move_assign moved from_storage this other objects ≡ (
          if this == other
          then returned tt objects
          else returned tt
              (write (write objects this (moved_to a b).this) other (moved_to a b).other))
  unfolding move_assign
  optional_move_assign_lem this other objects a b ha hb =
      let e : move_value moved from_storage (record { this = objects this; other = objects other })
          ≡ returned tt (moved_to a b) =
        ap₂ (λ u w. move_value moved from_storage (record { this = u; other = w })) ha hb
        ∙ optional_move_lem a b in
      elim (==-cases this other) [ inl (q, t) ↦ rw t refl | inr (ne, t) ↦ rw (t, e) refl ]
