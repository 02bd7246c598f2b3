-- ===== src/Prelude/Tests.antt =====
-- Boolean tests on the native numbers, and the conditional.
use Prim.Native.Nat.{ℕ, ◌≤◌, ◌<◌, compare, Ordering}
use mathlib.Core.Path.{◌≡◌, refl}
use mathlib.Core.Logic.{◌⊎◌, inl, inr, ◌≢◌}
use mathlib.Core.Bool.{Bool, true, false, ◌&&◌}
use mathlib.Core.Option.{Option, none, some}
use native.Mathlib.Omega.{arith}

abbrev pub ltb : ℕ → ℕ → Bool
ltb a b = elim (compare a b) [ Ordering.lt ↦ true | _ ↦ false ]

abbrev pub leb : ℕ → ℕ → Bool
leb a b = elim (compare a b) [ Ordering.gt ↦ false | _ ↦ true ]

infix 50 ◌==◌
abbrev pub ◌==◌ : ℕ → ℕ → Bool
a == b = elim (compare a b) [ Ordering.eq ↦ true | _ ↦ false ]

infix 1 if◌then◌else◌
abbrev pub if◌then◌else◌ {ℓ} : {A : Type ℓ} → Bool → A → A → A
if true then x else y = x
if false then x else y = y

pub lt→ltb : (a b : ℕ) → a < b → ltb a b ≡ true
lt→ltb a b h = ground arith

pub not_lt→ltb : (a b : ℕ) → b ≤ a → ltb a b ≡ false
not_lt→ltb a b h = ground arith

pub le→leb : (a b : ℕ) → a ≤ b → leb a b ≡ true
le→leb a b h = ground arith

pub not_le→leb : (a b : ℕ) → b < a → leb a b ≡ false
not_le→leb a b h = ground arith

pub eq→== : (a b : ℕ) → a ≡ b → (a == b) ≡ true
eq→== a b h = ground arith

pub ne→== : (a b : ℕ) → a ≢ b → (a == b) ≡ false
ne→== a b h = ground arith

-- To split on a computed value and keep the equation.
pub Bool-cases : (b : Bool) → (b ≡ true) ⊎ (b ≡ false)
Bool-cases true = inl refl
Bool-cases false = inr refl

pub Option-cases {ℓ} : {A : Type ℓ} (o : Option A) → (o ≡ none) ⊎ ((a : A) × (o ≡ some a))
Option-cases none = inl refl
Option-cases (some a) = inr (a, refl)

-- The same for a test of two numbers, with what it says of them.
pub ==-cases : (a b : ℕ) → ((a ≡ b) × ((a == b) ≡ true)) ⊎ ((a ≢ b) × ((a == b) ≡ false))
==-cases a b = elim (Bool-cases (a == b)) [
  | inl e ↦ inl (ground arith, e)
  | inr e ↦ inr (ground arith, e)
]

pub ltb-cases : (a b : ℕ) → ((a < b) × (ltb a b ≡ true)) ⊎ ((b ≤ a) × (ltb a b ≡ false))
ltb-cases a b = elim (Bool-cases (ltb a b)) [
  | inl e ↦ inl (ground arith, e)
  | inr e ↦ inr (ground arith, e)
]

pub leb-cases : (a b : ℕ) → ((a ≤ b) × (leb a b ≡ true)) ⊎ ((b < a) × (leb a b ≡ false))
leb-cases a b = elim (Bool-cases (leb a b)) [
  | inl e ↦ inl (ground arith, e)
  | inr e ↦ inr (ground arith, e)
]

pub &&-false : (b : Bool) → (b && false) ≡ false
&&-false true = refl
&&-false false = refl
