-- ===== src/Prelude/Places.antt =====
-- Objects at addresses: an address is an index of a list, and a place where nothing is alive holds
-- `none`.
use Prim.Native.Nat.{ℕ, zero, suc, ◌+◌, ◌<◌}
use mathlib.Core.Path.{◌≡◌, refl, ap, subst, sym}
use mathlib.Core.Logic.{◌⊎◌, inl, inr, ◌≢◌}
use mathlib.Core.Option.{Option, none, some}
use mathlib.Core.List.{List, [], ◌∷◌, ◌++◌}
use native.Mathlib.Omega.{arith}
use cpp_playground.Prelude.Lists.{length, get_or, set, get_or-set_self, get_or-set_ne}
use cpp_playground.Prelude.Tests.{==-cases}

-- What is alive at an address.
abbrev pub object_at {ℓ} : {A : Type ℓ} → List (Option A) → ℕ → Option A
object_at xs i = get_or xs i none

-- The sum of what a list weighs.
abbrev pub total {ℓ} : {A : Type ℓ} → (A → ℕ) → List A → ℕ
total f [] = 0
total f (x ∷ xs) = f x + total f xs

module _ {ℓ} {A : Type ℓ} where
  pub object_at-inside :
      (xs : List (Option A)) (i : ℕ) (a : A) → object_at xs i ≡ some a → i < length xs
  object_at-inside [] i a e = absurd (ground arith)
  object_at-inside (x ∷ xs) zero a e = omega arith
  object_at-inside (x ∷ xs) (suc i) a e = omega (arith, object_at-inside xs i a e)

  pub total-set :
      (f : Option A → ℕ) (xs : List (Option A)) (i : ℕ) (a : A) (v : Option A)
      → object_at xs i ≡ some a
      → f (some a) + total f (set xs i v) ≡ total f xs + f v
  total-set f [] i a v e = absurd (ground arith)
  total-set f (x ∷ xs) zero a v e = rw e (omega arith)
  total-set f (x ∷ xs) (suc i) a v e = omega (arith, total-set f xs i a v e)

  pub object_at-set_self :
      (xs : List (Option A)) (i : ℕ) (a : A) (v : Option A)
      → object_at xs i ≡ some a
      → object_at (set xs i v) i ≡ v
  object_at-set_self xs i a v e = get_or-set_self xs i v none (object_at-inside xs i a e)

  pub object_at-set :
      (xs : List (Option A)) (i : ℕ) (a : A) (v : Option A) (j : ℕ)
      → object_at xs i ≡ some a
      → ((i ≡ j) × (object_at (set xs i v) j ≡ v) × (object_at xs j ≡ some a))
        ⊎ ((i ≢ j) × (object_at (set xs i v) j ≡ object_at xs j))
  object_at-set xs i a v j e = elim (==-cases i j) [
    | inl (q, _) ↦ inl (
      q,
      subst (λ k. object_at (set xs i v) k ≡ v) q (object_at-set_self xs i a v e),
      rw (sym q) e,
    )
    | inr (n, _) ↦ inr (n, get_or-set_ne xs i j v none n)
  ]

  pub total-snoc : (f : A → ℕ) (xs : List A) (x : A) → total f (xs ++ x ∷ []) ≡ total f xs + f x
  total-snoc f [] x = omega arith
  total-snoc f (y ∷ ys) x = omega (arith, total-snoc f ys x)

  pub object_at-snoc :
      (xs : List (Option A)) (x : Option A) (i : ℕ)
      → ((i ≡ length xs) × (object_at (xs ++ x ∷ []) i ≡ x) × (object_at xs i ≡ none))
        ⊎ ((length xs ≢ i) × (object_at (xs ++ x ∷ []) i ≡ object_at xs i))
  object_at-snoc [] x zero = inl (refl, refl, refl)
  object_at-snoc [] x (suc i) = inr ((λ e. absurd (omega arith)), refl)
  object_at-snoc (y ∷ ys) x zero = inr ((λ e. absurd (omega arith)), refl)
  object_at-snoc (y ∷ ys) x (suc i) = elim (object_at-snoc ys x i) [
    | inl (e, v, n) ↦ inl (ap suc e, v, n)
    | inr (n, v) ↦ inr ((λ e. n (omega arith)), v)
  ]

-- Nothing is alive in the places of a list.
pub none_alive {ℓ} :
    {A : Type ℓ} (f : Option A → ℕ) (xs : List (Option A))
    → f none ≡ 0
    → ((i : ℕ) → object_at xs i ≡ none)
    → total f xs ≡ 0
none_alive f [] z dead = refl
none_alive f (x ∷ xs) z dead =
    omega (arith, ap f (dead 0), none_alive f xs z (λ i. dead (suc i)), z)

-- Nothing that weighs something stands in the places of a list.
pub total_zero {ℓ} :
    {A : Type ℓ} (f : Option A → ℕ) (xs : List (Option A))
    → ((i : ℕ) → f (object_at xs i) ≡ 0)
    → total f xs ≡ 0
total_zero f [] light = refl
total_zero f (x ∷ xs) light = omega (arith, light 0, total_zero f xs (λ i. light (suc i)))
