-- ===== src/Storage/Segments.antt =====
-- Slots as runs of dead and live objects, and what the operations do at the edge of a run.
use cpp_playground.Prelude.{
  ℕ, zero, suc, ◌-◌, ◌≤◌, ◌<◌, Option, none, some, List, [], ◌∷◌, ◌++◌, map, length, replicate,
  get_elem?, ◌≡◌, refl, ap, ◌∙◌, arith, append_assoc, map-append, length-snoc, length-map,
  replicate-append, snoc_shift,
}
use cpp_playground.Storage.Lifetime.{Slots, construct_at, destroy_at, read_at, destroy}

module _ {ℓ} {T : Type ℓ} where
  abbrev pub alive : List T → Slots T
  alive = map some

  -- `cap` slots: the objects of the list, then slots with none.
  abbrev pub filled : ℕ → List T → Slots T
  filled cap xs = alive xs ++ replicate (cap - length xs) none

  pub construct_at-append :
      (p s : Slots T) (x : T) → construct_at (p ++ none ∷ s) (length p) x ≡ some (p ++ some x ∷ s)
  unfolding construct_at
  construct_at-append [] s x = refl
  construct_at-append (none ∷ p) s x = rw (construct_at-append p s x)
  construct_at-append (some y ∷ p) s x = rw (construct_at-append p s x)

  pub destroy_at-append :
      (p s : Slots T) (x : T) → destroy_at (p ++ some x ∷ s) (length p) ≡ some (p ++ none ∷ s)
  unfolding destroy_at
  destroy_at-append [] s x = refl
  destroy_at-append (none ∷ p) s x = rw (destroy_at-append p s x)
  destroy_at-append (some y ∷ p) s x = rw (destroy_at-append p s x)

  pub read_at-append : (p s : Slots T) (x : T) → read_at (p ++ some x ∷ s) (length p) ≡ some x
  unfolding read_at
  read_at-append [] s x = refl
  read_at-append (y ∷ p) s x = read_at-append p s x

  -- An index below the number of live objects reads the object there, any other faults.
  pub read_at-filled :
      (xs : List T) (n i : ℕ) → read_at (alive xs ++ replicate n none) i ≡ get_elem? xs i
  unfolding read_at
  read_at-filled [] zero i = refl
  read_at-filled [] (suc n) zero = refl
  read_at-filled [] (suc n) (suc i) = read_at-filled [] n i
  read_at-filled (x ∷ xs) n zero = refl
  read_at-filled (x ∷ xs) n (suc i) = read_at-filled xs n i

  pub filled-snoc :
      (cap : ℕ) (xs : List T) (x : T)
      → length xs < cap
      → filled cap (xs ++ x ∷ []) ≡ alive xs ++ some x ∷ replicate (cap - suc (length xs)) none
  filled-snoc cap xs x h = rw (length-snoc xs x, map-append some xs (x ∷ []), append_assoc)

  pub filled_room :
      (cap : ℕ) (xs : List T)
      → length xs < cap
      → filled cap xs ≡ alive xs ++ none ∷ replicate (cap - suc (length xs)) none
  filled_room cap xs h = let e : cap - length xs ≡ suc (cap - suc (length xs)) = omega arith in rw e

  -- Construction in the first free slot.
  pub construct_at-filled :
      (cap : ℕ) (xs : List T) (x : T)
      → length xs < cap
      → construct_at (filled cap xs) (length xs) x ≡ some (filled cap (xs ++ x ∷ []))
  construct_at-filled cap xs x h =
      rw (filled_room cap xs h, filled-snoc cap xs x h, ← length-map some xs, construct_at-append)

  -- Destruction of the last live object.
  pub destroy_at-filled :
      (cap : ℕ) (xs : List T) (x : T)
      → length xs < cap
      → destroy_at (filled cap (xs ++ x ∷ [])) (length xs) ≡ some (filled cap xs)
  destroy_at-filled cap xs x h =
      rw (filled_room cap xs h, filled-snoc cap xs x h, ← length-map some xs, destroy_at-append)

  -- Front to back destruction of a run of live objects.
  pub destroy-append :
      (p : Slots T) (ys : List T) (s : Slots T)
      → destroy (length ys) (length p) (p ++ (alive ys ++ s))
        ≡ some (p ++ (replicate (length ys) none ++ s))
  unfolding destroy
  destroy-append p [] s = refl
  destroy-append p (y ∷ ys) s =
      rw
        (
          destroy_at-append p (alive ys ++ s) y,
          destroy,
          ← length-snoc p none,
          snoc_shift p none (alive ys ++ s),
          snoc_shift p none (replicate (length ys) none ++ s),
        )
        (destroy-append (p ++ none ∷ []) ys s)

  pub filled-nil : (cap : ℕ) → filled cap [] ≡ replicate cap none
  filled-nil cap = ap (λ n. replicate n none) (omega arith)

  -- The slots of objects that are gone, and those that never had one.
  pub dead-append :
      (cap n : ℕ)
      → n ≤ cap
      → replicate {A = Option T} n none ++ replicate (cap - n) none ≡ filled cap []
  dead-append cap n h = replicate-append n (cap - n) none ∙ ap (λ k. replicate k none) (omega arith)

  -- Destruction of all live objects leaves storage without any.
  pub destroy-filled :
      (cap : ℕ) (xs : List T)
      → length xs ≤ cap
      → destroy (length xs) 0 (filled cap xs) ≡ some (filled cap [])
  destroy-filled cap xs h =
      destroy-append [] xs (replicate (cap - length xs) none)
      ∙ ap some (dead-append cap (length xs) h)
