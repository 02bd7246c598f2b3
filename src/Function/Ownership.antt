-- ===== src/Function/Ownership.antt =====
-- include/cpp_playground/functional/function.hpp: each callable that is alive has one owner.
use cpp_playground.Prelude.{
  [], ◌∷◌, refl, zero, suc, none, some, inl, inr, ℕ, List, Option, if◌then◌else◌, object_at, total,
  ◌≡◌, ◌≢◌, ==-cases, Option-cases, eq→==, ne→==, set, ◌++◌, ◌+◌, ◌<◌, ◌==◌, arith, get_or-set_ne,
  length, ap, ◌∙◌, none_alive, total-set,
}
use cpp_playground.Function.{Function, World}

abbrev pub pointee : (ℕ → ℕ) → Option ℕ → ℕ
pointee v none = 0
pointee v (some k) = v k

-- What a `Function` owns.
abbrev pub holding : (ℕ → ℕ) → Option Function → ℕ
holding v none = 0
holding v (some p) = pointee v p.m_callable

-- 1 at one address.
abbrev pub only_at : ℕ → ℕ → ℕ
only_at i j = if i == j then 1 else 0

only_at_self : (i : ℕ) → only_at i i ≡ 1
only_at_self i = rw (eq→== i i refl) refl

only_at-ne : (i j : ℕ) → i ≢ j → only_at i j ≡ 0
only_at-ne i j n = rw (ne→== i j n) refl

module _ {F : Type 0} where
  abbrev pub alive_weight : (ℕ → ℕ) → ℕ → Option F → ℕ
  alive_weight v k none = 0
  alive_weight v k (some f) = v k

  -- The weights of the addresses from `k` on where a callable is alive.
  abbrev pub alive_from : (ℕ → ℕ) → ℕ → List (Option F) → ℕ
  alive_from v k [] = 0
  alive_from v k (o ∷ xs) = alive_weight v k o + alive_from v (suc k) xs

  pub alive_from-snoc :
      (v : ℕ → ℕ) (k : ℕ) (xs : List (Option F)) (f : F)
      → alive_from v k (xs ++ some f ∷ []) ≡ alive_from v k xs + v (k + length xs)
  alive_from-snoc v k [] f = let e : v (k + 0) ≡ v k = ap v (omega arith) in omega (arith, e)
  alive_from-snoc v k (x ∷ xs) f =
      let e : v (suc k + length xs) ≡ v (k + suc (length xs)) = ap v (omega arith) in
      omega (arith, e, alive_from-snoc v (suc k) xs f)

  pub alive_from-set :
      (v : ℕ → ℕ) (k : ℕ) (xs : List (Option F)) (i : ℕ) (f : F) (o : Option F)
      → object_at xs i ≡ some f
      → alive_from v k (set xs i o) + v (k + i) ≡ alive_from v k xs + alive_weight v (k + i) o
  alive_from-set v k [] i f o e = absurd (ground arith)
  alive_from-set v k (x ∷ xs) zero f o e =
      let here : v (k + 0) ≡ v k = ap v (omega arith) in
      let new : alive_weight v (k + 0) o ≡ alive_weight v k o =
        ap (λ j. alive_weight v j o) (omega arith) in
      rw e (omega (arith, here, new))
  alive_from-set v k (x ∷ xs) (suc i) f o e =
      let here : v (suc k + i) ≡ v (k + suc i) = ap v (omega arith) in
      let new : alive_weight v (suc k + i) o ≡ alive_weight v (k + suc i) o =
        ap (λ j. alive_weight v j o) (omega arith) in
      omega (arith, here, new, alive_from-set v (suc k) xs i f o e)

  alive_weight-ne : (i k : ℕ) (o : Option F) → i ≢ k → alive_weight (only_at i) k o ≡ 0
  alive_weight-ne i k none n = refl
  alive_weight-ne i k (some f) n = only_at-ne i k n

  -- Nothing from `k` on stands at a smaller address.
  alive_behind : (i k : ℕ) (xs : List (Option F)) → i < k → alive_from (only_at i) k xs ≡ 0
  alive_behind i k [] h = refl
  alive_behind i k (o ∷ xs) h = omega (
    arith,
    alive_weight-ne i k o (λ e. absurd (omega (arith, e))),
    alive_behind i (suc k) xs (omega arith),
  )

  abbrev pub present : Option F → ℕ
  present none = 0
  present (some f) = 1

  alive_weight_self : (k : ℕ) (o : Option F) → alive_weight (only_at k) k o ≡ present o
  alive_weight_self k none = refl
  alive_weight_self k (some f) = only_at_self k

  alive_at :
      (j k : ℕ) (xs : List (Option F)) (i : ℕ)
      → j ≡ k + i
      → alive_from (only_at j) k xs ≡ present (object_at xs i)
  alive_at j k [] i e = refl
  alive_at j k (o ∷ xs) zero e =
      let here : j ≡ k = omega (arith, e) in
      let weighs : alive_weight (only_at j) k o ≡ present o =
        ap (λ l. alive_weight (only_at l) k o) here ∙ alive_weight_self k o in
      omega (arith, weighs, alive_behind j (suc k) xs (omega (arith, here)))
  alive_at j k (o ∷ xs) (suc i) e = omega (
    arith,
    alive_weight-ne j k o (λ e'. absurd (omega (arith, e, e'))),
    alive_at j (suc k) xs i (omega (arith, e)),
  )

  -- Whether a callable is alive at an address.
  pub alive_from-only_at :
      (xs : List (Option F)) (k : ℕ) (o : Option F)
      → object_at xs k ≡ o
      → alive_from (only_at k) 0 xs ≡ present o
  alive_from-only_at xs k o e = alive_at k 0 xs k (omega arith) ∙ ap present e

  -- Each callable that is alive is owned, once, and each that is owned is alive.
  unfoldable pub Owned : World F → Type 0
  Owned s = (v : ℕ → ℕ) → total (holding v) s.functions ≡ alive_from v 0 s.callables

  pub Owned-alive :
      (s : World F) (i k : ℕ)
      → Owned s
      → object_at s.functions i ≡ some (record { m_callable = some k })
      → (f : F) × (object_at s.callables k ≡ some f)
  unfolding Owned
  Owned-alive s i k owned e = elim (Option-cases (object_at s.callables k)) [
    | inl dead ↦ absurd (
        omega (
          arith,
          owned (only_at k),
          only_at_self k,
          alive_from-only_at s.callables k none dead,
          total-set (holding (only_at k)) s.functions i (record { m_callable = some k }) none e,
        ))
    | inr alive ↦ alive
  ]

  pub Owned-apart :
      (s : World F) (i j k : ℕ)
      → Owned s
      → object_at s.functions i ≡ some (record { m_callable = some k })
      → object_at s.functions j ≡ some (record { m_callable = some k })
      → i ≡ j
  unfolding Owned
  Owned-apart s i j k owned e e' = elim (==-cases i j) [
    | inl (same, _) ↦ same
    | inr (n, _) ↦
        let p : Function = record { m_callable = some k } in
        let w = holding (only_at k) in
        let (f, alive) = Owned-alive s i k owned e in
        let left = set s.functions i none in
        let there : object_at left j ≡ some p = get_or-set_ne s.functions i j none none n ∙ e' in
        absurd (
          omega (
            arith,
            owned (only_at k),
            only_at_self k,
            alive_from-only_at s.callables k (some f) alive,
            total-set w s.functions i p none e,
            total-set w left j p none there,
          ))
  ]

  -- When no `Function` is alive, no callable is.
  pub none_leaked :
      (s : World F)
      → Owned s
      → ((i : ℕ) → object_at s.functions i ≡ none)
      → (k : ℕ) → object_at s.callables k ≡ none
  unfolding Owned
  none_leaked s owned dead k = elim (Option-cases (object_at s.callables k)) [
    | inl e ↦ e
    | inr (f, e) ↦ absurd (
        omega (
          arith,
          owned (only_at k),
          alive_from-only_at s.callables k (some f) e,
          none_alive (holding (only_at k)) s.functions refl dead,
        ))
  ]
