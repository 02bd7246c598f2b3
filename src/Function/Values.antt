-- ===== src/Function/Values.antt =====
-- include/cpp_playground/functional/function.hpp: which callable each `Function` has after an
-- assignment.
use cpp_playground.Function.Ownership.{Owned, Owned-apart}
use cpp_playground.Prelude.{
  [], ◌∷◌, refl, none, some, inl, inr, List, ℕ, Option, object_at, ◌≡◌, ◌≢◌, get_or-set_ne, ◌∙◌, ap,
  sym, Option-cases, length, ◌++◌, arith, object_at-snoc, set, object_at-inside, object_at-set_self,
}
use cpp_playground.Function.{Function, World}
use cpp_playground.Function.Calls.{without, Refers, Owned-Refers}
use cpp_playground.Function.Assignments.{assigned, move_assigned, Refers-snoc}

-- The callable in a `Function`, where one is alive.
abbrev pub target_of : {F : Type 0} → List (Option F) → Option Function → Option F
target_of cs none = none
target_of cs (some p) = elim p.m_callable [ none ↦ none | some k ↦ object_at cs k ]

abbrev pub target : {F : Type 0} → World F → ℕ → Option F
target s i = target_of s.callables (object_at s.functions i)

module _ {F : Type 0} where
  -- A deletion leaves the callables of the others.
  target-without :
      (cs : List (Option F)) (c d : Option ℕ)
      → ((k : ℕ) → c ≡ some k → d ≢ some k)
      → Refers cs c
      → target_of (without c cs) (some (record { m_callable = d }))
        ≡ target_of cs (some (record { m_callable = d }))
  target-without cs none d apart alive = refl
  target-without cs (some k) none apart alive = refl
  target-without cs (some k) (some l) apart alive =
      get_or-set_ne cs k l none none (λ e. apart k refl (ap some (sym e)))

  -- Two `Function` objects that are alive do not share a callable.
  callables_apart :
      (s : World F) (i j : ℕ) (c d : Option ℕ)
      → Owned s
      → object_at s.functions i ≡ some (record { m_callable = c })
      → object_at s.functions j ≡ some (record { m_callable = d })
      → i ≢ j
      → (k : ℕ) → c ≡ some k
      → d ≢ some k
  callables_apart s i j c d owned e e' n k here there = n (
      Owned-apart s i j k owned (e ∙ ap (λ x. some (record { m_callable = x })) here)
        (e' ∙ ap (λ x. some (record { m_callable = x })) there))

  -- Deleting the callable of one `Function` leaves those of the others.
  others-without :
      (s : World F) (this j : ℕ) (q : Function)
      → Owned s
      → object_at s.functions this ≡ some q
      → this ≢ j
      → target_of (without q.m_callable s.callables) (object_at s.functions j) ≡ target s j
  others-without s this j q owned e n = elim (Option-cases (object_at s.functions j)) [
    | inl dead ↦ rw dead refl
    | inr (p, e') ↦ rw e' (
        target-without s.callables q.m_callable p.m_callable
          (callables_apart s this j q.m_callable p.m_callable owned e e' n)
          (Owned-Refers s this q.m_callable owned e))
  ]

  target-snoc :
      (cs : List (Option F)) (f : F) (c : Option ℕ)
      → Refers cs c
      → target_of (cs ++ some f ∷ []) (some (record { m_callable = c }))
        ≡ target_of cs (some (record { m_callable = c }))
  target-snoc cs f none alive = refl
  target-snoc cs f (some k) (g, e) = elim (object_at-snoc cs (some f) k) [
    | inl (there, new, free) ↦ absurd (cc (free, e))
    | inr (n, same) ↦ same
  ]

  new_target : (cs : List (Option F)) (f : F) → object_at (cs ++ some f ∷ []) (length cs) ≡ some f
  new_target cs f = elim (object_at-snoc cs (some f) (length cs)) [
    | inl (there, new, free) ↦ new
    | inr (n, same) ↦ absurd (n refl)
  ]

  new_apart : (cs : List (Option F)) (c : Option ℕ) → Refers cs c → c ≢ some (length cs)
  new_apart cs none alive e = absurd (cc e)
  new_apart cs (some k) (f, there) e =
      let same : k ≡ length cs = cc e in absurd (omega (arith, same, object_at-inside cs k f there))

  -- What an assignment of a callable does to the targets.
  pub assigned_targets :
      (s : World F) (this : ℕ) (f : F) (p : Function)
      → object_at s.functions this ≡ some p
      → Owned s
      → (target (assigned s this f p) this ≡ some f)
        × ((j : ℕ) → this ≢ j → target (assigned s this f p) j ≡ target s j)
  assigned_targets s this f p e owned =
      let cs = s.callables in
      let cs1 = cs ++ some f ∷ [] in
      let p' : Function = record { m_callable = some (length cs) } in
      let alive = Owned-Refers s this p.m_callable owned e in
      let alive1 = Refers-snoc cs f p.m_callable alive in
      (
        ap (target_of (without p.m_callable cs1))
              (object_at-set_self s.functions this p (some p') e)
            ∙ target-without cs1 p.m_callable (some (length cs))
                (λ l el ek. new_apart cs p.m_callable alive (el ∙ sym ek)) alive1
            ∙ new_target cs f,
        λ j n.
            ap (target_of (without p.m_callable cs1))
              (get_or-set_ne s.functions this j (some p') none n)
            ∙ elim (Option-cases (object_at s.functions j)) [
              | inl dead ↦ rw dead refl
              | inr (p2, e2) ↦ rw e2 (
                  target-without cs1 p.m_callable p2.m_callable
                    (callables_apart s this j p.m_callable p2.m_callable owned e e2 n) alive1
                  ∙ target-snoc cs f p2.m_callable (Owned-Refers s j p2.m_callable owned e2))
            ],
      )

  pub move_assigned_targets :
      (s : World F) (this other : ℕ) (p q : Function)
      → object_at s.functions other ≡ some p
      → object_at s.functions this ≡ some q
      → this ≢ other
      → Owned s
      → (target (move_assigned s this other p q) this ≡ target s other)
        × (target (move_assigned s this other p q) other ≡ none)
        × ((j : ℕ) → this ≢ j → other ≢ j → target (move_assigned s this other p q) j ≡ target s j)
  move_assigned_targets s this other p q e e' n owned =
      let empty : Function = record { m_callable = none } in
      let fs1 = set s.functions other (some empty) in
      let left = target_of (without q.m_callable s.callables) in
      let back : other ≢ this = λ x. n (sym x) in
      let e1 = get_or-set_ne s.functions other this (some empty) none back ∙ e' in
      (
        ap left (object_at-set_self fs1 this q (some p) e1)
            ∙ ap left (sym e)
            ∙ others-without s this other q owned e' n,
        ap left (get_or-set_ne fs1 this other (some p) none n)
            ∙ ap left (object_at-set_self s.functions other p (some empty) e),
        λ j m m'.
            ap left (get_or-set_ne fs1 this j (some p) none m)
            ∙ ap left (get_or-set_ne s.functions other j (some empty) none m')
            ∙ others-without s this j q owned e' m,
      )
