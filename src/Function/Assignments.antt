-- ===== src/Function/Assignments.antt =====
-- include/cpp_playground/functional/function.hpp: every assignment keeps one owner for each callable.
use cpp_playground.Prelude.{
  [], ◌∷◌, none, some, inl, inr, List, ℕ, Option, object_at, set, length, ◌≡◌, arith, returned,
  ◌++◌, object_at-set, object_at-snoc, >>=-returned, ◌∙◌, ◌+◌, ap, total-set,
}
use cpp_playground.Function.{
  Function, World, assign, move_assign, make_callable, read_function, write_function,
}
use cpp_playground.Function.Ownership.{Owned, alive_from-set, alive_from-snoc, holding}
use cpp_playground.Function.Calls.{
  read, write, Refers, without, Owned-Refers, delete_callable_lem, reset_callable_lem,
}

module _ {F : Type 0} where
  -- The addresses of callables stay when one is made.
  pub Refers-snoc :
      (cs : List (Option F)) (f : F) (c : Option ℕ) → Refers cs c → Refers (cs ++ some f ∷ []) c
  Refers-snoc cs f none alive = tt
  Refers-snoc cs f (some k) (g, e) = elim (object_at-snoc cs (some f) k) [
    | inl (there, new, free) ↦ absurd (cc (free, e))
    | inr (n, same) ↦ (g, same ∙ e)
  ]

  -- The state after an assignment of a callable.
  abbrev pub assigned : World F → ℕ → F → Function → World F
  assigned s this f p = record {
    functions = set s.functions this (some (record { m_callable = some (length s.callables) }));
    callables = without p.m_callable (s.callables ++ some f ∷ []);
  }

  pub assigning_lem :
      (s : World F) (this : ℕ) (f : F) (p : Function)
      → object_at s.functions this ≡ some p
      → Owned s
      → (assign this f s ≡ returned tt (assigned s this f p)) × Owned (assigned s this f p)
  unfolding assign make_callable Owned
  assigning_lem s this f p e owned =
      let k = length s.callables in
      let s1 = record s { callables = s.callables ++ some f ∷ [] } in
      let alive =
        Refers-snoc s.callables f p.m_callable (Owned-Refers s this p.m_callable owned e) in
      let (ran, weighs) = delete_callable_lem s1 p.m_callable alive in
      (
        reset_callable_lem s1 this (some k) p e alive,
        λ v.
            let here : v (0 + k) ≡ v k = ap v (omega arith) in
            omega (
              arith,
              here,
              owned v,
              weighs v,
              alive_from-snoc v 0 s.callables f,
              total-set (holding v) s.functions this p (some (record { m_callable = some k })) e,
            ),
      )

  -- The state after a move assignment; `q` is what `*this` is once `other` is null.
  abbrev pub move_assigned : World F → ℕ → ℕ → Function → Function → World F
  move_assigned s this other p q = record {
    functions = set (set s.functions other (some (record { m_callable = none }))) this (some p);
    callables = without q.m_callable s.callables;
  }

  pub move_assigning_core :
      (s : World F) (this other : ℕ) (p q : Function)
      → object_at s.functions other ≡ some p
      → object_at (set s.functions other (some (record { m_callable = none }))) this ≡ some q
      → Refers s.callables q.m_callable
      → Owned s
      → (move_assign this other s ≡ returned tt (move_assigned s this other p q))
        × Owned (move_assigned s this other p q)
  unfolding move_assign Owned
  move_assigning_core s this other p q e e' alive owned =
      let empty : Function = record { m_callable = none } in
      let fs1 = set s.functions other (some empty) in
      let s1 = record s { functions = fs1 } in
      let (ran, weighs) = delete_callable_lem s1 q.m_callable alive in
      (
        >>=-returned (read_function other) _ (read s other p e)
            ∙ >>=-returned (write_function other empty) _ (write s other empty p e)
            ∙ reset_callable_lem s1 this p.m_callable q e' alive,
        λ v. omega (
          arith,
          owned v,
          weighs v,
          total-set (holding v) s.functions other p (some empty) e,
          total-set (holding v) fs1 this q (some p) e',
        ),
      )

  pub move_assigning_lem :
      (s : World F) (this other : ℕ) (p q : Function)
      → object_at s.functions other ≡ some p
      → object_at s.functions this ≡ some q
      → Owned s
      → (s' : World F) × (move_assign this other s ≡ returned tt s') × Owned s'
  move_assigning_lem s this other p q e e' owned =
      let empty : Function = record { m_callable = none } in
      elim (object_at-set s.functions other p (some empty) this e) [
        | inl (same, now, before) ↦
            let (ran, kept) = move_assigning_core s this other p empty e now tt owned in
            (move_assigned s this other p empty, ran, kept)
        | inr (n, same) ↦
            let alive = Owned-Refers s this q.m_callable owned e' in
            let (ran, kept) = move_assigning_core s this other p q e (same ∙ e') alive owned in
            (move_assigned s this other p q, ran, kept)
      ]

  -- A callable that changes keeps its owner.
  pub changed-Owned :
      (s : World F) (k : ℕ) (g f : F)
      → object_at s.callables k ≡ some g
      → Owned s
      → Owned (record s { callables = set s.callables k (some f) })
  unfolding Owned
  changed-Owned s k g f there owned =
      λ v. omega (arith, owned v, alive_from-set v 0 s.callables k g (some f) there)
