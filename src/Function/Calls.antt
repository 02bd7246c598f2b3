-- ===== src/Function/Calls.antt =====
-- include/cpp_playground/functional/function.hpp: every call keeps one owner for each callable.
use cpp_playground.Prelude.{
  [], ◌∷◌, refl, none, some, List, Option, ℕ, object_at, set, ◌++◌, ◌≡◌, length, returned,
  >>=-returned, ◌∙◌, ◌+◌, arith, ap, length-set, total-set, total-snoc,
}
use cpp_playground.Function.{
  Function, World, construct, construct_empty, delete_callable, destruct, move_construct,
  read_function, reset_callable, write_function, end_function, make_callable, place_function,
}
use cpp_playground.Function.Ownership.{
  Owned, Owned-alive, alive_from, pointee, alive_from-set, alive_from-snoc, holding,
}

module _ {F : Type 0} where
  pub read :
      (s : World F) (i : ℕ) (p : Function)
      → object_at s.functions i ≡ some p
      → read_function i s ≡ returned p s
  unfolding read_function
  read s i p e = rw e refl

  pub write :
      (s : World F) (i : ℕ) (p q : Function)
      → object_at s.functions i ≡ some q
      → write_function i p s ≡ returned tt (record s { functions = set s.functions i (some p) })
  unfolding write_function
  write s i p q e = rw (e, write_function) refl

  -- The callable that a pointer refers to, if any, is alive.
  abbrev pub Refers : List (Option F) → Option ℕ → Type 0
  Refers cs none = Unit {0}
  Refers cs (some k) = (f : F) × (object_at cs k ≡ some f)

  pub Owned-Refers :
      (s : World F) (i : ℕ) (c : Option ℕ)
      → Owned s
      → object_at s.functions i ≡ some (record { m_callable = c })
      → Refers s.callables c
  Owned-Refers s i none owned e = tt
  Owned-Refers s i (some k) owned e = Owned-alive s i k owned e

  -- The callables that a deletion leaves.
  abbrev pub without : Option ℕ → List (Option F) → List (Option F)
  without none cs = cs
  without (some k) cs = set cs k none

  pub delete_callable_lem :
      (s : World F) (c : Option ℕ)
      → Refers s.callables c
      → (delete_callable c s ≡ returned tt (record s { callables = without c s.callables }))
        × ((v : ℕ → ℕ)
            → alive_from v 0 (without c s.callables) + pointee v c ≡ alive_from v 0 s.callables)
  unfolding delete_callable
  delete_callable_lem s none alive = (refl, λ v. omega arith)
  delete_callable_lem s (some k) (f, e) = (
    rw (e, delete_callable) refl,
    λ v.
        let here : v (0 + k) ≡ v k = ap v (omega arith) in
        omega (arith, here, alive_from-set v 0 s.callables k f none e),
  )

  pub reset_callable_lem :
      (s : World F) (this : ℕ) (c : Option ℕ) (p : Function)
      → object_at s.functions this ≡ some p
      → Refers s.callables p.m_callable
      → reset_callable this c s
        ≡ returned tt (record {
          functions = set s.functions this (some (record { m_callable = c }));
          callables = without p.m_callable s.callables;
        })
  unfolding reset_callable
  reset_callable_lem s this c p e alive =
      let p' : Function = record { m_callable = c } in
      let s1 = record s { functions = set s.functions this (some p') } in
      >>=-returned (read_function this) _ (read s this p e)
      ∙ >>=-returned (write_function this p') _ (write s this p' p e)
      ∙ (delete_callable_lem s1 p.m_callable alive).0

  pub constructing_empty_lem :
      (s : World F)
      → Owned s
      → (s' : World F) × (construct_empty s ≡ returned (length s.functions) s') × Owned s'
  unfolding construct_empty place_function Owned
  constructing_empty_lem s owned =
      let p : Function = record { m_callable = none } in
      (
        record s { functions = s.functions ++ some p ∷ [] },
        refl,
        λ v. omega (arith, owned v, total-snoc (holding v) s.functions (some p)),
      )

  pub constructing_lem :
      (s : World F) (f : F)
      → Owned s
      → (s' : World F) × (construct f s ≡ returned (length s.functions) s') × Owned s'
  unfolding construct make_callable place_function Owned
  constructing_lem s f owned =
      let p : Function = record { m_callable = some (length s.callables) } in
      (
        record { functions = s.functions ++ some p ∷ []; callables = s.callables ++ some f ∷ [] },
        refl,
        λ v.
            let here : v (0 + length s.callables) ≡ v (length s.callables) = ap v (omega arith) in
            omega (
              arith,
              here,
              owned v,
              total-snoc (holding v) s.functions (some p),
              alive_from-snoc v 0 s.callables f,
            ),
      )

  pub moving_lem :
      (s : World F) (other : ℕ) (p : Function)
      → object_at s.functions other ≡ some p
      → Owned s
      → (s' : World F) × (move_construct other s ≡ returned (length s.functions) s') × Owned s'
  unfolding move_construct place_function Owned
  moving_lem s other p e owned =
      let empty : Function = record { m_callable = none } in
      let left = set s.functions other (some empty) in
      (
        record s { functions = left ++ some p ∷ [] },
        >>=-returned (read_function other) _ (read s other p e)
            ∙ >>=-returned (write_function other empty) _ (write s other empty p e)
            ∙ ap (λ n. returned n (record s { functions = left ++ some p ∷ [] }))
                (length-set s.functions other (some empty)),
        λ v. omega (
          arith,
          owned v,
          total-snoc (holding v) left (some p),
          total-set (holding v) s.functions other p (some empty) e,
        ),
      )

  pub destroying_lem :
      (s : World F) (this : ℕ) (p : Function)
      → object_at s.functions this ≡ some p
      → Owned s
      → (s' : World F) × (destruct this s ≡ returned tt s') × Owned s'
  unfolding destruct end_function Owned
  destroying_lem s this p e owned =
      let (ran, weighs) =
        delete_callable_lem s p.m_callable (Owned-Refers s this p.m_callable owned e) in
      (
        record {
          functions = set s.functions this none;
          callables = without p.m_callable s.callables;
        },
        >>=-returned (read_function this) _ (read s this p e)
            ∙ >>=-returned (delete_callable p.m_callable) _ ran,
        λ v. omega (arith, owned v, weighs v, total-set (holding v) s.functions this p none e),
      )
