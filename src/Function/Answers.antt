-- ===== src/Function/Answers.antt =====
-- include/cpp_playground/functional/function.hpp: what the caller of a `Function` gets after
-- assignments and other calls.
use cpp_playground.Function.Calls.{Owned-Refers}
use cpp_playground.Function.Assignments.{
  assigned, move_assigned, assigning_lem, move_assigning_core,
}
use cpp_playground.Function.Ownership.{Owned, Owned-alive}
use cpp_playground.Prelude.{
  refl, none, some, inl, inr, Exception, Outcome, Option, ◌⊎◌, bad_function_call, returned, ℕ,
  object_at, threw, fault, ◌≡◌, ◌≢◌, ap, set, ◌∙◌, length, sym, get_or-set_ne, object_at-set_self,
}
use cpp_playground.Function.{Function, World, assign, call, move_assign}
use cpp_playground.Function.Runs.{call-callable, result, call-null}
use cpp_playground.Function.Values.{target, target_of, assigned_targets, move_assigned_targets}

-- What a call gives to its caller; none if it is undefined.
abbrev pub answer : {F R : Type 0} → Outcome (World F) R → Option (Exception ⊎ R)
answer (returned r s) = some (inr r)
answer (threw e s) = some (inl e)
answer fault = none

-- What the caller of a `Function` gets, from the callable in it.
abbrev pub called_with :
    {F A R : Type 0} → (A → F → (Exception ⊎ R) × F) → A → Option F → Option (Exception ⊎ R)
called_with invoked args none = some (inl bad_function_call)
called_with invoked args (some f) = some ((invoked args f).0)

module _ {F A R : Type 0} (invoked : A → F → (Exception ⊎ R) × F) where
  answer-result :
      (k : ℕ) (o : (Exception ⊎ R) × F) (s : World F) → answer (result invoked k o s) ≡ some o.0
  answer-result k (inl x, f) s = refl
  answer-result k (inr r, f) s = refl

  answer_core :
      (s : World F) (this : ℕ) (args : A) (c : Option ℕ)
      → object_at s.functions this ≡ some (record { m_callable = c })
      → Owned s
      → answer (call invoked this args s) ≡ called_with invoked args (target s this)
  answer_core s this args none e owned =
      ap answer (call-null invoked s this args e)
      ∙ ap (called_with invoked args) (sym (ap (target_of s.callables) e))
  answer_core s this args (some k) e owned =
      let (f, there) = Owned-alive s this k owned e in
      ap answer (call-callable invoked s this k args f e there)
      ∙ answer-result k (invoked args f) s
      ∙ ap (called_with invoked args) (sym (ap (target_of s.callables) e ∙ there))

  pub function_answer :
      (s : World F) (this : ℕ) (args : A) (p : Function)
      → object_at s.functions this ≡ some p
      → Owned s
      → answer (call invoked this args s) ≡ called_with invoked args (target s this)
  function_answer s this args p e owned = answer_core s this args p.m_callable e owned

  -- What a caller of any `Function` gets where the target of `i` is that of `j` in another state.
  pub answers_alike :
      (s s' : World F) (i j : ℕ) (p q : Function) (args : A)
      → object_at s'.functions i ≡ some p
      → object_at s.functions j ≡ some q
      → Owned s'
      → Owned s
      → target s' i ≡ target s j
      → answer (call invoked i args s') ≡ answer (call invoked j args s)
  answers_alike s s' i j p q args e e' owned' owned same =
      function_answer s' i args p e owned'
      ∙ ap (called_with invoked args) same
      ∙ sym (function_answer s j args q e' owned)

  -- In every state where each callable that is alive has one owner: the assignment of a callable
  -- to a `Function` that is alive returns, a call of it then gives what the new callable returns or
  -- throws, and a call of any other `Function` that is alive gives what it gave before.
  pub function_assign_lem :
      (s : World F) (this : ℕ) (f : F) (p : Function)
      → object_at s.functions this ≡ some p
      → Owned s
      → (s' : World F) × (assign this f s ≡ returned tt s')
        × ((args : A) → answer (call invoked this args s') ≡ some ((invoked args f).0))
        × ((args : A) (j : ℕ) (r : Function)
            → this ≢ j
            → object_at s.functions j ≡ some r
            → answer (call invoked j args s') ≡ answer (call invoked j args s))
  function_assign_lem s this f p e owned =
      let s' = assigned s this f p in
      let p' : Function = record { m_callable = some (length s.callables) } in
      let (ran, kept) = assigning_lem s this f p e owned in
      let (new, rest) = assigned_targets s this f p e owned in
      (
        s',
        ran,
        (λ args.
            function_answer s' this args p' (object_at-set_self s.functions this p (some p') e) kept
            ∙ ap (called_with invoked args) new),
        λ args j r n e'.
            answers_alike s s' j j r r args (get_or-set_ne s.functions this j (some p') none n ∙ e')
              e' kept owned (rest j n),
      )

  -- In every state where each callable that is alive has one owner: the move assignment between
  -- two `Function` objects that are alive returns, a call of `*this` then gives what a call of
  -- `other` gave before, a call of `other` throws `std::bad_function_call`, and a call of any other
  -- `Function` that is alive gives what it gave before. The move assignment of one to itself
  -- returns, and a call of it gives what it gave before.
  pub function_move_assign_lem :
      (s : World F) (this other : ℕ) (p q : Function)
      → object_at s.functions other ≡ some p
      → object_at s.functions this ≡ some q
      → this ≢ other
      → Owned s
      → ((s' : World F) × (move_assign this other s ≡ returned tt s')
          × ((args : A) → answer (call invoked this args s') ≡ answer (call invoked other args s))
          × ((args : A) → answer (call invoked other args s') ≡ some (inl bad_function_call))
          × ((args : A) (j : ℕ) (r : Function)
              → this ≢ j
              → other ≢ j
              → object_at s.functions j ≡ some r
              → answer (call invoked j args s') ≡ answer (call invoked j args s)))
        × ((s' : World F) × (move_assign this this s ≡ returned tt s')
            × ((args : A) → answer (call invoked this args s') ≡ answer (call invoked this args s)))
  function_move_assign_lem s this other p q e e' n owned =
      let empty : Function = record { m_callable = none } in
      let fs1 = set s.functions other (some empty) in
      let s' = move_assigned s this other p q in
      let back : other ≢ this = λ x. n (sym x) in
      let e1 = get_or-set_ne s.functions other this (some empty) none back ∙ e' in
      let (ran, kept) =
        move_assigning_core s this other p q e e1 (Owned-Refers s this q.m_callable owned e')
          owned in
      let (new, left, rest) = move_assigned_targets s this other p q e e' n owned in
      let here = object_at-set_self fs1 this q (some p) e1 in
      let there =
        get_or-set_ne fs1 this other (some p) none n
        ∙ object_at-set_self s.functions other p (some empty) e in
      let own = object_at-set_self s.functions this q (some empty) e' in
      let self = move_assigned s this this q empty in
      let (ran2, kept2) = move_assigning_core s this this q empty e' own tt owned in
      let here2 = object_at-set_self (set s.functions this (some empty)) this empty (some q) own in
      (
        (
          s',
          ran,
          (λ args. answers_alike s s' this other p p args here e kept owned new),
          (λ args.
              function_answer s' other args empty there kept ∙ ap (called_with invoked args) left),
          λ args j r m m' e2.
              let after =
                get_or-set_ne fs1 this j (some p) none m
                ∙ get_or-set_ne s.functions other j (some empty) none m'
                ∙ e2 in
              answers_alike s s' j j r r args after e2 kept owned (rest j m m'),
        ),
        (
          self,
          ran2,
          λ args.
              let same = ap (target_of s.callables) here2 ∙ ap (target_of s.callables) (sym e') in
              answers_alike s self this this q q args here2 e' kept2 owned same,
        ),
      )
