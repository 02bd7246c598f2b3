-- ===== src/Function/Repeated.antt =====
-- include/cpp_playground/functional/function.hpp: two calls of `operator()`, one after the other.
use cpp_playground.Function.Assignments.{changed-Owned}
use cpp_playground.Function.Ownership.{Owned, Owned-apart, Owned-alive}
use cpp_playground.Prelude.{
  refl, none, some, inl, inr, Exception, ◌⊎◌, Option, Outcome, ℕ, object_at, returned, threw, ◌≡◌,
  fault, set, ◌≢◌, object_at-set_self, ap, ◌∙◌, sym, get_or-set_ne,
}
use cpp_playground.Function.{Function, World, call}
use cpp_playground.Function.Runs.{call-callable, result, call-null}
use cpp_playground.Function.Values.{target, target_of}
use cpp_playground.Function.Answers.{answer, called_with, function_answer, answers_alike}

module _ {F A R : Type 0} (invoked : A → F → (Exception ⊎ R) × F) where
  -- The state that a call leaves, also where it throws.
  abbrev pub left_by : World F → Outcome (World F) R → World F
  left_by s (returned r s') = s'
  left_by s (threw e s') = s'
  left_by s fault = s

  -- The callable after a call.
  abbrev pub called : A → Option F → Option F
  called args none = none
  called args (some f) = some ((invoked args f).1)

  left_by-result :
      (k : ℕ) (o : (Exception ⊎ R) × F) (s : World F)
      → left_by s (result invoked k o s) ≡ record s { callables = set s.callables k (some o.1) }
  left_by-result k (inl x, f) s = refl
  left_by-result k (inr r, f) s = refl

  -- Only the callable that is called changes.
  changed_target :
      (s : World F) (this j k : ℕ) (g f : F) (d : Option ℕ)
      → object_at s.functions this ≡ some (record { m_callable = some k })
      → object_at s.callables k ≡ some g
      → object_at s.functions j ≡ some (record { m_callable = d })
      → this ≢ j
      → Owned s
      → target (record s { callables = set s.callables k (some f) }) j ≡ target s j
  changed_target s this j k g f none e there e' n owned = rw e' refl
  changed_target s this j k g f (some l) e there e' n owned =
      let apart : k ≢ l = λ x. n (
        Owned-apart s this j k owned e
          (e' ∙ ap (λ m. some (record { m_callable = some m })) (sym x))) in
      rw e' (get_or-set_ne s.callables k l (some f) none apart)

  own_target :
      (s : World F) (this k : ℕ) (g f : F)
      → object_at s.functions this ≡ some (record { m_callable = some k })
      → object_at s.callables k ≡ some g
      → target (record s { callables = set s.callables k (some f) }) this ≡ some f
  own_target s this k g f e there = rw e (object_at-set_self s.callables k g (some f) there)

  -- A second call, after a call through `this`.
  abbrev pub second : World F → ℕ → A → ℕ → A → Option (Exception ⊎ R)
  second s this args j args2 = answer (call invoked j args2 (left_by s (call invoked this args s)))

  second_core :
      (s : World F) (this j : ℕ) (args args2 : A) (c : Option ℕ) (q : Function)
      → object_at s.functions this ≡ some (record { m_callable = c })
      → object_at s.functions j ≡ some q
      → Owned s
      → ((this ≡ j)
          → second s this args j args2 ≡ called_with invoked args2 (called args (target s j)))
        × (this ≢ j → second s this args j args2 ≡ answer (call invoked j args2 s))
  second_core s this j args args2 none q e e' owned =
      let ran = ap (left_by s) (call-null invoked s this args e) in
      let again : second s this args j args2 ≡ answer (call invoked j args2 s) =
        ap (λ t. answer (call invoked j args2 t)) ran in
      (
        λ same.
            let empty = ap (target_of s.callables) (ap (object_at s.functions) (sym same) ∙ e) in
            again
            ∙ function_answer invoked s j args2 q e' owned
            ∙ ap (called_with invoked args2) (empty ∙ sym (ap (called args) empty)),
        λ n. again,
      )
  second_core s this j args args2 (some k) q e e' owned =
      let (g, there) = Owned-alive s this k owned e in
      let o = invoked args g in
      let t = record s { callables = set s.callables k (some o.1) } in
      let ran =
        ap (left_by s) (call-callable invoked s this k args g e there) ∙ left_by-result k o s in
      let again : second s this args j args2 ≡ answer (call invoked j args2 t) =
        ap (λ x. answer (call invoked j args2 x)) ran in
      let kept = changed-Owned s k g o.1 there owned in
      (
        λ same.
            let here = ap (object_at s.functions) (sym same) ∙ e in
            let before = ap (target_of s.callables) here ∙ there in
            again
            ∙ function_answer invoked t j args2 q e' kept
            ∙ ap (called_with invoked args2)
                (own_target s j k g o.1 here there ∙ sym (ap (called args) before)),
        λ n.
            again
            ∙ answers_alike invoked s t j j q q args2 e' e' kept owned
                (changed_target s this j k g o.1 q.m_callable e there e' n owned),
      )

  -- In every state where each callable that is alive has one owner, a call of a `Function` that is
  -- alive does not fault: it gives what the callable that it owns returns or throws, or throws
  -- `std::bad_function_call` if it owns none. A second call of it gives what the callable gives that
  -- the first call left, and a call of any other `Function` that is alive gives what it gave before.
  pub function_call_lem :
      (s : World F) (this : ℕ) (args : A) (p : Function)
      → object_at s.functions this ≡ some p
      → Owned s
      → (answer (call invoked this args s) ≡ called_with invoked args (target s this))
        × ((args2 : A)
            → second s this args this args2
              ≡ called_with invoked args2 (called args (target s this)))
        × ((args2 : A) (j : ℕ) (q : Function)
            → this ≢ j
            → object_at s.functions j ≡ some q
            → second s this args j args2 ≡ answer (call invoked j args2 s))
  function_call_lem s this args p e owned = (
    function_answer invoked s this args p e owned,
    (λ args2. (second_core s this this args args2 p.m_callable p e e owned).0 refl),
    λ args2 j q n e'. (second_core s this j args args2 p.m_callable q e e' owned).1 n,
  )
