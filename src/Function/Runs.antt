-- ===== src/Function/Runs.antt =====
-- include/cpp_playground/functional/function.hpp: calls of `operator()`, and all calls in sequence.
use cpp_playground.Prelude.{
  [], ◌∷◌, refl, none, some, inl, inr, Exception, ◌⊎◌, List, Outcome, ℕ, Option, object_at,
  returned, threw, ◌≡◌, >>=-returned, bad_function_call, fault, set, total, ap, ◌∙◌, pure,
}
use cpp_playground.Function.{
  Function, World, Command, constructing_empty, constructing, assigning_callable, moving,
  destroying, move_assigning, calling, call, caught, finish, perform, run, call_through,
  no_functions, invoke, construct_empty, read_function, construct, move_construct,
}
use cpp_playground.Function.Ownership.{Owned, Owned-alive, holding, alive_from, none_leaked}
use cpp_playground.Function.Assignments.{changed-Owned}
use cpp_playground.Function.Calls.{
  read, constructing_empty_lem, constructing_lem, moving_lem, destroying_lem,
}
use cpp_playground.Function.Assignments.{assigning_lem, assigned, move_assigning_lem}
use mathlib.Core.Path.{subst}

module _ {F A R : Type 0} (invoked : A → F → (Exception ⊎ R) × F) where
  -- What a call of a callable gives, and what it leaves.
  abbrev pub result : ℕ → (Exception ⊎ R) × F → World F → Outcome (World F) R
  result k (inl x, f) s = threw x (record s { callables = set s.callables k (some f) })
  result k (inr r, f) s = returned r (record s { callables = set s.callables k (some f) })

  finish_lem : (k : ℕ) (o : (Exception ⊎ R) × F) (s : World F) → finish invoked k o s ≡ result k o s
  unfolding finish
  finish_lem k (inl x, f) s = refl
  finish_lem k (inr r, f) s = refl

  pub call-callable :
      (s : World F) (this k : ℕ) (args : A) (f : F)
      → object_at s.functions this ≡ some (record { m_callable = some k })
      → object_at s.callables k ≡ some f
      → call invoked this args s ≡ result k (invoked args f) s
  unfolding call call_through invoke
  call-callable s this k args f e there =
      >>=-returned (read_function this) _ (read s this (record { m_callable = some k }) e)
      ∙ rw (there, invoke) (finish_lem k (invoked args f) s)

  pub call-null :
      (s : World F) (this : ℕ) (args : A)
      → object_at s.functions this ≡ some (record { m_callable = none })
      → call invoked this args s ≡ threw bad_function_call s
  unfolding call call_through
  call-null s this args e =
      >>=-returned (read_function this) _ (read s this (record { m_callable = none }) e)

  -- The final state of a call, in which each callable has one owner.
  abbrev pub Done : World F → Command F A → Type 0
  Done s c = (s' : World F) × (perform invoked c s ≡ returned tt s') × Owned s'

  caught_lem :
      (k : ℕ) (s : World F) (o : (Exception ⊎ R) × F)
      → caught invoked (result k o s)
        ≡ returned tt (record s { callables = set s.callables k (some o.1) })
  unfolding caught
  caught_lem k s (inl x, f) = refl
  caught_lem k s (inr r, f) = refl

  calling_lem :
      (s : World F) (this : ℕ) (args : A) (c : Option ℕ)
      → object_at s.functions this ≡ some (record { m_callable = c })
      → Owned s
      → Done s (calling this args)
  unfolding perform caught Owned
  calling_lem s this args none e owned = (s, rw (call-null s this args e) refl, owned)
  calling_lem s this args (some k) e owned =
      let (f, there) = Owned-alive s this k owned e in
      let o = invoked args f in
      (
        record s { callables = set s.callables k (some o.1) },
        ap (caught invoked) (call-callable s this k args f e there) ∙ caught_lem k s o,
        changed-Owned s k f o.1 there owned,
      )

  abbrev pub Alive : World F → ℕ → Type 0
  Alive s i = (p : Function) × (object_at s.functions i ≡ some p)

  -- The objects that a call names are alive.
  abbrev pub Ready : World F → Command F A → Type 0
  Ready s constructing_empty = Unit {0}
  Ready s (constructing function) = Unit {0}
  Ready s (moving other) = Alive s other
  Ready s (destroying this) = Alive s this
  Ready s (assigning_callable this function) = Alive s this
  Ready s (move_assigning this other) = Alive s this × Alive s other
  Ready s (calling this args) = Alive s this

  perform_lem : (s : World F) (c : Command F A) → Ready s c → Owned s → Done s c
  unfolding perform
  perform_lem s constructing_empty ready owned =
      let (s', ran, kept) = constructing_empty_lem s owned in
      (s', >>=-returned construct_empty (λ _. pure tt) ran, kept)
  perform_lem s (constructing function) ready owned =
      let (s', ran, kept) = constructing_lem s function owned in
      (s', >>=-returned (construct function) (λ _. pure tt) ran, kept)
  perform_lem s (moving other) (p, e) owned =
      let (s', ran, kept) = moving_lem s other p e owned in
      (s', >>=-returned (move_construct other) (λ _. pure tt) ran, kept)
  perform_lem s (destroying this) (p, e) owned = destroying_lem s this p e owned
  perform_lem s (assigning_callable this function) (p, e) owned =
      let (ran, kept) = assigning_lem s this function p e owned in
      (assigned s this function p, ran, kept)
  perform_lem s (move_assigning this other) ((q, e'), (p, e)) owned =
      move_assigning_lem s this other p q e e' owned
  perform_lem s (calling this args) (p, e) owned = calling_lem s this args p.m_callable e owned

  -- The state that an outcome leaves.
  abbrev left_in : World F → Outcome (World F) (Unit {0}) → World F
  left_in s (returned a s') = s'
  left_in s (threw e s') = s'
  left_in s fault = s

  -- The state after a call.
  unfoldable pub after : Command F A → World F → World F
  after c s = left_in s (perform invoked c s)

  -- The objects that the calls name are alive where the calls are made.
  unfoldable pub AllReady : World F → List (Command F A) → Type 0
  unfolding after
  AllReady s [] = Unit {0}
  AllReady s (c ∷ cs) = Ready s c × AllReady (after c s) cs

  run-Owned :
      (cs : List (Command F A)) (s : World F)
      → AllReady s cs
      → Owned s
      → (s' : World F) × (run invoked cs s ≡ returned tt s') × Owned s'
  unfolding run AllReady after
  run-Owned [] s ready owned = (s, refl, owned)
  run-Owned (c ∷ cs) s (ready, rest) owned =
      let (s1, ran, kept) = perform_lem s c ready owned in
      let there : after c s ≡ s1 = rw (after, ran) refl in
      let (s2, ran2, kept2) = run-Owned cs s1 (subst (λ g. AllReady g cs) there rest) kept in
      (s2, >>=-returned (perform invoked c) _ ran ∙ ran2, kept2)

  -- For every list of calls of the constructors, the destructor, both assignments and `operator()`
  -- with any callables, each on objects that are alive, where the caller catches what `operator()`
  -- throws: the run does not fault, so that no callable is deleted twice or called after it was
  -- deleted. At the end each callable that is alive has exactly one owner and each that is owned is
  -- alive, counted with any weight of the addresses; and if no `Function` is left, no callable is.
  pub function_run_lem :
      (cs : List (Command F A))
      → AllReady no_functions cs
      → (s' : World F) × (run invoked cs no_functions ≡ returned tt s')
        × ((v : ℕ → ℕ) → total (holding v) s'.functions ≡ alive_from v 0 s'.callables)
        × (((i : ℕ) → object_at s'.functions i ≡ none) → (k : ℕ) → object_at s'.callables k ≡ none)
  unfolding Owned
  function_run_lem cs ready =
      let (s', ran, kept) = run-Owned cs no_functions ready (λ v. refl) in
      (s', ran, kept, λ dead. none_leaked s' kept dead)
