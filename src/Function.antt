-- ===== src/Function.antt =====
-- include/cpp_playground/functional/function.hpp: a type-erased callable with unique ownership. The
-- `Function` objects and the objects that `std::make_unique` allocates stand at addresses.
pub mod Ownership
pub mod Calls
pub mod Assignments
pub mod Runs
pub mod Values
pub mod Answers
pub mod Repeated
mod Tests
use cpp_playground.Prelude.{
  [], ◌∷◌, refl, zero, suc, none, some, inl, inr, Action, Exception, List, Option, ℕ, expect,
  object_at, returned, ◌>>=◌, ◌⊎◌, Outcome, fault, length, pure, set, threw, ◌>>◌,
  bad_function_call, ◌++◌,
}

-- `m_callable` is the address of a `Callable`, or null.
pub record Function : Type 0 where
  pub m_callable : Option ℕ

-- A callable is its `m_function`, of type `F`.
pub record World (F : Type 0) : Type 0 where
  pub functions : List (Option Function)
  pub callables : List (Option F)

-- A member function at an address. `A` are the arguments.
pub data Command (F A : Type 0) : Type 0 where
  constructing_empty : Command F A
  constructing : F → Command F A
  assigning_callable : ℕ → F → Command F A
  moving destroying : ℕ → Command F A
  move_assigning : ℕ → ℕ → Command F A
  calling : ℕ → A → Command F A

module _ {F : Type 0} where
  pub read_function : ℕ → Action (World F) Function
  read_function i s = expect (object_at s.functions i) s

  pub write_function : ℕ → Function → Action (World F) (Unit {0})
  write_function i p s = elim (object_at s.functions i) [
    | none ↦ fault
    | some q ↦ returned tt (record s { functions = set s.functions i (some p) })
  ]

  pub place_function : Function → Action (World F) ℕ
  place_function p s =
      returned (length s.functions) (record s { functions = s.functions ++ some p ∷ [] })

  -- `std::make_unique<Callable<F>>`
  pub make_callable : F → Action (World F) ℕ
  make_callable function s =
      returned (length s.callables) (record s { callables = s.callables ++ some function ∷ [] })

  -- What the deleter of a `std::unique_ptr` does: to delete what is not there is undefined.
  pub delete_callable : Option ℕ → Action (World F) (Unit {0})
  delete_callable none s = returned tt s
  delete_callable (some k) s = elim (object_at s.callables k) [
    | none ↦ fault
    | some f ↦ returned tt (record s { callables = set s.callables k none })
  ]

  pub construct_empty : Action (World F) ℕ
  unfolding place_function
  construct_empty = place_function (record { m_callable = none })

  pub construct : F → Action (World F) ℕ
  unfolding make_callable place_function
  construct function = do
    k ← make_callable function
    place_function (record { m_callable = some k })

  -- The `std::unique_ptr` of `other` is null after the move.
  pub move_construct : ℕ → Action (World F) ℕ
  unfolding read_function write_function place_function
  move_construct other = do
    p ← read_function other
    write_function other (record { m_callable = none })
    place_function p

  -- The assignment of a `std::unique_ptr` takes the new pointer and then deletes the old object.
  pub reset_callable : ℕ → Option ℕ → Action (World F) (Unit {0})
  unfolding read_function write_function delete_callable
  reset_callable this callable = do
    p ← read_function this
    write_function this (record { m_callable = callable })
    delete_callable p.m_callable

  pub move_assign : ℕ → ℕ → Action (World F) (Unit {0})
  unfolding read_function write_function reset_callable
  move_assign this other = do
    p ← read_function other
    write_function other (record { m_callable = none })
    reset_callable this p.m_callable

  pub assign : ℕ → F → Action (World F) (Unit {0})
  unfolding make_callable reset_callable
  assign this function = do k ← make_callable function; reset_callable this (some k)

  -- After the destructor nothing is alive at the address.
  pub end_function : ℕ → Action (World F) (Unit {0})
  end_function i s = returned tt (record s { functions = set s.functions i none })

  pub destruct : ℕ → Action (World F) (Unit {0})
  unfolding read_function delete_callable end_function
  destruct this = do p ← read_function this; delete_callable p.m_callable; end_function this

-- What a callable does with arguments: it returns or throws, and is then another one where a call
-- changes it.
module _ {F A R : Type 0} (invoked : A → F → (Exception ⊎ R) × F) where
  pub finish : ℕ → (Exception ⊎ R) × F → Action (World F) R
  finish k (inl e, f) s = threw e (record s { callables = set s.callables k (some f) })
  finish k (inr r, f) s = returned r (record s { callables = set s.callables k (some f) })

  -- `m_callable->invoke(args)`: to call what is not there is undefined.
  pub invoke : ℕ → A → Action (World F) R
  unfolding finish
  invoke k args s = elim (object_at s.callables k) [
    | none ↦ fault
    | some f ↦ finish k (invoked args f) s
  ]

  pub call_through : Option ℕ → A → Action (World F) R
  unfolding invoke
  call_through none args s = threw bad_function_call s
  call_through (some k) args s = invoke k args s

  -- `operator()`
  pub call : ℕ → A → Action (World F) R
  unfolding read_function call_through
  call this args = do p ← read_function this; call_through p.m_callable args

  -- The caller goes on after an exception.
  pub caught : Outcome (World F) R → Outcome (World F) (Unit {0})
  caught (returned r s) = returned tt s
  caught (threw e s) = returned tt s
  caught fault = fault

  pub perform : Command F A → Action (World F) (Unit {0})
  unfolding construct_empty construct move_construct destruct move_assign assign call caught
  perform constructing_empty = do _ ← construct_empty; pure tt
  perform (constructing function) = do _ ← construct function; pure tt
  perform (moving other) = do _ ← move_construct other; pure tt
  perform (destroying this) = destruct this
  perform (assigning_callable this function) = assign this function
  perform (move_assigning this other) = move_assign this other
  perform (calling this args) = λ s. caught (call this args s)

  pub run : List (Command F A) → Action (World F) (Unit {0})
  unfolding perform
  run [] = pure tt
  run (c ∷ cs) = do perform c; run cs

abbrev pub no_functions : {F : Type 0} → World F
no_functions = record { functions = []; callables = [] }
