-- ===== src/Function/Tests.antt =====
-- include/cpp_playground/functional/function.hpp, at concrete objects. A callable is a counter that
-- adds its argument and returns the sum; it throws where the argument is 0.
use cpp_playground.Function.Values.{target}
use cpp_playground.Prelude.{
  [], ◌∷◌, refl, none, some, inl, inr, List, ℕ, Exception, ◌≡◌, ◌⊎◌, if◌then◌else◌, returned,
  bad_function_call, total, ◌==◌, ◌≢◌, object_at, out_of_range, arith, ◌+◌,
}
use cpp_playground.Function.{
  perform, Function, World, Command, constructing_empty, constructing, assigning_callable, moving,
  destroying, move_assigning, calling, run, assign, call, move_assign, no_functions,
}
use cpp_playground.Function.Ownership.{Owned, holding, alive_from}
use cpp_playground.Function.Repeated.{function_call_lem, second, called}
use cpp_playground.Function.Answers.{
  function_assign_lem, function_move_assign_lem, answer, called_with,
}
use cpp_playground.Function.Runs.{after, function_run_lem, AllReady}

abbrev counted : ℕ → ℕ → (Exception ⊎ ℕ) × ℕ
counted args f = if args == 0 then (inl out_of_range, f) else (inr (f + args), f + args)

abbrev no_callable : Function
no_callable = record { m_callable = none }

abbrev at_address : ℕ → Function
at_address k = record { m_callable = some k }

-- The first callable is replaced by an assignment, the second by a move, the third is moved twice.
abbrev calls : List (Command ℕ ℕ)
calls =
    constructing 10
    ∷ constructing_empty
    ∷ calling 0 5
    ∷ calling 0 0
    ∷ assigning_callable 0 20
    ∷ constructing 30
    ∷ calling 1 7
    ∷ move_assigning 0 2
    ∷ moving 0
    ∷ move_assigning 3 3
    ∷ calling 3 1
    ∷ destroying 0
    ∷ constructing 40
    ∷ []

abbrev final : World ℕ
final = record {
  functions =
      none ∷ some no_callable ∷ some no_callable ∷ some (at_address 2) ∷ some (at_address 3) ∷ [];
  callables = none ∷ none ∷ some 31 ∷ some 40 ∷ [];
}

final_lem : run counted calls no_functions ≡ returned tt final
unfolding run
final_lem = refl

calls_ready : AllReady counted no_functions calls
unfolding AllReady after perform
calls_ready = (
  tt,
  (
    tt,
    (
      (_, refl),
      (
        (_, refl),
        (
          (_, refl),
          (
            tt,
            (
              (_, refl),
              (
                ((_, refl), (_, refl)),
                ((_, refl), (((_, refl), (_, refl)), ((_, refl), ((_, refl), (tt, tt))))),
              ),
            ),
          ),
        ),
      ),
    ),
  ),
)

function_run_lem_example :
    (s' : World ℕ) × (run counted calls no_functions ≡ returned tt s')
    × ((v : ℕ → ℕ) → total (holding v) s'.functions ≡ alive_from v 0 s'.callables)
    × (((i : ℕ) → object_at s'.functions i ≡ none) → (k : ℕ) → object_at s'.callables k ≡ none)
function_run_lem_example = function_run_lem counted calls calls_ready

final-Owned : Owned final
unfolding Owned
final-Owned = λ v. omega arith

function_assign_lem_example :
    (s' : World ℕ) × (assign 3 50 final ≡ returned tt s')
    × ((args : ℕ) → answer (call counted 3 args s') ≡ some ((counted args 50).0))
    × ((args : ℕ) (j : ℕ) (r : Function)
        → 3 ≢ j
        → object_at final.functions j ≡ some r
        → answer (call counted j args s') ≡ answer (call counted j args final))
function_assign_lem_example = function_assign_lem counted final 3 50 (at_address 2) refl final-Owned

function_move_assign_lem_example :
    ((s' : World ℕ) × (move_assign 3 4 final ≡ returned tt s')
      × ((args : ℕ) → answer (call counted 3 args s') ≡ answer (call counted 4 args final))
      × ((args : ℕ) → answer (call counted 4 args s') ≡ some (inl bad_function_call))
      × ((args : ℕ) (j : ℕ) (r : Function)
          → 3 ≢ j
          → 4 ≢ j
          → object_at final.functions j ≡ some r
          → answer (call counted j args s') ≡ answer (call counted j args final)))
    × ((s' : World ℕ) × (move_assign 3 3 final ≡ returned tt s')
        × ((args : ℕ) → answer (call counted 3 args s') ≡ answer (call counted 3 args final)))
function_move_assign_lem_example =
    function_move_assign_lem counted final 3 4 (at_address 3) (at_address 2) refl refl (omega arith)
      final-Owned

function_call_lem_example :
    (answer (call counted 3 5 final) ≡ called_with counted 5 (target final 3))
    × ((args2 : ℕ)
        → second counted final 3 5 3 args2
          ≡ called_with counted args2 (called counted 5 (target final 3)))
    × ((args2 : ℕ) (j : ℕ) (q : Function)
        → 3 ≢ j
        → object_at final.functions j ≡ some q
        → second counted final 3 5 j args2 ≡ answer (call counted j args2 final))
function_call_lem_example = function_call_lem counted final 3 5 (at_address 2) refl final-Owned
