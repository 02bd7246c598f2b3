-- ===== src/FixedCapacityVector/Tests.antt =====
-- Runs of the vector code on small inputs, and the theorems at concrete inputs.
use cpp_playground.FixedCapacityVector.Transfer.Copying.{copy_assign_lem}
use cpp_playground.FixedCapacityVector.Transfer.Moving.{move_assign_lem}
use cpp_playground.FixedCapacityVector.Elements.{clear_lem}
use cpp_playground.FixedCapacityVector.Resize.{resized, resize_lem}
use cpp_playground.Storage.{construct_at, read_at, destroy_at}
use cpp_playground.Prelude.{
  ℕ, List, [], ◌∷◌, ◌≡◌, refl, arith, if◌then◌else◌, leb, returned, some, ◌==◌, fault, threw,
  length_error, out_of_range,
}
use cpp_playground.FixedCapacityVector.{
  clear, construct_init, pop_back, push_back, resize, subscript, shrink, extend, emplace_back,
}
use cpp_playground.FixedCapacityVector.Layout.{of_list}
use cpp_playground.FixedCapacityVector.Calls.{
  unchecked, done, raised, element, Call, push, pop, first, nth, grow_or_shrink, run, list_run,
  run_refines,
}
use cpp_playground.FixedCapacityVector.Transfer.{Vectors, copy_assign, move_assign, store}

abbrev two : List ℕ
two = 7 ∷ 8 ∷ []

abbrev three : List ℕ
three = 4 ∷ 5 ∷ 6 ∷ []

abbrev vectors : Vectors ℕ
vectors p = if p == 0 then of_list 3 two else of_list 3 three

push_then_full : push_back 3 9 (of_list 3 two) ≡ returned tt (of_list 3 (7 ∷ 8 ∷ 9 ∷ []))
unfolding push_back construct_at
push_then_full = refl

-- `operator[]` behind the last element has undefined behaviour.
subscript_past_end : subscript 2 (of_list 3 two) ≡ fault
unfolding subscript read_at
subscript_past_end = refl

-- A request beyond the capacity fills the vector and then throws.
resize_past_capacity :
    resize 3 0 5 (of_list 3 two) ≡ threw length_error (of_list 3 (7 ∷ 8 ∷ 0 ∷ []))
unfolding resize shrink extend pop_back emplace_back construct_at destroy_at read_at
resize_past_capacity = refl

initializer_list : construct_init 3 two ≡ returned tt (of_list 3 two)
unfolding construct_init construct_at
initializer_list = refl

abbrev calls : List (Call ℕ)
calls = push 9 ∷ push 1 ∷ pop ∷ first ∷ nth 4 ∷ grow_or_shrink 0 1 ∷ unchecked 0 ∷ []

run_refines_example : run 3 (of_list 3 two) calls ≡ list_run 3 two calls
run_refines_example = run_refines 3 (omega arith) calls two (omega arith)

replies_lem :
    list_run 3 two calls
    ≡ some (
        done ∷ raised length_error ∷ done ∷ element 7 ∷ raised out_of_range ∷ done ∷ element 7 ∷ [])
unfolding list_run
replies_lem = refl

clear_two : clear (of_list 3 three) ≡ returned tt (of_list 3 [])
clear_two = clear_lem 3 three (omega arith)

resize_lem_example : resize 3 0 5 (of_list 3 two) ≡ (
    if leb 5 3
    then returned tt (of_list 3 (resized 0 5 two))
    else threw length_error (of_list 3 (resized 0 3 two)))
resize_lem_example = resize_lem 3 (omega arith) 0 5 two (omega arith)

copy_assign_lem_example :
    copy_assign 0 1 vectors
    ≡ returned tt (if 0 == 1 then vectors else store vectors 0 (of_list 3 three))
copy_assign_lem_example =
    copy_assign_lem 3 (omega arith) 0 1 vectors two three refl refl (omega arith) (omega arith)

move_assign_lem_example :
    move_assign 0 1 vectors
    ≡ returned tt
        (if 0 == 1 then vectors else store (store vectors 0 (of_list 3 three)) 1 (of_list 3 []))
move_assign_lem_example =
    move_assign_lem 3 (omega arith) 0 1 vectors two three refl refl (omega arith) (omega arith)
