-- ===== src/LifetimeTracker/Kinds.antt =====
-- include/cpp_playground/testing/thread_local_lifetime_tracker.hpp: the kinds of calls, and what the
-- counters have to be after calls.
use cpp_playground.LifetimeTracker.{
  resetting, default_constructing, copy_constructing, move_constructing, destroying, copy_assigning,
  move_assigning, Call, Counters, zeros,
}
use cpp_playground.LifetimeTracker.{Call, zeros, Counters}
use cpp_playground.Prelude.{
  [], ◌∷◌, refl, List, ℕ, if◌then◌else◌, length, total, ◌+◌, ◌≤◌, arith, ◌==◌, ◌≡◌, Bool-cases, inl,
  inr,
}

-- The calls of a thread, in order.
abbrev pub calls_of : ℕ → List (ℕ × Call) → List Call
calls_of u [] = []
calls_of u ((t, call) ∷ calls) = let rest = calls_of u calls in if t == u then call ∷ rest else rest

-- 1 for the calls that a counter counts.
abbrev pub is_default : Call → ℕ
is_default default_constructing = 1
is_default _ = 0

abbrev pub is_copy : Call → ℕ
is_copy copy_constructing = 1
is_copy _ = 0

abbrev pub is_move : Call → ℕ
is_move move_constructing = 1
is_move _ = 0

abbrev pub is_end : Call → ℕ
is_end destroying = 1
is_end _ = 0

abbrev pub is_copy_assignment : Call → ℕ
is_copy_assignment (copy_assigning this other) = if this == other then 0 else 1
is_copy_assignment _ = 0

abbrev pub is_move_assignment : Call → ℕ
is_move_assignment (move_assigning this other) = if this == other then 0 else 1
is_move_assignment _ = 0

-- The calls since the last reset, the last one first, after those that were seen.
abbrev pub after : Call → List Call → List Call
after resetting seen = []
after call seen = call ∷ seen

abbrev pub recent : List Call → List Call → List Call
recent seen [] = seen
recent seen (call ∷ calls) = recent (after call seen) calls

-- The counters count the calls.
pub record Counting (calls : List Call) (c : Counters) : Type 0 where
  pub defaults : c.m_num_default_constructions ≡ total is_default calls
  pub copies : c.m_num_copy_constructions ≡ total is_copy calls
  pub moves : c.m_num_move_constructions ≡ total is_move calls
  pub constructions :
      c.m_num_constructions ≡ total is_default calls + total is_copy calls + total is_move calls
  pub destructions : c.m_num_destructions ≡ total is_end calls
  pub copy_assignments : c.m_num_copy_assignments ≡ total is_copy_assignment calls
  pub move_assignments : c.m_num_move_assignments ≡ total is_move_assignment calls

pub zeros-Counting : Counting [] zeros
zeros-Counting = record {
  defaults = refl;
  copies = refl;
  moves = refl;
  constructions = refl;
  destructions = refl;
  copy_assignments = refl;
  move_assignments = refl;
}

pub length-after : (call : Call) (seen : List Call) → length (after call seen) ≤ length seen + 1
length-after resetting seen = omega arith
length-after default_constructing seen = omega arith
length-after copy_constructing seen = omega arith
length-after move_constructing seen = omega arith
length-after destroying seen = omega arith
length-after (copy_assigning this other) seen = omega arith
length-after (move_assigning this other) seen = omega arith

pub length-recent :
    (seen calls : List Call) → length (recent seen calls) ≤ length seen + length calls
length-recent seen [] = omega arith
length-recent seen (call ∷ calls) =
    omega (arith, length-after call seen, length-recent (after call seen) calls)

pub length-calls_of : (u : ℕ) (calls : List (ℕ × Call)) → length (calls_of u calls) ≤ length calls
length-calls_of u [] = omega arith
length-calls_of u ((t, call) ∷ calls) = elim (Bool-cases (t == u)) [
  | inl e ↦ rw e (omega (arith, length-calls_of u calls))
  | inr e ↦ rw e (omega (arith, length-calls_of u calls))
]

-- Each call adds at most one to one kind.
kinds : (call : Call) → is_default call + is_copy call + is_move call ≤ 1
kinds resetting = omega arith
kinds default_constructing = omega arith
kinds copy_constructing = omega arith
kinds move_constructing = omega arith
kinds destroying = omega arith
kinds (copy_assigning this other) = omega arith
kinds (move_assigning this other) = omega arith

pub constructions-le :
    (calls : List Call)
    → total is_default calls + total is_copy calls + total is_move calls ≤ length calls
constructions-le [] = omega arith
constructions-le (call ∷ calls) = omega (arith, constructions-le calls, kinds call)

pub total-le :
    (f : Call → ℕ)
    → ((call : Call) → f call ≤ 1)
    → (calls : List Call) → total f calls ≤ length calls
total-le f small [] = omega arith
total-le f small (call ∷ calls) = omega (arith, small call, total-le f small calls)

pub is_end-le : (call : Call) → is_end call ≤ 1
is_end-le resetting = omega arith
is_end-le default_constructing = omega arith
is_end-le copy_constructing = omega arith
is_end-le move_constructing = omega arith
is_end-le destroying = omega arith
is_end-le (copy_assigning this other) = omega arith
is_end-le (move_assigning this other) = omega arith

pub is_copy_assignment-le : (call : Call) → is_copy_assignment call ≤ 1
is_copy_assignment-le resetting = omega arith
is_copy_assignment-le default_constructing = omega arith
is_copy_assignment-le copy_constructing = omega arith
is_copy_assignment-le move_constructing = omega arith
is_copy_assignment-le destroying = omega arith
is_copy_assignment-le (copy_assigning this other) = ground arith
is_copy_assignment-le (move_assigning this other) = omega arith

pub is_move_assignment-le : (call : Call) → is_move_assignment call ≤ 1
is_move_assignment-le resetting = omega arith
is_move_assignment-le default_constructing = omega arith
is_move_assignment-le copy_constructing = omega arith
is_move_assignment-le move_constructing = omega arith
is_move_assignment-le destroying = omega arith
is_move_assignment-le (copy_assigning this other) = omega arith
is_move_assignment-le (move_assigning this other) = ground arith

-- Every counter that counts calls is at most their number.
pub record Fitting (n : ℕ) (c : Counters) : Type 0 where
  pub constructed : c.m_num_constructions ≤ n
  pub destructed : c.m_num_destructions ≤ n
  pub default_constructed : c.m_num_default_constructions ≤ n
  pub copy_constructed : c.m_num_copy_constructions ≤ n
  pub move_constructed : c.m_num_move_constructions ≤ n
  pub copy_assigned : c.m_num_copy_assignments ≤ n
  pub move_assigned : c.m_num_move_assignments ≤ n

pub Counting-Fitting :
    (calls : List Call) (c : Counters) → Counting calls c → Fitting (length calls) c
Counting-Fitting calls c counted =
    let built = constructions-le calls in
    record {
      constructed = omega (arith, built, counted.constructions);
      destructed = omega (arith, total-le is_end is_end-le calls, counted.destructions);
      default_constructed = omega (arith, built, counted.defaults);
      copy_constructed = omega (arith, built, counted.copies);
      move_constructed = omega (arith, built, counted.moves);
      copy_assigned = omega (
        arith,
        total-le is_copy_assignment is_copy_assignment-le calls,
        counted.copy_assignments,
      );
      move_assigned = omega (
        arith,
        total-le is_move_assignment is_move_assignment-le calls,
        counted.move_assignments,
      );
    }
