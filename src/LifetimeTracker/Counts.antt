-- ===== src/LifetimeTracker/Counts.antt =====
-- include/cpp_playground/testing/thread_local_lifetime_tracker.hpp: what the counters count.
use cpp_playground.LifetimeTracker.Kinds.{
  Counting, after, zeros-Counting, Counting-Fitting, recent, calls_of, length-after,
}
use cpp_playground.LifetimeTracker.{
  increment, perform, default_construct, Counters, copy_construct, move_construct, destruct,
  copy_assign, limit, move_assign, count_construction, reset, Call, zeros, run_all, store_at,
  perform_in,
}
use cpp_playground.Prelude.{
  [], ◌∷◌, refl, ℕ, ◌+◌, ◌<◌, ◌≡◌, returned, List, length, arith, >>=-returned, if◌then◌else◌,
  lt→ltb, ◌^◌, ◌≤◌, ==-cases, Bool-cases, ◌==◌, ◌∙◌, inl, inr,
}
use cpp_playground.LifetimeTracker.{
  resetting, default_constructing, copy_constructing, move_constructing, destroying, copy_assigning,
  move_assigning, Call, Counters, zeros, limit,
}
use mathlib.Core.Path.{subst}

increment_lem :
    (n : ℕ) (store : ℕ → Counters) → n + 1 < limit → increment n store ≡ returned tt (store (n + 1))
unfolding increment
increment_lem n store h = let t = lt→ltb (n + 1) limit h in rw t refl

-- With room for one more call, a call returns, and the counters then count it too.
perform-Counting :
    (call : Call) (seen : List Call) (c : Counters)
    → Counting seen c
    → length seen + 1 < limit
    → (d : Counters) × (perform call c ≡ returned tt d) × Counting (after call seen) d
unfolding perform default_construct copy_construct move_construct destruct copy_assign move_assign
    count_construction reset
perform-Counting resetting seen c h room = (zeros, refl, zeros-Counting)
perform-Counting default_constructing seen c h room =
    let fit = Counting-Fitting seen c h in
    let first : Counters = record c {
      m_num_default_constructions = c.m_num_default_constructions + 1;
    } in
    let one : c.m_num_default_constructions + 1 < limit = omega (arith, fit.default_constructed) in
    let all : c.m_num_constructions + 1 < limit = omega (arith, fit.constructed) in
    (
      record first { m_num_constructions = c.m_num_constructions + 1 },
      >>=-returned
            (λ s.
              increment s.m_num_default_constructions
                (λ n. record s { m_num_default_constructions = n }))
            (λ _. count_construction)
            (increment_lem c.m_num_default_constructions
              (λ n. record c { m_num_default_constructions = n }) one)
          ∙ increment_lem c.m_num_constructions (λ n. record first { m_num_constructions = n }) all,
      record {
        defaults = omega arith;
        copies = omega arith;
        moves = omega arith;
        constructions = omega arith;
        destructions = omega arith;
        copy_assignments = omega arith;
        move_assignments = omega arith;
      },
    )
perform-Counting copy_constructing seen c h room =
    let fit = Counting-Fitting seen c h in
    let first : Counters = record c { m_num_copy_constructions = c.m_num_copy_constructions + 1 } in
    let one : c.m_num_copy_constructions + 1 < limit = omega (arith, fit.copy_constructed) in
    let all : c.m_num_constructions + 1 < limit = omega (arith, fit.constructed) in
    (
      record first { m_num_constructions = c.m_num_constructions + 1 },
      >>=-returned
            (λ s.
              increment s.m_num_copy_constructions (λ n. record s { m_num_copy_constructions = n }))
            (λ _. count_construction)
            (increment_lem c.m_num_copy_constructions
              (λ n. record c { m_num_copy_constructions = n }) one)
          ∙ increment_lem c.m_num_constructions (λ n. record first { m_num_constructions = n }) all,
      record {
        defaults = omega arith;
        copies = omega arith;
        moves = omega arith;
        constructions = omega arith;
        destructions = omega arith;
        copy_assignments = omega arith;
        move_assignments = omega arith;
      },
    )
perform-Counting move_constructing seen c h room =
    let fit = Counting-Fitting seen c h in
    let first : Counters = record c { m_num_move_constructions = c.m_num_move_constructions + 1 } in
    let one : c.m_num_move_constructions + 1 < limit = omega (arith, fit.move_constructed) in
    let all : c.m_num_constructions + 1 < limit = omega (arith, fit.constructed) in
    (
      record first { m_num_constructions = c.m_num_constructions + 1 },
      >>=-returned
            (λ s.
              increment s.m_num_move_constructions (λ n. record s { m_num_move_constructions = n }))
            (λ _. count_construction)
            (increment_lem c.m_num_move_constructions
              (λ n. record c { m_num_move_constructions = n }) one)
          ∙ increment_lem c.m_num_constructions (λ n. record first { m_num_constructions = n }) all,
      record {
        defaults = omega arith;
        copies = omega arith;
        moves = omega arith;
        constructions = omega arith;
        destructions = omega arith;
        copy_assignments = omega arith;
        move_assignments = omega arith;
      },
    )
perform-Counting destroying seen c h room =
    let fit = Counting-Fitting seen c h in
    let small : c.m_num_destructions + 1 < limit = omega (arith, fit.destructed) in
    (
      record c { m_num_destructions = c.m_num_destructions + 1 },
      increment_lem c.m_num_destructions (λ n. record c { m_num_destructions = n }) small,
      record {
        defaults = omega arith;
        copies = omega arith;
        moves = omega arith;
        constructions = omega arith;
        destructions = omega arith;
        copy_assignments = omega arith;
        move_assignments = omega arith;
      },
    )
perform-Counting (copy_assigning this other) seen c h room =
    let fit = Counting-Fitting seen c h in
    let small : c.m_num_copy_assignments + 1 < limit = omega (arith, fit.copy_assigned) in
    elim (Bool-cases (this == other)) [
      | inl e ↦ (
        c,
        rw e refl,
        record {
          defaults = ground arith;
          copies = ground arith;
          moves = ground arith;
          constructions = ground arith;
          destructions = ground arith;
          copy_assignments = ground arith;
          move_assignments = ground arith;
        },
      )
      | inr e ↦ (
        record c { m_num_copy_assignments = c.m_num_copy_assignments + 1 },
        rw e (
            increment_lem c.m_num_copy_assignments (λ n. record c { m_num_copy_assignments = n })
              small),
        record {
          defaults = ground arith;
          copies = ground arith;
          moves = ground arith;
          constructions = ground arith;
          destructions = ground arith;
          copy_assignments = ground arith;
          move_assignments = ground arith;
        },
      )
    ]
perform-Counting (move_assigning this other) seen c h room =
    let fit = Counting-Fitting seen c h in
    let small : c.m_num_move_assignments + 1 < limit = omega (arith, fit.move_assigned) in
    elim (Bool-cases (this == other)) [
      | inl e ↦ (
        c,
        rw e refl,
        record {
          defaults = ground arith;
          copies = ground arith;
          moves = ground arith;
          constructions = ground arith;
          destructions = ground arith;
          copy_assignments = ground arith;
          move_assignments = ground arith;
        },
      )
      | inr e ↦ (
        record c { m_num_move_assignments = c.m_num_move_assignments + 1 },
        rw e (
            increment_lem c.m_num_move_assignments (λ n. record c { m_num_move_assignments = n })
              small),
        record {
          defaults = ground arith;
          copies = ground arith;
          moves = ground arith;
          constructions = ground arith;
          destructions = ground arith;
          copy_assignments = ground arith;
          move_assignments = ground arith;
        },
      )
    ]

module _ (t : ℕ) (call : Call) where
  -- The calls that each thread has made, after one more.
  abbrev pub seen_after : (ℕ → List Call) → ℕ → List Call
  seen_after seen u = if t == u then after call (seen u) else seen u

  seen_after-recent :
      (seen : ℕ → List Call) (u : ℕ) (calls : List (ℕ × Call))
      → recent (seen_after seen u) (calls_of u calls)
        ≡ recent (seen u) (calls_of u ((t, call) ∷ calls))
  seen_after-recent seen u calls = elim (Bool-cases (t == u)) [
    | inl e ↦ rw e refl
    | inr e ↦ rw e refl
  ]

  length-seen_after :
      (seen : ℕ → List Call) (k u : ℕ) → length (seen u) ≤ k → length (seen_after seen u) ≤ k + 1
  length-seen_after seen k u few = elim (Bool-cases (t == u)) [
    | inl e ↦ rw e (omega (arith, length-after call (seen u)))
    | inr e ↦ rw e (omega arith)
  ]

  store_at-Counting :
      (seen : ℕ → List Call) (locals : ℕ → Counters) (d : Counters)
      → ((u : ℕ) → Counting (seen u) (locals u))
      → Counting (after call (seen t)) d
      → (u : ℕ) → Counting (seen_after seen u) (store_at t locals d u)
  store_at-Counting seen locals d all one u = elim (==-cases t u) [
    | inl (same, e) ↦ rw e (subst (λ v. Counting (after call (seen v)) d) same one)
    | inr (other, e) ↦ rw e (all u)
  ]

perform_in_lem :
    (t : ℕ) (call : Call) (locals : ℕ → Counters) (d : Counters)
    → perform call (locals t) ≡ returned tt d
    → perform_in t call locals ≡ returned tt (store_at t locals d)
unfolding perform_in
perform_in_lem t call locals d ran = rw (ran, perform_in) refl

run_all_from :
    (calls : List (ℕ × Call)) (seen : ℕ → List Call) (locals : ℕ → Counters) (k : ℕ)
    → ((u : ℕ) → Counting (seen u) (locals u))
    → ((u : ℕ) → length (seen u) ≤ k)
    → k + length calls < limit
    → (after_all : ℕ → Counters) × (run_all calls locals ≡ returned tt after_all)
      × ((u : ℕ) → Counting (recent (seen u) (calls_of u calls)) (after_all u))
unfolding run_all perform_in
run_all_from [] seen locals k counted few room = (locals, refl, counted)
run_all_from ((t, call) ∷ calls) seen locals k counted few room =
    let (d, ran, one) =
      perform-Counting call (seen t) (locals t) (counted t) (omega (arith, few t)) in
    let stored = perform_in_lem t call locals d ran in
    let (locals', rest, all) =
      run_all_from calls (seen_after t call seen) (store_at t locals d) (k + 1)
        (store_at-Counting t call seen locals d counted one)
        (λ u. length-seen_after t call seen k u (few u)) (omega (arith, room)) in
    (
      locals',
      >>=-returned (perform_in t call) (λ _. run_all calls) {s = locals} stored ∙ rest,
      λ u. subst (λ cs. Counting cs (locals' u)) (seen_after-recent t call seen u calls) (all u),
    )

-- Fewer than 2^63 calls of any threads, from counters at 0, overflow no counter, and after them, in
-- each thread, each counter is the number of the calls of its kind that the thread made since its
-- last reset; an assignment of an object to itself does not count, and a construction of any kind
-- counts as a construction.
pub run_all-Counting :
    (calls : List (ℕ × Call)) (u : ℕ)
    → length calls < 2 ^ 63
    → (locals : ℕ → Counters) × (run_all calls (λ _. zeros) ≡ returned tt locals)
      × Counting (recent [] (calls_of u calls)) (locals u)
run_all-Counting calls u few =
    let (locals, ran, counted) =
      run_all_from calls (λ _. []) (λ _. zeros) 0 (λ _. zeros-Counting) (λ _. omega arith)
        (omega (arith, few)) in
    (locals, ran, counted u)
