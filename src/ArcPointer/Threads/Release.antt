-- ===== src/ArcPointer/Threads/Release.antt =====
-- include/cpp_playground/arc_pointer.hpp: the last thread that releases a block, and no other, destroys
-- its object and deletes it.
use cpp_playground.ArcPointer.Threads.Releases.{drop_by-Kept, finish_by-Kept, give_by-Kept}
use cpp_playground.Prelude.{
  [], ◌∷◌, refl, zero, suc, none, some, inl, inr, List, Option, total, ℕ, arith, length, object_at,
  replicate, ◌+◌, ◌≡◌, ◌<◌, word_mod, Option-cases, ==-cases, ap, sym, ◌∙◌, total_zero,
}
use cpp_playground.ArcPointer.Threads.{
  outside, Holder, Shared, Turn, copying, dropping, finishing, giving, start, objects, step, run,
}
use cpp_playground.ArcPointer.Threads.Sharing.{
  Sound, Kept, held_by, destroying_by, deleting_by, copy_by-Kept, objects_after, destroys, deletes,
}

step-Kept :
    (turn : Turn) (s : Shared)
    → total held_by s.threads + 1 < word_mod
    → Sound s
    → Kept s (step turn s)
unfolding step
step-Kept (copying i) s word sound = elim (Option-cases (object_at s.threads i)) [
  | inl e ↦ rw (e, step) (s, refl, sound, omega arith, refl)
  | inr (t, e) ↦ rw (e, step) (copy_by-Kept s i t word sound e)
]
step-Kept (dropping i) s word sound = elim (Option-cases (object_at s.threads i)) [
  | inl e ↦ rw (e, step) (s, refl, sound, omega arith, refl)
  | inr (t, e) ↦ rw (e, step) (drop_by-Kept s i t word sound e)
]
step-Kept (finishing i) s word sound = elim (Option-cases (object_at s.threads i)) [
  | inl e ↦ rw (e, step) (s, refl, sound, omega arith, refl)
  | inr (t, e) ↦ rw (e, step) (finish_by-Kept s i t t.point sound e refl)
]
step-Kept (giving i j) s word sound = elim (Option-cases (object_at s.threads i)) [
  | inl e ↦ rw (e, step) (s, refl, sound, omega arith, refl)
  | inr (t, e) ↦ elim (Option-cases (object_at s.threads j)) [
    | inl e' ↦ rw (e, e', step) (s, refl, sound, omega arith, refl)
    | inr (u, e') ↦ elim (==-cases i j) [
      | inl (same, b) ↦ rw (e, e', b, step) (s, refl, sound, omega arith, refl)
      | inr (n, b) ↦ rw (e, e', b, step) (give_by-Kept s i j t u sound e e' n)
    ]
  ]
]

run-Sound :
    (turns : List Turn) (s : Shared)
    → total held_by s.threads + length turns < word_mod
    → Sound s
    → (s' : Shared) × (run turns s ≡ some s') × Sound s' × (s'.m_ptr ≡ s.m_ptr)
unfolding run
run-Sound [] s word sound = (s, refl, sound, refl)
run-Sound (turn ∷ turns) s word sound =
    let (s1, ran, kept, more, same) = step-Kept turn s (omega (arith, word)) sound in
    let (s2, ran2, kept2, same2) = run-Sound turns s1 (omega (arith, word, more)) kept in
    (s2, rw (ran, run) ran2, kept2, same2 ∙ same)

abbrev newcomer : Option Holder
newcomer = some (record { held = 0; point = outside })

others_hold_none :
    (n : ℕ)
    → (total held_by (replicate n newcomer) ≡ 0)
      × (total destroying_by (replicate n newcomer) ≡ 0)
      × (total deleting_by (replicate n newcomer) ≡ 0)
others_hold_none zero = (refl, refl, refl)
others_hold_none (suc n) =
    let (h, d, x) = others_hold_none n in (omega (arith, h), omega (arith, d), omega (arith, x))

objects_after_none : (ptr : Option ℕ) (n : ℕ) → n ≡ 0 → objects_after ptr n ≡ 0
objects_after_none none n e = refl
objects_after_none (some ptr) n e = e

objects_after_one : (ptr : Option ℕ) (n : ℕ) → n ≡ 1 → objects_after ptr n ≡ objects ptr
unfolding objects
objects_after_one none n e = refl
objects_after_one (some ptr) n e = e

start-Sound : (ptr : Option ℕ) (n : ℕ) → Sound (start ptr n)
unfolding start
start-Sound ptr n =
    let (h, d, x) = others_hold_none n in
    record {
      counted = omega (arith, h);
      in_use = λ some_held. omega (arith, d, x);
      released = λ none_held. absurd (omega (arith, none_held));
      logged = sym (
          objects_after_none ptr (0 + total deleting_by (replicate n newcomer) + 0)
            (omega (arith, x)));
    }

-- No thread is in `release_ref`.
abbrev pub AllOutside : Shared → Type 0
AllOutside s = (i : ℕ) (t : Holder) → object_at s.threads i ≡ some t → t.point ≡ outside

outside_idle :
    (o : Option Holder)
    → ((t : Holder) → o ≡ some t → t.point ≡ outside)
    → (destroying_by o ≡ 0) × (deleting_by o ≡ 0)
outside_idle none h = (refl, refl)
outside_idle (some t) h = (ap destroys (h t refl), ap deletes (h t refl))

-- For any number of threads, of which one has made the block with a pointer or null, and every order
-- of fewer than 2^64 - 1 steps in which they copy, hand over and release pointers: no step touches
-- the block after it was deleted. At the end, the counter is the number of the pointers that are
-- left; while there are some, the block and the object are there; and once there are none and no
-- thread is in `release_ref`, the block was deleted once, and the object destroyed once if there is
-- one.
pub concurrent_release_lem :
    (ptr : Option ℕ) (others : ℕ) (turns : List Turn)
    → length turns + 1 < word_mod
    → (s : Shared) × (run turns (start ptr others) ≡ some s)
      × (s.m_num_shared ≡ total held_by s.threads)
      × (0 < total held_by s.threads → (s.destroyed ≡ 0) × (s.deleted ≡ 0))
      × (total held_by s.threads ≡ 0 → AllOutside s → (s.destroyed ≡ objects ptr) × (s.deleted ≡ 1))
unfolding start
concurrent_release_lem ptr others turns word =
    let (h, d, x) = others_hold_none others in
    let (s, ran, sound, same) =
      run-Sound turns (start ptr others) (omega (arith, word, h)) (start-Sound ptr others) in
    (
      s,
      ran,
      sound.counted,
      (λ held.
          let quiet = sound.in_use held in
          (
            sound.logged
                ∙ objects_after_none s.m_ptr (total deleting_by s.threads + s.deleted)
                    (omega (arith, quiet)),
            omega (arith, quiet),
          )),
      λ none_held all_outside.
          let over = sound.released none_held in
          let idle = λ (i : ℕ). outside_idle (object_at s.threads i) (all_outside i) in
          let d' = total_zero destroying_by s.threads (λ i. (idle i).0) in
          let x' = total_zero deleting_by s.threads (λ i. (idle i).1) in
          (
            sound.logged
                ∙ objects_after_one s.m_ptr (total deleting_by s.threads + s.deleted)
                    (omega (arith, over, d', x'))
                ∙ ap objects same,
            omega (arith, over, d', x'),
          ),
    )
