-- ===== src/ThreadRacer/Missed.antt =====
-- src/thread_racer.cpp: the first thread waits, and nothing that may still happen notifies it.
use cpp_playground.ThreadRacer.{
  Racer, arriving, notifying, locking, testing, blocking, sleeping, racing, System, stepping,
  advance, step, run,
}
use cpp_playground.Prelude.{
  [], ◌∷◌, refl, none, some, inl, inr, List, Option, object_at, ℕ, Bool, Option-cases, map, ◌≡◌,
  false, sym, true, ap, set, arith, object_at-set, ◌∙◌, ==-cases,
}
use mathlib.Core.Path.{subst}

-- A thread that waits, or is about to.
abbrev pub waits : Option Racer → Bool
waits (some blocking) = true
waits (some sleeping) = true
waits _ = false

-- A thread that may still notify.
abbrev pub may_notify : Option Racer → Bool
may_notify (some arriving) = true
may_notify (some notifying) = true
may_notify _ = false

-- The first thread waits, and no thread is left that may notify it.
pub record Missed (s : System) : Type 0 where
  pub waiting : waits (object_at s.threads 0) ≡ true
  pub over : (j : ℕ) → may_notify (object_at s.threads j) ≡ false

set-Missed :
    (s : System) (i : ℕ) (m : Option ℕ) (x y : Racer)
    → object_at s.threads i ≡ some x
    → may_notify (some y) ≡ false
    → (waits (some x) ≡ true → waits (some y) ≡ true)
    → Missed s
    → Missed (record s { mutex = m; threads = set s.threads i (some y) })
set-Missed s i m x y e quiet keeps h = record {
  waiting = elim (object_at-set s.threads i x (some y) 0 e) [
    | inl (same, now, before) ↦ ap waits now ∙ keeps (sym (ap waits before) ∙ h.waiting)
    | inr (other, kept) ↦ ap waits kept ∙ h.waiting
  ];
  over = λ j. elim (object_at-set s.threads i x (some y) j e) [
    | inl (same, now, before) ↦ ap may_notify now ∙ quiet
    | inr (other, kept) ↦ ap may_notify kept ∙ h.over j
  ];
}

advance-Missed :
    (i : ℕ) (r : Racer) (s : System)
    → object_at s.threads i ≡ some r
    → Missed s
    → Missed (advance i r s)
unfolding advance
advance-Missed i arriving s e h =
    let no : true ≡ false = sym (ap may_notify e) ∙ h.over i in absurd (ground arith)
advance-Missed i notifying s e h =
    let no : true ≡ false = sym (ap may_notify e) ∙ h.over i in absurd (ground arith)
advance-Missed i locking s e h = elim (Option-cases s.mutex) [
  | inl free ↦
      rw free (set-Missed s i (some i) locking testing e refl (λ q. absurd (ground arith)) h)
  | inr (holder, held) ↦ rw held (record { waiting = h.waiting; over = h.over })
]
advance-Missed i testing s e h = elim (==-cases s.num_threads_ready s.num_threads) [
  | inl (all, t) ↦ rw t (set-Missed s i none testing racing e refl (λ q. absurd (ground arith)) h)
  | inr (few, t) ↦ rw t (set-Missed s i s.mutex testing blocking e refl (λ q. refl) h)
]
advance-Missed i blocking s e h = set-Missed s i none blocking sleeping e refl (λ q. refl) h
advance-Missed i sleeping s e h = h
advance-Missed i racing s e h = h

pub step_lem :
    (i : ℕ) (r : Racer) (s : System)
    → object_at s.threads i ≡ some r
    → step (stepping i) s ≡ advance i r s
unfolding step
step_lem i r s e = rw (step, e) refl

step-Missed : (i : ℕ) (s : System) → Missed s → Missed (step (stepping i) s)
unfolding step
step-Missed i s h = elim (Option-cases (object_at s.threads i)) [
  | inl e ↦ rw (step, e) h
  | inr (r, e) ↦ subst Missed (sym (step_lem i r s e)) (advance-Missed i r s e h)
]

pub run-Missed : (steps : List ℕ) (s : System) → Missed s → Missed (run (map stepping steps) s)
unfolding run
run-Missed [] s h = h
run-Missed (i ∷ steps) s h = run-Missed steps (step (stepping i) s) (step-Missed i s h)
