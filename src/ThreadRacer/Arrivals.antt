-- ===== src/ThreadRacer/Arrivals.antt =====
-- src/thread_racer.cpp: threads that arrive while the first one is between the test and the wait.
use cpp_playground.ThreadRacer.Missed.{Missed, may_notify, step_lem, waits}
use cpp_playground.ThreadRacer.{
  Racer, arriving, notifying, locking, testing, blocking, sleeping, racing, System, stepping, woken,
  advance, step, run, move_to,
}
use cpp_playground.ThreadRacer.Start.{object_at-map-woken}
use cpp_playground.Prelude.{
  [], ◌∷◌, refl, suc, none, some, inl, inr, List, Option, object_at, ℕ, map, ◌<◌, ◌≡◌, false, sym,
  true, ◌+◌, ◌≤◌, ap, set, word_mod, add64, arith, object_at-set, ◌∙◌, ◌==◌, ne→==, eq→==, ◌⊎◌, ◌≢◌,
  object_at-set_self, ltb-cases,
}
use mathlib.Core.Path.{subst}

-- The first thread is between the test and the wait, and the threads before `i` have arrived.
pub record Arrived (n i : ℕ) (s : System) : Type 0 where
  pub all : s.num_threads ≡ n
  pub ready : s.num_threads_ready ≡ i
  pub first : object_at s.threads 0 ≡ some blocking
  pub come : (j : ℕ) → j < i → may_notify (object_at s.threads j) ≡ false
  pub coming : (j : ℕ) → i ≤ j → j < n → object_at s.threads j ≡ some arriving
  pub beyond : (j : ℕ) → n ≤ j → may_notify (object_at s.threads j) ≡ false

pub arrive_lem :
    (i : ℕ) (s : System)
    → object_at s.threads i ≡ some arriving
    → s.num_threads_ready + 1 < s.num_threads
    → s.num_threads < word_mod
    → step (stepping i) s ≡ record s {
      num_threads_ready = s.num_threads_ready + 1;
      threads = set s.threads i (some locking);
    }
unfolding advance
arrive_lem i s e few word =
    let count : add64 s.num_threads_ready 1 ≡ s.num_threads_ready + 1 = omega arith in
    let more : (s.num_threads_ready + 1 == s.num_threads) ≡ false =
      ne→== (s.num_threads_ready + 1) s.num_threads (λ q. absurd (omega arith)) in
    step_lem i arriving s e ∙ rw (advance, count, more) refl

pub arrive-Arrived :
    (n i : ℕ) (s : System)
    → suc i < n
    → 1 ≤ i
    → n < word_mod
    → Arrived n i s
    → Arrived n (suc i) (step (stepping i) s)
arrive-Arrived n i s more later word h =
    let e = h.coming i (omega arith) (omega arith) in
    let moved = arrive_lem i s e (omega (arith, h.all, h.ready)) (omega (arith, h.all)) in
    subst (Arrived n (suc i)) (sym moved) (record {
      all = h.all;
      ready = omega (arith, h.ready);
      first = elim (object_at-set s.threads i arriving (some locking) 0 e) [
        | inl (same, now, before) ↦ absurd (omega arith)
        | inr (other, kept) ↦ kept ∙ h.first
      ];
      come = λ j hj. elim (object_at-set s.threads i arriving (some locking) j e) [
        | inl (same, now, before) ↦ ap may_notify now
        | inr (other, kept) ↦ ap may_notify kept ∙ h.come j (omega arith)
      ];
      coming = λ j from below. elim (object_at-set s.threads i arriving (some locking) j e) [
        | inl (same, now, before) ↦ absurd (omega arith)
        | inr (other, kept) ↦ kept ∙ h.coming j (omega arith) below
      ];
      beyond = λ j out. elim (object_at-set s.threads i arriving (some locking) j e) [
        | inl (same, now, before) ↦ absurd (omega arith)
        | inr (other, kept) ↦ ap may_notify kept ∙ h.beyond j out
      ];
    })

woken-may_notify : (o : Option Racer) → may_notify (woken o) ≡ may_notify o
unfolding woken
woken-may_notify none = refl
woken-may_notify (some arriving) = refl
woken-may_notify (some notifying) = refl
woken-may_notify (some locking) = refl
woken-may_notify (some testing) = refl
woken-may_notify (some blocking) = refl
woken-may_notify (some sleeping) = refl
woken-may_notify (some racing) = refl

-- The last thread to arrive.
last_lem :
    (i : ℕ) (s : System)
    → object_at s.threads i ≡ some arriving
    → s.num_threads_ready + 1 ≡ s.num_threads
    → s.num_threads < word_mod
    → step (stepping i) s ≡ record s {
      num_threads_ready = s.num_threads_ready + 1;
      threads = set s.threads i (some notifying);
    }
unfolding advance
last_lem i s e all word =
    let count : add64 s.num_threads_ready 1 ≡ s.num_threads_ready + 1 = omega arith in
    let last : (s.num_threads_ready + 1 == s.num_threads) ≡ true =
      eq→== (s.num_threads_ready + 1) s.num_threads all in
    step_lem i arriving s e ∙ rw (advance, count, last) refl

notify_lem :
    (i : ℕ) (s : System)
    → object_at s.threads i ≡ some notifying
    → step (stepping i) s ≡ record s { threads = set (map woken s.threads) i (some racing) }
unfolding advance move_to
notify_lem i s e = step_lem i notifying s e

-- The threads after thread `i` arrived, notified and went on.
abbrev notified_by : ℕ → List (Option Racer) → List (Option Racer)
notified_by i ts = set (map woken (set ts i (some notifying))) i (some racing)

object_at-notified_by :
    (ts : List (Option Racer)) (i j : ℕ)
    → object_at ts i ≡ some arriving
    → ((i ≡ j) × (object_at (notified_by i ts) j ≡ some racing))
      ⊎ ((i ≢ j) × (object_at (notified_by i ts) j ≡ woken (object_at ts j)))
unfolding woken
object_at-notified_by ts i j e =
    let told = set ts i (some notifying) in
    let self : object_at (map woken told) i ≡ some notifying =
      object_at-map-woken told i ∙ ap woken (object_at-set_self ts i arriving (some notifying) e) in
    elim (object_at-set (map woken told) i notifying (some racing) j self) [
      | inl (same, now, before) ↦ inl (same, now)
      | inr (other, kept) ↦ elim (object_at-set ts i arriving (some notifying) j e) [
        | inl (same, now, before) ↦ absurd (other same)
        | inr (other', kept') ↦ inr (other, kept ∙ object_at-map-woken told j ∙ ap woken kept')
      ]
    ]

notify-Missed :
    (n i : ℕ) (s : System)
    → suc i ≡ n
    → 1 ≤ i
    → Arrived n i s
    → Missed (record s {
      num_threads_ready = s.num_threads_ready + 1;
      threads = notified_by i s.threads;
    })
unfolding woken
notify-Missed n i s last later h =
    let e = h.coming i (omega arith) (omega arith) in
    record {
      waiting = elim (object_at-notified_by s.threads i 0 e) [
        | inl (same, now) ↦ absurd (omega arith)
        | inr (other, kept) ↦ ap waits (kept ∙ ap woken h.first)
      ];
      over = λ j. elim (object_at-notified_by s.threads i j e) [
        | inl (same, now) ↦ ap may_notify now
        | inr (other, kept) ↦
            ap may_notify kept ∙ woken-may_notify (object_at s.threads j) ∙ elim (ltb-cases j i) [
              | inl (before, _) ↦ h.come j before
              | inr (from, _) ↦ h.beyond j (omega (arith, last, other, from))
            ]
      ];
    }

pub last-Missed :
    (n i : ℕ) (s : System)
    → suc i ≡ n
    → 1 ≤ i
    → n < word_mod
    → Arrived n i s
    → Missed (run (stepping i ∷ stepping i ∷ []) s)
      × ((run (stepping i ∷ stepping i ∷ []) s).num_threads_ready ≡ n)
unfolding run
last-Missed n i s last later word h =
    let e = h.coming i (omega arith) (omega arith) in
    let arrived : System = record s {
      num_threads_ready = s.num_threads_ready + 1;
      threads = set s.threads i (some notifying);
    } in
    let one : step (stepping i) s ≡ arrived =
      last_lem i s e (omega (arith, h.ready, h.all)) (omega (arith, h.all)) in
    let two = notify_lem i arrived (object_at-set_self s.threads i arriving (some notifying) e) in
    let both = ap (step (stepping i)) one ∙ two in
    (
      subst Missed (sym both) (notify-Missed n i s last later h),
      ap (λ w. w.num_threads_ready) both ∙ omega (arith, h.ready),
    )
