-- ===== src/ThreadRacer/Start.antt =====
-- src/thread_racer.cpp: what each step of the barrier keeps.
use cpp_playground.ThreadRacer.{
  Racer, arriving, notifying, locking, testing, blocking, sleeping, racing, System, Turn, stepping,
  waking, start, move_to, woken, advance, step, run,
}
use cpp_playground.Prelude.{
  [], ◌∷◌, refl, zero, suc, none, some, inl, inr, Option, ℕ, ◌+◌, object_at, total, ◌≡◌, ◌<◌, ◌⊎◌,
  set, arith, total-set, List, ltb-cases, map, word_mod, add64, ==-cases, ◌∙◌, ap, Option-cases,
  sym,
}

abbrev pub is_arriving : Option Racer → ℕ
is_arriving (some arriving) = 1
is_arriving _ = 0

-- 1 behind the barrier, or where the last thread is that arrived.
abbrev pub has_started : Option Racer → ℕ
has_started (some notifying) = 1
has_started (some racing) = 1
has_started _ = 0

-- Every thread that has arrived is counted, and a thread that has started has seen them all.
pub record Sound (s : System) : Type 0 where
  pub counted : s.num_threads_ready + total is_arriving s.threads ≡ s.num_threads
  pub started : 0 < total has_started s.threads → s.num_threads_ready ≡ s.num_threads

-- A thread moves from `x` to `y`, which is behind the increment.
moved-Sound :
    (s : System) (i ready : ℕ) (m : Option ℕ) (x y : Racer)
    → Sound s
    → object_at s.threads i ≡ some x
    → is_arriving (some y) ≡ 0
    → ready ≡ s.num_threads_ready + is_arriving (some x)
    → (0 < has_started (some y) → (0 < has_started (some x)) ⊎ (ready ≡ s.num_threads))
    → Sound (record s { num_threads_ready = ready; mutex = m; threads = set s.threads i (some y) })
moved-Sound s i ready m x y sound e behind count starts =
    let arrivals = total-set is_arriving s.threads i x (some y) e in
    let starters = total-set has_started s.threads i x (some y) e in
    let arrival = total-set is_arriving s.threads i x none e in
    let starter = total-set has_started s.threads i x none e in
    record {
      counted = omega (arith, sound.counted, arrivals, behind, count);
      started = λ h. elim (ltb-cases 0 (total has_started s.threads)) [
        | inl (some_started, _) ↦
            omega (arith, sound.started some_started, sound.counted, arrival, count)
        | inr (none_started, _) ↦ elim (starts (omega (arith, starters, none_started))) [
          | inl before ↦ absurd (omega (arith, before, starter, none_started))
          | inr all ↦ all
        ]
      ];
    }

-- Waking threads changes neither the arrivals nor the starts.
woken_lem :
    (o : Option Racer)
    → (is_arriving (woken o) ≡ is_arriving o) × (has_started (woken o) ≡ has_started o)
unfolding woken
woken_lem none = (refl, refl)
woken_lem (some arriving) = (refl, refl)
woken_lem (some notifying) = (refl, refl)
woken_lem (some locking) = (refl, refl)
woken_lem (some testing) = (refl, refl)
woken_lem (some blocking) = (refl, refl)
woken_lem (some sleeping) = (refl, refl)
woken_lem (some racing) = (refl, refl)

total-map-woken :
    (ts : List (Option Racer))
    → (total is_arriving (map woken ts) ≡ total is_arriving ts)
      × (total has_started (map woken ts) ≡ total has_started ts)
total-map-woken [] = (refl, refl)
total-map-woken (o ∷ ts) =
    let (arrivals, starts) = total-map-woken ts in
    let (arrival, start) = woken_lem o in
    (omega (arith, arrivals, arrival), omega (arith, starts, start))

pub object_at-map-woken :
    (ts : List (Option Racer)) (i : ℕ) → object_at (map woken ts) i ≡ woken (object_at ts i)
unfolding woken
object_at-map-woken [] i = refl
object_at-map-woken (o ∷ ts) zero = refl
object_at-map-woken (o ∷ ts) (suc i) = object_at-map-woken ts i

woken-notifying : woken (some notifying) ≡ some notifying
unfolding woken
woken-notifying = refl

notified-Sound : (s : System) → Sound s → Sound (record s { threads = map woken s.threads })
notified-Sound s sound =
    let (arrivals, starts) = total-map-woken s.threads in
    record {
      counted = omega (arith, sound.counted, arrivals);
      started = λ h. sound.started (omega (arith, starts));
    }

-- The thread that arrives last, and the others.
arriving-Sound :
    (s : System) (i : ℕ)
    → s.num_threads < word_mod
    → Sound s
    → object_at s.threads i ≡ some arriving
    → Sound (advance i arriving s)
unfolding advance move_to
arriving-Sound s i word sound e =
    let arrival = total-set is_arriving s.threads i arriving none e in
    let ready = add64 s.num_threads_ready 1 in
    let more : ready ≡ s.num_threads_ready + 1 = omega (arith, sound.counted, arrival) in
    elim (==-cases ready s.num_threads) [
      | inl (all, t) ↦
          rw t (moved-Sound s i ready s.mutex arriving notifying sound e refl more (λ h. inr all))
      | inr (_, t) ↦ rw t (
          moved-Sound s i ready s.mutex arriving locking sound e refl more
            (λ h. absurd (omega arith)))
    ]

-- What a step keeps.
abbrev pub Kept : System → System → Type 0
Kept s s' = Sound s' × (s'.num_threads ≡ s.num_threads)

advance-Kept :
    (s : System) (i : ℕ) (r : Racer)
    → s.num_threads < word_mod
    → Sound s
    → object_at s.threads i ≡ some r
    → Kept s (advance i r s)
unfolding advance move_to
advance-Kept s i arriving word sound e = (arriving-Sound s i word sound e, refl)
advance-Kept s i notifying word sound e =
    let notified = record s { threads = map woken s.threads } in
    let here = object_at-map-woken s.threads i ∙ ap woken e ∙ woken-notifying in
    (
      moved-Sound notified i s.num_threads_ready s.mutex notifying racing (notified-Sound s sound)
          here refl (omega arith) (λ h. inl (omega arith)),
      refl,
    )
advance-Kept s i locking word sound e = elim (Option-cases s.mutex) [
  | inl free ↦
      simp (advance, free)
        (
          moved-Sound s i s.num_threads_ready (some i) locking testing sound e refl (omega arith)
              (λ h. absurd (omega arith)),
          refl,
        )
  | inr (k, taken) ↦ simp (advance, taken) (sound, refl)
]
advance-Kept s i testing word sound e = elim (==-cases s.num_threads_ready s.num_threads) [
  | inl (all, t) ↦ rw t (
    moved-Sound s i s.num_threads_ready none testing racing sound e refl (omega arith)
        (λ h. inr all),
    refl,
  )
  | inr (_, t) ↦ rw t (
    moved-Sound s i s.num_threads_ready s.mutex testing blocking sound e refl (omega arith)
        (λ h. absurd (omega arith)),
    refl,
  )
]
advance-Kept s i blocking word sound e = (
  moved-Sound s i s.num_threads_ready none blocking sleeping sound e refl (omega arith)
      (λ h. absurd (omega arith)),
  refl,
)
advance-Kept s i sleeping word sound e = (sound, refl)
advance-Kept s i racing word sound e = (sound, refl)

set_same :
    (ts : List (Option Racer)) (i : ℕ) (o : Option Racer) → object_at ts i ≡ o → set ts i o ≡ ts
set_same [] i o e = refl
set_same (x ∷ ts) zero o e = ap (λ y. y ∷ ts) (sym e)
set_same (x ∷ ts) (suc i) o e = ap (λ ys. x ∷ ys) (set_same ts i o e)

waking_nothing :
    (s : System) (i : ℕ)
    → Sound s
    → object_at s.threads i ≡ none
    → Kept s (record s { threads = set s.threads i (woken (object_at s.threads i)) })
unfolding woken
waking_nothing s i sound e = let same = set_same s.threads i none e in simp (e, same) (sound, refl)

waking_racer :
    (s : System) (i : ℕ) (r : Racer)
    → Sound s
    → object_at s.threads i ≡ some r
    → Kept s (record s { threads = set s.threads i (woken (object_at s.threads i)) })
waking_racer s i r sound e =
    let (arrival, start) = woken_lem (some r) in
    let arrivals = total-set is_arriving s.threads i r (woken (some r)) e in
    let starters = total-set has_started s.threads i r (woken (some r)) e in
    simp e (
      record {
        counted = omega (arith, sound.counted, arrivals, arrival);
        started = λ h. sound.started (omega (arith, starters, start));
      },
      refl,
    )

waking-Kept :
    (s : System) (i : ℕ)
    → Sound s
    → Kept s (record s { threads = set s.threads i (woken (object_at s.threads i)) })
waking-Kept s i sound = elim (Option-cases (object_at s.threads i)) [
  | inl e ↦ waking_nothing s i sound e
  | inr (r, e) ↦ waking_racer s i r sound e
]

step-Kept : (t : Turn) (s : System) → s.num_threads < word_mod → Sound s → Kept s (step t s)
unfolding step
step-Kept (stepping i) s word sound = elim (Option-cases (object_at s.threads i)) [
  | inl e ↦ simp (step, e) (sound, refl)
  | inr (r, e) ↦ simp (step, e) (advance-Kept s i r word sound e)
]
step-Kept (waking i) s word sound = waking-Kept s i sound

pub run-Kept :
    (ts : List Turn) (s : System) → s.num_threads < word_mod → Sound s → Kept s (run ts s)
unfolding run
run-Kept [] s word sound = (sound, refl)
run-Kept (t ∷ ts) s word sound =
    let (sound1, same1) = step-Kept t s word sound in
    let (sound2, same2) = run-Kept ts (step t s) (omega (arith, same1)) sound1 in
    (sound2, same2 ∙ same1)
