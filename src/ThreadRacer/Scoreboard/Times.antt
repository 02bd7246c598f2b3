-- ===== src/ThreadRacer/Scoreboard/Times.antt =====
-- src/thread_racer.cpp: the start time of the thread that started first.
use cpp_playground.Prelude.{
  [], ◌∷◌, refl, suc, some, inl, inr, ℕ, List, All, get_elem?, ◌<◌, ◌≡◌, ◌≤◌, arith, length, ◌⊎◌,
  if◌then◌else◌, ltb-cases, sym, ltb,
}
use cpp_playground.ThreadRacer.Scoreboard.{Result, earliest, first_start_time}

-- No thread of these started before `first`.
abbrev pub StartedSince : ℕ → List Result → Type 0
StartedSince first = All (λ r. first ≤ r.start_time)

since_before :
    (first later : ℕ) (rs : List Result)
    → first ≤ later
    → StartedSince later rs
    → StartedSince first rs
since_before first later [] h all = tt
since_before first later (r ∷ rs) h (below, all) =
    (omega (arith, h, below), since_before first later rs h all)

earliest_lem :
    (first : ℕ) (rs : List Result)
    → (earliest first rs ≤ first) × StartedSince (earliest first rs) rs
unfolding earliest
earliest_lem first [] = (omega arith, tt)
earliest_lem first (q ∷ rs) =
    let sooner = if ltb q.start_time first then q.start_time else first in
    let (below, all) = earliest_lem sooner rs in
    let under_first : sooner ≤ first = ground arith in
    let under_other : sooner ≤ q.start_time = ground arith in
    (omega (arith, below, under_first), (omega (arith, below, under_other), all))

-- One of these threads started at `first`.
abbrev pub StartedAt : ℕ → List Result → Type 0
StartedAt first rs = (i : ℕ) × (r : Result) × (get_elem? rs i ≡ some r) × (r.start_time ≡ first)

started_later :
    (first : ℕ) (q : Result) (rs : List Result) → StartedAt first rs → StartedAt first (q ∷ rs)
started_later first q rs (i, r, e, at) = (suc i, r, e, at)

earliest_attained :
    (first : ℕ) (rs : List Result) → (earliest first rs ≡ first) ⊎ StartedAt (earliest first rs) rs
unfolding earliest
earliest_attained first [] = inl refl
earliest_attained first (q ∷ rs) = elim (ltb-cases q.start_time first) [
  | inl (less, t) ↦ rw t (elim (earliest_attained q.start_time rs) [
    | inl same ↦ inr (0, q, refl, sym same)
    | inr later ↦ inr (started_later (earliest q.start_time rs) q rs later)
  ])
  | inr (more, t) ↦ rw t (elim (earliest_attained first rs) [
    | inl same ↦ inl same
    | inr later ↦ inr (started_later (earliest first rs) q rs later)
  ])
]

pub first_lem :
    (rs : List Result)
    → 0 < length rs
    → (first : ℕ) × (first_start_time rs ≡ some first) × StartedSince first rs × StartedAt first rs
unfolding first_start_time
first_lem [] h = absurd (omega (arith, h))
first_lem (r ∷ rs) h =
    let first = earliest r.start_time rs in
    let (below, all) = earliest_lem r.start_time rs in
    (
      first,
      refl,
      (omega (arith, below), all),
      elim (earliest_attained r.start_time rs) [
        | inl same ↦ (0, r, refl, sym same)
        | inr later ↦ started_later first r rs later
      ],
    )
