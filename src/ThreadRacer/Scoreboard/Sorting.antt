-- ===== src/ThreadRacer/Scoreboard/Sorting.antt =====
-- src/thread_racer.cpp, `std::ranges::sort` by time: a sort that permutes and orders.
use cpp_playground.Prelude.{
  [], ◌∷◌, refl, inl, inr, List, ℕ, if◌then◌else◌, ltb-cases, total, ◌≤◌, arith, ltb, ◌≡◌, ◌+◌,
}
use cpp_playground.ThreadRacer.Scoreboard.{Result, Ascending, none_left, one_left, follows}
use cpp_playground.ThreadRacer.Scoreboard.Report.{IsSort}

abbrev insert_by_time : Result → List Result → List Result
insert_by_time r [] = r ∷ []
insert_by_time r (q ∷ qs) =
    let later = insert_by_time r qs in if ltb q.time r.time then q ∷ later else r ∷ q ∷ qs

abbrev pub sort_by_time : List Result → List Result
sort_by_time [] = []
sort_by_time (r ∷ rs) = insert_by_time r (sort_by_time rs)

insert_by_time-total :
    (weight : Result → ℕ) (r : Result) (qs : List Result)
    → total weight (insert_by_time r qs) ≡ weight r + total weight qs
insert_by_time-total weight r [] = refl
insert_by_time-total weight r (q ∷ qs) = elim (ltb-cases q.time r.time) [
  | inl (less, t) ↦ rw t (omega (arith, insert_by_time-total weight r qs))
  | inr (more, t) ↦ rw t refl
]

behind-Ascending :
    (r q : Result) (qs : List Result)
    → q.time ≤ r.time
    → Ascending (q ∷ qs)
    → Ascending (q ∷ insert_by_time r qs)
behind-Ascending r q [] h up = follows q r [] h (one_left r)
behind-Ascending r q (p ∷ ps) h (follows _ _ _ below up) = elim (ltb-cases p.time r.time) [
  | inl (less, t) ↦
      rw t
        (follows q p (insert_by_time r ps) below (behind-Ascending r p ps (omega (arith, less)) up))
  | inr (more, t) ↦ rw t (follows q r (p ∷ ps) h (follows r p ps more up))
]

insert_by_time-Ascending :
    (r : Result) (qs : List Result) → Ascending qs → Ascending (insert_by_time r qs)
insert_by_time-Ascending r [] up = one_left r
insert_by_time-Ascending r (q ∷ qs) up = elim (ltb-cases q.time r.time) [
  | inl (less, t) ↦ rw t (behind-Ascending r q qs (omega (arith, less)) up)
  | inr (more, t) ↦ rw t (follows r q qs more up)
]

sort_by_time-total :
    (weight : Result → ℕ) (rs : List Result) → total weight (sort_by_time rs) ≡ total weight rs
sort_by_time-total weight [] = refl
sort_by_time-total weight (r ∷ rs) =
    omega (arith, insert_by_time-total weight r (sort_by_time rs), sort_by_time-total weight rs)

sort_by_time-Ascending : (rs : List Result) → Ascending (sort_by_time rs)
sort_by_time-Ascending [] = none_left
sort_by_time-Ascending (r ∷ rs) =
    insert_by_time-Ascending r (sort_by_time rs) (sort_by_time-Ascending rs)

pub sort_by_time-IsSort : IsSort sort_by_time
sort_by_time-IsSort = record { same_items = sort_by_time-total; ascending = sort_by_time-Ascending }
