-- ===== src/BlockingQueue/Monitor.antt =====
-- include/cpp_playground/concurrency/mpsc_blocking_queue.hpp: what holds of the mutex, the queue and
-- the threads, and that each step keeps it.
use cpp_playground.BlockingQueue.{
  locking, testing, waiting, acting, notifying, Thread, idle, inside, System, may_proceed,
}
use cpp_playground.BlockingQueue.Waiting.{Accounted}
use mathlib.Core.Path.{subst}
use cpp_playground.Prelude.{
  refl, none, some, inl, inr, Bool, List, Option, length, ℕ, ◌≡◌, object_at, true, ◌≤◌, false, ◌≢◌,
  set, object_at-set, sym, ◌∙◌, Bool-cases, ap, arith,
}

module _ {ℓ} {T : Type ℓ} where
  -- Whether a thread is where it has locked the mutex.
  abbrev pub has_mutex : Option (Thread T) → Bool
  has_mutex (some (inside op testing)) = true
  has_mutex (some (inside op acting)) = true
  has_mutex _ = false

  -- Whether the predicate holds, for a thread that is about to change the queue.
  abbrev pub proceeds : Option (Thread T) → List T → ℕ → Bool
  proceeds (some (inside op acting)) queue capacity = may_proceed op queue capacity
  proceeds _ queue capacity = true

  abbrev pub Exclusive : List (Option (Thread T)) → Option ℕ → Type 0
  Exclusive ts m = (i : ℕ) → has_mutex (object_at ts i) ≡ true → m ≡ some i

  abbrev pub Ready : List (Option (Thread T)) → List T → ℕ → Type 0
  Ready ts queue capacity = (i : ℕ) → proceeds (object_at ts i) queue capacity ≡ true

  pub record Sound (s : System T) : Type 0 where
    pub exclusive : Exclusive s.threads s.m_mutex
    pub ready : Ready s.threads s.m_queue s.m_capacity
    pub fits : length s.m_queue ≤ s.m_capacity
    pub accounted : Accounted (length s.m_queue) s.m_capacity s.threads

  outside-proceeds :
      (o : Option (Thread T)) (queue : List T) (capacity : ℕ)
      → has_mutex o ≡ false
      → proceeds o queue capacity ≡ true
  outside-proceeds none queue capacity e = refl
  outside-proceeds (some idle) queue capacity e = refl
  outside-proceeds (some (inside op locking)) queue capacity e = refl
  outside-proceeds (some (inside op testing)) queue capacity e = refl
  outside-proceeds (some (inside op waiting)) queue capacity e = refl
  outside-proceeds (some (inside op acting)) queue capacity e = absurd (ground arith)
  outside-proceeds (some (inside op notifying)) queue capacity e = refl

  module _ (ts : List (Option (Thread T))) (i : ℕ) (x y : Thread T)
      (e : object_at ts i ≡ some x) where
    pub Exclusive-set :
        (m m' : Option ℕ)
        → (has_mutex (some y) ≡ true → m' ≡ some i)
        → ((k : ℕ) → i ≢ k → m ≡ some k → m' ≡ some k)
        → Exclusive ts m
        → Exclusive (set ts i (some y)) m'
    Exclusive-set m m' mine other exclusive k at = elim (object_at-set ts i x (some y) k e) [
      | inl (q, there, _) ↦ subst (λ j. m' ≡ some j) q (mine (sym (ap has_mutex there) ∙ at))
      | inr (n, same) ↦ other k n (exclusive k (sym (ap has_mutex same) ∙ at))
    ]

    pub Ready-set :
        (queue : List T) (capacity : ℕ)
        → proceeds (some y) queue capacity ≡ true
        → ((k : ℕ) → i ≢ k → proceeds (object_at ts k) queue capacity ≡ true)
        → Ready (set ts i (some y)) queue capacity
    Ready-set queue capacity mine other k = elim (object_at-set ts i x (some y) k e) [
      | inl (q, there, _) ↦ rw there mine
      | inr (n, same) ↦ rw same (other k n)
    ]

    -- While this thread has the mutex, no other thread changes the queue.
    pub others-Ready :
        (queue' : List T) (m : Option ℕ) (capacity : ℕ)
        → Exclusive ts m
        → has_mutex (some x) ≡ true
        → (k : ℕ) → i ≢ k
        → proceeds (object_at ts k) queue' capacity ≡ true
    others-Ready queue' m capacity exclusive mine k n =
        elim (Bool-cases (has_mutex (object_at ts k))) [
          | inl t ↦
              let both : some i ≡ some k =
                sym (exclusive i (ap has_mutex e ∙ mine)) ∙ exclusive k t in
              absurd (n (ap (λ o. elim o [ none ↦ i | some j ↦ j ]) both))
          | inr t ↦ outside-proceeds (object_at ts k) queue' capacity t
        ]
