-- ===== src/BlockingQueue/Notify.antt =====
-- include/cpp_playground/concurrency/mpsc_blocking_queue.hpp: the steps that wake threads.
use cpp_playground.BlockingQueue.{
  Operation, Point, locking, testing, waiting, acting, notifying, Thread, idle, inside, System,
  silent, hears, set_thread, wake, advance,
}
use cpp_playground.BlockingQueue.Waiting.{
  Accounted, set-Moved, starting-Accounted, waking-Accounted, unheard-Accounted, heard-Accounted,
}
use cpp_playground.BlockingQueue.Monitor.{Exclusive, Ready, Sound, Exclusive-set, Ready-set}
use cpp_playground.BlockingQueue.Steps.{
  Stepped, nothing, hears_cases, locking_lem, testing_lem, acting_lem,
}
use mathlib.Core.Path.{subst}
use cpp_playground.Prelude.{
  refl, none, some, inl, inr, List, Option, ℕ, ◌≡◌, ◌≢◌, ap, append-nil, true, length, sym, ◌∙◌,
  ◌≤◌, arith, object_at, set, ==-cases, Bool, get_or-set_ne, false, total,
}

module _ {ℓ} {T : Type ℓ} where
  -- A thread that wakes up waits for the mutex.
  abbrev pub woken : ℕ → Operation T → System T → System T
  woken j op s = record s { threads = set s.threads j (some (inside op locking)) }

  pub wake-waiting :
      (s : System T) (j : ℕ) (op : Operation T)
      → object_at s.threads j ≡ some (inside op waiting)
      → wake j s ≡ woken j op s
  unfolding wake set_thread
  wake-waiting s j op e = simp (wake, e) refl

  woken-Exclusive :
      (s : System T) (j : ℕ) (op : Operation T)
      → Sound s
      → object_at s.threads j ≡ some (inside op waiting)
      → Exclusive (woken j op s).threads s.m_mutex
  woken-Exclusive s j op sound e =
      Exclusive-set s.threads j (inside op waiting) (inside op locking) e s.m_mutex s.m_mutex
        (λ q. absurd (ground arith)) (λ k n q. q) sound.exclusive

  woken-Ready :
      (s : System T) (j : ℕ) (op : Operation T)
      → Sound s
      → object_at s.threads j ≡ some (inside op waiting)
      → Ready (woken j op s).threads s.m_queue s.m_capacity
  woken-Ready s j op sound e =
      Ready-set s.threads j (inside op waiting) (inside op locking) e s.m_queue s.m_capacity refl
        (λ k n. sound.ready k)

  -- A notifying thread is done: its call returns.
  done-Sound :
      (s : System T) (i : ℕ) (op : Operation T)
      → Exclusive s.threads s.m_mutex
      → Ready s.threads s.m_queue s.m_capacity
      → length s.m_queue ≤ s.m_capacity
      → object_at s.threads i ≡ some (inside op notifying)
      → Accounted (length s.m_queue) s.m_capacity (set s.threads i (some idle))
      → Sound (record s { threads = set s.threads i (some idle) })
  done-Sound s i op exclusive ready fits e accounted = record {
    exclusive =
        Exclusive-set s.threads i (inside op notifying) idle e s.m_mutex s.m_mutex
          (λ q. absurd (ground arith)) (λ k n q. q) exclusive;
    ready =
        Ready-set s.threads i (inside op notifying) idle e s.m_queue s.m_capacity refl
          (λ k n. ready k);
    fits = fits;
    accounted = accounted;
  }

  apart :
      (ts : List (Option (Thread T))) (i j : ℕ) (op op' : Operation T)
      → object_at ts i ≡ some (inside op notifying)
      → object_at ts j ≡ some (inside op' waiting)
      → j ≢ i
  apart ts i j op op' e e' q =
      let waits : Option (Thread T) → Bool =
        λ o. elim o [ some (inside x waiting) ↦ true | _ ↦ false ] in
      let both : true ≡ false =
        sym (ap waits e') ∙ ap (λ k. waits (object_at ts k)) q ∙ ap waits e in
      absurd (ground arith)

  heard_lem :
      (s : System T) (i j : ℕ) (op op' : Operation T)
      → Sound s
      → object_at s.threads i ≡ some (inside op notifying)
      → object_at s.threads j ≡ some (inside op' waiting)
      → hears op (some (inside op' waiting)) ≢ 0
      → Sound (record (woken j op' s) { threads = set (woken j op' s).threads i (some idle) })
  heard_lem s i j op op' sound e e' n =
      let ts1 = (woken j op' s).threads in
      let there =
        get_or-set_ne s.threads j i (some (inside op' locking)) none
          (apart s.threads i j op op' e e')
        ∙ e in
      done-Sound (woken j op' s) i op (woken-Exclusive s j op' sound e')
        (woken-Ready s j op' sound e') sound.fits there
        (heard-Accounted (length s.m_queue) s.m_capacity s.threads ts1 (set ts1 i (some idle)) op
          op' n sound.accounted (set-Moved s.threads j (inside op' waiting) (inside op' locking) e')
          (set-Moved ts1 i (inside op notifying) idle there))

  notifying_lem :
      (s : System T) (i j : ℕ) (op : Operation T)
      → Sound s
      → object_at s.threads i ≡ some (inside op notifying)
      → Stepped s (advance i j op notifying s)
  unfolding advance set_thread
  notifying_lem s i j op sound e = elim (==-cases (total (hears op) s.threads) 0) [
    | inl (nobody, t) ↦ (
      silent,
      record s { threads = set s.threads i (some idle) },
      rw t refl,
      done-Sound s i op sound.exclusive sound.ready sound.fits e (
          unheard-Accounted (length s.m_queue) s.m_capacity s.threads (set s.threads i (some idle))
            op nobody sound.accounted (set-Moved s.threads i (inside op notifying) idle e)),
      append-nil s.m_queue,
      refl,
    )
    | inr (_, t) ↦ elim (==-cases (hears op (object_at s.threads j)) 0) [
      | inl (_, t') ↦ nothing s (advance i j op notifying s) (rw (t, t') refl) sound
      | inr (n, t') ↦
          let (op', e') = hears_cases op (object_at s.threads j) n in
          (
            silent,
            record (woken j op' s) { threads = set (woken j op' s).threads i (some idle) },
            rw (t, t') (ap (λ w. some (silent, set_thread i idle w)) (wake-waiting s j op' e')),
            heard_lem s i j op op' sound e e' (subst (λ o. hears op o ≢ 0) e' n),
            append-nil s.m_queue,
            refl,
          )
    ]
  ]

  pub advance_lem :
      (s : System T) (i j : ℕ) (op : Operation T) (point : Point)
      → Sound s
      → object_at s.threads i ≡ some (inside op point)
      → Stepped s (advance i j op point s)
  unfolding advance
  advance_lem s i j op locking sound e = locking_lem s i j op sound e
  advance_lem s i j op testing sound e = testing_lem s i j op sound e
  advance_lem s i j op waiting sound e = nothing s (advance i j op waiting s) refl sound
  advance_lem s i j op acting sound e = acting_lem s i j op sound e
  advance_lem s i j op notifying sound e = notifying_lem s i j op sound e

  pub starting_lem :
      (s : System T) (i : ℕ) (op : Operation T)
      → Sound s
      → object_at s.threads i ≡ some idle
      → Stepped s (some (silent, set_thread i (inside op locking) s))
  unfolding set_thread
  starting_lem s i op sound e = (
    silent,
    record s { threads = set s.threads i (some (inside op locking)) },
    refl,
    record {
      exclusive =
          Exclusive-set s.threads i idle (inside op locking) e s.m_mutex s.m_mutex
            (λ q. absurd (ground arith)) (λ k n q. q) sound.exclusive;
      ready =
          Ready-set s.threads i idle (inside op locking) e s.m_queue s.m_capacity refl
            (λ k n. sound.ready k);
      fits = sound.fits;
      accounted =
          starting-Accounted (length s.m_queue) s.m_capacity s.threads
            (set s.threads i (some (inside op locking))) op sound.accounted
            (set-Moved s.threads i idle (inside op locking) e);
    },
    append-nil s.m_queue,
    refl,
  )

  pub woken_lem :
      (s : System T) (i : ℕ) (op : Operation T)
      → Sound s
      → object_at s.threads i ≡ some (inside op waiting)
      → Sound (woken i op s)
  woken_lem s i op sound e = record {
    exclusive = woken-Exclusive s i op sound e;
    ready = woken-Ready s i op sound e;
    fits = sound.fits;
    accounted =
        waking-Accounted (length s.m_queue) s.m_capacity s.threads (woken i op s).threads op
          sound.accounted (set-Moved s.threads i (inside op waiting) (inside op locking) e);
  }
