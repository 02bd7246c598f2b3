-- ===== src/BlockingQueue/Steps.antt =====
-- include/cpp_playground/concurrency/mpsc_blocking_queue.hpp: each step is defined, keeps what
-- holds, and adds to the back of the queue or takes from its front.
use cpp_playground.BlockingQueue.{
  Operation, pushing, popping, locking, testing, waiting, acting, notifying, Thread, inside, System,
  Event, silent, accepted, received, may_proceed, change, hears, set_thread, advance,
}
use cpp_playground.BlockingQueue.Waiting.{
  Accounted, Moved, set-Moved, locking-Accounted, proceeding-Accounted, sleeping-Accounted,
  pushing-Accounted, popping-Accounted,
}
use cpp_playground.BlockingQueue.Monitor.{
  has_mutex, proceeds, Sound, Exclusive-set, Ready-set, others-Ready,
}
use mathlib.Core.Path.{subst}
use cpp_playground.Prelude.{
  [], ◌∷◌, refl, suc, none, some, inl, inr, List, Option, ℕ, ◌≡◌, ◌≢◌, ap, append-nil, true, ◌++◌,
  length, sym, ◌∙◌, ◌≤◌, ◌<◌, arith, ◌+◌, length-snoc, object_at, Bool-cases, Option-cases, set,
}

-- One thread has the mutex.
one_owner : (m : Option ℕ) (i k : ℕ) → i ≢ k → m ≡ some i → m ≡ some k → none ≡ some k
one_owner m i k n e e' = absurd (n (ap (λ o. elim o [ none ↦ i | some j ↦ j ]) (sym e ∙ e')))

module _ {ℓ} {T : Type ℓ} where
  abbrev pub accepts : Event T → List T
  accepts (accepted v) = v ∷ []
  accepts _ = []

  abbrev pub receives : Event T → List T
  receives (received v) = v ∷ []
  receives _ = []

  -- A step with a result.
  abbrev pub Stepped : System T → Option (Event T × System T) → Type ℓ
  Stepped s r =
      (e : Event T) × (s' : System T) × (r ≡ some (e, s'))
      × Sound s'
      × (s.m_queue ++ accepts e ≡ receives e ++ s'.m_queue)
      × (s'.m_capacity ≡ s.m_capacity)

  pub nothing :
      (s : System T) (r : Option (Event T × System T))
      → r ≡ some (silent, s)
      → Sound s
      → Stepped s r
  nothing s r e sound = (silent, s, e, sound, append-nil s.m_queue, refl)

  change_lem :
      (op : Operation T) (queue : List T) (capacity : ℕ)
      → may_proceed op queue capacity ≡ true
      → length queue ≤ capacity
      → (e : Event T) × (queue' : List T) × (change op queue ≡ some (e, queue'))
        × (queue ++ accepts e ≡ receives e ++ queue')
        × (length queue' ≤ capacity)
        × ((ts ts' : List (Option (Thread T)))
            → Accounted (length queue) capacity ts
            → Moved (inside op acting) (inside op notifying) ts ts'
            → Accounted (length queue') capacity ts')
  unfolding change may_proceed
  change_lem (pushing value) queue capacity t fits =
      let room : length queue < capacity = ground arith in
      let longer : length queue + 1 ≡ length (queue ++ value ∷ []) =
        omega (arith, length-snoc queue value) in
      (
        accepted value,
        queue ++ value ∷ [],
        refl,
        refl,
        omega (arith, longer),
        λ ts ts' a m.
            subst (λ n. Accounted n capacity ts') longer
              (pushing-Accounted (length queue) capacity ts ts' value a m),
      )
  change_lem popping [] capacity t fits = absurd (ground arith)
  change_lem popping (x ∷ queue) capacity t fits =
      let longer : suc (length queue) ≡ length queue + 1 = omega arith in
      (
        received x,
        queue,
        refl,
        ap (λ xs. x ∷ xs) (append-nil queue),
        omega arith,
        λ ts ts' a m.
            popping-Accounted (length queue) capacity ts ts'
              (subst (λ n. Accounted n capacity ts) longer a) m,
      )

  pub hears_cases :
      (op : Operation T) (o : Option (Thread T))
      → hears op o ≢ 0
      → (op' : Operation T) × (o ≡ some (inside op' waiting))
  hears_cases (pushing v) (some (inside popping waiting)) n = (popping, refl)
  hears_cases popping (some (inside (pushing v) waiting)) n = (pushing v, refl)
  hears_cases op o n = absurd (n refl)

  pub locking_lem :
      (s : System T) (i j : ℕ) (op : Operation T)
      → Sound s
      → object_at s.threads i ≡ some (inside op locking)
      → Stepped s (advance i j op locking s)
  unfolding advance set_thread
  locking_lem s i j op sound e = elim (Option-cases s.m_mutex) [
    | inr (k, taken) ↦ nothing s (advance i j op locking s) (simp (advance, taken) refl) sound
    | inl free ↦
        let x = inside op locking in
        let y = inside op testing in
        (
          silent,
          record s { threads = set s.threads i (some y); m_mutex = some i },
          rw (advance, free) refl,
          record {
            exclusive =
                Exclusive-set s.threads i x y e s.m_mutex (some i) (λ _. refl)
                  (λ k n q. let taken : none ≡ some k = sym free ∙ q in absurd (ground arith))
                  sound.exclusive;
            ready = Ready-set s.threads i x y e s.m_queue s.m_capacity refl (λ k n. sound.ready k);
            fits = sound.fits;
            accounted =
                locking-Accounted (length s.m_queue) s.m_capacity s.threads
                  (set s.threads i (some y)) op sound.accounted (set-Moved s.threads i x y e);
          },
          append-nil s.m_queue,
          refl,
        )
  ]

  pub testing_lem :
      (s : System T) (i j : ℕ) (op : Operation T)
      → Sound s
      → object_at s.threads i ≡ some (inside op testing)
      → Stepped s (advance i j op testing s)
  unfolding advance set_thread
  testing_lem s i j op sound e =
      let x = inside op testing in
      let mine = sound.exclusive i (ap has_mutex e) in
      elim (Bool-cases (may_proceed op s.m_queue s.m_capacity)) [
        | inl t ↦
            let y = inside op acting in
            (
              silent,
              record s { threads = set s.threads i (some y) },
              rw t refl,
              record {
                exclusive =
                    Exclusive-set s.threads i x y e s.m_mutex s.m_mutex (λ _. mine) (λ k n q. q)
                      sound.exclusive;
                ready = Ready-set s.threads i x y e s.m_queue s.m_capacity t (λ k n. sound.ready k);
                fits = sound.fits;
                accounted =
                    proceeding-Accounted (length s.m_queue) s.m_capacity s.threads
                      (set s.threads i (some y)) op sound.accounted (set-Moved s.threads i x y e);
              },
              append-nil s.m_queue,
              refl,
            )
        | inr t ↦
            let y = inside op waiting in
            (
              silent,
              record s { threads = set s.threads i (some y); m_mutex = none },
              rw t refl,
              record {
                exclusive =
                    Exclusive-set s.threads i x y e s.m_mutex none (λ q. absurd (ground arith))
                      (λ k n q. one_owner s.m_mutex i k n mine q) sound.exclusive;
                ready =
                    Ready-set s.threads i x y e s.m_queue s.m_capacity refl (λ k n. sound.ready k);
                fits = sound.fits;
                accounted =
                    sleeping-Accounted (length s.m_queue) s.m_capacity s.threads
                      (set s.threads i (some y)) op s.m_queue refl t sound.accounted
                      (set-Moved s.threads i x y e);
              },
              append-nil s.m_queue,
              refl,
            )
      ]

  pub acting_lem :
      (s : System T) (i j : ℕ) (op : Operation T)
      → Sound s
      → object_at s.threads i ≡ some (inside op acting)
      → Stepped s (advance i j op acting s)
  unfolding advance set_thread
  acting_lem s i j op sound e =
      let x = inside op acting in
      let y = inside op notifying in
      let mine = sound.exclusive i (ap has_mutex e) in
      let holds : may_proceed op s.m_queue s.m_capacity ≡ true =
        sym (ap (λ o. proceeds o s.m_queue s.m_capacity) e) ∙ sound.ready i in
      let (event, queue, changed, law, fits, counts) =
        change_lem op s.m_queue s.m_capacity holds sound.fits in
      (
        event,
        record s { threads = set s.threads i (some y); m_queue = queue; m_mutex = none },
        rw (changed, advance) refl,
        record {
          exclusive =
              Exclusive-set s.threads i x y e s.m_mutex none (λ q. absurd (ground arith))
                (λ k n q. one_owner s.m_mutex i k n mine q) sound.exclusive;
          ready =
              Ready-set s.threads i x y e queue s.m_capacity refl
                (others-Ready s.threads i x y e queue s.m_mutex s.m_capacity sound.exclusive refl);
          fits = fits;
          accounted =
              counts s.threads (set s.threads i (some y)) sound.accounted
                (set-Moved s.threads i x y e);
        },
        law,
        refl,
      )
