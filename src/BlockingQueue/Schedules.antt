-- ===== src/BlockingQueue/Schedules.antt =====
-- include/cpp_playground/concurrency/mpsc_blocking_queue.hpp: all schedules of any threads.
use cpp_playground.BlockingQueue.{
  Operation, pushing, popping, Point, locking, testing, waiting, acting, notifying, Thread, idle,
  inside, System, Event, silent, Turn, starting, stepping, waking, sleeping_pusher, sleeping_popper,
  wake, step, run, construct, may_proceed,
}
use cpp_playground.BlockingQueue.Waiting.{
  awake_pusher, awake_popper, notifying_pusher, notifying_popper,
}
use cpp_playground.BlockingQueue.Monitor.{has_mutex, Sound}
use cpp_playground.BlockingQueue.Steps.{accepts, receives, Stepped, nothing}
use cpp_playground.BlockingQueue.Notify.{woken, wake-waiting, advance_lem, starting_lem, woken_lem}
use mathlib.Core.Path.{subst}
use cpp_playground.Prelude.{
  [], ◌∷◌, refl, zero, suc, none, some, inl, inr, List, Option, object_at, ℕ, false, replicate,
  ◌++◌, ◌≡◌, ap, append-nil, length, total, true, ◌⊎◌, arith, sym, ◌≤◌, append_assoc, ◌∙◌, Bool,
  total_zero, total-set, not_lt→ltb, eq→==,
}

module _ {ℓ} {T : Type ℓ} where
  -- What there is at an index of the threads.
  thread_cases :
      (o : Option (Thread T))
      → (o ≡ none)
        ⊎ (o ≡ some idle)
        ⊎ ((op : Operation T) × (point : Point) × (o ≡ some (inside op point)))
  thread_cases none = inl refl
  thread_cases (some idle) = inr (inl refl)
  thread_cases (some (inside op point)) = inr (inr (op, point, refl))

  stirring :
      (s : System T) (i : ℕ) (op : Operation T) (point : Point)
      → Sound s
      → object_at s.threads i ≡ some (inside op point)
      → Stepped s (some (silent, wake i s))
  unfolding wake
  stirring s i op waiting sound e = (
    silent,
    woken i op s,
    ap (λ w. some (silent, w)) (wake-waiting s i op e),
    woken_lem s i op sound e,
    append-nil s.m_queue,
    refl,
  )
  stirring s i op locking sound e = nothing s (some (silent, wake i s)) (simp (wake, e) refl) sound
  stirring s i op testing sound e = nothing s (some (silent, wake i s)) (simp (wake, e) refl) sound
  stirring s i op acting sound e = nothing s (some (silent, wake i s)) (simp (wake, e) refl) sound
  stirring s i op notifying sound e =
      nothing s (some (silent, wake i s)) (simp (wake, e) refl) sound

  step_lem : (t : Turn T) (s : System T) → Sound s → Stepped s (step t s)
  unfolding step wake
  step_lem (starting i op) s sound = elim (thread_cases (object_at s.threads i)) [
    | inl e ↦ nothing s (step (starting i op) s) (simp (step, e) refl) sound
    | inr (inl e) ↦ simp (step, e) (starting_lem s i op sound e)
    | inr (inr (op', point, e)) ↦ nothing s (step (starting i op) s) (simp (step, e) refl) sound
  ]
  step_lem (stepping i j) s sound = elim (thread_cases (object_at s.threads i)) [
    | inl e ↦ nothing s (step (stepping i j) s) (simp (step, e) refl) sound
    | inr (inl e) ↦ nothing s (step (stepping i j) s) (simp (step, e) refl) sound
    | inr (inr (op, point, e)) ↦ simp (step, e) (advance_lem s i j op point sound e)
  ]
  step_lem (waking i) s sound = elim (thread_cases (object_at s.threads i)) [
    | inl e ↦ nothing s (step (waking i) s) (simp (step, wake, e) refl) sound
    | inr (inl e) ↦ nothing s (step (waking i) s) (simp (step, wake, e) refl) sound
    | inr (inr (op, point, e)) ↦ stirring s i op point sound e
  ]

  abbrev pub all_accepted : List (Event T) → List T
  all_accepted [] = []
  all_accepted (e ∷ es) = accepts e ++ all_accepted es

  abbrev pub all_received : List (Event T) → List T
  all_received [] = []
  all_received (e ∷ es) = receives e ++ all_received es

  run_lem :
      (ts : List (Turn T)) (s : System T)
      → Sound s
      → (es : List (Event T)) × (s' : System T) × (run ts s ≡ some (es, s'))
        × Sound s'
        × (s.m_queue ++ all_accepted es ≡ all_received es ++ s'.m_queue)
        × (s'.m_capacity ≡ s.m_capacity)
  unfolding run
  run_lem [] s sound = ([], s, refl, sound, append-nil s.m_queue, refl)
  run_lem (t ∷ ts) s sound =
      let (e, s1, ran, sound1, law, same) = step_lem t s sound in
      let (es, s2, ran2, sound2, law2, same2) = run_lem ts s1 sound1 in
      (
        e ∷ es,
        s2,
        rw (run, ran, ran2) refl,
        sound2,
        sym (append_assoc s.m_queue (accepts e) (all_accepted es))
            ∙ ap (λ xs. xs ++ all_accepted es) law
            ∙ append_assoc (receives e) s1.m_queue (all_accepted es)
            ∙ ap (λ xs. receives e ++ xs) law2
            ∙ sym (append_assoc (receives e) (all_received es) s2.m_queue),
        same2 ∙ same,
      )

  abbrev resting : Option (Thread T)
  resting = some idle

  idle_threads :
      (n i : ℕ)
      → (object_at (replicate n resting) i ≡ none) ⊎ (object_at (replicate n resting) i ≡ resting)
  idle_threads zero i = inl refl
  idle_threads (suc n) zero = inr refl
  idle_threads (suc n) (suc i) = idle_threads n i

  total-replicate :
      (f : Option (Thread T) → ℕ) (n : ℕ) → f resting ≡ 0 → total f (replicate n resting) ≡ 0
  total-replicate f zero z = refl
  total-replicate f (suc n) z = omega (arith, total-replicate f n z, z)

  construct-Sound : (n capacity : ℕ) → Sound (construct {T = T} n capacity)
  unfolding construct
  construct-Sound n capacity = record {
    exclusive = λ i h. elim (idle_threads n i) [
      | inl e ↦ let never : false ≡ true = sym (ap has_mutex e) ∙ h in absurd (ground arith)
      | inr e ↦ let never : false ≡ true = sym (ap has_mutex e) ∙ h in absurd (ground arith)
    ];
    ready = λ i. elim (idle_threads n i) [ inl e ↦ rw e refl | inr e ↦ rw e refl ];
    fits = omega arith;
    accounted = record {
      pushers = λ w. omega (arith, total-replicate sleeping_pusher n refl);
      poppers = λ w. omega (arith, total-replicate sleeping_popper n refl);
    };
  }

  -- From the constructed queue, for any number of threads, every capacity and every schedule of
  -- their calls, with spurious wake-ups: no step has undefined behaviour, the queue never holds
  -- more than the capacity, and the values that went in are those that came out and those that
  -- the queue still holds, in this order.
  pub blocking_run_lem :
      (threads capacity : ℕ) (ts : List (Turn T))
      → (es : List (Event T)) × (s : System T) × (run ts (construct threads capacity)
          ≡ some (es, s))
        × (all_accepted es ≡ all_received es ++ s.m_queue)
        × (length s.m_queue ≤ capacity)
  unfolding construct
  blocking_run_lem threads capacity ts =
      let (es, s, ran, sound, law, same) =
        run_lem ts (construct threads capacity) (construct-Sound threads capacity) in
      (es, s, ran, law, omega (arith, sound.fits, same))

  -- No thread is in the middle of a call, but those that sleep.
  abbrev pub settled : Option (Thread T) → Bool
  settled (some (inside op locking)) = false
  settled (some (inside op testing)) = false
  settled (some (inside op acting)) = false
  settled (some (inside op notifying)) = false
  settled _ = true

  settled_lem :
      (o : Option (Thread T))
      → settled o ≡ true
      → (awake_pusher o ≡ 0)
        × (awake_popper o ≡ 0)
        × (notifying_pusher o ≡ 0)
        × (notifying_popper o ≡ 0)
  settled_lem none e = (refl, refl, refl, refl)
  settled_lem (some idle) e = (refl, refl, refl, refl)
  settled_lem (some (inside (pushing v) waiting)) e = (refl, refl, refl, refl)
  settled_lem (some (inside popping waiting)) e = (refl, refl, refl, refl)
  settled_lem (some (inside op locking)) e = absurd (ground arith)
  settled_lem (some (inside op testing)) e = absurd (ground arith)
  settled_lem (some (inside op acting)) e = absurd (ground arith)
  settled_lem (some (inside op notifying)) e = absurd (ground arith)

  asleep :
      (s : System T) (j : ℕ) (op : Operation T)
      → Sound s
      → ((i : ℕ) → settled (object_at s.threads i) ≡ true)
      → object_at s.threads j ≡ some (inside op waiting)
      → may_proceed op s.m_queue s.m_capacity ≡ false
  unfolding may_proceed
  asleep s j (pushing v) sound all e =
      let nobody =
        total_zero awake_pusher s.threads (λ i. (settled_lem (object_at s.threads i) (all i)).0) in
      let silence =
        total_zero notifying_popper s.threads
          (λ i. (settled_lem (object_at s.threads i) (all i)).3) in
      let here = total-set sleeping_pusher s.threads j (inside (pushing v) waiting) none e in
      not_lt→ltb (length s.m_queue) s.m_capacity
        (omega (arith, sound.accounted.pushers (omega (arith, here)), nobody, silence))
  asleep s j popping sound all e =
      let nobody =
        total_zero awake_popper s.threads (λ i. (settled_lem (object_at s.threads i) (all i)).1) in
      let silence =
        total_zero notifying_pusher s.threads
          (λ i. (settled_lem (object_at s.threads i) (all i)).2) in
      let here = total-set sleeping_popper s.threads j (inside popping waiting) none e in
      let empty : length s.m_queue ≡ 0 =
        omega (arith, sound.accounted.poppers (omega (arith, here)), nobody, silence) in
      rw (eq→== (length s.m_queue) 0 empty) refl

  -- No wake-up is lost: after every schedule from the constructed queue, if every thread that is
  -- inside a call sleeps, then each of them has to: `emplace` on a full queue, `pop` of an empty one.
  pub no_lost_wakeup :
      (threads capacity : ℕ) (ts : List (Turn T)) (es : List (Event T)) (s : System T) (j : ℕ)
      (op : Operation T)
      → run ts (construct threads capacity) ≡ some (es, s)
      → ((i : ℕ) → settled (object_at s.threads i) ≡ true)
      → object_at s.threads j ≡ some (inside op waiting)
      → may_proceed op s.m_queue capacity ≡ false
  unfolding construct
  no_lost_wakeup threads capacity ts es s j op ran all e =
      let (es', s', ran', sound, law, same) =
        run_lem ts (construct threads capacity) (construct-Sound threads capacity) in
      let final : Option (List (Event T) × System T) → System T =
        λ o. elim o [ none ↦ s | some (_, x) ↦ x ] in
      let agree : s' ≡ s = ap final (sym ran' ∙ ran) in
      let sound' = subst Sound agree sound in
      let same' : s.m_capacity ≡ capacity = sym (ap (λ x. x.m_capacity) agree) ∙ same in
      subst (λ c. may_proceed op s.m_queue c ≡ false) same' (asleep s j op sound' all e)
