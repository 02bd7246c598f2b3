-- ===== src/BlockingQueue/Waiting.antt =====
-- include/cpp_playground/concurrency/mpsc_blocking_queue.hpp: why no waiting thread is forgotten.
-- The threads are counted by where they are.
use cpp_playground.BlockingQueue.{
  may_proceed, Operation, pushing, popping, Point, locking, testing, waiting, acting, notifying,
  Thread, idle, inside, sleeping_popper, sleeping_pusher, hears,
}
use cpp_playground.Prelude.{
  refl, some, List, Option, ℕ, arith, object_at, ◌+◌, ◌<◌, total, ◌≡◌, set, ◌≤◌, total-set, length,
  ◌≢◌, false,
}

-- Awake: on the way to a change of the queue.
abbrev pub awake_at : Point → ℕ
awake_at locking = 1
awake_at testing = 1
awake_at acting = 1
awake_at waiting = 0
awake_at notifying = 0

abbrev pub notifying_at : Point → ℕ
notifying_at notifying = 1
notifying_at _ = 0

module _ {ℓ} {T : Type ℓ} where
  abbrev pub awake_pusher : Option (Thread T) → ℕ
  awake_pusher (some (inside (pushing value) point)) = awake_at point
  awake_pusher _ = 0

  abbrev pub awake_popper : Option (Thread T) → ℕ
  awake_popper (some (inside popping point)) = awake_at point
  awake_popper _ = 0

  abbrev pub notifying_pusher : Option (Thread T) → ℕ
  notifying_pusher (some (inside (pushing value) point)) = notifying_at point
  notifying_pusher _ = 0

  abbrev pub notifying_popper : Option (Thread T) → ℕ
  notifying_popper (some (inside popping point)) = notifying_at point
  notifying_popper _ = 0

  -- A thread changes from `x` to `y`: how the counts change.
  pub record Moved (x y : Thread T) (ts ts' : List (Option (Thread T))) : Type 0 where
    pub sleeping_pushers :
        sleeping_pusher (some x) + total sleeping_pusher ts'
        ≡ total sleeping_pusher ts + sleeping_pusher (some y)
    pub sleeping_poppers :
        sleeping_popper (some x) + total sleeping_popper ts'
        ≡ total sleeping_popper ts + sleeping_popper (some y)
    pub awake_pushers :
        awake_pusher (some x) + total awake_pusher ts'
        ≡ total awake_pusher ts + awake_pusher (some y)
    pub awake_poppers :
        awake_popper (some x) + total awake_popper ts'
        ≡ total awake_popper ts + awake_popper (some y)
    pub notifying_pushers :
        notifying_pusher (some x) + total notifying_pusher ts'
        ≡ total notifying_pusher ts + notifying_pusher (some y)
    pub notifying_poppers :
        notifying_popper (some x) + total notifying_popper ts'
        ≡ total notifying_popper ts + notifying_popper (some y)

  pub set-Moved :
      (ts : List (Option (Thread T))) (i : ℕ) (x y : Thread T)
      → object_at ts i ≡ some x
      → Moved x y ts (set ts i (some y))
  set-Moved ts i x y e = record {
    sleeping_pushers = total-set sleeping_pusher ts i x (some y) e;
    sleeping_poppers = total-set sleeping_popper ts i x (some y) e;
    awake_pushers = total-set awake_pusher ts i x (some y) e;
    awake_poppers = total-set awake_popper ts i x (some y) e;
    notifying_pushers = total-set notifying_pusher ts i x (some y) e;
    notifying_poppers = total-set notifying_popper ts i x (some y) e;
  }

  -- While a pusher sleeps, each free slot has a thread that is about to notify a pusher, or a
  -- pusher that is awake; while a popper sleeps, so has each value in the queue.
  pub record Accounted (size capacity : ℕ) (ts : List (Option (Thread T))) : Type 0 where
    pub pushers :
        0 < total sleeping_pusher ts
        → capacity ≤ size + total notifying_popper ts + total awake_pusher ts
    pub poppers :
        0 < total sleeping_popper ts → size ≤ total notifying_pusher ts + total awake_popper ts

  module _ (size capacity : ℕ) (ts ts' : List (Option (Thread T))) where
    pub starting-Accounted :
        (op : Operation T)
        → Accounted size capacity ts
        → Moved (idle) (inside op locking) ts ts'
        → Accounted size capacity ts'
    starting-Accounted (pushing value) a m = record {
      pushers = λ w. omega (arith, a.pushers);
      poppers = λ w. omega (arith, a.poppers);
    }
    starting-Accounted popping a m = record {
      pushers = λ w. omega (arith, a.pushers);
      poppers = λ w. omega (arith, a.poppers);
    }

    pub locking-Accounted :
        (op : Operation T)
        → Accounted size capacity ts
        → Moved (inside op locking) (inside op testing) ts ts'
        → Accounted size capacity ts'
    locking-Accounted (pushing value) a m = record {
      pushers = λ w. omega (arith, a.pushers);
      poppers = λ w. omega (arith, a.poppers);
    }
    locking-Accounted popping a m = record {
      pushers = λ w. omega (arith, a.pushers);
      poppers = λ w. omega (arith, a.poppers);
    }

    pub proceeding-Accounted :
        (op : Operation T)
        → Accounted size capacity ts
        → Moved (inside op testing) (inside op acting) ts ts'
        → Accounted size capacity ts'
    proceeding-Accounted (pushing value) a m = record {
      pushers = λ w. omega (arith, a.pushers);
      poppers = λ w. omega (arith, a.poppers);
    }
    proceeding-Accounted popping a m = record {
      pushers = λ w. omega (arith, a.pushers);
      poppers = λ w. omega (arith, a.poppers);
    }

    pub waking-Accounted :
        (op : Operation T)
        → Accounted size capacity ts
        → Moved (inside op waiting) (inside op locking) ts ts'
        → Accounted size capacity ts'
    waking-Accounted (pushing value) a m = record {
      pushers = λ w. omega (arith, a.pushers);
      poppers = λ w. omega (arith, a.poppers);
    }
    waking-Accounted popping a m = record {
      pushers = λ w. omega (arith, a.pushers);
      poppers = λ w. omega (arith, a.poppers);
    }

    pub sleeping-Accounted :
        (op : Operation T) (queue : List T)
        → length queue ≡ size
        → may_proceed op queue capacity ≡ false
        → Accounted size capacity ts
        → Moved (inside op testing) (inside op waiting) ts ts'
        → Accounted size capacity ts'
    unfolding may_proceed
    sleeping-Accounted (pushing value) queue e stays a m =
        let full : capacity ≤ size = ground arith in
        record { pushers = λ w. omega (arith, a.pushers); poppers = λ w. omega (arith, a.poppers) }
    sleeping-Accounted popping queue e stays a m =
        let empty : size ≡ 0 = ground arith in
        record { pushers = λ w. omega (arith, a.pushers); poppers = λ w. omega (arith, a.poppers) }

    pub pushing-Accounted :
        (value : T)
        → Accounted size capacity ts
        → Moved (inside (pushing value) acting) (inside (pushing value) notifying) ts ts'
        → Accounted (size + 1) capacity ts'
    pushing-Accounted value a m = record {
      pushers = λ w. omega (arith, a.pushers);
      poppers = λ w. omega (arith, a.poppers);
    }

    pub popping-Accounted :
        Accounted (size + 1) capacity ts
        → Moved (inside popping acting) (inside popping notifying) ts ts'
        → Accounted size capacity ts'
    popping-Accounted a m = record {
      pushers = λ w. omega (arith, a.pushers);
      poppers = λ w. omega (arith, a.poppers);
    }

    -- A notification that nobody hears.
    pub unheard-Accounted :
        (op : Operation T)
        → total (hears op) ts ≡ 0
        → Accounted size capacity ts
        → Moved (inside op notifying) idle ts ts'
        → Accounted size capacity ts'
    unheard-Accounted (pushing value) nobody a m = record {
      pushers = λ w. omega (arith, a.pushers);
      poppers = λ w. omega (arith, a.poppers);
    }
    unheard-Accounted popping nobody a m = record {
      pushers = λ w. omega (arith, a.pushers);
      poppers = λ w. omega (arith, a.poppers);
    }

  -- A notification that wakes a thread.
  pub heard-Accounted :
      (size capacity : ℕ) (ts ts1 ts2 : List (Option (Thread T))) (op op' : Operation T)
      → hears op (some (inside op' waiting)) ≢ 0
      → Accounted size capacity ts
      → Moved (inside op' waiting) (inside op' locking) ts ts1
      → Moved (inside op notifying) idle ts1 ts2
      → Accounted size capacity ts2
  heard-Accounted size capacity ts ts1 ts2 (pushing v) (pushing w) n a m m' = absurd (n refl)
  heard-Accounted size capacity ts ts1 ts2 (pushing v) popping n a m m' = record {
    pushers = λ w. omega (arith, a.pushers);
    poppers = λ w. omega (arith, a.poppers);
  }
  heard-Accounted size capacity ts ts1 ts2 popping (pushing w) n a m m' = record {
    pushers = λ w. omega (arith, a.pushers);
    poppers = λ w. omega (arith, a.poppers);
  }
  heard-Accounted size capacity ts ts1 ts2 popping popping n a m m' = absurd (n refl)
